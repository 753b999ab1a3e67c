-- ===== src/Master/Tool.antt =====
-- The command line of src/master/ul_ecat_master.c, `ul_ecat_app_execute`, which is the program
-- tools/ul_ecat_tool.c. Its messages have no counterpart.
pub mod Sockets
pub mod Unscanned
use ul_ecat.Common.{
  ℕ, zero, suc, ◌+◌, List, [], ◌∷◌, ◌++◌, Option, none, some, Bool, true, false, ltb, ◌==◌, ◌||◌,
  if◌then◌else◌, u8, u16, u32, length, take, drop, w32_le, codes, is_same, strtol, atoi,
}
use ul_ecat.Wire.Ethernet.{Mac}
use ul_ecat.Master.{Transport, Port}
use ul_ecat.Master.State.{request_slave_state}
use ul_ecat.Master.Sync.{fprd_sync, fpwr_sync}
use ul_ecat.Master.Scan.{Station, scan_network}
use ul_ecat.Master.Lifecycle.{Platform, Settings, Master, master_init, master_shutdown}
use ul_ecat.Master.Esi.{Listed, scan_slaves_with_esi}

abbrev pub mac_broadcast : Mac
mac_broadcast = record { b0 = 0xff; b1 = 0xff; b2 = 0xff; b3 = 0xff; b4 = 0xff; b5 = 0xff }

abbrev pub settings_for : List ℕ → Settings
settings_for iface = record {
  iface_name = iface;
  dst_mac = mac_broadcast;
  src_mac = record { b0 = 2; b1 = 0; b2 = 0; b3 = 0; b4 = 0; b5 = 1 };
  rt_priority = 50;
  dc_enable = false;
}

-- The world, the globals of the master and `g_slaves_db`.
pub record Process (W : Type 0) : Type 0 where
  pub world : W
  pub master : Master
  pub slaves_db : List Listed

-- What the commands need: the system, what the files hold, and what the buffers of a scan, of a
-- status word and of the command `read` hold before they are written.
pub record Host (W : Type 0) : Type 0 where
  pub platform : Platform W
  pub transport : Transport W
  pub files : List ℕ → Option (List ℕ)
  pub stack : List ℕ
  pub raw : List ℕ
  pub buf : List ℕ

unfoldable pub is_open : Option ℕ → Bool
is_open none = false
is_open (some s) = true

unfoldable pub port_of : Master → Port
port_of m = record { dst_mac = m.dst_mac; src_mac = m.src_mac; is_open = is_open m.sockfd }

-- `get_master_slaves`: the entries without their names, and with other states.
abbrev pub stations : List Listed → List Station
stations [] = []
stations (s ∷ db) = s.station ∷ stations db

abbrev pub unnamed : List Station → List Listed
unnamed [] = []
unnamed (st ∷ sts) = record { station = st; device_name = [] } ∷ unnamed sts

abbrev pub with_stations : List Listed → List Station → List Listed
with_stations (s ∷ db) (st ∷ sts) = record s { station = st } ∷ with_stations db sts
with_stations _ _ = []

abbrev pub nth : List (List ℕ) → ℕ → List ℕ
nth [] i = []
nth (arg ∷ args) zero = arg
nth (arg ∷ args) (suc i) = nth args i

-- The names before `null`, of which `files` takes 63.
unfoldable pub file_list : ℕ → List (List ℕ) → List (List ℕ)
file_list zero args = []
file_list (suc room) [] = []
file_list (suc room) (arg ∷ args) =
    let rest = file_list room args in if is_same arg (codes "null") then [] else arg ∷ rest

module _ {W : Type 0} (h : Host W) where
  -- `ul_ecat_master_shutdown(); return code;`
  unfoldable pub leave : Process W → ℕ → Process W × ℕ
  leave p code =
      let down = master_shutdown h.platform p.world p.master in
      (record p { world = down.0.0; master = down.0.1 }, code)

  unfoldable pub run_scan : Process W → Process W
  run_scan p =
      let r = scan_network h.transport (port_of p.master) p.world h.stack in
      record p { world = r.0; slaves_db = unnamed r.1 }

  unfoldable pub run_scan_esi : Process W → List (List ℕ) → Process W
  run_scan_esi p args = record p {
    slaves_db = scan_slaves_with_esi h.files (some (file_list 63 args)) p.slaves_db;
  }

  unfoldable pub run_slave_state : Process W → List ℕ → List ℕ → Process W
  run_slave_state p idx st =
      let r =
        request_slave_state h.transport (port_of p.master) p.world (stations p.slaves_db) (atoi idx)
          (atoi st) h.raw in
      record p { world = r.0; slaves_db = with_stations p.slaves_db r.1.0 }

  unfoldable pub run_read : Process W → ℕ → ℕ → ℕ → Process W
  run_read p adp ado ln = record p {
    world = (fprd_sync h.transport (port_of p.master) p.world adp ado ln h.buf 2000).0;
  }

  unfoldable pub run_write : Process W → ℕ → ℕ → ℕ → ℕ → Process W
  run_write p adp ado val sz = record p {
    world =
        (fpwr_sync h.transport (port_of p.master) p.world adp ado (take sz (w32_le val)) 2000).0;
  }

  read_command : Process W → List (List ℕ) → Process W × ℕ
  read_command p argv =
      let ln = u16 (strtol (nth argv 5) 0) in
      if ln == 0 || ltb 512 ln
      then leave p 1
      else leave (run_read p (u16 (strtol (nth argv 3) 16)) (u16 (strtol (nth argv 4) 16)) ln) 0

  -- The size is the seventh argument, or 4.
  size_of : List (List ℕ) → ℕ
  size_of argv = if ltb (length argv) 7 then 4 else u16 (strtol (nth argv 6) 0)

  write_command : Process W → List (List ℕ) → Process W × ℕ
  unfolding size_of
  write_command p argv =
      if size_of argv == 0 || ltb 4 (size_of argv)
      then leave p 1
      else leave
          (run_write p (u16 (strtol (nth argv 3) 16)) (u16 (strtol (nth argv 4) 16))
            (u32 (strtol (nth argv 5) 16)) (size_of argv))
          0

  -- The commands, on a master that was started.
  unfoldable pub run_command : Process W → List (List ℕ) → Process W × ℕ
  unfolding read_command write_command
  run_command p argv =
      if is_same (nth argv 2) (codes "scan")
      then leave (run_scan p) 0
      else if is_same (nth argv 2) (codes "scan-esi")
      then if ltb (length argv) 4 then leave p 1 else leave (run_scan_esi p (drop 3 argv)) 0
      else if is_same (nth argv 2) (codes "slave-state")
      then if ltb (length argv) 5
        then leave p 1
        else leave (run_slave_state p (nth argv 3) (nth argv 4)) 0
      else if is_same (nth argv 2) (codes "read")
      then if ltb (length argv) 6 then leave p 1 else read_command p argv
      else if is_same (nth argv 2) (codes "write")
      then if ltb (length argv) 6 then leave p 1 else write_command p argv
      else leave p 0

  started : List Listed → List (List ℕ) → (W × Master) × Bool → Process W × ℕ
  started db argv ((w, m), false) = (record { world = w; master = m; slaves_db = db }, 1)
  started db argv ((w, m), true) =
      run_command (record { world = w; master = m; slaves_db = db }) argv

  -- The process and the exit code.
  unfoldable pub app_execute : Process W → List (List ℕ) → Process W × ℕ
  unfolding started
  app_execute p argv =
      if ltb (length argv) 3
      then (p, 1)
      else started p.slaves_db argv
          (master_init h.platform (some (settings_for (nth argv 1))) p.world p.master)
