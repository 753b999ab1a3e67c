-- ===== src/Master/Tool/Sockets.antt =====
-- The command line leaves the master stopped.
use ul_ecat.Common.{
  ℕ, ◌≡◌, refl, ap, ◌∙◌, List, [], none, some, Bool, true, false, ltb, if◌then◌else◌, length, take,
  drop, w32_le, codes, is_same, atoi,
}
use ul_ecat.Master.{Transport}
use ul_ecat.Master.Exchange.{Keeps, fprd_sync_kept, fpwr_sync_kept}
use ul_ecat.Master.Exchange.Requests.{request_slave_state_kept, scan_network_kept}
use ul_ecat.Master.Lifecycle.{master_init}
use ul_ecat.Master.Lifecycle.Sockets.{
  tracked, owned, System, IsOwner, master_init-IsOwner, master_init_failed, master_shutdown-IsOwner,
  master_shutdown_sockfd,
}
use ul_ecat.Master.Esi.{Listed}
use ul_ecat.Master.Tool.{
  Process, Host, settings_for, port_of, stations, nth, leave, run_scan, run_scan_esi,
  run_slave_state, run_read, run_write, read_command, write_command, run_command, started,
  app_execute,
}

-- A transport that opens and closes no sockets.
abbrev pub carried : {W : Type 0} → Transport W → Transport (W × List ℕ)
carried t = record {
  send = λ s frame. (((t.send s.0 frame).0, s.1), (t.send s.0 frame).1);
  wait_readable = λ s ms. (((t.wait_readable s.0 ms).0, s.1), (t.wait_readable s.0 ms).1);
  recv = λ s room. (((t.recv s.0 room).0, s.1), (t.recv s.0 room).1);
  sleep_us = λ s us. (t.sleep_us s.0 us, s.1);
  sleep_until_ns = λ s ns. (t.sleep_until_ns s.0 ns, s.1);
  monotonic_ns = λ s. (((t.monotonic_ns s.0).0, s.1), (t.monotonic_ns s.0).1);
}

-- The host with the sockets that were opened and not closed.
abbrev pub tracked_host : {W : Type 0} → Host W → Host (W × List ℕ)
tracked_host h = record {
  platform = tracked h.platform;
  transport = carried h.transport;
  files = h.files;
  stack = h.stack;
  raw = h.raw;
  buf = h.buf;
}

carried-Keeps :
    {W : Type 0} (t : Transport W) (sockets : List ℕ)
    → Keeps (carried t) (λ (s : W × List ℕ). s.1 ≡ sockets)
carried-Keeps t sockets = record {
  send = λ s frame h. h;
  wait_readable = λ s ms h. h;
  recv = λ s room h. h;
  sleep_us = λ s us h. h;
}

-- No socket is open, and the master holds none.
abbrev pub IsStopped : {W : Type 0} → Process (W × List ℕ) → Type 0
IsStopped p = (p.world.1 ≡ []) × (p.master.sockfd ≡ none)

abbrev IsOwned : {W : Type 0} → Process (W × List ℕ) → Type 0
IsOwned p = p.world.1 ≡ owned p.master.sockfd

module _ {W : Type 0} (h : Host W) where
  leave-IsStopped :
      (p : Process (W × List ℕ)) (code : ℕ)
      → IsOwned p
      → IsStopped (leave (tracked_host h) p code).0
  unfolding leave
  leave-IsStopped p code o =
      let none_held = master_shutdown_sockfd h.platform p.world p.master in
      (master_shutdown-IsOwner h.platform p.world p.master o ∙ ap owned none_held, none_held)

  run_scan-IsOwned : (p : Process (W × List ℕ)) → IsOwned p → IsOwned (run_scan (tracked_host h) p)
  unfolding run_scan
  run_scan-IsOwned p o =
      scan_network_kept (carried h.transport) (λ (s : W × List ℕ). s.1 ≡ owned p.master.sockfd)
        (carried-Keeps h.transport _) (port_of p.master) p.world h.stack o

  run_scan_esi-IsOwned :
      (p : Process (W × List ℕ)) (args : List (List ℕ))
      → IsOwned p
      → IsOwned (run_scan_esi (tracked_host h) p args)
  unfolding run_scan_esi
  run_scan_esi-IsOwned p args o = o

  run_slave_state-IsOwned :
      (p : Process (W × List ℕ)) (idx st : List ℕ)
      → IsOwned p
      → IsOwned (run_slave_state (tracked_host h) p idx st)
  unfolding run_slave_state
  run_slave_state-IsOwned p idx st o =
      request_slave_state_kept (carried h.transport)
        (λ (s : W × List ℕ). s.1 ≡ owned p.master.sockfd) (carried-Keeps h.transport _)
        (port_of p.master) p.world (stations p.slaves_db) (atoi idx) (atoi st) h.raw o

  run_read-IsOwned :
      (p : Process (W × List ℕ)) (adp ado ln : ℕ)
      → IsOwned p
      → IsOwned (run_read (tracked_host h) p adp ado ln)
  unfolding run_read
  run_read-IsOwned p adp ado ln o =
      fprd_sync_kept (carried h.transport) (λ (s : W × List ℕ). s.1 ≡ owned p.master.sockfd)
        (carried-Keeps h.transport _) (port_of p.master) p.world adp ado ln h.buf 2000 o

  run_write-IsOwned :
      (p : Process (W × List ℕ)) (adp ado val sz : ℕ)
      → IsOwned p
      → IsOwned (run_write (tracked_host h) p adp ado val sz)
  unfolding run_write
  run_write-IsOwned p adp ado val sz o =
      fpwr_sync_kept (carried h.transport) (λ (s : W × List ℕ). s.1 ≡ owned p.master.sockfd)
        (carried-Keeps h.transport _) (port_of p.master) p.world adp ado (take sz (w32_le val)) 2000
        o

  either-IsStopped :
      (b : Bool) (r s : Process (W × List ℕ) × ℕ)
      → IsStopped r.0
      → IsStopped s.0
      → IsStopped (if b then r else s).0
  either-IsStopped true r s hr hs = hr
  either-IsStopped false r s hr hs = hs

  read_command-IsStopped :
      (p : Process (W × List ℕ)) (argv : List (List ℕ))
      → IsOwned p
      → IsStopped (read_command (tracked_host h) p argv).0
  unfolding read_command
  read_command-IsStopped p argv o =
      either-IsStopped _ _ _ (leave-IsStopped p 1 o)
        (leave-IsStopped _ 0 (run_read-IsOwned p _ _ _ o))

  write_command-IsStopped :
      (p : Process (W × List ℕ)) (argv : List (List ℕ))
      → IsOwned p
      → IsStopped (write_command (tracked_host h) p argv).0
  unfolding write_command
  write_command-IsStopped p argv o =
      either-IsStopped _ _ _ (leave-IsStopped p 1 o)
        (leave-IsStopped _ 0 (run_write-IsOwned p _ _ _ _ o))

  run_command-IsStopped :
      (p : Process (W × List ℕ)) (argv : List (List ℕ))
      → IsOwned p
      → IsStopped (run_command (tracked_host h) p argv).0
  unfolding run_command
  run_command-IsStopped p argv o =
      either-IsStopped (is_same (nth argv 2) (codes "scan")) _ _
        (leave-IsStopped _ 0 (run_scan-IsOwned p o))
        (either-IsStopped (is_same (nth argv 2) (codes "scan-esi")) _ _
          (either-IsStopped (ltb (length argv) 4) _ _ usage
            (leave-IsStopped _ 0 (run_scan_esi-IsOwned p (drop 3 argv) o)))
          (either-IsStopped (is_same (nth argv 2) (codes "slave-state")) _ _
            (either-IsStopped (ltb (length argv) 5) _ _ usage
              (leave-IsStopped _ 0 (run_slave_state-IsOwned p (nth argv 3) (nth argv 4) o)))
            (either-IsStopped (is_same (nth argv 2) (codes "read")) _ _
              (either-IsStopped (ltb (length argv) 6) _ _ usage (read_command-IsStopped p argv o))
              (either-IsStopped (is_same (nth argv 2) (codes "write")) _ _
                (either-IsStopped (ltb (length argv) 6) _ _ usage
                  (write_command-IsStopped p argv o))
                (leave-IsStopped p 0 o)))))
    where
      usage : IsStopped (leave (tracked_host h) p 1).0
      usage = leave-IsStopped p 1 o

  started-IsStopped :
      (db : List Listed) (argv : List (List ℕ)) (r : System W × Bool)
      → IsOwner r.0
      → (r.1 ≡ false → r.0.1.sockfd ≡ none)
      → IsStopped (started (tracked_host h) db argv r).0
  unfolding started
  started-IsStopped db argv ((w, m), false) o failed = (o ∙ ap owned (failed refl), failed refl)
  started-IsStopped db argv ((w, m), true) o failed =
      run_command-IsStopped (record { world = w; master = m; slaves_db = db }) argv o

  -- Whatever the arguments, whatever the network answers and whichever calls of the platform fail,
  -- the command line, run while the master is stopped and no socket is open, leaves the master
  -- stopped and no socket open.
  pub app_execute-IsStopped :
      (p : Process (W × List ℕ)) (argv : List (List ℕ))
      → IsStopped p
      → IsStopped (app_execute (tracked_host h) p argv).0
  unfolding app_execute
  app_execute-IsStopped p argv s = either-IsStopped (ltb (length argv) 3) _ _ s (
      started-IsStopped p.slaves_db argv
        (master_init (tracked h.platform) (some (settings_for (nth argv 1))) p.world p.master)
        (master_init-IsOwner h.platform (some (settings_for (nth argv 1))) p.world p.master s.1 s.0)
        (master_init_failed h.platform (some (settings_for (nth argv 1))) p.world p.master s.1))
