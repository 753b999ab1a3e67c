-- ===== src/Master/Scan.antt =====
-- `ul_ecat_scan_network`: a station address for each position, then the identity registers. Its
-- messages on the standard output have no counterpart.
use ul_ecat.Common.{ℕ, zero, suc, ◌+◌, List, [], ◌∷◌, ltb, if◌then◌else◌, u16, r32_le, w16_le}
use ul_ecat.Slave.Esc.{reg_stadr, reg_vendor, reg_product, reg_rev, reg_serial}
use ul_ecat.Slave.AlMachine.{al_init}
use ul_ecat.Master.{Transport, Port, Access, accessed, failed, apwr_blocking, fprd_blocking}

-- UL_ECAT_MAX_SLAVES
abbrev pub max_slaves : ℕ
max_slaves = 16

-- What a scan writes of an entry of `g_slaves_db`.
pub record Station : Type 0 where
  pub station_address : ℕ
  pub state : ℕ
  pub vendor_id : ℕ
  pub product_code : ℕ
  pub revision_no : ℕ
  pub serial_no : ℕ

-- The value read, 0 where none is, and the buffer `tmp` afterwards.
unfoldable pub value_of : List ℕ → Access → ℕ × List ℕ
value_of tmp failed = (0, tmp)
value_of tmp (accessed wkc out) = (if ltb wkc 1 then 0 else r32_le out, out)

unfoldable pub valued : {W : Type 0} → List ℕ → W × Access → W × (ℕ × List ℕ)
valued tmp (w, a) = (w, value_of tmp a)

unfoldable pub read_u32 : {W : Type 0} → Transport W → Port → W → ℕ → ℕ → List ℕ → W × (ℕ × List ℕ)
unfolding valued
read_u32 t port w station ado tmp = valued tmp (fprd_blocking t port w station ado tmp 200)

-- The four identity registers, read one after the other through the same buffer.
unfoldable pub identify : {W : Type 0} → Transport W → Port → W → ℕ → List ℕ → W × Station
identify t port w station tmp =
    let vid = read_u32 t port w station reg_vendor tmp in
    let pid = read_u32 t port vid.0 station reg_product vid.1.1 in
    let rev = read_u32 t port pid.0 station reg_rev pid.1.1 in
    let ser = read_u32 t port rev.0 station reg_serial rev.1.1 in
    (
      ser.0,
      record {
        station_address = station;
        state = al_init;
        vendor_id = vid.1.0;
        product_code = pid.1.0;
        revision_no = rev.1.0;
        serial_no = ser.1.0;
      },
    )

-- Whether a slave took the address.
unfoldable pub is_counted : Access → ℕ
is_counted failed = 0
is_counted (accessed wkc out) = wkc

unfoldable pub listed : {W : Type 0} → Station → W × List Station → W × List Station
listed st (w, rest) = (w, st ∷ rest)

-- The loop over the positions from `pos` on. `stack` is what `tmp` holds before it is first
-- written.
unfoldable pub scan_from : {W : Type 0} → ℕ → Transport W → Port → W → ℕ → List ℕ → W × List Station
unfolding listed
scan_from zero t port w pos stack = (w, [])
scan_from (suc positions) t port w pos stack =
    let station = u16 (0x1000 + pos) in
    let assigned = apwr_blocking t port w (u16 pos) reg_stadr (w16_le station) 200 in
    let found = identify t port assigned.0 station stack in
    let rest = scan_from positions t port found.0 (pos + 1) stack in
    if ltb (is_counted assigned.1) 1 then (assigned.0, []) else listed found.1 rest

unfoldable pub scan_network : {W : Type 0} → Transport W → Port → W → List ℕ → W × List Station
scan_network t port w stack = scan_from max_slaves t port w 0 stack
