-- ===== src/Master/Exchange/Requests.antt =====
-- What the operations of a transport keep, the requests for a state and the scan keep.
use ul_ecat.Common.{
  ℕ, zero, suc, ◌+◌, List, [], Option, none, some, Option-cases, inl, inr, Bool, true, false, ltb,
  ◌==◌, u8, u16, bit_and, w16_le,
}
use ul_ecat.Al.{al_control_word}
use ul_ecat.Slave.Esc.{
  reg_alctl, reg_alstat, reg_stadr, reg_vendor, reg_product, reg_rev, reg_serial,
}
use ul_ecat.Master.{Transport, Port, Access, counted, apwr_blocking, fprd_blocking, fpwr_blocking}
use ul_ecat.Master.Scan.{
  Station, is_counted, valued, read_u32, identify, listed, scan_from, max_slaves, scan_network,
}
use ul_ecat.Master.State.{
  status_of, read_al_status_blocking, done_of, write_al_control_blocking, shown_state, after_status,
  poll_loop, station_at, polled, poll_slave_state, acknowledged, request_slave_state,
}
use ul_ecat.Master.Exchange.{
  Keeps, either_kept, apwr_blocking_kept, fprd_blocking_kept, fpwr_blocking_kept,
}

module _ {W : Type 0} (t : Transport W) (P : W → Type 0) (k : Keeps t P) where
  status_of_kept : (r : W × Access) → P r.0 → P (status_of r).0
  unfolding status_of
  status_of_kept (w, a) h = elim (Option-cases (counted a)) [
    | inl e ↦ rw (status_of, e) h
    | inr (raw, e) ↦ rw (status_of, e) h
  ]

  read_al_status_kept :
      (port : Port) (w : W) (station : ℕ) (raw : List ℕ) (ms : ℕ)
      → P w
      → P (read_al_status_blocking t port w station raw ms).0
  unfolding read_al_status_blocking
  read_al_status_kept port w station raw ms h =
      status_of_kept (fprd_blocking t port w station reg_alstat raw ms)
        (fprd_blocking_kept t P k port w station reg_alstat raw ms h)

  done_of_kept : (r : W × Access) → P r.0 → P (done_of r).0
  unfolding done_of
  done_of_kept (w, a) h = elim (Option-cases (counted a)) [
    | inl e ↦ rw (done_of, e) h
    | inr (raw, e) ↦ rw (done_of, e) h
  ]

  write_al_control_kept :
      (port : Port) (w : W) (station req ms : ℕ)
      → P w
      → P (write_al_control_blocking t port w station req ms).0
  unfolding write_al_control_blocking
  write_al_control_kept port w station req ms h =
      done_of_kept (fpwr_blocking t port w station reg_alctl (w16_le req) ms)
        (fpwr_blocking_kept t P k port w station reg_alctl (w16_le req) ms h)

  after_status_kept :
      (r : W × Option ℕ) (desired : ℕ) (rest : W × Bool)
      → P r.0
      → P rest.0
      → P (after_status r desired rest).0
  unfolding after_status
  after_status_kept (w, none) desired rest h hr = hr
  after_status_kept (w, some alst) desired rest h hr = elim (Option-cases (shown_state alst)) [
    | inl e ↦ rw (after_status, e) h
    | inr (cur, e) ↦ rw (after_status, e) (either_kept t P k (cur == desired) (w, true) rest h hr)
  ]

  poll_loop_kept :
      (turns : ℕ) (port : Port) (w : W) (station desired : ℕ) (raw : List ℕ) (elapsed ms : ℕ)
      → P w
      → P (poll_loop turns t port w station desired raw elapsed ms).0
  unfolding poll_loop
  poll_loop_kept zero port w station desired raw elapsed ms h = h
  poll_loop_kept (suc turns) port w station desired raw elapsed ms h =
      let read = read_al_status_kept port w station raw 200 h in
      either_kept t P k (ltb elapsed ms) _ (w, false)
        (after_status_kept (read_al_status_blocking t port w station raw 200) desired _ read (
          poll_loop_kept turns port _ station desired raw (elapsed + 20) ms
            (k.sleep_us _ 20000 read)))
        h

  polled_kept :
      (db : List Station) (i desired : ℕ) (r : W × Bool) → P r.0 → P (polled db i desired r).0
  unfolding polled
  polled_kept db i desired (w, true) h = h
  polled_kept db i desired (w, false) h = h

  poll_slave_state_kept :
      (port : Port) (w : W) (db : List Station) (i desired : ℕ) (raw : List ℕ) (ms : ℕ)
      → P w
      → P (poll_slave_state t port w db i desired raw ms).0
  unfolding poll_slave_state
  poll_slave_state_kept port w db i desired raw ms h = elim (Option-cases (station_at db i)) [
    | inl e ↦ rw (poll_slave_state, e) h
    | inr (sl, e) ↦
        rw (poll_slave_state, e)
          (polled_kept db i desired (poll_loop ms t port w sl.station_address desired raw 0 ms)
            (poll_loop_kept ms port w sl.station_address desired raw 0 ms h))
  ]

  acknowledged_kept :
      (port : Port) (station nibble : ℕ) (r : W × (List Station × Bool))
      → P r.0
      → P (acknowledged t port station nibble r).0
  unfolding acknowledged
  acknowledged_kept port station nibble (w, (db, false)) h = h
  acknowledged_kept port station nibble (w, (db, true)) h =
      write_al_control_kept port w station (al_control_word nibble true) 500 h

  pub request_slave_state_kept :
      (port : Port) (w : W) (db : List Station) (i state : ℕ) (raw : List ℕ)
      → P w
      → P (request_slave_state t port w db i state raw).0
  unfolding request_slave_state
  request_slave_state_kept port w db i state raw h = elim (Option-cases (station_at db i)) [
    | inl e ↦ rw (request_slave_state, e) h
    | inr (sl, e) ↦
        rw (request_slave_state, e)
          (let nibble = u8 (bit_and state 0x0f) in
            let asked =
              write_al_control_blocking t port w sl.station_address (al_control_word nibble false)
                500 in
            let kept =
              write_al_control_kept port w sl.station_address (al_control_word nibble false) 500
                h in
            either_kept t P k asked.1 _ (asked.0, (db, false))
              (acknowledged_kept port sl.station_address nibble _
                (poll_slave_state_kept port asked.0 db i state raw 3000 kept))
              kept)
  ]

  valued_kept : (tmp : List ℕ) (r : W × Access) → P r.0 → P (valued tmp r).0
  unfolding valued
  valued_kept tmp (w, a) h = h

  read_u32_kept :
      (port : Port) (w : W) (station ado : ℕ) (tmp : List ℕ)
      → P w
      → P (read_u32 t port w station ado tmp).0
  unfolding read_u32
  read_u32_kept port w station ado tmp h =
      valued_kept tmp (fprd_blocking t port w station ado tmp 200)
        (fprd_blocking_kept t P k port w station ado tmp 200 h)

  identify_kept :
      (port : Port) (w : W) (station : ℕ) (tmp : List ℕ) → P w → P (identify t port w station tmp).0
  unfolding identify
  identify_kept port w station tmp h = read_u32_kept port _ station reg_serial _ (
      read_u32_kept port _ station reg_rev _ (
        read_u32_kept port _ station reg_product _ (read_u32_kept port w station reg_vendor tmp h)))

  listed_kept : (st : Station) (r : W × List Station) → P r.0 → P (listed st r).0
  unfolding listed
  listed_kept st (w, rest) h = h

  scan_from_kept :
      (positions : ℕ) (port : Port) (w : W) (pos : ℕ) (stack : List ℕ)
      → P w
      → P (scan_from positions t port w pos stack).0
  unfolding scan_from
  scan_from_kept zero port w pos stack h = h
  scan_from_kept (suc positions) port w pos stack h =
      let station = u16 (0x1000 + pos) in
      let assigned = apwr_blocking t port w (u16 pos) reg_stadr (w16_le station) 200 in
      let kept = apwr_blocking_kept t P k port w (u16 pos) reg_stadr (w16_le station) 200 h in
      either_kept t P k (ltb (is_counted assigned.1) 1) (assigned.0, []) _ kept
        (listed_kept (identify t port assigned.0 station stack).1
          (scan_from positions t port (identify t port assigned.0 station stack).0 (pos + 1) stack)
          (scan_from_kept positions port _ (pos + 1) stack
            (identify_kept port assigned.0 station stack kept)))

  pub scan_network_kept :
      (port : Port) (w : W) (stack : List ℕ) → P w → P (scan_network t port w stack).0
  unfolding scan_network
  scan_network_kept port w stack h = scan_from_kept max_slaves port w 0 stack h
