-- ===== src/Master/State.antt =====
-- The AL registers of one slave, and the master's requests for a state.
pub mod Turns
use ul_ecat.Common.{
  ℕ, zero, suc, ◌+◌, ◌*◌, List, [], ◌∷◌, Option, none, some, Bool, true, false, ltb, ◌==◌,
  if◌then◌else◌, bit_and, u8, r16_le, w16_le,
}
use ul_ecat.Al.{al_control_word, al_status_state, al_status_error_indicated}
use ul_ecat.Slave.Esc.{reg_alctl, reg_alstat}
use ul_ecat.Master.Scan.{Station}
use ul_ecat.Master.{
  Transport, Port, Access, accessed, failed, counted, fprd_blocking, fpwr_blocking,
}

unfoldable pub status_of : {W : Type 0} → W × Access → W × Option ℕ
status_of (w, a) = elim (counted a) [ none ↦ (w, none) | some raw ↦ (w, some (r16_le raw)) ]

-- `raw` is what the two bytes of the buffer hold before.
unfoldable pub read_al_status_blocking :
    {W : Type 0} → Transport W → Port → W → ℕ → List ℕ → ℕ → W × Option ℕ
unfolding status_of
read_al_status_blocking t port w station raw timeout_ms =
    status_of (fprd_blocking t port w station reg_alstat raw timeout_ms)

unfoldable pub done_of : {W : Type 0} → W × Access → W × Bool
done_of (w, a) = elim (counted a) [ none ↦ (w, false) | some raw ↦ (w, true) ]

-- True is the 0.
unfoldable pub write_al_control_blocking :
    {W : Type 0} → Transport W → Port → W → ℕ → ℕ → ℕ → W × Bool
unfolding done_of
write_al_control_blocking t port w station req_bits timeout_ms =
    done_of (fpwr_blocking t port w station reg_alctl (w16_le req_bits) timeout_ms)

-- The state that a status word shows: none while the error bit is set.
unfoldable pub shown_state : ℕ → Option ℕ
shown_state alst = if al_status_error_indicated alst then none else some (al_status_state alst)

-- The end of a turn: the result, or that of the turns to come.
unfoldable pub after_status : {W : Type 0} → W × Option ℕ → ℕ → W × Bool → W × Bool
after_status (w, none) desired rest = rest
after_status (w, some alst) desired rest = elim (shown_state alst) [
  | none ↦ (w, false)
  | some cur ↦ if cur == desired then (w, true) else rest
]

-- The loop of `ul_ecat_poll_slave_state`; true is the 0. Every turn adds 20 to `elapsed`, so that
-- `timeout_ms` turns are enough.
unfoldable pub poll_loop :
    {W : Type 0} → ℕ → Transport W → Port → W → ℕ → ℕ → List ℕ → ℕ → ℕ → W × Bool
poll_loop zero t port w station desired raw elapsed timeout_ms = (w, false)
poll_loop (suc turns) t port w station desired raw elapsed timeout_ms =
    let status = read_al_status_blocking t port w station raw 200 in
    let rest =
      poll_loop turns t port (t.sleep_us status.0 20000) station desired raw (elapsed + 20)
        timeout_ms in
    if ltb elapsed timeout_ms then after_status status desired rest else (w, false)

unfoldable pub station_at : List Station → ℕ → Option Station
station_at [] i = none
station_at (st ∷ sts) zero = some st
station_at (st ∷ sts) (suc i) = station_at sts i

-- `sl->state = state`
unfoldable pub set_state : List Station → ℕ → ℕ → List Station
set_state [] i state = []
set_state (st ∷ sts) zero state =
    record {
      station_address = st.station_address;
      state = state;
      vendor_id = st.vendor_id;
      product_code = st.product_code;
      revision_no = st.revision_no;
      serial_no = st.serial_no;
    }
    ∷ sts
set_state (st ∷ sts) (suc i) state = st ∷ set_state sts i state

unfoldable pub polled : {W : Type 0} → List Station → ℕ → ℕ → W × Bool → W × (List Station × Bool)
polled db i desired (w, true) = (w, (set_state db i desired, true))
polled db i desired (w, false) = (w, (db, false))

-- A slave index is not negative here.
unfoldable pub poll_slave_state :
    {W : Type 0}
    → Transport W
    → Port
    → W
    → List Station
    → ℕ
    → ℕ
    → List ℕ
    → ℕ
    → W × (List Station × Bool)
unfolding polled
poll_slave_state t port w db i desired raw timeout_ms = elim (station_at db i) [
  | none ↦ (w, (db, false))
  | some sl ↦
      polled db i desired
        (poll_loop timeout_ms t port w sl.station_address desired raw 0 timeout_ms)
]

unfoldable pub acknowledged :
    {W : Type 0}
    → Transport W
    → Port
    → ℕ
    → ℕ
    → W × (List Station × Bool)
    → W × (List Station × Bool)
acknowledged t port station nibble (w, (db, false)) = (w, (db, false))
acknowledged t port station nibble (w, (db, true)) =
    let acked = write_al_control_blocking t port w station (al_control_word nibble true) 500 in
    (acked.0, (db, acked.1))

-- `ul_ecat_request_slave_state_mailbox`, which `ul_ecat_request_slave_state` calls: the control
-- word, the wait for the state, and the control word with the acknowledge bit.
unfoldable pub request_slave_state :
    {W : Type 0}
    → Transport W
    → Port
    → W
    → List Station
    → ℕ
    → ℕ
    → List ℕ
    → W × (List Station × Bool)
unfolding acknowledged
request_slave_state t port w db i state raw = elim (station_at db i) [
  | none ↦ (w, (db, false))
  | some sl ↦
      let nibble = u8 (bit_and state 0x0f) in
      let asked =
        write_al_control_blocking t port w sl.station_address (al_control_word nibble false) 500 in
      if asked.1
      then acknowledged t port sl.station_address nibble
          (poll_slave_state t port asked.0 db i state raw 3000)
      else (asked.0, (db, false))
]
