-- ===== src/Master/Clock.antt =====
-- The distributed clock of src/master/ul_ecat_master.c: a state machine that asks for the time of
-- the reference slave in every cycle and corrects its offset. A 64-bit number is a word in two's
-- complement, and the words in memory are little-endian.
pub mod Invariant
use ul_ecat.Common.{ℕ, ◌+◌, ◌-◌, ◌*◌, ◌%◌, List, Bool, ltb, ◌==◌, ◌||◌, if◌then◌else◌, w32_le}
use ul_ecat.Master.Queue.{Queue, queue_fprd, queue_fpwr}
use ul_ecat.Master.Events.{
  DcEventKind, dc_event_init, dc_event_sync, dc_event_error, DcEventInfo, Event, dc, post_evt,
}

-- UL_ECAT_ESC_REG_DCSYS0, UL_ECAT_ESC_REG_DCSYSOFS
abbrev pub reg_dcsys0 : ℕ
reg_dcsys0 = 0x0910

abbrev pub reg_dcsysofs : ℕ
reg_dcsysofs = 0x0920

-- 2 ^ 63 and 2 ^ 64
abbrev pub half_range : ℕ
half_range = 9223372036854775808

abbrev pub range : ℕ
range = 18446744073709551616

-- `g_dc_state` is 0 without a clock, 1 before the first cycle, 2 in operation and 3 after an error.
pub record DcClock : Type 0 where
  pub state : ℕ
  pub offset : ℕ
  pub timeout : ℕ
  pub error_code : ℕ

-- g_dc_threshold_ns
abbrev pub threshold_ns : ℕ
threshold_ns = 5000000

-- What the cycle of the master works on besides the network.
pub record Cyclic : Type 0 where
  pub clock : DcClock
  pub queue : Queue
  pub events : List Event

unfoldable pub post_dc : Cyclic → DcEventKind → ℕ → ℕ → Cyclic
post_dc m event offset_ns error_code = record m {
  events =
      post_evt m.events
        (dc (record { event = event; offset_ns = offset_ns; error_code = error_code }));
}

unfoldable pub dc_init : Cyclic → Cyclic
dc_init m =
    post_dc (record m { clock = record { state = 1; offset = 0; timeout = 0; error_code = 0 } })
      dc_event_init 0 0

-- The body of state 2: the question, and the count of the cycles without an answer.
unfoldable pub dc_ask : Cyclic → Cyclic
dc_ask m =
    let asked : Cyclic = record m { queue = queue_fprd m.queue 0 reg_dcsys0 8 } in
    let timeout : ℕ = m.clock.timeout + 1 in
    if ltb 50 timeout
    then post_dc
        (record asked { clock = record m.clock { state = 3; timeout = timeout; error_code = 2 } })
        dc_event_error m.clock.offset 2
    else record asked { clock = record m.clock { timeout = timeout } }

unfoldable pub dc_cycle : Cyclic → Cyclic
dc_cycle m =
    if m.clock.state == 0
    then m
    else if m.clock.state == 3
    then m
    else if m.clock.state == 1
    then dc_ask (record m { clock = record m.clock { state = 2 } })
    else if m.clock.state == 2
    then dc_ask m
    else m

-- `llabs`
unfoldable pub magnitude : ℕ → ℕ
magnitude off = if ltb off half_range then off else range - off

unfoldable pub handle_dc_response : Cyclic → ℕ → ℕ → Cyclic
handle_dc_response m master slave_time_ns =
    let off : ℕ = (slave_time_ns + (range - master)) % range in
    let measured : DcClock = record m.clock { offset = off; timeout = 0 } in
    if ltb threshold_ns (magnitude off)
    then post_dc (record m { clock = record measured { state = 3; error_code = 1 } }) dc_event_error
        off 1
    else post_dc
        (record m {
          clock = measured;
          queue = queue_fpwr m.queue 0 reg_dcsysofs (w32_le ((range - off) % 4294967296));
        })
        dc_event_sync off 0
