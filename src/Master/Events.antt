-- ===== src/Master/Events.antt =====
-- The event queue of src/master/ul_ecat_master.c. The lock makes each of its operations one step;
-- a wait on the condition variable is a turn that finds nothing to do.
pub mod Order
use ul_ecat.Common.{
  ℕ, List, [], ◌∷◌, ◌++◌, Bool, true, false, Option, none, some, ltb, if◌then◌else◌, length,
}
use ul_ecat.Wire.Ethernet.{Mac}

-- ul_ecat_dc_event_t
pub data DcEventKind : Type 0 where
  dc_event_init dc_event_sync dc_event_error : DcEventKind

-- ul_ecat_dc_event_info_t; the offset is a 64-bit word in two's complement.
pub record DcEventInfo : Type 0 where
  pub event : DcEventKind
  pub offset_ns : ℕ
  pub error_code : ℕ

-- struct ul_ecat_frame
pub record Frame : Type 0 where
  pub dst_mac : Mac
  pub src_mac : Mac
  pub ethertype : ℕ
  pub payload : List ℕ

-- ecat_event_t
pub data Event : Type 0 where
  dc : DcEventInfo → Event
  frame_received : Frame → ℕ → Event

-- MAX_EVENTS
abbrev pub max_events : ℕ
max_events = 64

-- The first `g_evt_count` events, in the order of the queue. An event is dropped when the queue
-- is full.
unfoldable pub post_evt : List Event → Event → List Event
post_evt events e = if ltb (length events) max_events then events ++ e ∷ [] else events

-- `g_evt_queue` with its count, and `g_evt_stop`.
pub record EventQueue : Type 0 where
  pub events : List Event
  pub stop : Bool

-- What one turn of the loop of `ul_ecat_eventloop_run` does with the lock held.
pub data Turn : Type 0 where
  waits : Turn
  stops : Turn
  delivers : Event → Turn

unfoldable pub eventloop_turn : EventQueue → Turn × EventQueue
eventloop_turn q =
    if q.stop
    then (stops, q)
    else elim q.events [ [] ↦ (waits, q) | e ∷ es ↦ (delivers e, record q { events = es }) ]

-- The beginning of `ul_ecat_eventloop_run`.
unfoldable pub eventloop_start : EventQueue → EventQueue
eventloop_start q = record q { stop = false }

unfoldable pub eventloop_stop : EventQueue → EventQueue
eventloop_stop q = record q { stop = true }

-- `g_cb_dc` and `g_cb_fr` as functions on the state of an application.
pub record Callbacks (U : Type 0) : Type 0 where
  pub on_dc : Option (DcEventInfo → U → U)
  pub on_frame : Option (Frame → ℕ → U → U)

unfoldable pub deliver : {U : Type 0} → Callbacks U → Event → U → U
deliver callbacks (dc info) user = elim callbacks.on_dc [ none ↦ user | some call ↦ call info user ]
deliver callbacks (frame_received frame len) user = elim callbacks.on_frame [
  | none ↦ user
  | some call ↦ call frame len user
]
