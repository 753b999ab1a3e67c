-- ===== src/Tests/Cycle.antt =====
-- The cycle of the master, its clock and its event queue.
use ul_ecat.Common.{
  ℕ, ◌≡◌, refl, List, [], ◌∷◌, none, some, Bool, true, false, arith, if◌then◌else◌,
}
use ul_ecat.Wire.Datagram.{Dgram}
use ul_ecat.Wire.Pdu.{wire_all}
use ul_ecat.Wire.Ethernet.RoundTrip.{eth_frame}
use ul_ecat.Master.{Transport, Port}
use ul_ecat.Master.Events.{dc_event_init, Event, dc}
use ul_ecat.Master.Events.Order.{
  History, post, turn, posts, turns, here, next, IsFifo, Reach-IsFifo,
}
use ul_ecat.Master.Clock.{Cyclic, reg_dcsys0, dc_init}
use ul_ecat.Master.Clock.Invariant.{IsCyclic, dc_init-IsCyclic}
use ul_ecat.Master.Receive.{cycles}
use ul_ecat.Master.Receive.Invariant.{cycles-IsCyclic}
use ul_ecat.Master.Receive.Timeout.{unanswered, cycles-timeout}
use ul_ecat.Tests.{master_mac, slave_mac}

abbrev port : Port
port = record { dst_mac = slave_mac; src_mac = master_mac; is_open = true }

is_empty : {A : Type 0} → List A → Bool
is_empty [] = true
is_empty (x ∷ xs) = false

-- A network whose state is what it will deliver.
abbrev inbox : Transport (List (List ℕ))
unfolding is_empty
inbox = record {
  send = λ frames frame. (frames, true);
  wait_readable = λ frames timeout_ms. (frames, if is_empty frames then false else true);
  recv = λ frames room. elim frames [ [] ↦ ([], none) | x ∷ xs ↦ (xs, some x) ];
  sleep_us = λ frames us. frames;
  sleep_until_ns = λ frames ns. frames;
  monotonic_ns = λ frames. (frames, 1000);
}

-- The answer of the reference slave with its time.
abbrev answer : Dgram
answer = record {
  cmd = 4;
  index = 0;
  adp = 0;
  ado = reg_dcsys0;
  irq = 0;
  wkc = 1;
  bytes = 0xb0 ∷ 4 ∷ 0 ∷ 0 ∷ 0 ∷ 0 ∷ 0 ∷ 0 ∷ [];
}

abbrev idle : Cyclic
idle = record {
  clock = record { state = 0; offset = 0; timeout = 0; error_code = 0 };
  queue = record { items = []; index_seq = 0 };
  events = [];
}

idle-IsCyclic : IsCyclic idle
idle-IsCyclic = record {
  legal = omega arith;
  in_time = omega arith;
  sound = λ _. refl;
  failed = omega arith;
  events_fit = omega arith;
  queue_fits = omega arith;
}

cycles-IsCyclic_example :
    IsCyclic
      (cycles 60 4 inbox port
        (eth_frame master_mac slave_mac (wire_all (answer ∷ [])) ∷ [])
        (dc_init idle)).1
cycles-IsCyclic_example =
    cycles-IsCyclic 60 4 inbox port (eth_frame master_mac slave_mac (wire_all (answer ∷ [])) ∷ [])
      (dc_init idle) (dc_init-IsCyclic idle idle-IsCyclic)

-- A network on which nothing comes back.
abbrev silent : Transport ℕ
silent = record {
  send = λ n frame. (n, true);
  wait_readable = λ n timeout_ms. (n, false);
  recv = λ n room. (n, none);
  sleep_us = λ n us. n;
  sleep_until_ns = λ n ns. n;
  monotonic_ns = λ n. (n, 0);
}

cycles-timeout_example : (cycles 51 4 silent port 0 (dc_init idle)).1.clock ≡ unanswered 0 51
cycles-timeout_example = cycles-timeout 50 4 silent port 0 idle (λ w timeout_ms. refl)

abbrev started : Event
started = dc (record { event = dc_event_init; offset_ns = 0; error_code = 0 })

abbrev nothing : History
nothing = record { queue = record { events = []; stop = false }; accepted = []; delivered = [] }

Reach-IsFifo_example : IsFifo (turn (post nothing started))
Reach-IsFifo_example =
    Reach-IsFifo (record { in_order = refl; bounded = omega arith })
      (next (next here (posts nothing started)) (turns (post nothing started)))
