-- ===== src/Master/Events/Order.antt =====
-- Threads that post events and the thread that runs the loop, in any interleaving of their steps.
use ul_ecat.Common.{
  ◌≤◌, ◌≡◌, sym, ap, ◌∙◌, List, [], ◌∷◌, ◌++◌, append_assoc, append-nil, length-append, Bool, true,
  false, arith, ltb, if◌then◌else◌, length,
}
use ul_ecat.Master.Events.{
  Event, max_events, post_evt, EventQueue, Turn, waits, stops, delivers, eventloop_turn,
  eventloop_start, eventloop_stop,
}

-- The queue, and what has happened so far: the events that were accepted and those delivered.
pub record History : Type 0 where
  pub queue : EventQueue
  pub accepted : List Event
  pub delivered : List Event

-- What a turn adds to the delivered events.
abbrev pub delivery : Turn → List Event
delivery (delivers e) = e ∷ []
delivery waits = []
delivery stops = []

unfoldable pub post : History → Event → History
post h e = record h {
  queue = record h.queue { events = post_evt h.queue.events e };
  accepted = if ltb (length h.queue.events) max_events then h.accepted ++ e ∷ [] else h.accepted;
}

unfoldable pub turn : History → History
turn h = record h {
  queue = (eventloop_turn h.queue).1;
  delivered = h.delivered ++ delivery (eventloop_turn h.queue).0;
}

pub data Step : History → History → Type 0 where
  posts : (h : History) (e : Event) → Step h (post h e)
  turns : (h : History) → Step h (turn h)
  is_started : (h : History) → Step h (record h { queue = eventloop_start h.queue })
  is_stopped : (h : History) → Step h (record h { queue = eventloop_stop h.queue })

pub data Reach (s : History) : History → Type 0 where
  here : Reach s s
  next : {t u : History} → Reach s t → Step t u → Reach s u

-- The accepted events are the delivered ones and then those that wait, in this order; at most
-- `MAX_EVENTS` wait.
pub record IsFifo (h : History) : Type 0 where
  pub in_order : h.accepted ≡ h.delivered ++ h.queue.events
  pub bounded : length h.queue.events ≤ 64

post-IsFifo : (h : History) (e : Event) → IsFifo h → IsFifo (post h e)
unfolding post post_evt
post-IsFifo h e f =
    ground (
      arith,
      append_assoc h.delivered h.queue.events (e ∷ []),
      length-append h.queue.events (e ∷ []),
    )

turned-IsFifo :
    (accepted delivered events : List Event) (stop : Bool)
    → accepted ≡ delivered ++ events
    → length events ≤ 64
    → IsFifo (
        turn (record {
          queue = record { events = events; stop = stop };
          accepted = accepted;
          delivered = delivered;
        }))
unfolding turn eventloop_turn
turned-IsFifo accepted delivered events true f b = record {
  in_order = f ∙ ap (λ l. l ++ events) (sym (append-nil delivered));
  bounded = b;
}
turned-IsFifo accepted delivered [] false f b = record {
  in_order = f ∙ ap (λ l. l ++ []) (sym (append-nil delivered));
  bounded = b;
}
turned-IsFifo accepted delivered (e ∷ es) false f b = record {
  in_order = f ∙ sym (append_assoc delivered (e ∷ []) es);
  bounded = omega arith;
}

turn-IsFifo : (h : History) → IsFifo h → IsFifo (turn h)
turn-IsFifo h f =
    turned-IsFifo h.accepted h.delivered h.queue.events h.queue.stop f.in_order f.bounded

Step-IsFifo : {h k : History} → Step h k → IsFifo h → IsFifo k
unfolding eventloop_start eventloop_stop
Step-IsFifo (posts h e) f = post-IsFifo h e f
Step-IsFifo (turns h) f = turn-IsFifo h f
Step-IsFifo (is_started h) f = record { in_order = f.in_order; bounded = f.bounded }
Step-IsFifo (is_stopped h) f = record { in_order = f.in_order; bounded = f.bounded }

-- Whatever the interleaving of posts, turns of the loop, starts and stops, the events are delivered in
-- the order in which they were accepted, none twice, and at most 64 wait.
pub Reach-IsFifo : {h k : History} → IsFifo h → Reach h k → IsFifo k
Reach-IsFifo f here = f
Reach-IsFifo f (next r st) = Step-IsFifo st (Reach-IsFifo f r)
