-- ===== src/Master/Clock/Invariant.antt =====
-- What holds of the clock, the event queue and the datagram queue between two steps of the cycle.
use ul_ecat.Common.{
  ℕ, ◌+◌, ◌-◌, ◌%◌, ◌≤◌, ◌≡◌, ◌≢◌, ◌⊎◌, inl, refl, List, [], ◌∷◌, length-append, Option, none, some,
  Bool, true, false, arith, ltb, ◌==◌, if◌then◌else◌, length,
}
use ul_ecat.Master.Queue.{Queue, q_push_encoded, pushed, queue_fprd, queue_fpwr}
use ul_ecat.Master.Events.{dc_event_init, dc_event_error, Event, post_evt}
use ul_ecat.Master.Clock.{
  Cyclic, reg_dcsys0, reg_dcsysofs, threshold_ns, range, magnitude, post_dc, dc_init, dc_ask,
  dc_cycle, handle_dc_response,
}

pub record IsCyclic (m : Cyclic) : Type 0 where
  pub legal : m.clock.state ≤ 3
  pub in_time : m.clock.state ≡ 2 → m.clock.timeout ≤ 50
  pub sound : m.clock.state ≢ 3 → m.clock.error_code ≡ 0
  pub failed : m.clock.state ≡ 3 → (m.clock.error_code ≡ 1) ⊎ (m.clock.error_code ≡ 2)
  pub events_fit : length m.events ≤ 64
  pub queue_fits : length m.queue.items ≤ 32

pub post_evt_bound :
    (events : List Event) (e : Event) → length events ≤ 64 → length (post_evt events e) ≤ 64
unfolding post_evt
post_evt_bound events e h = ground (arith, length-append events (e ∷ []))

pushed_bound :
    (items : List (List ℕ)) (wire : Option (List ℕ))
    → length items ≤ 32
    → length (pushed items wire) ≤ 32
unfolding pushed q_push_encoded
pushed_bound items none h = h
pushed_bound items (some wire) h = ground (arith, length-append items (wire ∷ []))

queue_fprd_bound :
    (q : Queue) (adp ado len : ℕ)
    → length q.items ≤ 32
    → length (queue_fprd q adp ado len).items ≤ 32
unfolding queue_fprd
queue_fprd_bound q adp ado len h = pushed_bound q.items _ h

queue_fpwr_bound :
    (q : Queue) (adp ado : ℕ) (bytes : List ℕ)
    → length q.items ≤ 32
    → length (queue_fpwr q adp ado bytes).items ≤ 32
unfolding queue_fpwr
queue_fpwr_bound q adp ado bytes h = pushed_bound q.items _ h

either :
    (b : Bool) (p q : Cyclic)
    → (b ≡ true → IsCyclic p)
    → (b ≡ false → IsCyclic q)
    → IsCyclic (if b then p else q)
either true p q when unless = when refl
either false p q when unless = unless refl

pub dc_init-IsCyclic : (m : Cyclic) → IsCyclic m → IsCyclic (dc_init m)
unfolding dc_init post_dc
dc_init-IsCyclic m c = ground (
  arith,
  post_evt_bound m.events
      (Event.dc (record { event = dc_event_init; offset_ns = 0; error_code = 0 })) c.events_fit,
)

dc_ask-IsCyclic :
    (m : Cyclic)
    → m.clock.state ≡ 2
    → m.clock.error_code ≡ 0
    → length m.events ≤ 64
    → length m.queue.items ≤ 32
    → IsCyclic (dc_ask m)
unfolding dc_ask post_dc
dc_ask-IsCyclic m s c e q = ground (
  arith,
  post_evt_bound m.events
      (Event.dc (record { event = dc_event_error; offset_ns = m.clock.offset; error_code = 2 })) e,
  queue_fprd_bound m.queue 0 reg_dcsys0 8 q,
)

pub dc_cycle-IsCyclic : (m : Cyclic) → IsCyclic m → IsCyclic (dc_cycle m)
unfolding dc_cycle
dc_cycle-IsCyclic m c =
    either (m.clock.state == 0) _ _ (λ _. c)
      (λ _.
        either (m.clock.state == 3) _ _ (λ _. c)
          (λ _.
            either (m.clock.state == 1) _ _
              (λ h.
                dc_ask-IsCyclic (record m { clock = record m.clock { state = 2 } }) refl
                  (c.sound (ground arith)) c.events_fit c.queue_fits)
              (λ _.
                either (m.clock.state == 2) _ _
                  (λ h.
                    dc_ask-IsCyclic m (ground arith) (c.sound (ground arith)) c.events_fit
                      c.queue_fits)
                  (λ _. c))))

-- A correction leaves the state, so that a clock that had failed keeps its error.
pub handle_dc_response-IsCyclic :
    (m : Cyclic) (master slave_time_ns : ℕ)
    → IsCyclic m
    → IsCyclic (handle_dc_response m master slave_time_ns)
unfolding handle_dc_response post_dc
handle_dc_response-IsCyclic m master slave_time_ns c =
    let off : ℕ = (slave_time_ns + (range - master)) % range in
    either (ltb threshold_ns (magnitude off)) _ _
      (λ _. record {
        legal = omega arith;
        in_time = omega arith;
        sound = λ h. elim (h refl) [ ];
        failed = λ _. inl refl;
        events_fit = post_evt_bound m.events _ c.events_fit;
        queue_fits = c.queue_fits;
      })
      (λ _. record {
        legal = c.legal;
        in_time = λ _. omega arith;
        sound = c.sound;
        failed = c.failed;
        events_fit = post_evt_bound m.events _ c.events_fit;
        queue_fits = queue_fpwr_bound m.queue 0 reg_dcsysofs _ c.queue_fits;
      })
