-- ===== src/Master/Receive/Invariant.antt =====
-- What one cycle of src/master/ul_ecat_master.c leaves in place.
use ul_ecat.Common.{
  ℕ, zero, suc, ◌+◌, ◌≤◌, ◌≡◌, refl, List, Option, none, some, Bool, true, false, ltb,
  if◌then◌else◌, length, arith,
}
use ul_ecat.Wire.Datagram.{Parsed}
use ul_ecat.Wire.Pdu.{dgram_parse, Count, counted, malformed, out_of_fuel, pdu_count_datagrams}
use ul_ecat.Wire.Ethernet.{parse_eth_frame}
use ul_ecat.Master.{Transport, Port}
use ul_ecat.Master.Queue.{send_batched_frames}
use ul_ecat.Master.Events.{frame_received}
use ul_ecat.Master.Clock.{Cyclic, dc_cycle}
use ul_ecat.Master.Clock.Invariant.{
  IsCyclic, post_evt_bound, dc_cycle-IsCyclic, handle_dc_response-IsCyclic,
}
use ul_ecat.Master.Receive.{
  r64_le, is_dc_answer, rx_datagram, rx_loop, process_rx_datagrams, frame_of, received_frame,
  receive_loop, receive_frames_nonblock, cycle, cycles,
}

-- The second component of a conditional pair.
either :
    {W : Type 0} (b : Bool) (p q : W × Cyclic)
    → (b ≡ true → IsCyclic p.1)
    → (b ≡ false → IsCyclic q.1)
    → IsCyclic (if b then p else q).1
either true p q when unless = when refl
either false p q when unless = unless refl

optional :
    {A W : Type 0} (o : Option A) (p : W × Cyclic) (f : A → W × Cyclic)
    → IsCyclic p.1
    → ((x : A) → IsCyclic (f x).1)
    → IsCyclic (elim o as (λ x. W × Cyclic) [ none ↦ p | some x ↦ f x ]).1
optional none p f c d = c
optional (some x) p f c d = d x

rx_counted-IsCyclic :
    {W : Type 0} (count : Count) (t : Transport W) (w : W) (m : Cyclic) (f : ℕ → W × Cyclic)
    → IsCyclic m
    → ((n : ℕ) → IsCyclic (f n).1)
    → IsCyclic
        (elim count as (λ x. W × Cyclic) [
          | counted n ↦ f n
          | malformed ↦ (w, m)
          | out_of_fuel ↦ (w, m)
        ]).1
rx_counted-IsCyclic (counted n) t w m f c d = d n
rx_counted-IsCyclic malformed t w m f c d = c
rx_counted-IsCyclic out_of_fuel t w m f c d = c

rx_datagram-IsCyclic :
    {W : Type 0} (t : Transport W) (w : W) (m : Cyclic) (p : Option Parsed)
    → IsCyclic m
    → IsCyclic (rx_datagram t w m p).1
unfolding rx_datagram
rx_datagram-IsCyclic t w m none c = c
rx_datagram-IsCyclic t w m (some p) c =
    either (is_dc_answer p) _ _
      (λ _. handle_dc_response-IsCyclic m (t.monotonic_ns w).1 (r64_le p.copied) c) (λ _. c)

rx_loop-IsCyclic :
    {W : Type 0} (pdu : List ℕ) (left i : ℕ) (t : Transport W) (w : W) (m : Cyclic)
    → IsCyclic m
    → IsCyclic (rx_loop pdu left i t w m).1
unfolding rx_loop
rx_loop-IsCyclic pdu zero i t w m c = c
rx_loop-IsCyclic pdu (suc left) i t w m c =
    rx_loop-IsCyclic pdu left (i + 1) t _ _
      (rx_datagram-IsCyclic t w m (dgram_parse pdu i (some 32)) c)

process_rx_datagrams-IsCyclic :
    {W : Type 0} (t : Transport W) (w : W) (m : Cyclic) (pdu : List ℕ)
    → IsCyclic m
    → IsCyclic (process_rx_datagrams t w m pdu).1
unfolding process_rx_datagrams
process_rx_datagrams-IsCyclic t w m pdu c =
    rx_counted-IsCyclic (pdu_count_datagrams pdu) t w m _ c
      (λ nd. rx_loop-IsCyclic pdu nd 0 t w m c)

received_frame-IsCyclic :
    {W : Type 0} (t : Transport W) (w : W) (m : Cyclic) (rx : List ℕ)
    → IsCyclic m
    → IsCyclic (received_frame t w m rx).1
unfolding received_frame
received_frame-IsCyclic t w m rx c = optional (parse_eth_frame rx) _ _ c (λ pdu.
    let after = process_rx_datagrams-IsCyclic t w m pdu c in
    either (ltb 1514 (length rx)) _ _ (λ _. after)
      (λ _. record {
        legal = after.legal;
        in_time = after.in_time;
        sound = after.sound;
        failed = after.failed;
        events_fit = post_evt_bound _ (frame_received (frame_of rx) (length rx)) after.events_fit;
        queue_fits = after.queue_fits;
      }))

receive_loop-IsCyclic :
    {W : Type 0} (turns : ℕ) (t : Transport W) (w : W) (m : Cyclic)
    → IsCyclic m
    → IsCyclic (receive_loop turns t w m).1
unfolding receive_loop
receive_loop-IsCyclic zero t w m c = c
receive_loop-IsCyclic (suc turns) t w m c =
    optional (t.recv w 1600).1 _ _ c
      (λ rx. receive_loop-IsCyclic turns t _ _ (received_frame-IsCyclic t (t.recv w 1600).0 m rx c))

receive_frames_nonblock-IsCyclic :
    {W : Type 0} (turns : ℕ) (t : Transport W) (port : Port) (w : W) (m : Cyclic)
    → IsCyclic m
    → IsCyclic (receive_frames_nonblock turns t port w m).1
unfolding receive_frames_nonblock
receive_frames_nonblock-IsCyclic turns t port w m c =
    either port.is_open _ _
      (λ _. either (t.wait_readable w 0).1 _ _ (λ _. receive_loop-IsCyclic turns t _ m c) (λ _. c))
      (λ _. c)

-- Sending empties the queue or leaves it.
send_batched_frames_bound :
    {W : Type 0} (t : Transport W) (port : Port) (w : W) (m : Cyclic)
    → IsCyclic m
    → length (send_batched_frames t port w m.queue).1.items ≤ 32
unfolding send_batched_frames
send_batched_frames_bound t port w m c = ground (arith, c.queue_fits)

cycle-IsCyclic :
    {W : Type 0} (turns : ℕ) (t : Transport W) (port : Port) (w : W) (m : Cyclic)
    → IsCyclic m
    → IsCyclic (cycle turns t port w m).1
unfolding cycle
cycle-IsCyclic turns t port w m c =
    let asked = dc_cycle-IsCyclic m c in
    receive_frames_nonblock-IsCyclic turns t port _ _ (record {
      legal = asked.legal;
      in_time = asked.in_time;
      sound = asked.sound;
      failed = asked.failed;
      events_fit = asked.events_fit;
      queue_fits = send_batched_frames_bound t port w (dc_cycle m) asked;
    })

-- Any number of cycles, on any network and with any frames coming back, leaves in place: the
-- clock is in one of its four states, counts at most 50 unanswered cycles while it operates, has
-- an error code exactly when it has failed, and that code is 1 or 2; at most 64 events and 32
-- datagrams wait.
pub cycles-IsCyclic :
    {W : Type 0} (n turns : ℕ) (t : Transport W) (port : Port) (w : W) (m : Cyclic)
    → IsCyclic m
    → IsCyclic (cycles n turns t port w m).1
unfolding cycles
cycles-IsCyclic zero turns t port w m c = c
cycles-IsCyclic (suc n) turns t port w m c =
    cycles-IsCyclic n turns t port _ _ (cycle-IsCyclic turns t port w m c)
