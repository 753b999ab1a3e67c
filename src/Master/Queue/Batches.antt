-- ===== src/Master/Queue/Batches.antt =====
-- The frames carry the whole queue, in order, in whole entries, each frame as many as fit.
use ul_ecat.Common.{
  ℕ, zero, suc, ◌+◌, ◌≤◌, ◌≡◌, sym, ap, ◌∙◌, append-nil, List, [], ◌∷◌, ◌++◌, append_assoc,
  if◌then◌else◌, Bool, none, some, true, false, arith, length,
}
use ul_ecat.Wire.Ethernet.{build_eth_frame}
use ul_ecat.Wire.Ethernet.RoundTrip.{eth_frame, build_eth_frame_lem}
use ul_ecat.Master.{Transport, Port}
use ul_ecat.Master.Queue.{Queue, fill_batch, send_loop, send_batched_frames}
use ul_ecat.Master.Queue.Groups.{
  joined, AllFit, concat, AreBatches, group, fill_batch-group, group_bound, groups,
  groups-AreBatches, concat-groups,
}

-- The frames of the groups.
pub framed : Port → List (List (List ℕ)) → List (List ℕ)
framed port [] = []
framed port (g ∷ gs) = eth_frame port.dst_mac port.src_mac (joined g) ∷ framed port gs

-- A transport that keeps what is sent.
abbrev pub recorder : Transport (List (List ℕ))
recorder = record {
  send = λ sent frame. (sent ++ frame ∷ [], true);
  wait_readable = λ sent timeout_ms. (sent, false);
  recv = λ sent room. (sent, none);
  sleep_us = λ sent us. sent;
  sleep_until_ns = λ sent ns. sent;
  monotonic_ns = λ sent. (sent, 0);
}

built :
    (port : Port) (payload : List ℕ)
    → 0 + length payload ≤ 1498
    → build_eth_frame port.dst_mac port.src_mac payload 1600
      ≡ some (eth_frame port.dst_mac port.src_mac payload)
built port payload h =
    rw (build_eth_frame_lem port.dst_mac port.src_mac payload 1600) (ground arith)

send_loop-recorder :
    (turns : ℕ) (port : Port) (sent items : List (List ℕ))
    → send_loop turns recorder port sent items ≡ sent ++ framed port (groups turns items)
unfolding send_loop groups framed
send_loop-recorder zero port sent items = sym (append-nil sent)
send_loop-recorder (suc turns) port sent [] = sym (append-nil sent)
send_loop-recorder (suc turns) port sent (x ∷ xs) =
    let payload = (fill_batch 0 (x ∷ xs)).0 in
    let fits : 0 + length payload ≤ 1498 =
      rw (fill_batch-group 0 (x ∷ xs)) (group_bound 0 (x ∷ xs) (omega arith)) in
    let g = group 0 (x ∷ xs) in
    let frame : List ℕ = eth_frame port.dst_mac port.src_mac (joined g.0) in
    rw (built port payload fits, send_loop)
      (ap
          (λ (r : List ℕ × List (List ℕ)).
            send_loop turns recorder port (sent ++ eth_frame port.dst_mac port.src_mac r.0 ∷ [])
              r.1)
          (fill_batch-group 0 (x ∷ xs))
        ∙ send_loop-recorder turns port (sent ++ frame ∷ []) g.1
        ∙ append_assoc sent (frame ∷ []) (framed port (groups turns g.1)))

-- On an open port, a queue of entries that each fit a frame goes out whole: the entries, in order,
-- fall into groups, and the frames sent are one for each group, whose payload is its entries one
-- after the other. No entry is cut across two frames, every frame has at least one entry, its
-- payload is at most 1498 bytes, and the first entry of the next frame would not have fitted. The
-- queue is empty afterwards, and its index counter is kept.
pub send_batched_frames-AreBatches :
    (port : Port) (q : Queue)
    → port.is_open ≡ true
    → AllFit q.items
    → (groups : List (List (List ℕ))) × (send_batched_frames recorder port [] q
        ≡ (framed port groups, record { items = []; index_seq = q.index_seq }))
      × (concat groups ≡ q.items)
      × AreBatches groups
unfolding send_batched_frames
send_batched_frames-AreBatches port q up h = (
  groups (length q.items) q.items,
  ap
        (λ (b : Bool).
          if b
          then (
            send_loop (length q.items) recorder port [] q.items,
            record { items = []; index_seq = q.index_seq },
          )
          else ([], q))
        up
      ∙ ap (λ (sent : List (List ℕ)). (sent, record { items = []; index_seq = q.index_seq }))
          (send_loop-recorder (length q.items) port [] q.items),
  concat-groups (length q.items) q.items h (omega arith),
  groups-AreBatches (length q.items) q.items h,
)
