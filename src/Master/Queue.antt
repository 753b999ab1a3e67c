-- ===== src/Master/Queue.antt =====
-- The datagram queue of src/master/ul_ecat_master.c and the frames that empty it. The messages on
-- the standard output and the locks have no counterpart.
pub mod Groups
pub mod Batches
use ul_ecat.Common.{
  ℕ, zero, suc, ◌+◌, List, [], ◌∷◌, ◌++◌, Option, none, some, ltb, if◌then◌else◌, u8, length,
}
use ul_ecat.Wire.Ethernet.{max_ec_payload, build_eth_frame}
use ul_ecat.Wire.Datagram.{cmd_fprd, cmd_fpwr, dgram_encode}
use ul_ecat.Master.{Transport, Port}

-- Q_MAX, DGRAM_BUF
abbrev pub q_max : ℕ
q_max = 32

abbrev pub dgram_buf : ℕ
dgram_buf = 512

-- The entries of `g_q` up to `g_q_count`, and `g_dgram_index_seq`.
pub record Queue : Type 0 where
  pub items : List (List ℕ)
  pub index_seq : ℕ

-- `none` is the -1.
unfoldable pub q_push_encoded : List (List ℕ) → List ℕ → Option (List (List ℕ))
q_push_encoded items wire =
    if ltb (length items) q_max
    then if ltb dgram_buf (length wire) then none else some (items ++ wire ∷ [])
    else none

unfoldable pub pushed : List (List ℕ) → Option (List ℕ) → List (List ℕ)
pushed items none = items
pushed items (some wire) = elim (q_push_encoded items wire) [ none ↦ items | some more ↦ more ]

unfoldable pub queue_fprd : Queue → ℕ → ℕ → ℕ → Queue
unfolding pushed
queue_fprd q adp ado len = record {
  items = pushed q.items (dgram_encode dgram_buf cmd_fprd q.index_seq adp ado len 0 0 none);
  index_seq = u8 (q.index_seq + 1);
}

unfoldable pub queue_fpwr : Queue → ℕ → ℕ → List ℕ → Queue
unfolding pushed
queue_fpwr q adp ado bytes = record {
  items =
      pushed q.items
        (dgram_encode dgram_buf cmd_fpwr q.index_seq adp ado (length bytes) 0 0 (some bytes));
  index_seq = u8 (q.index_seq + 1);
}

-- The inner loop: what goes into one frame, of which `off` bytes are taken, and what is left.
unfoldable pub fill_batch : ℕ → List (List ℕ) → List ℕ × List (List ℕ)
fill_batch off [] = ([], [])
fill_batch off (wire ∷ items) =
    let rest = fill_batch (off + length wire) items in
    if ltb max_ec_payload (off + length wire) then ([], wire ∷ items) else (wire ++ rest.0, rest.1)

-- The outer loop. Every frame takes at least one entry, so that as many turns as there are
-- entries are enough.
unfoldable pub send_loop : {W : Type 0} → ℕ → Transport W → Port → W → List (List ℕ) → W
send_loop zero t port w items = w
send_loop (suc turns) t port w [] = w
send_loop (suc turns) t port w (wire ∷ items) =
    let batch = fill_batch 0 (wire ∷ items) in
    elim (build_eth_frame port.dst_mac port.src_mac batch.0 1600) [
      | none ↦ w
      | some frame ↦ send_loop turns t port (t.send w frame).0 batch.1
    ]

unfoldable pub send_batched_frames : {W : Type 0} → Transport W → Port → W → Queue → W × Queue
send_batched_frames t port w q =
    if port.is_open
    then (
      send_loop (length q.items) t port w q.items,
      record { items = []; index_seq = q.index_seq },
    )
    else (w, q)
