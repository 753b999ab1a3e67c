-- ===== src/Harness/Turns.antt =====
-- A turn of the server: a request with its answer, or the last one.
use ul_ecat.Common.{
  ℕ, suc, ◌^◌, ◌≤◌, ◌<◌, ◌≡◌, ◌⊎◌, refl, ap, sym, ◌∙◌, List, [], ◌∷◌, ◌++◌, append-nil,
  append_assoc, Option, none, some, Bool, true, false, arith, ltb, lt→ltb, ◌==◌, ◌||◌,
  if◌then◌else◌, length,
}
use ul_ecat.Slave.Esc.{Slave}
use ul_ecat.Slave.Ethernet.{slave_process_ethernet}
use ul_ecat.Harness.{
  Connection, be32, from_be32, frame_buf, read_full, write_full, write_reply, replied, after_frame,
  after_length, serve_turn,
}
use ul_ecat.Harness.Stream.{IsStream, Puts, read_full-Gives, write_full-Puts, read_full_end}

abbrev pub framed : List ℕ → List ℕ
framed f = be32 (length f) ++ f

-- What a client receives for one result of the slave: the frame, or an empty one.
abbrev pub answer : Option (List ℕ) → List ℕ
answer none = be32 0
answer (some tx) = framed tx

-- How a session ends: the stream is over, or a length is not that of a frame.
pub data Ending : List ℕ → List ℕ → Type 0 where
  hung_up : Ending [] []
  bad_length :
      (n : ℕ) (junk : List ℕ)
      → n < 2 ^ 32
      → (n ≡ 0) ⊎ (frame_buf < n)
      → Ending (be32 n ++ junk) (be32 0)

from_be32-be32 : (n : ℕ) → n < 2 ^ 32 → from_be32 (be32 n) ≡ n
from_be32-be32 n h = omega arith

module _ {W : Type 0} (c : Connection W) (pending sent : W → List ℕ)
    (st : IsStream c pending sent) where
  write_body-Puts :
      (w : W) (header : W × Bool) (tx : List ℕ)
      → Puts c pending sent st header (sent w ++ be32 (length tx)) (pending w)
      → Puts c pending sent st
          (if header.1
            then if ltb 0 (length tx) then write_full c header.0 tx else header
            else header)
          (sent w ++ framed tx)
          (pending w)
  write_body-Puts w header [] h = rw h.0 (refl, h.1, h.2)
  write_body-Puts w header (b ∷ bs) h =
      let (done, out, rest) = write_full-Puts c pending sent st header.0 (b ∷ bs) in
      rw (h.0, lt→ltb 0 (suc (length bs)) (omega arith))
        (
          done,
          out
              ∙ ap (λ (t : List ℕ). t ++ (b ∷ bs)) h.1
              ∙ append_assoc (sent w) (be32 (length (b ∷ bs))) (b ∷ bs),
          rest ∙ h.2,
        )

  write_reply-Puts :
      (w : W) (o : Option (List ℕ))
      → Puts c pending sent st (write_reply c w o) (sent w ++ answer o) (pending w)
  unfolding write_reply
  write_reply-Puts w none = write_full-Puts c pending sent st w (be32 0)
  write_reply-Puts w (some tx) =
      write_body-Puts w (write_full c w (be32 (length tx))) tx
        (write_full-Puts c pending sent st w (be32 (length tx)))

  -- What a turn leaves when the client goes on.
  abbrev pub Serves : (W × Slave) × Bool → Slave → List ℕ → List ℕ → Type 0
  Serves r s out rest = (r.1 ≡ true) × (r.0.1 ≡ s) × (sent r.0.0 ≡ out) × (pending r.0.0 ≡ rest)

  after_frame-Serves :
      (s : Slave) (r : W × Option (List ℕ)) (f : List ℕ)
      → r.1 ≡ some f
      → Serves
          (after_frame c s r)
          (slave_process_ethernet s f frame_buf).0
          (sent r.0 ++ answer (slave_process_ethernet s f frame_buf).1)
          (pending r.0)
  unfolding after_frame replied
  after_frame-Serves s (w, rx) f e =
      let (done, out, rest) = write_reply-Puts w (slave_process_ethernet s f frame_buf).1 in
      rw (e) (done, refl, out, rest)

  after_length-Serves :
      (s : Slave) (r : W × Option (List ℕ)) (f ys : List ℕ)
      → r.1 ≡ some (be32 (length f))
      → pending r.0 ≡ f ++ ys
      → 0 < length f
      → length f ≤ frame_buf
      → Serves
          (after_length c s r)
          (slave_process_ethernet s f frame_buf).0
          (sent r.0 ++ answer (slave_process_ethernet s f frame_buf).1)
          ys
  unfolding after_length
  after_length-Serves s (w, nbe) f ys e p some_bytes fits =
      let (got, rest, same) = read_full-Gives c pending sent st w f ys p in
      let (done, after, out, left) = after_frame-Serves s (read_full c w (length f)) f got in
      let size : from_be32 (be32 (length f)) ≡ length f = from_be32-be32 (length f) (omega arith) in
      let test : (length f == 0 || ltb frame_buf (length f)) ≡ false = ground arith in
      rw (e) (
        rw (size, test)
          (
            done,
            after,
            out ∙ ap (λ (t : List ℕ). t ++ answer (slave_process_ethernet s f frame_buf).1) same,
            left ∙ rest,
          ))

  pub serve_turn-Serves :
      (s : Slave) (w : W) (f ys : List ℕ)
      → 0 < length f
      → length f ≤ frame_buf
      → pending w ≡ framed f ++ ys
      → Serves
          (serve_turn c s w)
          (slave_process_ethernet s f frame_buf).0
          (sent w ++ answer (slave_process_ethernet s f frame_buf).1)
          ys
  unfolding serve_turn
  serve_turn-Serves s w f ys some_bytes fits e =
      let (got, rest, same) =
        read_full-Gives c pending sent st w (be32 (length f)) (f ++ ys)
          (e ∙ append_assoc (be32 (length f)) f ys) in
      let (done, after, out, left) =
        after_length-Serves s (read_full c w 4) f ys got rest some_bytes fits in
      (
        done,
        after,
        out ∙ ap (λ (t : List ℕ). t ++ answer (slave_process_ethernet s f frame_buf).1) same,
        left,
      )

  -- What the last turn leaves.
  abbrev pub Stops : (W × Slave) × Bool → Slave → List ℕ → Type 0
  Stops r s out = (r.1 ≡ false) × (r.0.1 ≡ s) × (sent r.0.0 ≡ out)

  after_length-none :
      (s : Slave) (r : W × Option (List ℕ)) → r.1 ≡ none → Stops (after_length c s r) s (sent r.0)
  unfolding after_length
  after_length-none s (w, nbe) e = rw e (refl, refl, refl)

  after_length_bad :
      (s : Slave) (r : W × Option (List ℕ)) (n : ℕ)
      → r.1 ≡ some (be32 n)
      → n < 2 ^ 32
      → (n ≡ 0) ⊎ (frame_buf < n)
      → Stops (after_length c s r) s (sent r.0 ++ be32 0)
  unfolding after_length
  after_length_bad s (w, nbe) n e small bad =
      let size : from_be32 (be32 n) ≡ n = from_be32-be32 n small in
      let test : (n == 0 || ltb frame_buf n) ≡ true = ground arith in
      let (done, out, left) = write_full-Puts c pending sent st w (be32 0) in
      rw (e) (rw (size, test) (refl, refl, out))

  pub serve_turn-Stops :
      {p q : List ℕ} (s : Slave) (w : W)
      → Ending p q
      → pending w ≡ p
      → Stops (serve_turn c s w) s (sent w ++ q)
  unfolding serve_turn
  serve_turn-Stops s w hung_up e =
      let (got, same) = read_full_end c pending sent st w 4 (omega arith) e in
      let (ended, after, out) = after_length-none s (read_full c w 4) got in
      (ended, after, out ∙ same ∙ sym (append-nil (sent w)))
  serve_turn-Stops s w (bad_length n junk small bad) e =
      let (got, rest, same) = read_full-Gives c pending sent st w (be32 n) junk e in
      let (ended, after, out) = after_length_bad s (read_full c w 4) n got small bad in
      (ended, after, out ∙ ap (λ (t : List ℕ). t ++ be32 0) same)
