-- ===== src/Harness/Stream.antt =====
-- `read_full` and `write_full` on a stream, however it is cut.
use ul_ecat.Common.{
  ℕ, zero, suc, ◌-◌, ◌≤◌, ◌<◌, ◌≡◌, refl, ap, sym, ◌∙◌, List, [], ◌∷◌, ◌++◌, append-nil,
  append_assoc, Option, none, some, Bool, true, false, arith, ◌==◌, length, length-take,
  length-drop, length-append, take, take-nil, drop, take-append-drop,
}
use ul_ecat.Harness.{Connection, read_loop, read_full, write_loop, write_full}

-- The client sends `pending` and has received `sent`. A read gives some of the bytes that are
-- asked for and pending, none only at the end, and a write takes some of the bytes.
pub record IsStream {W : Type 0} (c : Connection W) (pending sent : W → List ℕ) : Type 0 where
  pub read_some :
      (w : W) (n : ℕ)
      → 0 < n
      → (k : ℕ) × ((c.read w n).1 ≡ some (take k (pending w)))
        × (pending (c.read w n).0 ≡ drop k (pending w))
        × (sent (c.read w n).0 ≡ sent w)
        × (k ≤ n)
        × (0 < length (pending w) → 0 < k)
  pub write_some :
      (w : W) (bytes : List ℕ)
      → 0 < length bytes
      → (k : ℕ) × ((c.write w bytes).1 ≡ some k)
        × (sent (c.write w bytes).0 ≡ sent w ++ take k bytes)
        × (pending (c.write w bytes).0 ≡ pending w)
        × (0 < k)
        × (k ≤ length bytes)

take-append_short : (k : ℕ) (xs ys : List ℕ) → k ≤ length xs → take k (xs ++ ys) ≡ take k xs
take-append_short zero xs ys h = refl
take-append_short (suc k) [] ys h = absurd (omega arith)
take-append_short (suc k) (x ∷ xs) ys h = ap (◌∷◌ x) (take-append_short k xs ys (omega arith))

drop-append_short : (k : ℕ) (xs ys : List ℕ) → k ≤ length xs → drop k (xs ++ ys) ≡ drop k xs ++ ys
drop-append_short zero xs ys h = refl
drop-append_short (suc k) [] ys h = absurd (omega arith)
drop-append_short (suc k) (x ∷ xs) ys h = drop-append_short k xs ys (omega arith)

module _ {W : Type 0} (c : Connection W) (pending sent : W → List ℕ)
    (s : IsStream c pending sent) where
  -- What a complete read gives and leaves.
  abbrev pub Gives : W × Option (List ℕ) → List ℕ → List ℕ → List ℕ → Type 0
  Gives r got rest out = (r.1 ≡ some got) × (pending r.0 ≡ rest) × (sent r.0 ≡ out)

  read_loop_done :
      (turns : ℕ) (w : W) (got ys : List ℕ)
      → pending w ≡ ys
      → Gives (read_loop c turns w 0 got) got ys (sent w)
  unfolding read_loop
  read_loop_done zero w got ys e = (refl, e, refl)
  read_loop_done (suc turns) w got ys e = (refl, e, refl)

  read_piece :
      (w : W) (xs ys : List ℕ)
      → 0 < length xs
      → pending w ≡ xs ++ ys
      → (k : ℕ) × (0 < k)
        × (k ≤ length xs)
        × ((c.read w (length xs)).1 ≡ some (take k xs))
        × (pending (c.read w (length xs)).0 ≡ drop k xs ++ ys)
        × (sent (c.read w (length xs)).0 ≡ sent w)
  read_piece w xs ys some_xs e =
      let (k, read, rest, out, small, positive) = s.read_some w (length xs) some_xs in
      (
        k,
        positive (rw e (omega (arith, length-append xs ys))),
        small,
        read ∙ ap some (ap (take k) e ∙ take-append_short k xs ys small),
        rest ∙ ap (drop k) e ∙ drop-append_short k xs ys small,
        out,
      )

  read_loop_step :
      (turns : ℕ) (w : W) (left : ℕ) (got bytes : List ℕ)
      → 0 < left
      → (c.read w left).1 ≡ some bytes
      → 0 < length bytes
      → read_loop c (suc turns) w left got
        ≡ read_loop c turns (c.read w left).0 (left - length bytes) (got ++ bytes)
  unfolding read_loop
  read_loop_step turns w left got bytes some_left e some_bytes =
      let a : (left == 0) ≡ false = ground arith in
      let b : (length bytes == 0) ≡ false = ground arith in rw (read_loop, a, e, b) refl

  read_loop-Gives :
      (turns : ℕ) (w : W) (got xs ys : List ℕ)
      → length xs ≤ turns
      → pending w ≡ xs ++ ys
      → Gives (read_loop c turns w (length xs) got) (got ++ xs) ys (sent w)
  read_loop-Gives turns w got [] ys h e = rw append-nil (read_loop_done turns w got ys e)
  read_loop-Gives zero w got (x ∷ xs) ys h e = absurd (omega arith)
  read_loop-Gives (suc turns) w got (x ∷ xs) ys h e =
      let all = x ∷ xs in
      let (k, positive, small, read, rest, out) = read_piece w all ys (omega arith) e in
      let missing : length all - length (take k all) ≡ length (drop k all) =
        omega (arith, length-take k all, length-drop k all) in
      let (got_all, left, same) =
        read_loop-Gives turns (c.read w (length all)).0 (got ++ take k all) (drop k all) ys
          (omega (arith, length-drop k all)) rest in
      rw
        (
          read_loop_step turns w (length all) got (take k all) (omega arith) read
              (omega (arith, length-take k all)),
          missing,
        )
        (
          got_all
              ∙ ap some (
                  append_assoc got (take k all) (drop k all)
                  ∙ ap (λ (t : List ℕ). got ++ t) (take-append-drop k all)),
          left,
          same ∙ out,
        )

  -- Exactly the bytes asked for, when at least as many are pending.
  pub read_full-Gives :
      (w : W) (xs ys : List ℕ)
      → pending w ≡ xs ++ ys
      → Gives (read_full c w (length xs)) xs ys (sent w)
  unfolding read_full
  read_full-Gives w xs ys e = read_loop-Gives (length xs) w [] xs ys (omega arith) e

  write_loop_step :
      (turns : ℕ) (w : W) (bytes : List ℕ) (k : ℕ)
      → 0 < length bytes
      → (c.write w bytes).1 ≡ some k
      → 0 < k
      → write_loop c (suc turns) w bytes ≡ write_loop c turns (c.write w bytes).0 (drop k bytes)
  unfolding write_loop
  write_loop_step turns w bytes k some_bytes e positive =
      let a : (length bytes == 0) ≡ false = ground arith in
      let b : (k == 0) ≡ false = ground arith in rw (write_loop, a, e, b) refl

  -- What a complete write leaves.
  abbrev pub Puts : W × Bool → List ℕ → List ℕ → Type 0
  Puts r out rest = (r.1 ≡ true) × (sent r.0 ≡ out) × (pending r.0 ≡ rest)

  write_loop-Puts :
      (turns : ℕ) (w : W) (bytes : List ℕ)
      → length bytes ≤ turns
      → Puts (write_loop c turns w bytes) (sent w ++ bytes) (pending w)
  unfolding write_loop
  write_loop-Puts zero w [] h = (refl, sym (append-nil (sent w)), refl)
  write_loop-Puts zero w (b ∷ bs) h = absurd (omega arith)
  write_loop-Puts (suc turns) w [] h = (refl, sym (append-nil (sent w)), refl)
  write_loop-Puts (suc turns) w (b ∷ bs) h =
      let all = b ∷ bs in
      let (k, taken, out, same, positive, small) = s.write_some w all (omega arith) in
      let (done, out', same') =
        write_loop-Puts turns (c.write w all).0 (drop k all) (omega (arith, length-drop k all)) in
      rw (write_loop_step turns w all k (omega arith) taken positive) (
        done,
        out'
            ∙ ap (λ (t : List ℕ). t ++ drop k all) out
            ∙ append_assoc (sent w) (take k all) (drop k all)
            ∙ ap (λ (t : List ℕ). sent w ++ t) (take-append-drop k all),
        same' ∙ same,
      )

  -- All of the bytes reach the client, in order.
  pub write_full-Puts :
      (w : W) (bytes : List ℕ) → Puts (write_full c w bytes) (sent w ++ bytes) (pending w)
  unfolding write_full
  write_full-Puts w bytes = write_loop-Puts (length bytes) w bytes (omega arith)

  read_loop_end :
      (turns : ℕ) (w : W) (left : ℕ) (got : List ℕ)
      → 0 < left
      → (c.read w left).1 ≡ some []
      → ((read_loop c turns w left got).1 ≡ none)
        × (sent (c.read w left).0 ≡ sent w → sent (read_loop c turns w left got).0 ≡ sent w)
  unfolding read_loop
  read_loop_end zero w left got h e =
      let a : (left == 0) ≡ false = ground arith in rw (read_loop, a) (refl, λ same. refl)
  read_loop_end (suc turns) w left got h e =
      let a : (left == 0) ≡ false = ground arith in rw (read_loop, a, e) (refl, λ same. same)

  -- Nothing is read at the end of the stream.
  pub read_full_end :
      (w : W) (n : ℕ)
      → 0 < n
      → pending w ≡ []
      → ((read_full c w n).1 ≡ none) × (sent (read_full c w n).0 ≡ sent w)
  unfolding read_full
  read_full_end w n h e =
      let (k, read, rest, out, small, positive) = s.read_some w n h in
      let ended = read_loop_end n w n [] h (read ∙ ap some (ap (take k) e ∙ take-nil k)) in
      (ended.0, ended.1 out)
