-- ===== src/Harness/Session.antt =====
-- A session of a client with the server.
use ul_ecat.Common.{
  ℕ, zero, suc, ◌≤◌, ◌<◌, ◌≡◌, refl, ap, sym, ◌∙◌, List, [], ◌∷◌, ◌++◌, append_assoc, true, false,
  arith, length,
}
use ul_ecat.Slave.Esc.{Slave}
use ul_ecat.Slave.Ethernet.{slave_process_ethernet}
use ul_ecat.Harness.{Connection, frame_buf, serve_turn, serve}
use ul_ecat.Harness.Stream.{IsStream}
use ul_ecat.Harness.Turns.{framed, answer, Ending, serve_turn-Serves, serve_turn-Stops}

-- The requests of a client, one behind the other.
abbrev pub requests : List (List ℕ) → List ℕ
requests [] = []
requests (f ∷ fs) = framed f ++ requests fs

abbrev pub AreRequests : List (List ℕ) → Type 0
AreRequests [] = Unit
AreRequests (f ∷ fs) = (0 < length f) × (length f ≤ frame_buf) × AreRequests fs

-- The slave answers the frames one after the other.
abbrev pub answers : Slave → List (List ℕ) → List ℕ
answers s [] = []
answers s (f ∷ fs) =
    answer (slave_process_ethernet s f frame_buf).1
    ++ answers (slave_process_ethernet s f frame_buf).0 fs

abbrev pub slave_after : Slave → List (List ℕ) → Slave
slave_after s [] = s
slave_after s (f ∷ fs) = slave_after (slave_process_ethernet s f frame_buf).0 fs

module _ {W : Type 0} (c : Connection W) (pending sent : W → List ℕ)
    (st : IsStream c pending sent) where
  serve_next :
      (turns : ℕ) (s : Slave) (w : W)
      → (serve_turn c s w).1 ≡ true
      → serve c (suc turns) s w ≡ serve c turns (serve_turn c s w).0.1 (serve_turn c s w).0.0
  unfolding serve
  serve_next turns s w e = rw (serve, e) refl

  serve_last :
      (turns : ℕ) (s : Slave) (w : W)
      → (serve_turn c s w).1 ≡ false
      → serve c (suc turns) s w ≡ ((serve_turn c s w).0, true)
  unfolding serve
  serve_last turns s w e = rw (serve, e) refl

  -- A client sends frames of 1 to 2048 bytes, each with its length in front, and then hangs up or
  -- sends a length of 0 or above 2048. However the connection cuts the bytes in both directions, the
  -- session comes to its end within one turn more than there are frames; the client receives the
  -- answers of the slave to the frames in order, an empty one where the slave has none, and an
  -- empty one for the bad length; the slave is left as the frames in order leave it.
  pub serve-answers :
      {p q : List ℕ} (fs : List (List ℕ)) (turns : ℕ) (s : Slave) (w : W)
      → AreRequests fs
      → Ending p q
      → pending w ≡ requests fs ++ p
      → length fs < turns
      → ((serve c turns s w).1 ≡ true)
        × ((serve c turns s w).0.1 ≡ slave_after s fs)
        × (sent (serve c turns s w).0.0 ≡ sent w ++ (answers s fs ++ q))
  serve-answers fs zero s w h e p enough = absurd (omega arith)
  serve-answers [] (suc turns) s w h e p enough =
      let (ended, after, out) = serve_turn-Stops c pending sent st s w e p in
      rw (serve_last turns s w ended) (refl, after, out)
  serve-answers {q} (f ∷ fs) (suc turns) s w h e p enough =
      let (goes_on, after, out, left) =
        serve_turn-Serves c pending sent st s w f (requests fs ++ _) h.0 h.1
          (p ∙ append_assoc (framed f) (requests fs) _) in
      let s' = (slave_process_ethernet s f frame_buf).0 in
      let (ended, after', out') =
        serve-answers fs turns (serve_turn c s w).0.1 (serve_turn c s w).0.0 h.2 e left
          (omega arith) in
      rw (serve_next turns s w goes_on) (
        ended,
        after' ∙ ap (λ (t : Slave). slave_after t fs) after,
        out'
            ∙ ap (λ (t : Slave). sent (serve_turn c s w).0.0 ++ (answers t fs ++ q)) after
            ∙ ap (λ (t : List ℕ). t ++ (answers s' fs ++ q)) out
            ∙ append_assoc (sent w) (answer (slave_process_ethernet s f frame_buf).1)
                (answers s' fs ++ q)
            ∙ ap (λ (t : List ℕ). sent w ++ t)
                (sym (
                  append_assoc (answer (slave_process_ethernet s f frame_buf).1) (answers s' fs)
                    q)),
      )
