-- ===== src/Master/State/Turns.antt =====
-- The fuel of the polling loop.
use ul_ecat.Common.{
  ℕ, zero, suc, ◌+◌, ◌*◌, ◌≤◌, ◌≡◌, refl, sym, ap, List, false, arith, ltb, if◌then◌else◌,
}
use ul_ecat.Master.{Transport, Port}
use ul_ecat.Master.State.{read_al_status_blocking, after_status, poll_loop}

-- After the time is over the loop ends.
poll_loop_over :
    {W : Type 0}
    → (turns : ℕ) (t : Transport W) (port : Port) (w : W)
    → (station desired : ℕ) (raw : List ℕ) (elapsed timeout_ms : ℕ) → timeout_ms ≤ elapsed
    → poll_loop turns t port w station desired raw elapsed timeout_ms ≡ (w, false)
unfolding poll_loop
poll_loop_over zero t port w station desired raw elapsed timeout_ms h = refl
poll_loop_over (suc turns) t port w station desired raw elapsed timeout_ms h =
    let over : ltb elapsed timeout_ms ≡ false = ground arith in rw over refl

-- Any two numbers of turns that reach the time limit give the same result.
pub poll_loop_enough :
    {W : Type 0}
    → (n m : ℕ) (t : Transport W) (port : Port) (w : W)
    → (station desired : ℕ) (raw : List ℕ) (elapsed timeout_ms : ℕ) → timeout_ms ≤ elapsed + n * 20
    → timeout_ms ≤ elapsed + m * 20
    → poll_loop n t port w station desired raw elapsed timeout_ms
      ≡ poll_loop m t port w station desired raw elapsed timeout_ms
unfolding poll_loop
poll_loop_enough zero m t port w station desired raw elapsed timeout_ms p q =
    sym (poll_loop_over m t port w station desired raw elapsed timeout_ms (omega arith))
poll_loop_enough (suc n) zero t port w station desired raw elapsed timeout_ms p q =
    poll_loop_over (suc n) t port w station desired raw elapsed timeout_ms (omega arith)
poll_loop_enough (suc n) (suc m) t port w station desired raw elapsed timeout_ms p q =
    ap
      (λ rest.
        if ltb elapsed timeout_ms
        then after_status (read_al_status_blocking t port w station raw 200) desired rest
        else (w, false))
      (poll_loop_enough n m t port
        (t.sleep_us (read_al_status_blocking t port w station raw 200).0 20000) station desired raw
        (elapsed + 20) timeout_ms (omega arith) (omega arith))
