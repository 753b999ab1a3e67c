-- ===== src/Master/Receive/Timeout.antt =====
-- The cycles of src/master/ul_ecat_master.c in which nothing comes back.
use ul_ecat.Common.{ℕ, zero, suc, ◌+◌, ◌≡◌, refl, ap, ◌∙◌, false, leb, if◌then◌else◌, arith}
use ul_ecat.Master.{Transport, Port}
use ul_ecat.Master.Clock.{DcClock, Cyclic, dc_init, dc_ask, dc_cycle, post_dc}
use ul_ecat.Master.Receive.{receive_frames_nonblock, cycle, cycles}

-- Nothing ever becomes readable.
abbrev pub IsSilent : {W : Type 0} → Transport W → Type 0
IsSilent {W} t = (w : W) (timeout_ms : ℕ) → (t.wait_readable w timeout_ms).1 ≡ false

-- The clock after `n` unanswered cycles, `k` after its start: a count up to 50, and then an error.
abbrev pub unanswered : ℕ → ℕ → DcClock
unanswered offset n =
    if leb n 50
    then record { state = 2; offset = offset; timeout = n; error_code = 0 }
    else record { state = 3; offset = offset; timeout = 51; error_code = 2 }

receive_frames_nonblock-silent :
    {W : Type 0} (turns : ℕ) (t : Transport W) (port : Port) (w : W) (m : Cyclic)
    → IsSilent t
    → (receive_frames_nonblock turns t port w m).1 ≡ m
unfolding receive_frames_nonblock
receive_frames_nonblock-silent turns t port w m silent = ground (arith, silent w 0)

cycle-silent :
    {W : Type 0} (turns : ℕ) (t : Transport W) (port : Port) (w : W) (m : Cyclic)
    → IsSilent t
    → (cycle turns t port w m).1.clock ≡ (dc_cycle m).clock
unfolding cycle
cycle-silent turns t port w m silent =
    ap (λ (c : Cyclic). c.clock) (receive_frames_nonblock-silent turns t port _ _ silent)

dc_cycle-unanswered :
    (m : Cyclic) (offset n : ℕ)
    → m.clock ≡ unanswered offset n
    → (dc_cycle m).clock ≡ unanswered offset (suc n)
unfolding dc_cycle dc_ask post_dc
dc_cycle-unanswered m offset n h = ground arith

dc_cycle-first : (m : Cyclic) → (dc_cycle (dc_init m)).clock ≡ unanswered 0 1
unfolding dc_cycle dc_ask post_dc dc_init
dc_cycle-first m = refl

cycles-unanswered :
    {W : Type 0} (n k turns offset : ℕ) (t : Transport W) (port : Port) (w : W) (m : Cyclic)
    → IsSilent t
    → m.clock ≡ unanswered offset k
    → (cycles n turns t port w m).1.clock ≡ unanswered offset (n + k)
unfolding cycles
cycles-unanswered zero k turns offset t port w m silent h = h ∙ ap (unanswered offset) (omega arith)
cycles-unanswered (suc n) k turns offset t port w m silent h =
    cycles-unanswered n (suc k) turns offset t port _ _ silent
      (cycle-silent turns t port w m silent ∙ dc_cycle-unanswered m offset k h)
    ∙ ap (unanswered offset) (omega arith)

-- After its start, and on a network on which nothing becomes readable, the clock is in operation
-- for 50 cycles, which it counts, and in the error of a timeout from the 51st on.
pub cycles-timeout :
    {W : Type 0} (n turns : ℕ) (t : Transport W) (port : Port) (w : W) (m : Cyclic)
    → IsSilent t
    → (cycles (suc n) turns t port w (dc_init m)).1.clock ≡ unanswered 0 (suc n)
unfolding cycles
cycles-timeout n turns t port w m silent =
    cycles-unanswered n 1 turns 0 t port _ _ silent
      (cycle-silent turns t port w (dc_init m) silent ∙ dc_cycle-first m)
    ∙ ap (unanswered 0) (omega arith)
