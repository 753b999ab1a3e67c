-- ===== src/Zephyr/Sleep.antt =====
-- The sleep until a time.
use ul_ecat.Common.{
  ℕ, zero, suc, ◌+◌, ◌-◌, ◌*◌, ◌/◌, ◌%◌, ◌^◌, ◌≤◌, ◌<◌, ◌≡◌, refl, inl, inr, true, false,
  Bool-cases, arith, ltb, u32,
}
use ul_ecat.Zephyr.{KernelClock, minus64, is_ahead, sleep_rest, sleep_loop, zephyr_sleep_until_ns}

-- A sleep lasts at least as long as it is asked to, and one of a millisecond less than 2^62 ns (146
-- years).
pub record IsClock {W : Type 0} (k : KernelClock W) : Type 0 where
  pub msleep_least : (w : W) → k.uptime_ns w + 1000000 ≤ k.uptime_ns (k.msleep w 1)
  pub msleep_most : (w : W) → k.uptime_ns (k.msleep w 1) ≤ k.uptime_ns w + 2 ^ 62
  pub usleep_least : (w : W) (us : ℕ) → k.uptime_ns w + us * 1000 ≤ k.uptime_ns (k.usleep w us)

minus64_ahead : (a b : ℕ) → b ≤ a → a < 2 ^ 63 → minus64 a b ≡ a - b
minus64_ahead a b h small = omega arith

is_ahead-true : (a b : ℕ) → a < 2 ^ 63 → b < 2 ^ 63 → is_ahead a b ≡ true → b < a
is_ahead-true a b ha hb h = ground arith

is_ahead-false : (a b : ℕ) → a < 2 ^ 63 → b < 2 ^ 63 → is_ahead a b ≡ false → a ≤ b
is_ahead-false a b ha hb h = ground arith

ltb-false : (a b : ℕ) → ltb a b ≡ false → b ≤ a
ltb-false a b h = ground arith

module _ {W : Type 0} (k : KernelClock W) (c : IsClock k) where
  sleep_rest_enough :
      (w : W) (wait : ℕ) → wait ≤ 1000000 → k.uptime_ns w + wait ≤ k.uptime_ns (sleep_rest k w wait)
  unfolding sleep_rest
  sleep_rest_enough w wait h = elim (Bool-cases (ltb 0 wait)) [
    | inl e ↦ rw (sleep_rest, e) (omega (arith, c.usleep_least w (u32 ((wait + 999) / 1000))))
    | inr e ↦ rw (sleep_rest, e) (ground arith)
  ]

  sleep_loop_enough :
      (turns : ℕ) (w : W) (abs wait : ℕ)
      → k.uptime_ns w + wait ≡ abs
      → abs < 2 ^ 62
      → wait < turns * 1000000
      → abs ≤ k.uptime_ns (sleep_loop k turns w abs wait)
  unfolding sleep_loop
  sleep_loop_enough zero w abs wait e small enough = absurd (omega arith)
  sleep_loop_enough (suc turns) w abs wait e small enough = elim (Bool-cases (ltb 1000000 wait)) [
    | inr short ↦
        rw (sleep_loop, short)
          (omega (arith, sleep_rest_enough w wait (ltb-false 1000000 wait short)))
    | inl long ↦ elim (Bool-cases (is_ahead abs (k.uptime_ns (k.msleep w 1)))) [
      | inr past ↦
          rw (sleep_loop, long, past)
            (is_ahead-false abs (k.uptime_ns (k.msleep w 1)) (omega arith)
              (omega (arith, c.msleep_most w)) past)
      | inl ahead ↦
          rw (sleep_loop, long, ahead)
            (let now = k.uptime_ns (k.msleep w 1) in
              let before : now < abs =
                is_ahead-true abs now (omega arith) (omega (arith, c.msleep_most w)) ahead in
              let left : minus64 abs now ≡ abs - now =
                minus64_ahead abs now (omega arith) (omega arith) in
              sleep_loop_enough turns (k.msleep w 1) abs (minus64 abs now) (omega (arith, left))
                small (omega (arith, left, c.msleep_least w)))
    ]
  ]

  -- The sleep ends within one turn more than there are milliseconds to wait, not before the time it
  -- is given, also where that is past already, and moves the time on by the period, as long as
  -- that time is below 2^62 ns and the clock below 2^63 ns.
  pub zephyr_sleep_until_ns_enough :
      (turns : ℕ) (w : W) (abs period : ℕ)
      → abs < 2 ^ 62
      → k.uptime_ns w < 2 ^ 63
      → abs - k.uptime_ns w < turns * 1000000
      → (abs ≤ k.uptime_ns (zephyr_sleep_until_ns k turns w abs period).0)
        × ((zephyr_sleep_until_ns k turns w abs period).1 ≡ (abs + period) % 2 ^ 64)
  unfolding zephyr_sleep_until_ns
  zephyr_sleep_until_ns_enough turns w abs period small now enough = (
    elim (Bool-cases (is_ahead abs (k.uptime_ns w))) [
      | inr past ↦ rw (past) (is_ahead-false abs (k.uptime_ns w) (omega arith) now past)
      | inl ahead ↦ rw (ahead) (
          let before : k.uptime_ns w < abs =
            is_ahead-true abs (k.uptime_ns w) (omega arith) now ahead in
          let left : minus64 abs (k.uptime_ns w) ≡ abs - k.uptime_ns w =
            minus64_ahead abs (k.uptime_ns w) (omega arith) (omega arith) in
          sleep_loop_enough turns w abs (minus64 abs (k.uptime_ns w)) (omega (arith, left)) small
            (omega (arith, left)))
    ],
    refl,
  )
