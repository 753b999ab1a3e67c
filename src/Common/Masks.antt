-- ===== src/Common/Masks.antt =====
-- `|` of disjoint fields and `&` with a mask, as arithmetic.
use Prim.Native.Nat.{
  ℕ, zero, suc, ◌+◌, ◌-◌, ◌*◌, ◌/◌, ◌%◌, ◌^◌, ◌≤◌, ◌<◌, min, max, bit_and, bit_or,
}
use Prim.Native.Nat.{digits, bit_and-bitwise, bit_or-bitwise}
use mathlib.Core.Path.{◌≡◌, refl, ap}
use mathlib.Core.Bool.{Bool, true, false}
use ul_ecat.Common.Tests.{◌==◌, if◌then◌else◌}
use native.Mathlib.Nat.{pow-suc}
use native.Mathlib.Omega.{arith}

-- The native operations mean a recursion on binary digits with fuel; any fuel from the first
-- number on gives the same digits.
module _ (z : ℕ → ℕ) (f : ℕ → ℕ → ℕ) where
  enough_fuel : (n m a b : ℕ) → a ≤ n → a ≤ m → digits z f n a b ≡ digits z f m a b
  enough_fuel zero zero a b p q = refl
  enough_fuel zero (suc m) zero b p q = refl
  enough_fuel zero (suc m) (suc a) b p q = absurd (omega arith)
  enough_fuel (suc n) zero zero b p q = refl
  enough_fuel (suc n) zero (suc a) b p q = absurd (omega arith)
  enough_fuel (suc n) (suc m) zero b p q = refl
  enough_fuel (suc n) (suc m) (suc a) b p q =
      ap (λ d. d * 2 + f (suc a % 2) (b % 2))
        (enough_fuel n m (suc a / 2) (b / 2) (omega arith) (omega arith))

and_zero_left : (b : ℕ) → bit_and 0 b ≡ 0
and_zero_left b = bit_and-bitwise 0 b

or_zero_left : (b : ℕ) → bit_or 0 b ≡ b
or_zero_left b = bit_or-bitwise 0 b

-- The lowest digit of `&` and of `|`.
and_digit : (a b : ℕ) → bit_and a b ≡ bit_and (a / 2) (b / 2) * 2 + min (a % 2) (b % 2)
and_digit zero b = omega (arith, and_zero_left b, and_zero_left (b / 2))
and_digit (suc a) b = omega (
  arith,
  bit_and-bitwise (suc a) b,
  bit_and-bitwise (suc a / 2) (b / 2),
  enough_fuel (λ _. 0) min a (suc a / 2) (suc a / 2) (b / 2) (omega arith) (omega arith),
)

or_digit : (a b : ℕ) → bit_or a b ≡ bit_or (a / 2) (b / 2) * 2 + max (a % 2) (b % 2)
or_digit zero b = omega (arith, or_zero_left b, or_zero_left (b / 2))
or_digit (suc a) b = omega (
  arith,
  bit_or-bitwise (suc a) b,
  bit_or-bitwise (suc a / 2) (b / 2),
  enough_fuel (λ y. y) max a (suc a / 2) (suc a / 2) (b / 2) (omega arith) (omega arith),
)

double-shift : (b k : ℕ) → b * 2 ^ suc k ≡ 2 * (b * 2 ^ k)
double-shift b k = omega (arith, ap (λ (t : ℕ). b * t) (pow-suc 2 k))

-- `a | (b << k)` is a sum when `a` has `k` bits.
pub or_shifted : (k a b : ℕ) → a < 2 ^ k → bit_or a (b * 2 ^ k) ≡ a + b * 2 ^ k
or_shifted zero zero b h = omega (arith, or_zero_left (b * 1))
or_shifted zero (suc a) b h = absurd (omega arith)
or_shifted (suc k) a b h = ground (
  arith,
  or_digit a (b * 2 ^ suc k),
  double-shift b k,
  pow-suc 2 k,
  or_shifted k (a / 2) b (omega (arith, pow-suc 2 k)),
)

or_zero_fuel : (n a : ℕ) → a ≤ n → bit_or a 0 ≡ a
or_zero_fuel n zero h = refl
or_zero_fuel zero (suc a) h = absurd (omega arith)
or_zero_fuel (suc n) (suc a) h =
    omega (arith, or_digit (suc a) 0, or_zero_fuel n (suc a / 2) (omega arith))

-- The same with the low digits on the right.
pub or_low : (k a b : ℕ) → b < 2 ^ k → bit_or (a * 2 ^ k) b ≡ a * 2 ^ k + b
or_low zero a zero h = omega (arith, or_zero_fuel (a * 1) (a * 1) (omega arith))
or_low zero a (suc b) h = absurd (omega arith)
or_low (suc k) a b h = ground (
  arith,
  or_digit (a * 2 ^ suc k) b,
  double-shift a k,
  pow-suc 2 k,
  or_low k a (b / 2) (omega (arith, pow-suc 2 k)),
)

and_zero_fuel : (n a : ℕ) → a ≤ n → bit_and a 0 ≡ 0
and_zero_fuel n zero h = refl
and_zero_fuel zero (suc a) h = absurd (omega arith)
and_zero_fuel (suc n) (suc a) h =
    omega (arith, and_digit (suc a) 0, and_zero_fuel n (suc a / 2) (omega arith))

and_zero : (a : ℕ) → bit_and a 0 ≡ 0
and_zero a = and_zero_fuel a a (omega arith)

-- A mask of ones at the bottom is a remainder; `&` with one bit reads that bit.
pub and_1 : (a : ℕ) → bit_and a 1 ≡ a % 2
and_1 a = omega (arith, and_digit a 1, and_zero (a / 2))

pub and_3 : (a : ℕ) → bit_and a 3 ≡ a % 4
and_3 a = omega (arith, and_digit a 3, and_1 (a / 2))

pub and_7 : (a : ℕ) → bit_and a 7 ≡ a % 8
and_7 a = omega (arith, and_digit a 7, and_3 (a / 2))

pub and_0f : (a : ℕ) → bit_and a 0x0f ≡ a % 16
and_0f a = omega (arith, and_digit a 0x0f, and_7 (a / 2))

pub and_3f : (a : ℕ) → bit_and a 0x3f ≡ a % 64
and_3f a = omega (arith, and_digit a 0x3f, and_digit (a / 2) 0x1f, and_0f (a / 2 / 2))

pub and_ff : (a : ℕ) → bit_and a 0xff ≡ a % 256
and_ff a = omega (arith, and_digit a 0xff, and_digit (a / 2) 0x7f, and_3f (a / 2 / 2))

pub and_7ff : (a : ℕ) → bit_and a 0x7ff ≡ a % 2048
and_7ff a = omega (
  arith,
  and_digit a 0x7ff,
  and_digit (a / 2) 0x3ff,
  and_digit (a / 2 / 2) 0x1ff,
  and_ff (a / 2 / 2 / 2),
)

pub and_2 : (a : ℕ) → bit_and a 2 ≡ a / 2 % 2 * 2
and_2 a = omega (arith, and_digit a 2, and_1 (a / 2))

pub and_08 : (a : ℕ) → bit_and a 0x08 ≡ a / 8 % 2 * 8
and_08 a = omega (arith, and_digit a 8, and_digit (a / 2) 4, and_2 (a / 2 / 2))

pub and_10 : (a : ℕ) → bit_and a 0x10 ≡ a / 16 % 2 * 16
and_10 a = omega (arith, and_digit a 0x10, and_08 (a / 2))

-- The three bits at the top of a byte.
pub and_e0 : (a : ℕ) → a < 256 → bit_and a 0xe0 ≡ a / 32 * 32
and_e0 a h = omega (
  arith,
  and_digit a 0xe0,
  and_digit (a / 2) 0x70,
  and_digit (a / 2 / 2) 0x38,
  and_digit (a / 2 / 2 / 2) 0x1c,
  and_digit (a / 2 / 2 / 2 / 2) 0x0e,
  and_7 (a / 2 / 2 / 2 / 2 / 2),
)

-- On bytes, an equation between two functions is checked at all 256 values.
module _ (f g : ℕ → ℕ) where
  same_below : ℕ → Bool
  same_below zero = true
  same_below (suc n) = if f n == g n then same_below n else false

  same_below→eq : (n : ℕ) → same_below n ≡ true → (b : ℕ) → b < n → f b ≡ g b
  unfolding same_below
  same_below→eq zero e b h = absurd (omega arith)
  same_below→eq (suc n) e b h = ground (arith, same_below→eq n (ground arith) b)

-- The mailbox-full bit of a status byte, set and cleared.
pub or_08 : (b : ℕ) → b < 256 → bit_or b 0x08 ≡ b + (8 - b / 8 % 2 * 8)
unfolding same_below
or_08 = same_below→eq _ _ 256 refl

pub and_f7 : (b : ℕ) → b < 256 → bit_and b 0xf7 ≡ b - b / 8 % 2 * 8
unfolding same_below
and_f7 = same_below→eq _ _ 256 refl
