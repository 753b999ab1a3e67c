-- ===== src/Common/Bytes.antt =====
-- Little-endian fields: `w16_le` and `r16_le` of src/common/ul_ecat_frame.c, `w32_le` of
-- src/slave/ul_ecat_esc.c and `read_u32_le_buf` of src/slave/ul_ecat_slave_controller.c. The
-- static copies in src/slave/ul_ecat_slave_coe.c and src/master/ul_ecat_master.c are the same.
use Prim.Native.Nat.{ℕ, ◌+◌, ◌*◌, ◌/◌, ◌%◌, bit_and, bit_or}
use mathlib.Core.Path.{◌≡◌, refl}
use mathlib.Core.List.{List, [], ◌∷◌, ◌++◌}
use native.Mathlib.Omega.{arith}
use ul_ecat.Common.Words.{u8, ◌<<<◌, ◌>>>◌, IsU8, IsU16, IsU32, AreBytes}
use ul_ecat.Common.Lists.{length, get_or, AreBytes-get_or}
use ul_ecat.Common.Masks.{or_shifted, and_ff}

unfoldable pub w16_le : ℕ → List ℕ
w16_le v = u8 (bit_and v 0xff) ∷ u8 (bit_and (v >>> 8) 0xff) ∷ []

unfoldable pub r16_le : List ℕ → ℕ
r16_le p = bit_or (get_or p 0 0) (get_or p 1 0 <<< 8)

unfoldable pub w32_le : ℕ → List ℕ
w32_le v =
    u8 (bit_and v 0xff)
    ∷ u8 (bit_and (v >>> 8) 0xff)
    ∷ u8 (bit_and (v >>> 16) 0xff)
    ∷ u8 (bit_and (v >>> 24) 0xff)
    ∷ []

unfoldable pub r32_le : List ℕ → ℕ
r32_le p =
    bit_or (bit_or (bit_or (get_or p 0 0) (get_or p 1 0 <<< 8)) (get_or p 2 0 <<< 16))
      (get_or p 3 0 <<< 24)

-- The two bytes of a field.
pub w16_le-bytes : (v : ℕ) → w16_le v ≡ v % 256 ∷ v / 256 % 256 ∷ []
unfolding w16_le
w16_le-bytes v = ground (arith, and_ff v, and_ff (v / 256))

pub r16_le-bytes : (a b : ℕ) (p : List ℕ) → IsU8 a → r16_le (a ∷ b ∷ p) ≡ a + b * 256
unfolding r16_le
r16_le-bytes a b p h = or_shifted 8 a b h

pub r16_le-sum : (p : List ℕ) → AreBytes p → r16_le p ≡ get_or p 0 0 + get_or p 1 0 * 256
unfolding r16_le
r16_le-sum p h = or_shifted 8 (get_or p 0 0) (get_or p 1 0) (AreBytes-get_or p 0 h)

pub r16_le-IsU16 : (p : List ℕ) → AreBytes p → IsU16 (r16_le p)
r16_le-IsU16 p h = omega (arith, r16_le-sum p h, AreBytes-get_or p 0 h, AreBytes-get_or p 1 h)

pub w32_le-bytes :
    (v : ℕ) → w32_le v ≡ v % 256 ∷ v / 256 % 256 ∷ v / 65536 % 256 ∷ v / 16777216 % 256 ∷ []
unfolding w32_le
w32_le-bytes v =
    ground (arith, and_ff v, and_ff (v / 256), and_ff (v / 65536), and_ff (v / 16777216))

pub r32_le-bytes :
    (a b c d : ℕ) (p : List ℕ)
    → IsU8 a
    → IsU8 b
    → IsU8 c
    → r32_le (a ∷ b ∷ c ∷ d ∷ p) ≡ a + b * 256 + c * 65536 + d * 16777216
unfolding r32_le
r32_le-bytes a b c d p ha hb hc = ground (
  arith,
  or_shifted 8 a b ha,
  or_shifted 16 (a + b * 256) c (omega arith),
  or_shifted 24 (a + b * 256 + c * 65536) d (omega arith),
)

-- Reading a field gives what was written, whatever follows.
pub r16_le-w16_le : (v : ℕ) (rest : List ℕ) → IsU16 v → r16_le (w16_le v ++ rest) ≡ v
r16_le-w16_le v rest h =
    rw w16_le-bytes (omega (arith, r16_le-bytes (v % 256) (v / 256 % 256) rest (omega arith)))

pub r32_le-w32_le : (v : ℕ) (rest : List ℕ) → IsU32 v → r32_le (w32_le v ++ rest) ≡ v
r32_le-w32_le v rest h = rw w32_le-bytes (
    omega (
      arith,
      r32_le-bytes (v % 256) (v / 256 % 256) (v / 65536 % 256) (v / 16777216 % 256) rest
          (omega arith) (omega arith) (omega arith),
    ))

pub AreBytes-w16_le : (v : ℕ) → AreBytes (w16_le v)
unfolding w16_le
AreBytes-w16_le v = omega arith

pub AreBytes-w32_le : (v : ℕ) → AreBytes (w32_le v)
unfolding w32_le
AreBytes-w32_le v = omega arith

pub length-w16_le : (v : ℕ) → length (w16_le v) ≡ 2
unfolding w16_le
length-w16_le v = refl

pub length-w32_le : (v : ℕ) → length (w32_le v) ≡ 4
unfolding w32_le
length-w32_le v = refl
