-- ===== src/Master/Esi/Hex.antt =====
-- A 32-bit number in hexadecimal, and `strtoul` on it.
use ul_ecat.Common.{
  ℕ, ◌+◌, ◌-◌, ◌*◌, ◌/◌, ◌%◌, ◌<◌, ◌≡◌, ◌≢◌, refl, ◌∙◌, List, [], ◌∷◌, false, arith, ltb, ◌==◌,
  lt→ltb, drop, ◌^◌, if◌then◌else◌, IsU32, is_space, skip_spaces, digit, magnitude, has_0x, base_of,
  unsigned_of, is_negative, skip_sign, strtoul,
}
use ul_ecat.Master.Esi.Find.{AreText}

-- The digit of a number below 16.
unfoldable pub hex_digit : ℕ → ℕ
hex_digit d = if ltb d 10 then b'0' + d else b'A' + d - 10

abbrev pub hex_digits : List ℕ → List ℕ
hex_digits [] = []
hex_digits (d ∷ ds) = hex_digit d ∷ hex_digits ds

abbrev nibbles : ℕ → List ℕ
nibbles v =
    v / 0x10000000 % 16
    ∷ v / 0x1000000 % 16
    ∷ v / 0x100000 % 16
    ∷ v / 0x10000 % 16
    ∷ v / 0x1000 % 16
    ∷ v / 0x100 % 16
    ∷ v / 0x10 % 16
    ∷ v % 16
    ∷ []

abbrev nibbles_rest : ℕ → List ℕ
nibbles_rest v = drop 2 (nibbles v)

-- As `printf` writes it for `%08X`.
abbrev pub hex : ℕ → List ℕ
hex v = hex_digits (nibbles v)

abbrev AreNibbles : List ℕ → Type 0
AreNibbles [] = Unit
AreNibbles (d ∷ ds) = (d < 16) × AreNibbles ds

digit-hex_digit : (d : ℕ) → d < 16 → digit (hex_digit d) ≡ d
unfolding digit hex_digit
digit-hex_digit d h = ground arith

hex_digit_text : (d : ℕ) → d < 16 → (hex_digit d ≢ b'<') × (hex_digit d ≢ 0)
unfolding hex_digit
hex_digit_text d h = ground arith

hex_digits-AreText : (ds : List ℕ) → AreNibbles ds → AreText (hex_digits ds)
hex_digits-AreText [] h = tt
hex_digits-AreText (d ∷ ds) h =
    ((hex_digit_text d h.0).0, (hex_digit_text d h.0).1, hex_digits-AreText ds h.1)

nibbles_lem : (v : ℕ) → AreNibbles (nibbles v)
nibbles_lem v = omega arith

pub hex-AreText : (v : ℕ) → AreText (hex v)
hex-AreText v = hex_digits-AreText (nibbles v) (nibbles_lem v)

abbrev weighted : ℕ → List ℕ → ℕ
weighted acc [] = acc
weighted acc (d ∷ ds) = weighted (acc * 16 + d) ds

magnitude-hex_digits :
    (acc : ℕ) (ds : List ℕ) → AreNibbles ds → magnitude 16 acc (hex_digits ds) ≡ weighted acc ds
unfolding magnitude
magnitude-hex_digits acc [] h = refl
magnitude-hex_digits acc (d ∷ ds) h =
    rw (digit-hex_digit d h.0, lt→ltb d 16 h.0) (magnitude-hex_digits (acc * 16 + d) ds h.1)

-- A digit is no space, no sign and no `x`.
hex_digit_plain :
    (d : ℕ)
    → d < 16
    → (is_space (hex_digit d) ≡ false)
      × ((hex_digit d == b'-') ≡ false)
      × ((hex_digit d == b'+') ≡ false)
      × ((hex_digit d == b'x') ≡ false)
      × ((hex_digit d == b'X') ≡ false)
unfolding is_space hex_digit
hex_digit_plain d h = ground arith

unsigned_of-hex_digits :
    (a b : ℕ) (ds : List ℕ)
    → AreNibbles (a ∷ b ∷ ds)
    → unsigned_of 16 (hex_digits (a ∷ b ∷ ds)) ≡ weighted 0 (a ∷ b ∷ ds)
unfolding unsigned_of base_of has_0x
unsigned_of-hex_digits a b ds h =
    ground (arith, hex_digit_plain b h.1.0, magnitude-hex_digits 0 (a ∷ b ∷ ds) h)

strtoul-hex_digits :
    (a b : ℕ) (ds : List ℕ)
    → AreNibbles (a ∷ b ∷ ds)
    → weighted 0 (a ∷ b ∷ ds) < 2 ^ 64
    → strtoul (hex_digits (a ∷ b ∷ ds)) 16 ≡ weighted 0 (a ∷ b ∷ ds)
unfolding strtoul skip_spaces skip_sign is_negative
strtoul-hex_digits a b ds h small =
    ground (arith, hex_digit_plain a h.0, unsigned_of-hex_digits a b ds h)

pub strtoul-hex : (v : ℕ) → IsU32 v → strtoul (hex v) 16 ≡ v
strtoul-hex v h =
    strtoul-hex_digits (v / 0x10000000 % 16) (v / 0x1000000 % 16) (nibbles_rest v) (nibbles_lem v)
      (omega arith)
    ∙ omega arith
