-- ===== src/Common/Strings.antt =====
-- What the sources use of the C library on strings: strstr, strncpy into a cleared buffer, strcmp,
-- strtoul and strtol, atoi. A string is the list of its bytes before the NUL; a `long` has 64
-- bits and is its bit pattern.
use Prim.Native.Nat.{ℕ, suc, ◌+◌, ◌-◌, ◌*◌, ◌%◌, ◌^◌, min}
use Prim.Native.Char.{code}
use Prim.Native.String.{String}
use mathlib.Core.Bool.{Bool, true, false, ◌&&◌, ◌||◌}
use mathlib.Core.Option.{Option, none, some}
use mathlib.Core.List.{List, [], ◌∷◌}
use ul_ecat.Common.Words.{u32}
use ul_ecat.Common.Tests.{ltb, leb, ◌==◌, if◌then◌else◌}

-- The bytes of a literal in ASCII.
abbrev pub codes : String → List ℕ
codes String.[] = []
codes (String.◌∷◌ c s) = code c ∷ codes s

-- The string that starts at a buffer: the bytes before the first NUL.
unfoldable pub c_string : List ℕ → List ℕ
c_string [] = []
c_string (c ∷ cs) = let rest = c_string cs in if c == 0 then [] else c ∷ rest

-- `strcmp(a, b) == 0`
unfoldable pub is_same : List ℕ → List ℕ → Bool
is_same [] [] = true
is_same (x ∷ xs) (y ∷ ys) = x == y && is_same xs ys
is_same _ _ = false

unfoldable pub is_prefix : List ℕ → List ℕ → Bool
is_prefix [] s = true
is_prefix (n ∷ ns) [] = false
is_prefix (n ∷ ns) (c ∷ cs) = if n == c then is_prefix ns cs else false

unfoldable pub later : Option ℕ → Option ℕ
later none = none
later (some i) = some (suc i)

-- `strstr(haystack, needle) - haystack`, or `none` for the null pointer.
unfoldable pub strstr : List ℕ → List ℕ → Option ℕ
unfolding is_prefix later
strstr [] needle = if is_prefix needle [] then some 0 else none
strstr (c ∷ cs) needle =
    let rest = strstr cs needle in if is_prefix needle (c ∷ cs) then some 0 else later rest

-- `isspace`
unfoldable pub is_space : ℕ → Bool
is_space c = c == b' ' || (leb 9 c && leb c 13)

unfoldable pub skip_spaces : List ℕ → List ℕ
skip_spaces [] = []
skip_spaces (c ∷ cs) = let rest = skip_spaces cs in if is_space c then rest else c ∷ cs

-- The value of a digit, 36 where the byte is none.
unfoldable pub digit : ℕ → ℕ
digit c =
    if leb b'0' c && leb c b'9'
    then c - b'0'
    else if leb b'a' c && leb c b'z'
    then c - b'a' + 10
    else if leb b'A' c && leb c b'Z'
    then c - b'A' + 10
    else 36

-- The digits of the base that come first.
unfoldable pub magnitude : ℕ → ℕ → List ℕ → ℕ
magnitude base acc [] = acc
magnitude base acc (c ∷ cs) =
    let rest = magnitude base (acc * base + digit c) cs in if ltb (digit c) base then rest else acc

unfoldable pub has_0x : List ℕ → Bool
has_0x (c ∷ d ∷ cs) = c == b'0' && (d == b'x' || d == b'X')
has_0x (c ∷ []) = false
has_0x [] = false

unfoldable pub skip_two : List ℕ → List ℕ
skip_two (c ∷ d ∷ cs) = cs
skip_two (c ∷ []) = []
skip_two [] = []

-- Base 0 is 16 after 0x, 8 after 0 and 10 otherwise.
unfoldable pub base_of : ℕ → List ℕ → ℕ
base_of base s =
    if base == 0 then if has_0x s then 16 else if is_prefix (b'0' ∷ []) s then 8 else 10 else base

-- The number without its sign.
unfoldable pub unsigned_of : ℕ → List ℕ → ℕ
unsigned_of base s =
    magnitude (base_of base s) 0 (if base_of base s == 16 && has_0x s then skip_two s else s)

unfoldable pub is_negative : List ℕ → Bool
is_negative [] = false
is_negative (c ∷ cs) = c == b'-'

unfoldable pub skip_sign : List ℕ → List ℕ
skip_sign [] = []
skip_sign (c ∷ cs) = if c == b'-' || c == b'+' then cs else c ∷ cs

unfoldable pub strtoul : List ℕ → ℕ → ℕ
strtoul s base =
    let m = unsigned_of base (skip_sign (skip_spaces s)) in
    if leb (2 ^ 64) m
    then 2 ^ 64 - 1
    else if is_negative (skip_spaces s)
    then (2 ^ 64 - m) % 2 ^ 64
    else m

unfoldable pub strtol : List ℕ → ℕ → ℕ
strtol s base =
    let m = unsigned_of base (skip_sign (skip_spaces s)) in
    if is_negative (skip_spaces s) then (2 ^ 64 - min m (2 ^ 63)) % 2 ^ 64 else min m (2 ^ 63 - 1)

-- The bit pattern of the `int`.
unfoldable pub atoi : List ℕ → ℕ
unfolding strtol
atoi s = u32 (strtol s 10)
