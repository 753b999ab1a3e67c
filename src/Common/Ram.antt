-- ===== src/Common/Ram.antt =====
-- Memory that C reads and writes by address. An array `a[n]` is the memory from its first byte
-- on, so that a write at `n` or beyond is one past the array's end.
use Prim.Native.Nat.{ℕ, zero, suc, ◌+◌, ◌-◌, ◌≤◌, ◌<◌}
use mathlib.Core.Path.{◌≡◌, refl, ap, ap₂, ◌∙◌}
use mathlib.Core.Bool.{◌&&◌}
use mathlib.Core.Logic.{◌⊎◌}
use mathlib.Core.List.{List, [], ◌∷◌, ◌++◌}
use native.Mathlib.Omega.{arith}
use ul_ecat.Common.Tests.{ltb, leb, ◌==◌, if◌then◌else◌}
use ul_ecat.Common.Words.{IsU8, AreBytes}
use ul_ecat.Common.Lists.{length, get_or, take, AreBytes-get_or}

abbrev pub Memory : Type 0
Memory = ℕ → ℕ

-- One byte written.
abbrev pub poke : Memory → ℕ → ℕ → Memory
poke m a v j = if j == a then v else m j

-- `memcpy(dst, m + a, n)`: the `n` bytes read.
unfoldable pub load : Memory → ℕ → ℕ → List ℕ
load m a zero = []
load m a (suc n) = m a ∷ load m (a + 1) n

-- `memcpy(m + a, src, n)` with the `n` bytes of a list.
unfoldable pub store : Memory → ℕ → List ℕ → Memory
store m a bs j = if leb a j && ltb j (a + length bs) then get_or bs (j - a) 0 else m j

-- `memset(m + a, v, n)`
unfoldable pub fill : Memory → ℕ → ℕ → ℕ → Memory
fill m a v n j = if leb a j && ltb j (a + n) then v else m j

pub store_inside :
    (m : Memory) (a : ℕ) (bs : List ℕ) (j : ℕ)
    → a ≤ j
    → j < a + length bs
    → store m a bs j ≡ get_or bs (j - a) 0
unfolding store
store_inside m a bs j p q = ground arith

pub store_at :
    (m : Memory) (a : ℕ) (bs : List ℕ) (i : ℕ)
    → i < length bs
    → store m a bs (a + i) ≡ get_or bs i 0
store_at m a bs i h =
    let place : a + i - a ≡ i = omega arith in
    store_inside m a bs (a + i) (omega arith) (omega arith) ∙ ap (λ j. get_or bs j 0) place

pub store_outside :
    (m : Memory) (a : ℕ) (bs : List ℕ) (j : ℕ)
    → (j < a) ⊎ (a + length bs ≤ j)
    → store m a bs j ≡ m j
unfolding store
store_outside m a bs j p = ground arith

pub store-IsU8 :
    (m : Memory) (a : ℕ) (bs : List ℕ) (j : ℕ) → IsU8 (m j) → AreBytes bs → IsU8 (store m a bs j)
unfolding store
store-IsU8 m a bs j hm hb = ground (arith, AreBytes-get_or bs (j - a) hb)

pub length-load : (m : Memory) (a n : ℕ) → length (load m a n) ≡ n
unfolding load
length-load m a zero = refl
length-load m a (suc n) = ap suc (length-load m (a + 1) n)

pub load_ext :
    (m m' : Memory) (a n : ℕ)
    → ((j : ℕ) → a ≤ j → j < a + n → m j ≡ m' j)
    → load m a n ≡ load m' a n
unfolding load
load_ext m m' a zero h = refl
load_ext m m' a (suc n) h =
    ap₂ ◌∷◌ (h a (omega arith) (omega arith))
      (load_ext m m' (a + 1) n (λ j p q. h j (omega arith) (omega arith)))

pub get_or-load : (m : Memory) (a n i d : ℕ) → i < n → get_or (load m a n) i d ≡ m (a + i)
unfolding load
get_or-load m a zero i d h = absurd (omega arith)
get_or-load m a (suc n) zero d h = ap m (omega arith)
get_or-load m a (suc n) (suc i) d h = get_or-load m (a + 1) n i d (omega arith) ∙ ap m (omega arith)

-- Memory that holds a list, byte by byte, is loaded as that list.
pub load_of_bytes :
    (m : Memory) (a : ℕ) (bs : List ℕ)
    → ((i : ℕ) → i < length bs → m (a + i) ≡ get_or bs i 0)
    → load m a (length bs) ≡ bs
unfolding load
load_of_bytes m a [] h = refl
load_of_bytes m a (b ∷ bs) h =
    ap₂ ◌∷◌ (ap m (omega arith) ∙ h 0 (omega arith))
      (load_of_bytes m (a + 1) bs (λ i p. ap m (omega arith) ∙ h (suc i) (omega arith)))

-- What was stored is what is loaded.
pub load-store_self : (m : Memory) (a : ℕ) (bs : List ℕ) → load (store m a bs) a (length bs) ≡ bs
load-store_self m a bs = load_of_bytes (store m a bs) a bs (store_at m a bs)

-- A load of the first bytes is the beginning of a load.
pub take-load : (m : Memory) (a n k : ℕ) → n ≤ k → take n (load m a k) ≡ load m a n
unfolding load
take-load m a zero k h = refl
take-load m a (suc n) zero h = absurd (omega arith)
take-load m a (suc n) (suc k) h = ap (◌∷◌ (m a)) (take-load m (a + 1) n k (omega arith))

-- Two loads side by side.
pub load-append : (m : Memory) (a n k : ℕ) → load m a n ++ load m (a + n) k ≡ load m a (n + k)
unfolding load
load-append m a zero k =
    let start : a + 0 ≡ a = omega arith in
    let count : k ≡ 0 + k = omega arith in ap₂ (load m) start count
load-append m a (suc n) k =
    let start : a + suc n ≡ a + 1 + n = omega arith in
    let count : suc (n + k) ≡ suc n + k = omega arith in
    ap (λ b. m a ∷ load m (a + 1) n ++ load m b k) start
    ∙ ap (◌∷◌ (m a)) (load-append m (a + 1) n k)
    ∙ ap (load m a) count

pub AreBytes-load : (m : Memory) (a n : ℕ) → ((j : ℕ) → IsU8 (m j)) → AreBytes (load m a n)
unfolding load
AreBytes-load m a zero h = tt
AreBytes-load m a (suc n) h = (h a, AreBytes-load m (a + 1) n h)
