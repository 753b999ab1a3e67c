-- ===== src/Master/Queue/Groups.antt =====
-- The groups of queue entries that go into one frame each.
use ul_ecat.Common.{
  ℕ, zero, suc, ◌+◌, ◌≤◌, ◌<◌, ◌≡◌, refl, ap, ◌∙◌, ◌⊎◌, inl, inr, List, [], ◌∷◌, ◌++◌,
  length-append, if◌then◌else◌, arith, ltb, length,
}
use ul_ecat.Master.Queue.{fill_batch}

-- All entries one after the other.
pub joined : List (List ℕ) → List ℕ
joined [] = []
joined (x ∷ xs) = x ++ joined xs

-- Entries that fit a frame.
abbrev pub AllFit : List (List ℕ) → Type 0
AllFit [] = Unit
AllFit (x ∷ xs) = (length x ≤ 1498) × AllFit xs

-- The groups of entries one after the other.
pub concat : List (List (List ℕ)) → List (List ℕ)
concat [] = []
concat (g ∷ gs) = g ++ concat gs

-- Nothing of the next group would still fit behind these bytes.
abbrev pub IsClosed : ℕ → List (List (List ℕ)) → Type 0
IsClosed off [] = Unit
IsClosed off ([] ∷ gs) = Unit
IsClosed off ((x ∷ xs) ∷ gs) = 1498 < off + length x

-- Groups that are sent in a frame each: every one has an entry, fits the payload of a frame, and
-- takes as many entries as fit.
abbrev pub AreBatches : List (List (List ℕ)) → Type 0
AreBatches [] = Unit
AreBatches (g ∷ gs) =
    (0 < length g) × (length (joined g) ≤ 1498) × IsClosed (length (joined g)) gs × AreBatches gs

-- The entries of the first frame, and those behind them.
pub group : ℕ → List (List ℕ) → List (List ℕ) × List (List ℕ)
group off [] = ([], [])
group off (x ∷ xs) =
    let rest = group (off + length x) xs in
    if ltb 1498 (off + length x) then ([], x ∷ xs) else (x ∷ rest.0, rest.1)

pub fill_batch-group :
    (off : ℕ) (items : List (List ℕ))
    → fill_batch off items ≡ (joined (group off items).0, (group off items).1)
unfolding fill_batch group joined
fill_batch-group off [] = refl
fill_batch-group off (x ∷ xs) = ground (arith, fill_batch-group (off + length x) xs)

group_lem : (off : ℕ) (items : List (List ℕ)) → (group off items).0 ++ (group off items).1 ≡ items
unfolding group
group_lem off [] = refl
group_lem off (x ∷ xs) = ground (arith, group_lem (off + length x) xs)

fits_or_not : (n : ℕ) → (n ≤ 1498) ⊎ (1498 < n)
fits_or_not n = omega arith

group_takes :
    (off : ℕ) (x : List ℕ) (xs : List (List ℕ))
    → off + length x ≤ 1498
    → group off (x ∷ xs) ≡ (x ∷ (group (off + length x) xs).0, (group (off + length x) xs).1)
unfolding group
group_takes off x xs h = ground arith

group_leaves :
    (off : ℕ) (x : List ℕ) (xs : List (List ℕ))
    → 1498 < off + length x
    → group off (x ∷ xs) ≡ ([], x ∷ xs)
unfolding group
group_leaves off x xs h = ground arith

pub group_bound :
    (off : ℕ) (items : List (List ℕ))
    → off ≤ 1498
    → off + length (joined (group off items).0) ≤ 1498
unfolding joined group
group_bound off [] h = omega arith
group_bound off (x ∷ xs) h = elim (fits_or_not (off + length x)) [
  | inl p ↦ rw (group_takes off x xs p) (
      omega (
        arith,
        group_bound (off + length x) xs p,
        length-append x (joined (group (off + length x) xs).0),
      ))
  | inr p ↦ rw (group_leaves off x xs p) (omega arith)
]

group_fewer : (off : ℕ) (items : List (List ℕ)) → length (group off items).1 ≤ length items
unfolding group
group_fewer off [] = omega arith
group_fewer off (x ∷ xs) = ground (arith, group_fewer (off + length x) xs)

group-AllFit : (off : ℕ) (items : List (List ℕ)) → AllFit items → AllFit (group off items).1
unfolding group
group-AllFit off [] h = tt
group-AllFit off (x ∷ xs) h = elim (fits_or_not (off + length x)) [
  | inl p ↦ rw (group_takes off x xs p) (group-AllFit (off + length x) xs h.1)
  | inr p ↦ rw (group_leaves off x xs p) h
]

-- The next entry does not fit behind these bytes.
abbrev IsOver : ℕ → List (List ℕ) → Type 0
IsOver off [] = Unit
IsOver off (x ∷ xs) = 1498 < off + length x

IsOver-ext : (m n : ℕ) (items : List (List ℕ)) → m ≡ n → IsOver m items → IsOver n items
IsOver-ext m n [] e h = tt
IsOver-ext m n (x ∷ xs) e h = omega arith

group-IsOver :
    (off : ℕ) (items : List (List ℕ))
    → IsOver (off + length (joined (group off items).0)) (group off items).1
unfolding group joined
group-IsOver off [] = tt
group-IsOver off (x ∷ xs) = elim (fits_or_not (off + length x)) [
  | inl p ↦ rw (group_takes off x xs p) (
      IsOver-ext _ _ (group (off + length x) xs).1
        (omega (arith, length-append x (joined (group (off + length x) xs).0)))
        (group-IsOver (off + length x) xs))
  | inr p ↦ rw (group_leaves off x xs p) (omega (arith, p))
]

-- The groups of all frames.
unfoldable pub groups : ℕ → List (List ℕ) → List (List (List ℕ))
groups zero items = []
groups (suc turns) [] = []
groups (suc turns) (x ∷ xs) = (group 0 (x ∷ xs)).0 ∷ groups turns (group 0 (x ∷ xs)).1

groups-IsClosed :
    (off turns : ℕ) (items : List (List ℕ))
    → AllFit items
    → IsOver off items
    → IsClosed off (groups turns items)
unfolding groups
groups-IsClosed off zero items h o = tt
groups-IsClosed off (suc turns) [] h o = tt
groups-IsClosed off (suc turns) (x ∷ xs) h o = rw (group_takes 0 x xs (omega (arith, h.0))) o

pub groups-AreBatches :
    (turns : ℕ) (items : List (List ℕ)) → AllFit items → AreBatches (groups turns items)
unfolding groups
groups-AreBatches zero items h = tt
groups-AreBatches (suc turns) [] h = tt
groups-AreBatches (suc turns) (x ∷ xs) h = (
  rw (group_takes 0 x xs (omega (arith, h.0))) (omega arith),
  omega (arith, group_bound 0 (x ∷ xs) (omega arith)),
  groups-IsClosed (length (joined (group 0 (x ∷ xs)).0)) turns (group 0 (x ∷ xs)).1
      (group-AllFit 0 (x ∷ xs) h)
      (IsOver-ext _ _ (group 0 (x ∷ xs)).1 (omega arith) (group-IsOver 0 (x ∷ xs))),
  groups-AreBatches turns (group 0 (x ∷ xs)).1 (group-AllFit 0 (x ∷ xs) h),
)

pub concat-groups :
    (turns : ℕ) (items : List (List ℕ))
    → AllFit items
    → length items ≤ turns
    → concat (groups turns items) ≡ items
unfolding groups concat
concat-groups zero [] h n = refl
concat-groups zero (x ∷ xs) h n = absurd (omega arith)
concat-groups (suc turns) [] h n = refl
concat-groups (suc turns) (x ∷ xs) h n =
    let fewer : length (group 0 (x ∷ xs)).1 ≤ turns =
      rw (group_takes 0 x xs (omega (arith, h.0))) (omega (arith, group_fewer (0 + length x) xs)) in
    ap (◌++◌ (group 0 (x ∷ xs)).0)
      (concat-groups turns (group 0 (x ∷ xs)).1 (group-AllFit 0 (x ∷ xs) h) fewer)
    ∙ group_lem 0 (x ∷ xs)
