-- ===== src/Od/Lookup.antt =====
-- What a lookup finds.
use ul_ecat.Common.{
  ℕ, ap, ◌≡◌, ◌≢◌, ◌↔◌, inl, inr, refl, List, [], ◌∷◌, ◌++◌, none, some, false, ◌&&◌, ◌==◌, arith,
  Bool-cases,
}
use ul_ecat.Od.{Entry, Table, lookup_in, od_lookup, exists_in, od_index_exists}

abbrev pub Matches : Entry → ℕ → ℕ → Type 0
Matches e index subindex = (e.index ≡ index) × (e.subindex ≡ subindex)

-- No entry of the list has the index and subindex.
abbrev pub NoMatch : List Entry → ℕ → ℕ → Type 0
NoMatch [] index subindex = Unit
NoMatch (e ∷ es) index subindex = (¬ Matches e index subindex) × NoMatch es index subindex

-- The entry is the first of the list with the index and subindex.
abbrev pub IsFirst : List Entry → ℕ → ℕ → Entry → Type 0
IsFirst es index subindex e =
    (before : List Entry) × (after : List Entry) × (es ≡ before ++ e ∷ after)
    × Matches e index subindex
    × NoMatch before index subindex

lookup_in-IsFirst :
    (es : List Entry) (index subindex : ℕ) (e : Entry)
    → lookup_in es index subindex ≡ some e
    → IsFirst es index subindex e
unfolding lookup_in
lookup_in-IsFirst [] index subindex e h = cc
lookup_in-IsFirst (x ∷ es) index subindex e h =
    elim (Bool-cases (x.index == index && x.subindex == subindex)) [
      | inl hit ↦
          let same : x ≡ e = ground arith in ([], es, ap (λ y. y ∷ es) same, ground arith, tt)
      | inr miss ↦ later (lookup_in-IsFirst es index subindex e (ground arith)) (ground arith)
    ]
  where
    later :
        IsFirst es index subindex e → ¬ Matches x index subindex → IsFirst (x ∷ es) index subindex e
    later (before, after, e', m, n) miss = (x ∷ before, after, ap (◌∷◌ x) e', m, (miss, n))

lookup_in-NoMatch :
    (es : List Entry) (index subindex : ℕ)
    → lookup_in es index subindex ≡ none
    → NoMatch es index subindex
unfolding lookup_in
lookup_in-NoMatch [] index subindex h = tt
lookup_in-NoMatch (x ∷ es) index subindex h =
    (ground arith, lookup_in-NoMatch es index subindex (ground arith))

lookup_in_past :
    (before after : List Entry) (index subindex : ℕ) (e : Entry)
    → NoMatch before index subindex
    → Matches e index subindex
    → lookup_in (before ++ e ∷ after) index subindex ≡ some e
unfolding lookup_in
lookup_in_past [] after index subindex e n m = ground arith
lookup_in_past (b ∷ before) after index subindex e n m =
    ground (arith, lookup_in_past before after index subindex e n.1 m)

lookup_in_of_NoMatch :
    (es : List Entry) (index subindex : ℕ)
    → NoMatch es index subindex
    → lookup_in es index subindex ≡ none
unfolding lookup_in
lookup_in_of_NoMatch [] index subindex n = refl
lookup_in_of_NoMatch (e ∷ es) index subindex n =
    ground (arith, lookup_in_of_NoMatch es index subindex n.1)

-- A lookup finds an entry exactly when it is the first with the index and subindex.
pub od_lookup_iff :
    (entries : List Entry) (index subindex : ℕ) (e : Entry)
    → (od_lookup (some entries) index subindex ≡ some e) ↔ IsFirst entries index subindex e
unfolding od_lookup
od_lookup_iff entries index subindex e = (
  lookup_in-IsFirst entries index subindex e,
  λ (before, after, split, m, n). rw split (lookup_in_past before after index subindex e n m),
)

-- A lookup finds nothing exactly when no entry has the index and subindex.
pub od_lookup-none_iff :
    (entries : List Entry) (index subindex : ℕ)
    → (od_lookup (some entries) index subindex ≡ none) ↔ NoMatch entries index subindex
unfolding od_lookup
od_lookup-none_iff entries index subindex =
    (lookup_in-NoMatch entries index subindex, lookup_in_of_NoMatch entries index subindex)

-- No entry has the index.
abbrev pub NoIndex : List Entry → ℕ → Type 0
NoIndex [] index = Unit
NoIndex (e ∷ es) index = (e.index ≢ index) × NoIndex es index

exists_in-NoIndex : (es : List Entry) (index : ℕ) → exists_in es index ≡ false → NoIndex es index
unfolding exists_in
exists_in-NoIndex [] index h = tt
exists_in-NoIndex (e ∷ es) index h = (ground arith, exists_in-NoIndex es index (ground arith))

exists_in_of_NoIndex : (es : List Entry) (index : ℕ) → NoIndex es index → exists_in es index ≡ false
unfolding exists_in
exists_in_of_NoIndex [] index n = refl
exists_in_of_NoIndex (e ∷ es) index n = ground (arith, exists_in_of_NoIndex es index n.1)

-- The index test fails exactly when no entry has the index.
pub od_index_exists_iff :
    (entries : List Entry) (index : ℕ)
    → (od_index_exists (some entries) index ≡ false) ↔ NoIndex entries index
unfolding od_index_exists
od_index_exists_iff entries index =
    (exists_in-NoIndex entries index, exists_in_of_NoIndex entries index)

-- What a lookup finds has the index and subindex asked for.
pub od_lookup-Matches :
    (table : Table) (index subindex : ℕ) (e : Entry)
    → od_lookup table index subindex ≡ some e
    → Matches e index subindex
unfolding od_lookup
od_lookup-Matches none index subindex e h = cc
od_lookup-Matches (some entries) index subindex e h =
    (lookup_in-IsFirst entries index subindex e h).3
