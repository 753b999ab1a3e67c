-- ===== src/Master/Esi/Merge.antt =====
-- What the files add to the stations of a scan.
use ul_ecat.Common.{
  ℕ, zero, suc, ◌≤◌, ◌≡◌, ◌≢◌, refl, ap, List, [], ◌∷◌, ◌++◌, Option, some, inl, inr, true, false,
  Bool-cases, arith, length, take,
}
use ul_ecat.Master.Scan.{Station}
use ul_ecat.Master.Esi.{
  EsiDevice, Listed, is_described, described, name_after, describe, describe_all,
  scan_slaves_with_esi,
}
use ul_ecat.Master.Esi.Library.{found, AreShort, AreShort-take, found-AreShort, scan_library}

-- The device is one of the kind of the station.
abbrev pub IsKind : Station → EsiDevice → Type 0
IsKind st ed = (ed.vendor_id ≡ st.vendor_id) × (ed.product_code ≡ st.product_code)

abbrev pub NoneIsKind : Station → List EsiDevice → Type 0
NoneIsKind st [] = Unit
NoneIsKind st (d ∷ ds) = (IsKind st d → ⊥) × NoneIsKind st ds

-- What becomes of an entry: it stays where no device is of its kind, and else it takes the revision,
-- the serial number and the name, unless that is empty, of the first such device.
pub data Describes (devs : List EsiDevice) (s : Listed) : Listed → Type 0 where
  unknown : NoneIsKind s.station devs → Describes devs s s
  known :
      (before after : List EsiDevice) (ed : EsiDevice) (name : List ℕ)
      → devs ≡ before ++ (ed ∷ after)
      → NoneIsKind s.station before
      → IsKind s.station ed
      → (ed.device_name ≡ [] → name ≡ s.device_name)
      → (ed.device_name ≢ [] → name ≡ ed.device_name)
      → Describes devs s (record {
        station = record s.station { revision_no = ed.revision_no; serial_no = ed.serial_no };
        device_name = name;
      })

abbrev pub Pairwise : (Listed → Listed → Type 0) → List Listed → List Listed → Type 0
Pairwise P [] [] = Unit
Pairwise P (s ∷ db) (s' ∷ db') = P s s' × Pairwise P db db'
Pairwise P _ _ = ⊥

is_described-true : (st : Station) (ed : EsiDevice) → is_described st ed ≡ true → IsKind st ed
unfolding is_described
is_described-true st ed h = ground arith

is_described-false : (st : Station) (ed : EsiDevice) → is_described st ed ≡ false → IsKind st ed → ⊥
unfolding is_described
is_described-false st ed h k = ground arith

name_after_none : (old new : List ℕ) → new ≡ [] → name_after old new ≡ old
unfolding name_after
name_after_none old new e = rw e refl

take_short : (n : ℕ) (xs : List ℕ) → length xs ≤ n → take n xs ≡ xs
take_short zero [] h = refl
take_short zero (x ∷ xs) h = absurd (omega arith)
take_short (suc n) [] h = refl
take_short (suc n) (x ∷ xs) h = ap (◌∷◌ x) (take_short n xs (omega arith))

name_after_some : (old new : List ℕ) → length new ≤ 127 → new ≢ [] → name_after old new ≡ new
unfolding name_after
name_after_some old [] h ne = absurd (ne refl)
name_after_some old (c ∷ cs) h ne = ground (arith, take_short 126 cs (omega arith))

later_kind :
    {devs : List EsiDevice} {s t : Listed} (ed : EsiDevice)
    → (IsKind s.station ed → ⊥)
    → Describes devs s t
    → Describes (ed ∷ devs) s t
later_kind ed other (unknown h) = unknown (other, h)
later_kind ed other (known before after d name e h k old new) =
    known (ed ∷ before) after d name (ap (◌∷◌ ed) e) (other, h) k old new

describe-Describes :
    (devs : List EsiDevice) (s : Listed) → AreShort devs → Describes devs s (describe devs s)
unfolding describe described
describe-Describes [] s h = unknown tt
describe-Describes (ed ∷ devs) s h = elim (Bool-cases (is_described s.station ed)) [
  | inl e ↦
      rw (describe, e)
        (known [] devs ed (name_after s.device_name ed.device_name) refl tt
          (is_described-true s.station ed e) (name_after_none s.device_name ed.device_name)
          (name_after_some s.device_name ed.device_name h.0))
  | inr e ↦
      rw (describe, e)
        (later_kind ed (is_described-false s.station ed e) (describe-Describes devs s h.1))
]

describe_all-Pairwise :
    (devs : List EsiDevice) (db : List Listed)
    → AreShort devs
    → Pairwise (Describes devs) db (describe_all devs db)
unfolding describe_all
describe_all-Pairwise devs [] h = tt
describe_all-Pairwise devs (s ∷ db) h =
    (describe-Describes devs s h, describe_all-Pairwise devs db h)

-- Whatever the files hold, each entry of the scan becomes what the first 64 devices of the files say
-- of it: it keeps its address, state and identity and takes revision, serial number and name from
-- the first device of its vendor and product, the name only if it is not empty, and stays as it is
-- without one.
pub scan_slaves_with_esi-Describes :
    (files : List ℕ → Option (List ℕ)) (file_list : List (List ℕ)) (db : List Listed)
    → Pairwise
        (Describes (take 64 (found files file_list)))
        db
        (scan_slaves_with_esi files (some file_list) db)
scan_slaves_with_esi-Describes files file_list db = rw (scan_library files file_list db) (
    describe_all-Pairwise (take 64 (found files file_list)) db
      (AreShort-take 64 (found files file_list) (found-AreShort files file_list)))
