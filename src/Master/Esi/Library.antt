-- ===== src/Master/Esi/Library.antt =====
-- The library of devices that the files make: the first 64 of theirs, with names that fit.
use ul_ecat.Common.{
  ℕ, zero, suc, ◌≤◌, ◌≡◌, ap, sym, ◌∙◌, List, [], ◌∷◌, ◌++◌, append-nil, append_assoc, Option, none,
  some, Option-cases, inl, inr, Bool-cases, arith, ltb, ◌==◌, if◌then◌else◌, min, length,
  length-take, take, take-nil, drop, c_string, strstr, codes, lt→ltb,
}
use ul_ecat.Master.Esi.{
  EsiDevice, Listed, tag_text, parse_string_tag, device_of, next_device, parse_devices,
  esi_parse_file, merge_esi_res, merge_parsed, merge_files, describe_all, scan_slaves_with_esi,
}

-- The devices of the files, in order.
abbrev pub devices_of : Option (List EsiDevice) → List EsiDevice
devices_of none = []
devices_of (some ds) = ds

abbrev pub found : (List ℕ → Option (List ℕ)) → List (List ℕ) → List EsiDevice
found files [] = []
found files (filename ∷ file_list) =
    devices_of (esi_parse_file files filename) ++ found files file_list

take_one_more :
    {A : Type 0} (n : ℕ) (xs : List A) (a : A)
    → (if ltb (length (take n xs)) n then take n xs ++ (a ∷ []) else take n xs)
      ≡ take n (xs ++ (a ∷ []))
take_one_more zero xs a = ground arith
take_one_more (suc n) [] a = rw (lt→ltb 0 (suc n) (omega arith)) (ap (◌∷◌ a) (sym (take-nil n)))
take_one_more (suc n) (x ∷ xs) a = ground (arith, take_one_more n xs a)

merge_esi_res-take :
    (xs res : List EsiDevice) → merge_esi_res (take 64 xs) res ≡ take 64 (xs ++ res)
unfolding merge_esi_res
merge_esi_res-take xs [] = ap (take 64) (sym (append-nil xs))
merge_esi_res-take xs (d ∷ res) =
    ap (λ (ds : List EsiDevice). merge_esi_res ds res) (take_one_more 64 xs d)
    ∙ merge_esi_res-take (xs ++ (d ∷ [])) res
    ∙ ap (take 64) (append_assoc xs (d ∷ []) res)

merge_parsed-take :
    (xs : List EsiDevice) (parsed : Option (List EsiDevice))
    → merge_parsed (take 64 xs) parsed ≡ take 64 (xs ++ devices_of parsed)
unfolding merge_parsed
merge_parsed-take xs none = ap (take 64) (sym (append-nil xs))
merge_parsed-take xs (some res) = merge_esi_res-take xs res

merge_files-take :
    (files : List ℕ → Option (List ℕ)) (xs : List EsiDevice) (file_list : List (List ℕ))
    → merge_files files (take 64 xs) file_list ≡ take 64 (xs ++ found files file_list)
unfolding merge_files
merge_files-take files xs [] = ap (take 64) (sym (append-nil xs))
merge_files-take files xs (f ∷ fs) =
    ap (λ (ds : List EsiDevice). merge_files files ds fs)
      (merge_parsed-take xs (esi_parse_file files f))
    ∙ merge_files-take files (xs ++ devices_of (esi_parse_file files f)) fs
    ∙ ap (take 64) (append_assoc xs (devices_of (esi_parse_file files f)) (found files fs))

pub scan_library :
    (files : List ℕ → Option (List ℕ)) (file_list : List (List ℕ)) (db : List Listed)
    → scan_slaves_with_esi files (some file_list) db
      ≡ describe_all (take 64 (found files file_list)) db
unfolding scan_slaves_with_esi
scan_library files file_list db =
    ap (λ (devs : List EsiDevice). describe_all devs db) (merge_files-take files [] file_list)

-- The names of the devices of a file fit their array.
abbrev pub AreShort : List EsiDevice → Type 0
AreShort [] = Unit
AreShort (d ∷ ds) = (length d.device_name ≤ 127) × AreShort ds

AreShort-append : (ds es : List EsiDevice) → AreShort ds → AreShort es → AreShort (ds ++ es)
AreShort-append [] es hd he = he
AreShort-append (d ∷ ds) es hd he = (hd.0, AreShort-append ds es hd.1 he)

pub AreShort-take : (n : ℕ) (ds : List EsiDevice) → AreShort ds → AreShort (take n ds)
AreShort-take zero ds h = tt
AreShort-take (suc n) [] h = tt
AreShort-take (suc n) (d ∷ ds) h = (h.0, AreShort-take n ds h.1)

parse_string_tag_short : (xml tag : List ℕ) → length (parse_string_tag xml tag 128) ≤ 127
unfolding parse_string_tag
parse_string_tag_short xml tag = elim (Option-cases (tag_text xml tag)) [
  | inl e ↦ rw (parse_string_tag, e) (omega arith)
  | inr (text, e) ↦ rw (parse_string_tag, e, length-take (min (length text) 127) text) (omega arith)
]

abbrev IsShort : Option (EsiDevice × List ℕ) → Type 0
IsShort none = Unit
IsShort (some (d, rest)) = length d.device_name ≤ 127

device_of_short : (temp : List ℕ) → length (device_of temp).device_name ≤ 127
unfolding device_of
device_of_short temp = parse_string_tag_short temp (codes "Name")

next_device-IsShort : (from : List ℕ) → IsShort (next_device from)
unfolding next_device
next_device-IsShort from = elim (Option-cases (strstr from (codes "<Device>"))) [
  | inl e ↦ rw (next_device, e) tt
  | inr (i, e) ↦ elim (Option-cases (strstr (drop i from) (codes "</Device>"))) [
    | inl f ↦ rw (next_device, e, f) tt
    | inr (j, f) ↦ rw (next_device, e, f) (device_of_short _)
  ]
]

parse_devices-AreShort : (n : ℕ) (from : List ℕ) → AreShort (parse_devices n from)
unfolding parse_devices
parse_devices-AreShort zero from = tt
parse_devices-AreShort (suc n) from = elim (Option-cases (next_device from)) [
  | inl e ↦ rw (parse_devices, e) tt
  | inr ((d, rest), e) ↦
      rw (parse_devices, e) (rw e at (next_device-IsShort from), parse_devices-AreShort n rest)
]

devices_of-AreShort :
    (files : List ℕ → Option (List ℕ)) (filename : List ℕ)
    → AreShort (devices_of (esi_parse_file files filename))
unfolding esi_parse_file
devices_of-AreShort files filename = elim (Option-cases (files filename)) [
  | inl e ↦ rw (esi_parse_file, e) tt
  | inr (content, e) ↦ elim (Bool-cases (length content == 0)) [
    | inl z ↦ rw (esi_parse_file, e, z) tt
    | inr z ↦ rw (esi_parse_file, e, z) (parse_devices-AreShort 16 (c_string content))
  ]
]

pub found-AreShort :
    (files : List ℕ → Option (List ℕ)) (file_list : List (List ℕ))
    → AreShort (found files file_list)
found-AreShort files [] = tt
found-AreShort files (f ∷ fs) =
    AreShort-append _ _ (devices_of-AreShort files f) (found-AreShort files fs)
