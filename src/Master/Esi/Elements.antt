-- ===== src/Master/Esi/Elements.antt =====
-- A file that describes devices, and the loop over its elements.
use ul_ecat.Common.{
  ℕ, zero, suc, ◌+◌, ◌<◌, ◌≡◌, refl, ap, sym, ◌∙◌, List, [], ◌∷◌, ◌++◌, append-nil, none, some,
  arith, min, length, take, drop, take-append, drop-append, length-append, codes, strstr, is_prefix,
}
use ul_ecat.Master.Esi.{EsiDevice, device_of, next_device, parse_devices}
use ul_ecat.Master.Esi.Find.{
  AreText, AreTexts, joined, joined-append, Misses, tagged, shift, strstr-cut, strstr_found,
  strstr-all, strstr-AreText, strstr_here, is_prefix-append,
}
use ul_ecat.Master.Esi.Document.{
  IsEsiDevice, fields, fields-AreTexts, device_of-chunk, joined_split, drop_split,
}

total : List (List ℕ) → ℕ
total [] = 0
total (t ∷ ts) = suc (length t) + total ts

length-joined : (ts : List (List ℕ)) → length (joined ts) ≡ total ts
unfolding total
length-joined [] = refl
length-joined (t ∷ ts) = omega (arith, length-append t (joined ts), length-joined ts)

total-fields :
    (gap : List ℕ) (d : EsiDevice) → IsEsiDevice d → length gap < 500 → total (fields gap d) < 4000
unfolding total
total-fields gap d h small = omega (
  arith,
  h.fits,
  length-append (codes "Name>") d.device_name,
  length-append (codes "Device>") gap,
  length-append (codes "/VendorID>") gap,
  length-append (codes "/ProductCode>") gap,
  length-append (codes "/RevisionNo>") gap,
  length-append (codes "/SerialNo>") gap,
  length-append (codes "/Name>") gap,
)

fields_bound :
    (gap : List ℕ) (d : EsiDevice)
    → IsEsiDevice d
    → length gap < 500
    → length (joined (fields gap d)) < 4000
fields_bound gap d h small = rw (length-joined (fields gap d)) (total-fields gap d h small)

take_split :
    (body t : List ℕ) (before after : List (List ℕ))
    → take
        (length (joined before) + length (tagged body))
        (joined (before ++ ((body ++ t) ∷ after)))
      ≡ joined before ++ tagged body
take_split body t before after =
    ap (take (length (joined before) + length (tagged body))) (joined_split body t before after)
    ∙ ap (λ (n : ℕ). take n ((joined before ++ tagged body) ++ (t ++ joined after)))
        (sym (length-append (joined before) (tagged body)))
    ∙ take-append (joined before ++ tagged body) (t ++ joined after)

next_device_of :
    (from dev rest : List ℕ) (i j : ℕ)
    → strstr from (codes "<Device>") ≡ some i
    → drop i from ≡ dev
    → strstr dev (codes "</Device>") ≡ some j
    → j + 8 < 4096
    → drop (j + 8) dev ≡ rest
    → next_device from ≡ some (device_of (take (j + 8) dev), rest)
unfolding next_device
next_device_of from dev rest i j opened e closed small r =
    let whole : min (j + 8) 4095 ≡ j + 8 = omega arith in
    rw (next_device, opened, e, closed, whole, r) refl

-- The whole element of a device, with the pieces that follow it.
abbrev pub element : List ℕ → EsiDevice → List (List ℕ) → List (List ℕ)
element gap d ps = fields gap d ++ ((codes "/Device>" ++ gap) ∷ ps)

device-Misses : (gap : List ℕ) (d : EsiDevice) → Misses (codes "/Device>") (fields gap d)
unfolding is_prefix
device-Misses gap d =
    (refl, (refl, (refl, (refl, (refl, (refl, (refl, (refl, (refl, (refl, (refl, tt)))))))))))

strstr-pre :
    (pre gap : List ℕ) (d : EsiDevice) (ps : List (List ℕ))
    → strstr pre (codes "<Device>") ≡ none
    → strstr (pre ++ joined (element gap d ps)) (codes "<Device>") ≡ some (length pre)
strstr-pre pre gap d ps h =
    strstr-cut (codes "Device>") pre _ (omega arith) h
    ∙ ap (shift (length pre))
        (strstr_here b'<' _ (codes "<Device>") (is_prefix-append (codes "<Device>") _))
    ∙ ap some (omega arith)

-- A turn of the loop on a file whose next element is that of a device.
next_device-element :
    (pre gap : List ℕ) (d : EsiDevice) (ps : List (List ℕ))
    → strstr pre (codes "<Device>") ≡ none
    → AreText gap
    → length gap < 500
    → IsEsiDevice d
    → next_device (pre ++ joined (element gap d ps)) ≡ some (d, b'>' ∷ (gap ++ joined ps))
next_device-element pre gap d ps hp g small h =
    next_device_of _ dev _ (length pre) j (strstr-pre pre gap d ps hp) (drop-append pre dev)
      (strstr_found (codes "/Device>") gap (fields gap d) ps (omega arith)
        (fields-AreTexts gap d g h) (device-Misses gap d))
      (omega (arith, fields_bound gap d h small))
      (drop_split (codes "/Device") (b'>' ∷ gap) (fields gap d) ps)
    ∙ ap (λ (e : EsiDevice). some (e, b'>' ∷ (gap ++ joined ps)))
        (ap device_of (
            take_split (codes "/Device") (b'>' ∷ gap) (fields gap d) ps
            ∙ sym (joined-append (fields gap d) (codes "/Device" ∷ [])))
          ∙ device_of-chunk gap d g h)
  where
    dev : List ℕ
    dev = joined (element gap d ps)

    j : ℕ
    j = length (joined (fields gap d))

abbrev pub elements : List ℕ → List EsiDevice → List (List ℕ) → List (List ℕ)
elements gap [] tail = tail
elements gap (d ∷ ds) tail = element gap d (elements gap ds tail)

-- A file: a prolog, the elements of the devices and a tail of other tags.
abbrev pub document : List ℕ → List ℕ → List EsiDevice → List (List ℕ) → List ℕ
document pre gap ds tail = pre ++ joined (elements gap ds tail)

abbrev pub AreEsiDevices : List EsiDevice → Type 0
AreEsiDevices [] = Unit
AreEsiDevices (d ∷ ds) = IsEsiDevice d × AreEsiDevices ds

strstr-tail :
    (pre : List ℕ) (tail : List (List ℕ))
    → strstr pre (codes "<Device>") ≡ none
    → AreTexts tail
    → Misses (codes "Device>") tail
    → strstr (pre ++ joined tail) (codes "<Device>") ≡ none
strstr-tail pre [] h ht hm = rw (append-nil pre) h
strstr-tail pre (t ∷ ts) h ht hm =
    strstr-cut (codes "Device>") pre (t ++ joined ts) (omega arith) h
    ∙ ap (shift (length pre)) (strstr-all (codes "Device>") (t ∷ ts) (omega arith) ht hm)

next_device-none : (from : List ℕ) → strstr from (codes "<Device>") ≡ none → next_device from ≡ none
unfolding next_device
next_device-none from h = rw (next_device, h) refl

module _ (gap : List ℕ) (tail : List (List ℕ)) where
  pub parse_devices-elements :
      (n : ℕ) (pre : List ℕ) (ds : List EsiDevice)
      → strstr pre (codes "<Device>") ≡ none
      → AreText gap
      → length gap < 500
      → AreEsiDevices ds
      → AreTexts tail
      → Misses (codes "Device>") tail
      → parse_devices n (pre ++ joined (elements gap ds tail)) ≡ take n ds
  unfolding parse_devices
  parse_devices-elements zero pre ds hp g small h ht hm = refl
  parse_devices-elements (suc n) pre [] hp g small h ht hm =
      rw (parse_devices, next_device-none (pre ++ joined tail) (strstr-tail pre tail hp ht hm)) refl
  parse_devices-elements (suc n) pre (d ∷ ds) hp g small h ht hm =
      rw (parse_devices, next_device-element pre gap d (elements gap ds tail) hp g small h.0)
        (ap (◌∷◌ d) (
          parse_devices-elements n (b'>' ∷ gap) ds
            (strstr-AreText (codes "Device>") (b'>' ∷ gap) (omega arith, omega arith, g)) g small
            h.1 ht hm))
