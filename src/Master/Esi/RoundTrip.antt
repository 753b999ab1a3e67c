-- ===== src/Master/Esi/RoundTrip.antt =====
-- `ul_ecat_esi_parse_file` on a file that describes devices.
use ul_ecat.Common.{
  ℕ, ◌<◌, ◌≡◌, ◌≢◌, refl, ap, ◌∙◌, List, [], ◌∷◌, ◌++◌, Option, none, some, arith, length,
  length-append, take, codes, c_string, strstr,
}
use ul_ecat.Master.Esi.{EsiDevice, parse_devices, esi_parse_file}
use ul_ecat.Master.Esi.Find.{AreText, AreTexts, AreText-append, joined, Misses}
use ul_ecat.Master.Esi.Document.{fields, fields-AreTexts}
use ul_ecat.Master.Esi.Elements.{AreEsiDevices, elements, document, parse_devices-elements}

abbrev pub HasNoNul : List ℕ → Type 0
HasNoNul [] = Unit
HasNoNul (c ∷ cs) = (c ≢ 0) × HasNoNul cs

HasNoNul-append : (xs ys : List ℕ) → HasNoNul xs → HasNoNul ys → HasNoNul (xs ++ ys)
HasNoNul-append [] ys hx hy = hy
HasNoNul-append (x ∷ xs) ys hx hy = (hx.0, HasNoNul-append xs ys hx.1 hy)

AreText-HasNoNul : (t : List ℕ) → AreText t → HasNoNul t
AreText-HasNoNul [] h = tt
AreText-HasNoNul (c ∷ cs) h = (h.1, AreText-HasNoNul cs h.2)

joined-HasNoNul : (ts : List (List ℕ)) → AreTexts ts → HasNoNul (joined ts)
joined-HasNoNul [] h = tt
joined-HasNoNul (t ∷ ts) h =
    (omega arith, HasNoNul-append t (joined ts) (AreText-HasNoNul t h.0) (joined-HasNoNul ts h.1))

c_string-HasNoNul : (s : List ℕ) → HasNoNul s → c_string s ≡ s
unfolding c_string
c_string-HasNoNul [] h = refl
c_string-HasNoNul (c ∷ cs) h = ground (arith, h.0, c_string-HasNoNul cs h.1)

AreTexts-append : (ts us : List (List ℕ)) → AreTexts ts → AreTexts us → AreTexts (ts ++ us)
AreTexts-append [] us ht hu = hu
AreTexts-append (t ∷ ts) us ht hu = (ht.0, AreTexts-append ts us ht.1 hu)

-- The prolog has no device and no NUL and is not empty; the gap is a text of fewer than 500 bytes;
-- the numbers have 32 bits, the names are texts of fewer than 128 bytes; the tail opens no device.
pub record IsDocument (pre gap : List ℕ) (ds : List EsiDevice) (tail : List (List ℕ)) : Type 0 where
  pub pre_some : 0 < length pre
  pub pre_no_nul : HasNoNul pre
  pub pre_no_device : strstr pre (codes "<Device>") ≡ none
  pub gap_text : AreText gap
  pub gap_short : length gap < 500
  pub devices : AreEsiDevices ds
  pub tail_texts : AreTexts tail
  pub tail_no_device : Misses (codes "Device>") tail

elements-AreTexts :
    (gap : List ℕ) (ds : List EsiDevice) (tail : List (List ℕ))
    → AreText gap
    → AreEsiDevices ds
    → AreTexts tail
    → AreTexts (elements gap ds tail)
elements-AreTexts gap [] tail g h ht = ht
elements-AreTexts gap (d ∷ ds) tail g h ht =
    AreTexts-append (fields gap d) ((codes "/Device>" ++ gap) ∷ elements gap ds tail)
      (fields-AreTexts gap d g h.0)
      (
        AreText-append (codes "/Device>") gap (omega arith) g,
        elements-AreTexts gap ds tail g h.1 ht,
      )

esi_parse_file_of :
    (files : List ℕ → Option (List ℕ)) (filename content : List ℕ)
    → files filename ≡ some content
    → 0 < length content
    → HasNoNul content
    → esi_parse_file files filename ≡ some (parse_devices 16 content)
unfolding esi_parse_file
esi_parse_file_of files filename content e some_bytes h =
    ground (arith, c_string-HasNoNul content h)

-- A file with a prolog without a device, the elements of devices whose numbers are written as eight
-- hexadecimal digits, with a gap behind every tag but the opening ones of the fields, and a tail of
-- other tags, gives exactly its devices in their order, the first 16 of them if there are more.
pub esi_parse_file-document :
    (files : List ℕ → Option (List ℕ)) (filename pre gap : List ℕ) (ds : List EsiDevice)
    (tail : List (List ℕ))
    → files filename ≡ some (document pre gap ds tail)
    → IsDocument pre gap ds tail
    → esi_parse_file files filename ≡ some (take 16 ds)
esi_parse_file-document files filename pre gap ds tail e h =
    esi_parse_file_of files filename (document pre gap ds tail) e
      (omega (arith, h.pre_some, length-append pre (joined (elements gap ds tail))))
      (HasNoNul-append pre (joined (elements gap ds tail)) h.pre_no_nul (
        joined-HasNoNul (elements gap ds tail)
          (elements-AreTexts gap ds tail h.gap_text h.devices h.tail_texts)))
    ∙ ap some (
        parse_devices-elements gap tail 16 pre ds h.pre_no_device h.gap_text h.gap_short h.devices
          h.tail_texts h.tail_no_device)
