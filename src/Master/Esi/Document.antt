-- ===== src/Master/Esi/Document.antt =====
-- A file of device descriptions, and how the parser reads the first of them.
use ul_ecat.Common.{
  ℕ, zero, suc, ◌+◌, ◌<◌, ◌≡◌, refl, ap, sym, ◌∙◌, List, [], ◌∷◌, ◌++◌, append_assoc, some, arith,
  length, take, drop, take-append, drop-append, take_all, length-append, codes, u32, IsU32, strstr,
  is_prefix,
}
use ul_ecat.Master.Esi.{
  EsiDevice, open_tag, close_tag, tag_text, parse_hex_tag, parse_string_tag, device_of,
}
use ul_ecat.Master.Esi.Find.{
  AreText, AreTexts, AreText-append, joined, joined-append, Misses, tagged, shift, strstr-cut,
  strstr_found, strstr-AreText, strstr_here, is_prefix-append,
}
use ul_ecat.Master.Esi.Hex.{hex, hex-AreText, strtoul-hex}

tag_text_of :
    (xml tag s : List ℕ) (i l : ℕ)
    → strstr xml (open_tag tag) ≡ some i
    → drop (i + length (open_tag tag)) xml ≡ s
    → strstr s (close_tag tag) ≡ some l
    → tag_text xml tag ≡ some (take l s)
unfolding tag_text
tag_text_of xml tag s i l opened rest closed = rw (opened, rest, closed) refl

abbrev body_of : List ℕ → List ℕ
body_of tag = tag ++ codes ">"

pub joined_split :
    (body t : List ℕ) (before after : List (List ℕ))
    → joined (before ++ ((body ++ t) ∷ after))
      ≡ (joined before ++ tagged body) ++ (t ++ joined after)
joined_split body t before after =
    joined-append before ((body ++ t) ∷ after)
    ∙ ap (λ (s : List ℕ). joined before ++ (b'<' ∷ s)) (append_assoc body t (joined after))
    ∙ sym (append_assoc (joined before) (tagged body) (t ++ joined after))

pub drop_split :
    (body t : List ℕ) (before after : List (List ℕ))
    → drop
        (length (joined before) + length (tagged body))
        (joined (before ++ ((body ++ t) ∷ after)))
      ≡ t ++ joined after
drop_split body t before after =
    ap (drop (length (joined before) + length (tagged body))) (joined_split body t before after)
    ∙ ap (λ (n : ℕ). drop n ((joined before ++ tagged body) ++ (t ++ joined after)))
        (sym (length-append (joined before) (tagged body)))
    ∙ drop-append (joined before ++ tagged body) (t ++ joined after)

strstr_end_of :
    (body text rest : List ℕ)
    → AreText body
    → AreText text
    → strstr (text ++ (tagged body ++ rest)) (tagged body) ≡ some (length text)
strstr_end_of body text rest hb ht =
    strstr-cut body text (body ++ rest) hb (strstr-AreText body text ht)
    ∙ ap (shift (length text))
        (strstr_here b'<' (body ++ rest) (tagged body) (is_prefix-append (tagged body) rest))
    ∙ ap some (omega arith)

-- The text of an element behind pieces that do not open it.
pub tag_text-joined :
    (tag text gap : List ℕ) (before after : List (List ℕ))
    → AreText (body_of tag)
    → AreText text
    → AreTexts before
    → Misses (body_of tag) before
    → tag_text
        (joined (before ++ ((body_of tag ++ text) ∷ (((b'/' ∷ body_of tag) ++ gap) ∷ after))))
        tag
      ≡ some text
tag_text-joined tag text gap before after hb ht h m =
    tag_text_of _ tag _ _ _ (strstr_found body text before _ hb h m) (drop_split body text before _)
      (ap (λ (s : List ℕ). strstr (text ++ (b'<' ∷ s)) (close_tag tag))
          (append_assoc (b'/' ∷ body) gap (joined after))
        ∙ strstr_end_of (b'/' ∷ body) text (gap ++ joined after) (omega arith, omega arith, hb) ht)
    ∙ ap some (take-append text _)
  where
    body : List ℕ
    body = body_of tag

-- What a file can say of a device: 32-bit numbers, and a name that is a text and fits.
pub record IsEsiDevice (d : EsiDevice) : Type 0 where
  pub vendor_id : IsU32 d.vendor_id
  pub product_code : IsU32 d.product_code
  pub revision_no : IsU32 d.revision_no
  pub serial_no : IsU32 d.serial_no
  pub device_name : AreText d.device_name
  pub fits : length d.device_name < 128

-- The pieces of a device but its closing tag. Each tag but the opening ones of the five fields is
-- followed by a gap.
abbrev pub fields : List ℕ → EsiDevice → List (List ℕ)
fields gap d =
    (codes "Device>" ++ gap)
    ∷ (codes "VendorID>" ++ hex d.vendor_id)
    ∷ (codes "/VendorID>" ++ gap)
    ∷ (codes "ProductCode>" ++ hex d.product_code)
    ∷ (codes "/ProductCode>" ++ gap)
    ∷ (codes "RevisionNo>" ++ hex d.revision_no)
    ∷ (codes "/RevisionNo>" ++ gap)
    ∷ (codes "SerialNo>" ++ hex d.serial_no)
    ∷ (codes "/SerialNo>" ++ gap)
    ∷ (codes "Name>" ++ d.device_name)
    ∷ (codes "/Name>" ++ gap)
    ∷ []

pub fields-AreTexts :
    (gap : List ℕ) (d : EsiDevice) → AreText gap → IsEsiDevice d → AreTexts (fields gap d)
fields-AreTexts gap d g h = (
  AreText-append (codes "Device>") gap (omega arith) g,
  (
    AreText-append (codes "VendorID>") (hex d.vendor_id) (omega arith) (hex-AreText d.vendor_id),
    (
      AreText-append (codes "/VendorID>") gap (omega arith) g,
      (
        AreText-append (codes "ProductCode>") (hex d.product_code) (omega arith)
            (hex-AreText d.product_code),
        (
          AreText-append (codes "/ProductCode>") gap (omega arith) g,
          (
            AreText-append (codes "RevisionNo>") (hex d.revision_no) (omega arith)
                (hex-AreText d.revision_no),
            (
              AreText-append (codes "/RevisionNo>") gap (omega arith) g,
              (
                AreText-append (codes "SerialNo>") (hex d.serial_no) (omega arith)
                    (hex-AreText d.serial_no),
                (
                  AreText-append (codes "/SerialNo>") gap (omega arith) g,
                  (
                    AreText-append (codes "Name>") d.device_name (omega arith) h.device_name,
                    (AreText-append (codes "/Name>") gap (omega arith) g, tt),
                  ),
                ),
              ),
            ),
          ),
        ),
      ),
    ),
  ),
)

AreTexts-take : (n : ℕ) (ts : List (List ℕ)) → AreTexts ts → AreTexts (take n ts)
AreTexts-take zero ts h = tt
AreTexts-take (suc n) [] h = tt
AreTexts-take (suc n) (t ∷ ts) h = (h.0, AreTexts-take n ts h.1)

parse_hex_tag_of :
    (xml tag : List ℕ) (v : ℕ)
    → IsU32 v
    → tag_text xml tag ≡ some (hex v)
    → parse_hex_tag xml tag ≡ v
unfolding parse_hex_tag
parse_hex_tag_of xml tag v h e = rw (parse_hex_tag, e) (ap u32 (strtoul-hex v h) ∙ omega arith)

parse_string_tag_of :
    (xml tag text : List ℕ)
    → length text < 128
    → tag_text xml tag ≡ some text
    → parse_string_tag xml tag 128 ≡ text
unfolding parse_string_tag
parse_string_tag_of xml tag text h e =
    rw (parse_string_tag, e) (ap (λ (n : ℕ). take n text) (omega arith) ∙ take_all text)

module _ (gap : List ℕ) (d : EsiDevice) (g : AreText gap) (h : IsEsiDevice d) where
  chunk : List ℕ
  chunk = joined (fields gap d ++ (codes "/Device" ∷ []))

  -- The text of the field that opens as the n-th piece.
  field_text :
      (tag text : List ℕ) (n : ℕ)
      → AreText (body_of tag)
      → AreText text
      → Misses (body_of tag) (take n (fields gap d))
      → joined (
          take n (fields gap d)
          ++ ((body_of tag ++ text)
              ∷ (((b'/' ∷ body_of tag) ++ gap)
                  ∷ (drop (n + 2) (fields gap d) ++ (codes "/Device" ∷ [])))))
        ≡ chunk
      → tag_text chunk tag ≡ some text
  field_text tag text n hb ht m same =
      ap (λ (s : List ℕ). tag_text s tag) (sym same)
      ∙ tag_text-joined tag text gap (take n (fields gap d))
          (drop (n + 2) (fields gap d) ++ (codes "/Device" ∷ [])) hb ht
          (AreTexts-take n (fields gap d) (fields-AreTexts gap d g h)) m

  pub device_of-chunk : device_of (joined (fields gap d ++ (codes "/Device" ∷ []))) ≡ d
  unfolding device_of chunk is_prefix
  device_of-chunk =
      rw
        (
          parse_hex_tag_of chunk (codes "VendorID") d.vendor_id h.vendor_id (
              field_text (codes "VendorID") (hex d.vendor_id) 1 (omega arith)
                (hex-AreText d.vendor_id) (refl, tt) refl),
          parse_hex_tag_of chunk (codes "ProductCode") d.product_code h.product_code (
              field_text (codes "ProductCode") (hex d.product_code) 3 (omega arith)
                (hex-AreText d.product_code) (refl, (refl, (refl, tt))) refl),
          parse_hex_tag_of chunk (codes "RevisionNo") d.revision_no h.revision_no (
              field_text (codes "RevisionNo") (hex d.revision_no) 5 (omega arith)
                (hex-AreText d.revision_no) (refl, (refl, (refl, (refl, (refl, tt))))) refl),
          parse_hex_tag_of chunk (codes "SerialNo") d.serial_no h.serial_no (
              field_text (codes "SerialNo") (hex d.serial_no) 7 (omega arith)
                (hex-AreText d.serial_no) (refl, (refl, (refl, (refl, (refl, (refl, (refl, tt)))))))
                refl),
          parse_string_tag_of chunk (codes "Name") d.device_name h.fits (
              field_text (codes "Name") d.device_name 9 (omega arith) h.device_name
                (refl, (refl, (refl, (refl, (refl, (refl, (refl, (refl, (refl, tt))))))))) refl),
        )
        refl
