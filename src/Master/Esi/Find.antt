-- ===== src/Master/Esi/Find.antt =====
-- `strstr` for tags: a tag starts with `<` and has no other, so that a text that ends before a `<`
-- hides no part of one.
use ul_ecat.Common.{
  ℕ, suc, ◌+◌, ◌≡◌, ◌≢◌, refl, ap, sym, ◌∙◌, List, [], ◌∷◌, ◌++◌, append-nil, append_assoc, Option,
  none, some, true, false, arith, length, length-append, is_prefix, later, strstr,
}

-- Bytes that neither open a tag nor end a string.
abbrev pub AreText : List ℕ → Type 0
AreText [] = Unit
AreText (c ∷ cs) = (c ≢ b'<') × (c ≢ 0) × AreText cs

abbrev pub AreTexts : List (List ℕ) → Type 0
AreTexts [] = Unit
AreTexts (t ∷ ts) = AreText t × AreTexts ts

pub AreText-append : (xs ys : List ℕ) → AreText xs → AreText ys → AreText (xs ++ ys)
AreText-append [] ys hx hy = hy
AreText-append (x ∷ xs) ys hx hy = (hx.0, hx.1, AreText-append xs ys hx.2 hy)

-- A text that is given by its pieces, each of them behind a `<`.
abbrev pub joined : List (List ℕ) → List ℕ
joined [] = []
joined (t ∷ ts) = b'<' ∷ (t ++ joined ts)

pub joined-append : (ts us : List (List ℕ)) → joined (ts ++ us) ≡ joined ts ++ joined us
joined-append [] us = refl
joined-append (t ∷ ts) us =
    ap (λ (s : List ℕ). b'<' ∷ (t ++ s)) (joined-append ts us)
    ∙ ap (◌∷◌ b'<') (sym (append_assoc t (joined ts) (joined us)))

-- None of the pieces is the tag.
abbrev pub Misses : List ℕ → List (List ℕ) → Type 0
Misses body [] = Unit
Misses body (t ∷ ts) = (is_prefix body t ≡ false) × Misses body ts

abbrev pub shift : ℕ → Option ℕ → Option ℕ
shift n none = none
shift n (some i) = some (n + i)

shift_zero : (o : Option ℕ) → shift 0 o ≡ o
shift_zero none = refl
shift_zero (some i) = ap some (omega arith)

later-shift : (n : ℕ) (o : Option ℕ) → later (shift n o) ≡ shift (suc n) o
unfolding later
later-shift n none = refl
later-shift n (some i) = ap some (omega arith)

shift-shift : (m n : ℕ) (o : Option ℕ) → shift m (shift n o) ≡ shift (m + n) o
shift-shift m n none = refl
shift-shift m n (some i) = ap some (omega arith)

is_prefix-cut :
    (body xs r : List ℕ) → AreText body → is_prefix body (xs ++ (b'<' ∷ r)) ≡ is_prefix body xs
unfolding is_prefix
is_prefix-cut [] xs r h = refl
is_prefix-cut (n ∷ ns) [] r h = ground (arith, h.0)
is_prefix-cut (n ∷ ns) (x ∷ xs) r h = ground (arith, is_prefix-cut ns xs r h.2)

pub is_prefix-append : (s r : List ℕ) → is_prefix s (s ++ r) ≡ true
unfolding is_prefix
is_prefix-append [] r = refl
is_prefix-append (c ∷ cs) r = ground (arith, is_prefix-append cs r)

abbrev pub tagged : List ℕ → List ℕ
tagged body = b'<' ∷ body

strstr_miss :
    (c : ℕ) (cs needle : List ℕ)
    → strstr (c ∷ cs) needle ≡ none
    → (is_prefix needle (c ∷ cs) ≡ false) × (strstr cs needle ≡ none)
unfolding strstr later
strstr_miss c cs needle h = (ground (arith), ground (arith))

strstr_skip :
    (c : ℕ) (cs needle : List ℕ)
    → is_prefix needle (c ∷ cs) ≡ false
    → strstr (c ∷ cs) needle ≡ later (strstr cs needle)
unfolding strstr
strstr_skip c cs needle h = ground arith

pub strstr_here :
    (c : ℕ) (cs needle : List ℕ)
    → is_prefix needle (c ∷ cs) ≡ true
    → strstr (c ∷ cs) needle ≡ some 0
unfolding strstr
strstr_here c cs needle h = ground arith

is_prefix_cut :
    (body : List ℕ) (x : ℕ) (xs r : List ℕ)
    → AreText body
    → is_prefix (tagged body) (x ∷ xs) ≡ false
    → is_prefix (tagged body) (x ∷ (xs ++ (b'<' ∷ r))) ≡ false
unfolding is_prefix
is_prefix_cut body x xs r h m = ground (arith, is_prefix-cut body xs r h)

-- A search in front of a `<`.
pub strstr-cut :
    (body xs r : List ℕ)
    → AreText body
    → strstr xs (tagged body) ≡ none
    → strstr (xs ++ (b'<' ∷ r)) (tagged body) ≡ shift (length xs) (strstr (b'<' ∷ r) (tagged body))
strstr-cut body [] r h none_there = sym (shift_zero _)
strstr-cut body (x ∷ xs) r h none_there =
    let (misses, rest) = strstr_miss x xs (tagged body) none_there in
    strstr_skip x _ (tagged body) (is_prefix_cut body x xs r h misses)
    ∙ ap later (strstr-cut body xs r h rest)
    ∙ later-shift (length xs) _

strstr_end : (body : List ℕ) → strstr [] (tagged body) ≡ none
unfolding strstr is_prefix
strstr_end body = refl

-- There is no tag in a text.
pub strstr-AreText : (body xs : List ℕ) → AreText xs → strstr xs (tagged body) ≡ none
strstr-AreText body [] h = strstr_end body
strstr-AreText body (x ∷ xs) h =
    strstr_skip x xs (tagged body) (unfold is_prefix in ground (arith, h.0))
    ∙ ap later (strstr-AreText body xs h.2)
    ∙ (unfold later in refl)

strstr_piece :
    (body t : List ℕ)
    → AreText t
    → is_prefix body t ≡ false
    → strstr (b'<' ∷ t) (tagged body) ≡ none
strstr_piece body t h m =
    strstr_skip b'<' t (tagged body) (unfold is_prefix in m)
    ∙ ap later (strstr-AreText body t h)
    ∙ (unfold later in refl)

strstr_past :
    (body t : List ℕ) (us : List (List ℕ))
    → AreText body
    → AreText t
    → is_prefix body t ≡ false
    → strstr (b'<' ∷ (t ++ joined us)) (tagged body)
      ≡ shift (suc (length t)) (strstr (joined us) (tagged body))
strstr_past body t [] hb h m = rw (append-nil t, strstr_piece body t h m, strstr_end body) refl
strstr_past body t (u ∷ us) hb h m =
    strstr-cut body (b'<' ∷ t) (u ++ joined us) hb (strstr_piece body t h m)

-- A search goes past the pieces that are not the tag.
pub strstr-joined :
    (body : List ℕ) (before after : List (List ℕ))
    → AreText body
    → AreTexts before
    → Misses body before
    → strstr (joined (before ++ after)) (tagged body)
      ≡ shift (length (joined before)) (strstr (joined after) (tagged body))
strstr-joined body [] after hb h m = sym (shift_zero _)
strstr-joined body (t ∷ ts) after hb h m =
    strstr_past body t (ts ++ after) hb h.0 m.0
    ∙ ap (shift (suc (length t))) (strstr-joined body ts after hb h.1 m.1)
    ∙ shift-shift (suc (length t)) (length (joined ts)) _
    ∙ ap (λ (n : ℕ). shift n (strstr (joined after) (tagged body)))
        (omega (arith, length-append t (joined ts)))

-- The first tag is found behind the pieces that are not the tag.
pub strstr_found :
    (body t : List ℕ) (before after : List (List ℕ))
    → AreText body
    → AreTexts before
    → Misses body before
    → strstr (joined (before ++ ((body ++ t) ∷ after))) (tagged body)
      ≡ some (length (joined before))
strstr_found body t before after hb h m =
    strstr-joined body before ((body ++ t) ∷ after) hb h m
    ∙ ap (shift (length (joined before))) (
        strstr_here b'<' ((body ++ t) ++ joined after) (tagged body) (
          unfold is_prefix in
          rw (append_assoc body t (joined after)) (is_prefix-append body (t ++ joined after))))
    ∙ ap some (omega arith)

-- Pieces that are not the tag hold none.
pub strstr-all :
    (body : List ℕ) (ts : List (List ℕ))
    → AreText body
    → AreTexts ts
    → Misses body ts
    → strstr (joined ts) (tagged body) ≡ none
strstr-all body ts hb h m =
    ap (λ (us : List (List ℕ)). strstr (joined us) (tagged body)) (sym (append-nil ts))
    ∙ strstr-joined body ts [] hb h m
    ∙ ap (shift (length (joined ts))) (strstr_end body)
