-- ===== src/Wire/Pdu/Walk.antt =====
-- What the walk finds: each datagram of a well-formed frame, and no more than the buffer holds.
use ul_ecat.Common.{
  ℕ, zero, suc, ◌↔◌, ◌+◌, ◌≤◌, ◌<◌, ◌≡◌, ◌≢◌, inl, inr, refl, ap, ◌∙◌, List, [], ◌∷◌, ◌++◌, Option,
  none, some, arith, ltb, le→ltb, le→leb, if◌then◌else◌, Option-cases, length, drop, drop-append,
  length-append, length-drop,
}
use native.Mathlib.Decide.{dec_lt}
use ul_ecat.Wire.Datagram.{dgram_wire_size, parse_one_dgram, Dgram, wire, IsDgram, parsed_of}
use ul_ecat.Wire.Datagram.RoundTrip.{
  length-wire, wire-len, length-packet, parse_one_dgram-wire, copy_data-wire,
}
use ul_ecat.Wire.Pdu.{
  dgram_total, dgram_parse, counted, out_of_fuel, count_loop, pdu_count_datagrams, wire_all,
  AreDgrams, wire_size_all,
}

dgram_total-wire :
    (d : Dgram) (rest : List ℕ) → IsDgram d → dgram_total (wire d ++ rest) ≡ some (length (wire d))
unfolding dgram_total
dgram_total-wire d rest h = rw (
  wire-len d h rest,
  le→ltb (length (wire d ++ rest)) (dgram_wire_size (length d.bytes))
      (omega (arith, length-packet d h rest)),
  length-wire d,
)

-- A datagram size is at least 12 and fits the bytes that remain.
dgram_total-bounds :
    (dg : List ℕ) (dtot : ℕ) → dgram_total dg ≡ some dtot → (12 ≤ dtot) × (dtot ≤ length dg)
unfolding dgram_total
dgram_total-bounds dg dtot e = ground arith

pub length-wire_all : (ds : List Dgram) → length (wire_all ds) ≡ wire_size_all ds
unfolding wire_all wire_size_all
length-wire_all [] = refl
length-wire_all (d ∷ ds) =
    omega (arith, length-append (wire d) (wire_all ds), length-wire d, length-wire_all ds)

pub dgram_parse-zero :
    (d : Dgram) (rest : List ℕ) (data_out : Option ℕ)
    → IsDgram d
    → dgram_parse (wire d ++ rest) 0 data_out ≡ parse_one_dgram (wire d ++ rest) data_out
unfolding dgram_parse
dgram_parse-zero d rest data_out h = rw (
  le→ltb (length (wire d ++ rest)) 12 (omega (arith, length-packet d h rest)),
  dgram_total-wire d rest h,
)

dgram_parse-suc :
    (d : Dgram) (rest : List ℕ) (i : ℕ) (data_out : Option ℕ)
    → IsDgram d
    → dgram_parse (wire d ++ rest) (suc i) data_out ≡ dgram_parse rest i data_out
unfolding dgram_parse
dgram_parse-suc d rest i data_out h = rw (
  le→ltb (length (wire d ++ rest)) 12 (omega (arith, length-packet d h rest)),
  dgram_total-wire d rest h,
  drop-append,
)

count_loop-wire :
    (fuel : ℕ) (d : Dgram) (rest : List ℕ) (count : ℕ)
    → IsDgram d
    → count_loop (suc fuel) (wire d ++ rest) count ≡ count_loop fuel rest (count + 1)
unfolding count_loop
count_loop-wire fuel d rest count h = rw (
  le→leb 12 (length (wire d ++ rest)) (omega (arith, length-packet d h rest)),
  dgram_total-wire d rest h,
  drop-append,
)

count_loop-wire_all :
    (fuel : ℕ) (ds : List Dgram) (count : ℕ)
    → AreDgrams ds
    → length (wire_all ds) < fuel
    → count_loop fuel (wire_all ds) count ≡ counted (count + length ds)
unfolding wire_all count_loop
count_loop-wire_all zero ds count h f = absurd (omega arith)
count_loop-wire_all (suc fuel) [] count h f = ap counted (omega arith)
count_loop-wire_all (suc fuel) (d ∷ ds) count h f =
    count_loop-wire fuel d (wire_all ds) count h.0
    ∙ count_loop-wire_all fuel ds (count + 1) h.1 (omega (arith, length-packet d h.0 (wire_all ds)))
    ∙ ap counted (omega arith)

-- The count of a frame of well-formed datagrams is their number.
pub pdu_count_datagrams-wire_all :
    (ds : List Dgram) → AreDgrams ds → pdu_count_datagrams (wire_all ds) ≡ counted (length ds)
unfolding pdu_count_datagrams
pdu_count_datagrams-wire_all ds h =
    count_loop-wire_all (length (wire_all ds) + 1) ds 0 h (omega arith) ∙ ap counted (omega arith)

-- The datagram at an index is parsed into its own fields, whatever stands before it and after it;
-- its data is copied if the buffer given holds it, and the parse is an error if it does not.
pub dgram_parse-wire_all :
    (before : List Dgram) (d : Dgram) (after : List Dgram) (data_cap : ℕ)
    → AreDgrams (before ++ d ∷ after)
    → dgram_parse (wire_all (before ++ d ∷ after)) (length before) (some data_cap)
      ≡ (if ltb data_cap (length d.bytes) then none else some (parsed_of d d.bytes))
unfolding wire_all
dgram_parse-wire_all [] d after data_cap h =
    dgram_parse-zero d (wire_all after) (some data_cap) h.0
    ∙ parse_one_dgram-wire d h.0 (wire_all after) (some data_cap)
    ∙ rw (copy_data-wire d h.0 (wire_all after)) (ground arith)
dgram_parse-wire_all (b ∷ before) d after data_cap h =
    dgram_parse-suc b (wire_all (before ++ d ∷ after)) (length before) (some data_cap) h.0
    ∙ dgram_parse-wire_all before d after data_cap h.1

count_loop-ne-out_of_fuel :
    (fuel : ℕ) (dg : List ℕ) (count : ℕ) → length dg < fuel → count_loop fuel dg count ≢ out_of_fuel
unfolding count_loop
count_loop-ne-out_of_fuel zero dg count h = absurd (omega arith)
count_loop-ne-out_of_fuel (suc fuel) dg count h = elim (Option-cases (dgram_total dg)) [
  | inl e ↦ rw e (ground arith)
  | inr (dtot, e) ↦ rw e (
      ground (
        arith,
        dgram_total-bounds dg dtot e,
        length-drop dtot dg,
        count_loop-ne-out_of_fuel fuel (drop dtot dg) (count + 1),
      ))
]

-- The count ends on every buffer, well formed or not.
pub pdu_count_datagrams_total : (pdu : List ℕ) → pdu_count_datagrams pdu ≢ out_of_fuel
unfolding pdu_count_datagrams
pdu_count_datagrams_total pdu = count_loop-ne-out_of_fuel (length pdu + 1) pdu 0 (omega arith)

-- A parse with no buffer succeeds at a datagram whose size was accepted.
parse_one_dgram_ok :
    (dg : List ℕ) (dtot : ℕ)
    → dgram_total dg ≡ some dtot
    → length dg ≤ 1498
    → parse_one_dgram dg none ≢ none
unfolding dgram_total parse_one_dgram
parse_one_dgram_ok dg dtot e small = ground arith

count_loop_parses :
    (fuel : ℕ) (dg : List ℕ) (count n i : ℕ)
    → count_loop fuel dg count ≡ counted n
    → length dg ≤ 1498
    → count + i < n
    → dgram_parse dg i none ≢ none
unfolding count_loop dgram_parse
count_loop_parses zero dg count n i e small h = cc
count_loop_parses (suc fuel) dg count n zero e small h = elim (Option-cases (dgram_total dg)) [
  | inl t ↦ ground arith
  | inr (dtot, t) ↦ ground (arith, parse_one_dgram_ok dg dtot t small)
]
count_loop_parses (suc fuel) dg count n (suc i) e small h = elim (Option-cases (dgram_total dg)) [
  | inl t ↦ ground arith
  | inr (dtot, t) ↦ ground (
    arith,
    dgram_total-bounds dg dtot t,
    length-drop dtot dg,
    count_loop_parses fuel (drop dtot dg) (count + 1) n i,
  )
]

count_loop-le :
    (fuel : ℕ) (dg : List ℕ) (count n : ℕ) → count_loop fuel dg count ≡ counted n → count ≤ n
unfolding count_loop
count_loop-le zero dg count n e = cc
count_loop-le (suc fuel) dg count n e = elim (Option-cases (dgram_total dg)) [
  | inl t ↦ ground arith
  | inr (dtot, t) ↦ ground (arith, count_loop-le fuel (drop dtot dg) (count + 1) n)
]

count_loop_ends :
    (fuel : ℕ) (dg : List ℕ) (count n i : ℕ)
    → count_loop fuel dg count ≡ counted n
    → n ≤ count + i
    → dgram_parse dg i none ≡ none
unfolding count_loop dgram_parse
count_loop_ends zero dg count n i e h = cc
count_loop_ends (suc fuel) dg count n zero e h = elim (Option-cases (dgram_total dg)) [
  | inl t ↦ ground arith
  | inr (dtot, t) ↦ ground (arith, count_loop-le fuel (drop dtot dg) (count + 1) n)
]
count_loop_ends (suc fuel) dg count n (suc i) e h = elim (Option-cases (dgram_total dg)) [
  | inl t ↦ ground arith
  | inr (dtot, t) ↦ ground (arith, count_loop_ends fuel (drop dtot dg) (count + 1) n i)
]

-- On any bytes that a frame may hold: where the count succeeds, the datagrams below it parse and
-- none at or above it does. So the loops that go up to the count never meet a walk error.
pub pdu_count_datagrams_parses :
    (pdu : List ℕ) (n i : ℕ)
    → pdu_count_datagrams pdu ≡ counted n
    → length pdu ≤ 1498
    → (dgram_parse pdu i none ≢ none) ↔ (i < n)
unfolding pdu_count_datagrams
pdu_count_datagrams_parses pdu n i e small = (
  λ parses. elim (dec_lt i n) [
    | yes below ↦ below
    | no above ↦ absurd (parses (count_loop_ends (length pdu + 1) pdu 0 n i e (omega arith)))
  ],
  λ below. count_loop_parses (length pdu + 1) pdu 0 n i e small (omega arith),
)
