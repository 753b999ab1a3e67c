-- ===== src/Wire/Datagram/RoundTrip.antt =====
-- Encoding and parsing one datagram.
use ul_ecat.Common.{
  replicate, zero, suc, ap, refl, AreBytes, AreBytes-take, AreBytes-drop, ℕ, ◌+◌, ◌%◌, ◌>>=◌, ◌≤◌,
  ◌≡◌, List, [], ◌∷◌, ◌++◌, append_assoc, Option, none, some, arith, ltb, le→ltb, if◌then◌else◌,
  length, take, drop, take_all, take-append, drop-append, length-append, and_7ff, w16_le, r16_le,
  r16_le-w16_le, length-w16_le,
}
use ul_ecat.Wire.Datagram.{
  payload, Parsed, pack_len_irq, unpack_len, dgram_wire_size, dgram_max_data, dgram_encode,
  copy_data, parse_one_dgram, Dgram, wire, IsDgram, parsed_of,
}

pub pack_len_irq-small : (n irq : ℕ) → n ≤ dgram_max_data → pack_len_irq n irq ≡ n
unfolding pack_len_irq
pack_len_irq-small n irq h = ground (arith, and_7ff n)

pub unpack_len_lem : (n : ℕ) → unpack_len n ≡ n % 2048
unfolding unpack_len
unpack_len_lem n = omega (arith, and_7ff n)

pub length-wire : (d : Dgram) → length (wire d) ≡ dgram_wire_size (length d.bytes)
unfolding wire w16_le
length-wire d = omega (arith, length-append d.bytes (w16_le d.wkc), length-w16_le d.wkc)

-- `ul_ecat_dgram_encode` writes the bytes of a datagram that fits its limits and the buffer, and
-- returns an error otherwise.
pub dgram_encode-wire :
    (cap : ℕ) (d : Dgram)
    → length d.bytes ≤ dgram_max_data
    → dgram_encode cap d.cmd d.index d.adp d.ado (length d.bytes) d.irq d.wkc (some d.bytes)
      ≡ (if ltb cap (dgram_wire_size (length d.bytes)) then none else some (wire d))
unfolding dgram_encode wire
dgram_encode-wire cap d h = rw (
  le→ltb dgram_max_data (length d.bytes) h,
  pack_len_irq-small (length d.bytes) d.irq h,
  take_all d.bytes,
)

-- Without data it writes zeros.
pub dgram_encode_zeros :
    (cap cmd index adp ado len irq wkc : ℕ)
    → dgram_encode cap cmd index adp ado len irq wkc none
      ≡ dgram_encode cap cmd index adp ado len irq wkc (some (replicate len 0))
unfolding dgram_encode payload
dgram_encode_zeros cap cmd index adp ado len irq wkc = rw (zeros_taken len) refl
  where
    zeros_taken : (n : ℕ) → take n (replicate {A = ℕ} n 0) ≡ replicate n 0
    zeros_taken zero = refl
    zeros_taken (suc n) = ap (◌∷◌ 0) (zeros_taken n)

module _ (d : Dgram) (h : IsDgram d) (rest : List ℕ) where
  abbrev packet : List ℕ
  packet = wire d ++ rest

  wire-adp : r16_le (drop 2 packet) ≡ d.adp
  unfolding wire w16_le
  wire-adp = r16_le-w16_le d.adp _ h.adp_u16

  wire-ado : r16_le (drop 4 packet) ≡ d.ado
  unfolding wire w16_le
  wire-ado = r16_le-w16_le d.ado _ h.ado_u16

  wire-irq : r16_le (drop 8 packet) ≡ d.irq
  unfolding wire w16_le
  wire-irq = r16_le-w16_le d.irq _ h.irq_u16

  pub wire-len : unpack_len (r16_le (drop 6 packet)) ≡ length d.bytes
  unfolding wire w16_le
  wire-len = omega (
    arith,
    h.bytes_fit,
    r16_le-w16_le (length d.bytes) _ (omega (arith, h.bytes_fit)),
    unpack_len_lem (r16_le (drop 6 packet)),
  )

  wire_body : drop 10 packet ≡ d.bytes ++ (w16_le d.wkc ++ rest)
  unfolding wire w16_le
  wire_body = append_assoc d.bytes (w16_le d.wkc) rest

  wire-wkc : r16_le (drop (length d.bytes) (drop 10 packet)) ≡ d.wkc
  wire-wkc = rw (wire_body, drop-append) (r16_le-w16_le d.wkc rest h.wkc_u16)

  wire_data : take (length d.bytes) (drop 10 packet) ≡ d.bytes
  wire_data = rw (wire_body, take-append)

  pub length-packet : length packet ≡ dgram_wire_size (length d.bytes) + length rest
  length-packet = omega (arith, length-append (wire d) rest, length-wire d)

  -- `parse_one_dgram` recovers every field, whatever follows the datagram.
  pub parse_one_dgram-wire :
      (data_out : Option ℕ)
      → parse_one_dgram packet data_out
        ≡ (copy_data packet (length d.bytes) data_out >>= λ out. some (parsed_of d out))
  unfolding parse_one_dgram wire
  parse_one_dgram-wire data_out = rw (
    wire-len,
    le→ltb (length packet) 12 (omega (arith, length-packet)),
    le→ltb dgram_max_data (length d.bytes) h.bytes_fit,
    le→ltb (length packet) (dgram_wire_size (length d.bytes)) (omega (arith, length-packet)),
    wire-adp,
    wire-ado,
    wire-irq,
    wire-wkc,
  )

  pub copy_data-wire :
      (cap : ℕ)
      → copy_data packet (length d.bytes) (some cap)
        ≡ (if ltb cap (length d.bytes) then none else some d.bytes)
  unfolding copy_data
  copy_data-wire cap = rw wire_data (positive d.bytes)
    where
      positive :
          (bs : List ℕ)
          → (if ltb 0 (length bs) then if ltb cap (length bs) then none else some bs else some [])
            ≡ (if ltb cap (length bs) then none else some bs)
      positive [] = ground arith
      positive (b ∷ bs) = ground arith

copy_data-bytes :
    (dg : List ℕ) (dlen data_cap : ℕ) (out : List ℕ)
    → AreBytes dg
    → copy_data dg dlen (some data_cap) ≡ some out
    → AreBytes out
unfolding copy_data
copy_data-bytes dg dlen data_cap out b e =
    ground (arith, AreBytes-take dlen (drop 10 dg) (AreBytes-drop 10 dg b))

pub parse_one_dgram-copied :
    (dg : List ℕ) (data_cap : ℕ) (p : Parsed)
    → AreBytes dg
    → parse_one_dgram dg (some data_cap) ≡ some p
    → AreBytes p.copied
unfolding parse_one_dgram
parse_one_dgram-copied dg data_cap p b e =
    ground (arith, copy_data-bytes dg (unpack_len (r16_le (drop 6 dg))) data_cap p.copied b)
