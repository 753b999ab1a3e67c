-- ===== src/Wire/Pdu.antt =====
-- The walk over the datagrams of a frame: `ul_ecat_dgram_parse` and
-- `ul_ecat_pdu_count_datagrams` of src/common/ul_ecat_frame.c.
pub mod Walk
pub mod Copied
use ul_ecat.Common.{
  ℕ, zero, suc, ◌+◌, List, [], ◌∷◌, ◌++◌, Option, none, some, ◌>>=◌, ltb, leb, ◌==◌, if◌then◌else◌,
  length, drop, r16_le,
}
use ul_ecat.Wire.Datagram.{
  dgram_hdr_len, dgram_wkc_len, unpack_len, dgram_wire_size, Parsed, parse_one_dgram, Dgram, wire,
  IsDgram,
}

-- The guards at the head of both loops, at a pointer with the given bytes from it on: the size of
-- the datagram that stands there, or `none` for the -1.
dgram_total : List ℕ → Option ℕ
dgram_total dg =
    let dtot = dgram_wire_size (unpack_len (r16_le (drop 6 dg))) in
    if ltb (length dg) dtot then none else some dtot

-- The loop is at its datagram when no more are to be skipped.
unfoldable pub dgram_parse : List ℕ → ℕ → Option ℕ → Option Parsed
unfolding dgram_total
dgram_parse dg zero data_out =
    if ltb (length dg) (dgram_hdr_len + dgram_wkc_len)
    then none
    else do dtot ← dgram_total dg; parse_one_dgram dg data_out
dgram_parse dg (suc skip) data_out =
    let rest = dgram_total dg >>= λ dtot. dgram_parse (drop dtot dg) skip data_out in
    if ltb (length dg) (dgram_hdr_len + dgram_wkc_len) then none else rest

-- `malformed` is the -1; `out_of_fuel` is the model's own, and is never returned.
pub data Count : Type 0 where
  counted : ℕ → Count
  malformed out_of_fuel : Count

count_loop : ℕ → List ℕ → ℕ → Count
count_loop zero dg count = out_of_fuel
count_loop (suc fuel) dg count =
    let rest : Count = elim (dgram_total dg) [
      | none ↦ malformed
      | some dtot ↦ count_loop fuel (drop dtot dg) (count + 1)
    ] in
    if leb (dgram_hdr_len + dgram_wkc_len) (length dg)
    then rest
    else if length dg == 0
    then counted count
    else malformed

-- Each round takes at least the twelve bytes of header and WKC off the buffer.
unfoldable pub pdu_count_datagrams : List ℕ → Count
unfolding count_loop dgram_total
pdu_count_datagrams pdu = count_loop (length pdu + 1) pdu 0

-- The datagrams one behind the other, as the master batches them.
unfoldable pub wire_all : List Dgram → List ℕ
wire_all [] = []
wire_all (d ∷ ds) = wire d ++ wire_all ds

abbrev pub AreDgrams : List Dgram → Type 0
AreDgrams [] = Unit
AreDgrams (d ∷ ds) = IsDgram d × AreDgrams ds

-- The bytes of all datagrams together.
unfoldable pub wire_size_all : List Dgram → ℕ
wire_size_all [] = 0
wire_size_all (d ∷ ds) = dgram_wire_size (length d.bytes) + wire_size_all ds
