-- ===== src/Wire/Pdu/Copied.antt =====
-- The data that a parse copies out.
use ul_ecat.Common.{
  ℕ, zero, suc, ◌≡◌, inl, inr, List, some, arith, Option-cases, drop, AreBytes, AreBytes-drop,
}
use ul_ecat.Wire.Datagram.{Parsed}
use ul_ecat.Wire.Datagram.RoundTrip.{parse_one_dgram-copied}
use ul_ecat.Wire.Pdu.{dgram_total, dgram_parse}

-- What is parsed out of bytes is bytes.
pub dgram_parse-copied :
    (dg : List ℕ) (i data_cap : ℕ) (p : Parsed)
    → AreBytes dg
    → dgram_parse dg i (some data_cap) ≡ some p
    → AreBytes p.copied
unfolding dgram_parse
dgram_parse-copied dg zero data_cap p b e = elim (Option-cases (dgram_total dg)) [
  | inl t ↦ ground arith
  | inr (dtot, t) ↦ ground (arith, parse_one_dgram-copied dg data_cap p b)
]
dgram_parse-copied dg (suc i) data_cap p b e = elim (Option-cases (dgram_total dg)) [
  | inl t ↦ ground arith
  | inr (dtot, t) ↦
      ground (arith, dgram_parse-copied (drop dtot dg) i data_cap p (AreBytes-drop dtot dg b))
]
