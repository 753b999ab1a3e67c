-- ===== src/Slave/Mailbox/Header.antt =====
-- The mailbox header on the wire and as a record are one another's inverse.
use ul_ecat.Common.{
  ℕ, ◌+◌, ◌*◌, ◌/◌, ◌%◌, ◌<◌, ◌≡◌, List, [], ◌∷◌, arith, IsU16, bit_and, and_3, and_0f, and_3f,
  and_ff, or_shifted, AreBytes,
}
use ul_ecat.Slave.Mailbox.{MbxHeader, mbx_header_decode, mbx_header_encode}

-- The fields' widths: 16, 16, 6, 2, 4 and 4 bits.
pub record IsHeader (h : MbxHeader) : Type 0 where
  pub len : IsU16 h.len
  pub address : IsU16 h.address
  pub channel : h.channel < 64
  pub priority : h.priority < 4
  pub type : h.type < 16
  pub counter : h.counter < 16

word_bytes :
    (v : ℕ) → (bit_and v 255 % 256 ≡ v % 256) × (bit_and (v / 256) 255 % 256 ≡ v / 256 % 256)
word_bytes v = omega (arith, and_ff v, and_ff (v / 256))

-- Decoding an encoded header gives its fields back.
pub mbx_header_decode-mbx_header_encode :
    (h : MbxHeader) → IsHeader h → mbx_header_decode (mbx_header_encode h) ≡ h
unfolding mbx_header_decode mbx_header_encode
mbx_header_decode-mbx_header_encode h r = ground (
  arith,
  word_bytes h.len,
  word_bytes h.address,
  or_shifted 8 (h.len % 256) (h.len / 256) (omega arith),
  or_shifted 8 (h.address % 256) (h.address / 256) (omega arith),
  and_3f h.channel,
  and_3 h.priority,
  and_0f h.type,
  and_0f h.counter,
  or_shifted 6 h.channel h.priority (omega arith),
  or_shifted 4 h.type h.counter (omega arith),
  and_3f (h.channel + h.priority * 64),
  and_0f (h.type + h.counter * 16),
)

-- The header that is read of any bytes is in range, and encodes to those bytes.
pub mbx_header_encode-mbx_header_decode :
    (a b c d e f : ℕ) (rest : List ℕ)
    → AreBytes (a ∷ b ∷ c ∷ d ∷ e ∷ f ∷ [])
    → mbx_header_encode (mbx_header_decode (a ∷ b ∷ c ∷ d ∷ e ∷ f ∷ rest))
      ≡ a ∷ b ∷ c ∷ d ∷ e ∷ f ∷ []
unfolding mbx_header_decode mbx_header_encode
mbx_header_encode-mbx_header_decode a b c d e f rest h = ground (
  arith,
  or_shifted 8 a b (omega arith),
  or_shifted 8 c d (omega arith),
  word_bytes (a + b * 256),
  word_bytes (c + d * 256),
  and_3f e,
  and_3f (e % 64),
  and_3 (e / 64),
  and_0f f,
  and_0f (f % 16),
  and_0f (f / 16),
  or_shifted 6 (e % 64) (e / 64) (omega arith),
  or_shifted 4 (f % 16) (f / 16) (omega arith),
)
