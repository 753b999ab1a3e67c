-- ===== src/Wire/Ethernet.antt =====
-- The Ethernet frame around the datagrams: `ul_ecat_build_eth_frame` and
-- `ul_ecat_parse_eth_frame` of src/common/ul_ecat_frame.c.
pub mod RoundTrip
use ul_ecat.Common.{
  ℕ, ◌+◌, ◌-◌, ◌*◌, List, [], ◌∷◌, ◌++◌, Option, none, some, ltb, ◌==◌, if◌then◌else◌, not, bit_and,
  bit_or, ◌<<<◌, ◌>>>◌, length, get_or, take, drop, u8, u16, w16_le, r16_le,
}

abbrev pub ethertype : ℕ
ethertype = 0x88a4

abbrev pub pdu_hdr_len : ℕ
pdu_hdr_len = 4

abbrev pub max_ec_payload : ℕ
max_ec_payload = 1498

-- `uint8_t mac[6]`
pub record Mac : Type 0 where
  pub b0 : ℕ
  pub b1 : ℕ
  pub b2 : ℕ
  pub b3 : ℕ
  pub b4 : ℕ
  pub b5 : ℕ

abbrev pub mac_bytes : Mac → List ℕ
mac_bytes m = m.b0 ∷ m.b1 ∷ m.b2 ∷ m.b3 ∷ m.b4 ∷ m.b5 ∷ []

-- `none` is the -1; otherwise the bytes written to `frame_out`, whose number is returned.
unfoldable pub build_eth_frame : Mac → Mac → List ℕ → ℕ → Option (List ℕ)
build_eth_frame dst src ec_payload frame_cap =
    let ec_payload_len = length ec_payload in
    let eth_len = 14 + (pdu_hdr_len + ec_payload_len) in
    let ec_len_field = u16 (2 + ec_payload_len) in
    if ltb frame_cap eth_len
    then none
    else if ltb max_ec_payload ec_payload_len
    then none
    else some (
        mac_bytes dst
        ++ (mac_bytes src
            ++ (u8 (bit_and (ethertype >>> 8) 0xff)
                ∷ u8 (bit_and ethertype 0xff)
                ∷ (w16_le ec_len_field ++ (w16_le 0 ++ ec_payload)))))

-- The datagram area, which the two outputs give by pointer and length.
unfoldable pub parse_eth_frame : List ℕ → Option (List ℕ)
parse_eth_frame frame =
    let et = bit_or (get_or frame 12 0 <<< 8) (get_or frame 13 0) in
    let ec_len_field = r16_le (drop 14 frame) in
    let dgram_area = ec_len_field - 2 in
    if ltb (length frame) (14 + pdu_hdr_len)
    then none
    else if et == ethertype
    then if ltb ec_len_field 2
      then none
      else if ltb (length frame) (14 + pdu_hdr_len + dgram_area)
      then none
      else some (take dgram_area (drop 18 frame))
    else none
