-- ===== src/Wire/Ethernet/RoundTrip.antt =====
-- A frame that is built is parsed back, padding and all, and a parse never leaves the frame.
use ul_ecat.Common.{
  AreBytes, AreBytes-take, AreBytes-drop, ℕ, ◌+◌, ◌-◌, ◌≤◌, ◌≡◌, List, ◌∷◌, ◌++◌, none, some, arith,
  leb, ◌&&◌, if◌then◌else◌, length, take, drop, take-append, length-append, length-drop,
  length-take, r16_le, w16_le, r16_le-w16_le,
}
use ul_ecat.Wire.Ethernet.{Mac, mac_bytes, build_eth_frame, parse_eth_frame, max_ec_payload}

-- The bytes of a frame: the addresses, the EtherType, the length field that covers the two
-- reserved bytes and the datagrams, the reserved bytes, the datagrams.
abbrev pub eth_frame : Mac → Mac → List ℕ → List ℕ
eth_frame dst src ec_payload =
    mac_bytes dst
    ++ (mac_bytes src ++ (0x88 ∷ 0xa4 ∷ (w16_le (2 + length ec_payload) ++ (0 ∷ 0 ∷ ec_payload))))

-- `ul_ecat_build_eth_frame` builds that frame when the payload is within its limit and the frame
-- fits the buffer, and returns an error otherwise.
pub build_eth_frame_lem :
    (dst src : Mac) (ec_payload : List ℕ) (cap : ℕ)
    → build_eth_frame dst src ec_payload cap ≡ (
        if leb (length ec_payload) max_ec_payload && leb (18 + length ec_payload) cap
        then some (eth_frame dst src ec_payload)
        else none)
unfolding build_eth_frame w16_le
build_eth_frame_lem dst src ec_payload cap = ground arith

pub length-eth_frame :
    (dst src : Mac) (ec_payload : List ℕ)
    → length (eth_frame dst src ec_payload) ≡ 18 + length ec_payload
unfolding w16_le
length-eth_frame dst src ec_payload = omega arith

-- Parsing a built frame gives the datagrams back, whatever padding the link adds behind it.
pub parse_eth_frame-eth_frame :
    (dst src : Mac) (ec_payload padding : List ℕ)
    → length ec_payload ≤ max_ec_payload
    → parse_eth_frame (eth_frame dst src ec_payload ++ padding) ≡ some ec_payload
unfolding parse_eth_frame w16_le
parse_eth_frame-eth_frame dst src ec_payload padding small = ground (
  arith,
  length-append ec_payload padding,
  take-append ec_payload padding,
  r16_le-w16_le (2 + length ec_payload) (0 ∷ 0 ∷ ec_payload ++ padding),
)

-- What a parse accepts lies inside the frame received: a full header, the EtherCAT type, and a
-- length field that covers the reserved bytes and no more than was received.
pub parse_eth_frame_inside :
    (frame area : List ℕ)
    → parse_eth_frame frame ≡ some area
    → (18 + length area ≤ length frame)
      × (length area + 2 ≡ r16_le (drop 14 frame))
      × (area ≡ take (length area) (drop 18 frame))
unfolding parse_eth_frame
parse_eth_frame_inside frame area e =
    ground (arith, length-take (r16_le (drop 14 frame) - 2) (drop 18 frame), length-drop 18 frame)

pub AreBytes-parsed :
    (frame area : List ℕ) → AreBytes frame → parse_eth_frame frame ≡ some area → AreBytes area
AreBytes-parsed frame area b e =
    rw (parse_eth_frame_inside frame area e).2
      (AreBytes-take (length area) (drop 18 frame) (AreBytes-drop 18 frame b))
