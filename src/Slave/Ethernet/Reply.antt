-- ===== src/Slave/Ethernet/Reply.antt =====
-- The reply frame.
use ul_ecat.Common.{
  ℕ, ◌+◌, ◌≤◌, ◌⊎◌, ◌≡◌, ◌∙◌, refl, List, ◌++◌, some, arith, le→leb, ltb, length, drop, AreBytes,
  Option-cases, inl, inr, Bool-cases,
}
use ul_ecat.Wire.Datagram.{Dgram}
use ul_ecat.Wire.Pdu.{wire_all, AreDgrams}
use ul_ecat.Wire.Ethernet.{Mac, max_ec_payload, build_eth_frame, parse_eth_frame}
use ul_ecat.Wire.Ethernet.RoundTrip.{
  eth_frame, parse_eth_frame-eth_frame, AreBytes-parsed, build_eth_frame_lem,
}
use ul_ecat.Slave.Esc.{Slave, HoldsBytes, StaysInside}
use ul_ecat.Slave.Pdu.{slave_process_pdu}
use ul_ecat.Slave.Pdu.Refine.{
  FitBuffer, respond_all, slave_process_pdu-respond_all, length-respond_all, mac-respond_all,
}
use ul_ecat.Slave.Pdu.Safety.{slave_process_pdu_safe}
use ul_ecat.Slave.Ethernet.{mac_at, slave_process_ethernet}

answered :
    (s s' : Slave) (rx pdu reply : List ℕ) (tx_cap : ℕ)
    → parse_eth_frame rx ≡ some pdu
    → length pdu ≤ max_ec_payload
    → slave_process_pdu s pdu max_ec_payload ≡ (s', some reply)
    → slave_process_ethernet s rx tx_cap
      ≡ (s', build_eth_frame (mac_at (drop 6 rx)) s'.mac reply tx_cap)
unfolding slave_process_ethernet
answered s s' rx pdu reply tx_cap parsed small processed = ground arith

-- A frame of well-formed datagrams, padded or not, each with at most 256 bytes of data, all
-- together at most 1498 bytes, is answered by the frame of the slave's answers, from the slave to
-- the sender, when the transmit buffer holds a frame of that size.
pub slave_process_ethernet-eth_frame :
    (s : Slave) (dst src : Mac) (ds : List Dgram) (padding : List ℕ) (tx_cap : ℕ)
    → AreDgrams ds
    → FitBuffer ds
    → length (wire_all ds) ≤ max_ec_payload
    → 18 + length (wire_all ds) ≤ tx_cap
    → slave_process_ethernet s (eth_frame dst src (wire_all ds) ++ padding) tx_cap
      ≡ ((respond_all s ds).0, some (eth_frame src s.mac (wire_all (respond_all s ds).1)))
slave_process_ethernet-eth_frame s dst src ds padding tx_cap h b small room =
    answered s s' (eth_frame dst src (wire_all ds) ++ padding) (wire_all ds) reply tx_cap
      (parse_eth_frame-eth_frame dst src (wire_all ds) padding small) small
      (slave_process_pdu-respond_all s ds max_ec_payload h b small)
    ∙ rw (
      mac-respond_all s ds,
      build_eth_frame_lem src s.mac reply tx_cap,
      le→leb (length reply) max_ec_payload (omega (arith, length-respond_all s ds)),
      le→leb (18 + length reply) tx_cap (omega (arith, length-respond_all s ds)),
    )
  where
    s' : Slave
    s' = (respond_all s ds).0

    reply : List ℕ
    reply = wire_all (respond_all s ds).1

outcome :
    (s : Slave) (rx : List ℕ) (tx_cap : ℕ)
    → ((slave_process_ethernet s rx tx_cap).0 ≡ s)
      ⊎ ((pdu : List ℕ) × (parse_eth_frame rx ≡ some pdu)
          × ((slave_process_ethernet s rx tx_cap).0 ≡ (slave_process_pdu s pdu max_ec_payload).0))
unfolding slave_process_ethernet
outcome s rx tx_cap = elim (Option-cases (parse_eth_frame rx)) [
  | inl refused ↦ inl (ground arith)
  | inr (pdu, parsed) ↦ elim (Bool-cases (ltb max_ec_payload (length pdu))) [
    | inl large ↦ inl (ground arith)
    | inr small ↦ inr (pdu, parsed, ground arith)
  ]
]

-- Whatever frame arrives, the slave writes nowhere behind its register memory, and leaves bytes in
-- it.
pub slave_process_ethernet_safe :
    (s : Slave) (rx : List ℕ) (tx_cap : ℕ)
    → AreBytes rx
    → HoldsBytes s.esc
    → HoldsBytes (slave_process_ethernet s rx tx_cap).0.esc
      × StaysInside s.esc (slave_process_ethernet s rx tx_cap).0.esc
slave_process_ethernet_safe s rx tx_cap r b = elim (outcome s rx tx_cap) [
  | inl e ↦ rw e (b, λ j h. refl)
  | inr (pdu, parsed, e) ↦
      rw e (slave_process_pdu_safe s pdu max_ec_payload (AreBytes-parsed rx pdu r parsed) b)
]
