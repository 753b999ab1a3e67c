-- ===== src/Slave/Ethernet.antt =====
-- `ul_ecat_slave_process_ethernet` of src/slave/ul_ecat_slave.c: a frame in, a frame out.
pub mod Reply
use ul_ecat.Common.{ℕ, List, Option, none, some, ltb, if◌then◌else◌, length, get_or, drop}
use ul_ecat.Wire.Ethernet.{Mac, max_ec_payload, build_eth_frame, parse_eth_frame}
use ul_ecat.Slave.Esc.{Slave}
use ul_ecat.Slave.Pdu.{slave_process_pdu}

-- `memcpy(mac, p, 6)`
abbrev pub mac_at : List ℕ → Mac
mac_at p = record {
  b0 = get_or p 0 0;
  b1 = get_or p 1 0;
  b2 = get_or p 2 0;
  b3 = get_or p 3 0;
  b4 = get_or p 4 0;
  b5 = get_or p 5 0;
}

-- The slave afterwards, and the `tx` bytes or `none` for the -1.
unfoldable pub slave_process_ethernet : Slave → List ℕ → ℕ → Slave × Option (List ℕ)
slave_process_ethernet s rx tx_cap = elim (parse_eth_frame rx) [
  | none ↦ (s, none)
  | some pdu ↦
      if ltb max_ec_payload (length pdu)
      then (s, none)
      else let (s', processed) = slave_process_pdu s pdu max_ec_payload in
        elim processed [
          | none ↦ (s', none)
          | some reply ↦ (s', build_eth_frame (mac_at (drop 6 rx)) s'.mac reply tx_cap)
        ]
]
