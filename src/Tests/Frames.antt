-- ===== src/Tests/Frames.antt =====
-- Frames and datagrams.
use ul_ecat.Common.{
  ◌<◌, ◌≡◌, ◌≢◌, ◌↔◌, refl, List, [], ◌∷◌, ◌++◌, none, some, arith, length, w16_le, store-IsU8,
}
use ul_ecat.Wire.Datagram.{Dgram, IsDgram, pack_len_irq, wire, parsed_of}
use ul_ecat.Wire.Pdu.{AreDgrams, wire_all, dgram_parse, out_of_fuel, pdu_count_datagrams}
use ul_ecat.Wire.Pdu.Walk.{
  dgram_parse-wire_all, pdu_count_datagrams-wire_all, pdu_count_datagrams_total,
  pdu_count_datagrams_parses,
}
use ul_ecat.Wire.Ethernet.{parse_eth_frame}
use ul_ecat.Wire.Ethernet.RoundTrip.{eth_frame, parse_eth_frame-eth_frame}
use ul_ecat.Slave.Esc.{Slave, HoldsBytes, StaysInside}
use ul_ecat.Slave.Pdu.{slave_process_pdu}
use ul_ecat.Slave.Pdu.Refine.{FitBuffer, respond_all, slave_process_pdu-respond_all}
use ul_ecat.Slave.Ethernet.{slave_process_ethernet}
use ul_ecat.Slave.Ethernet.Reply.{slave_process_ethernet-eth_frame, slave_process_ethernet_safe}
use ul_ecat.Tests.{master_mac, slave_mac, registers, device, mailboxes, read_station, write_other}

abbrev cyclic : List Dgram
cyclic = read_station ∷ write_other ∷ []

read_station-IsDgram : IsDgram read_station
read_station-IsDgram = record {
  cmd_u8 = omega arith;
  index_u8 = omega arith;
  adp_u16 = omega arith;
  ado_u16 = omega arith;
  irq_u16 = omega arith;
  wkc_u16 = omega arith;
  bytes_fit = omega arith;
  bytes_u8 = omega arith;
}

write_other-IsDgram : IsDgram write_other
write_other-IsDgram = record {
  cmd_u8 = omega arith;
  index_u8 = omega arith;
  adp_u16 = omega arith;
  ado_u16 = omega arith;
  irq_u16 = omega arith;
  wkc_u16 = omega arith;
  bytes_fit = omega arith;
  bytes_u8 = omega arith;
}

cyclic-AreDgrams : AreDgrams cyclic
cyclic-AreDgrams = (read_station-IsDgram, (write_other-IsDgram, tt))

cyclic-FitBuffer : FitBuffer cyclic
cyclic-FitBuffer = (omega arith, (omega arith, tt))

length-cyclic : length (wire_all cyclic) ≡ 27
unfolding wire wire_all w16_le pack_len_irq
length-cyclic = refl

pub registers-HoldsBytes : HoldsBytes registers
registers-HoldsBytes j = store-IsU8 (λ _. 0) 0x10 (0x01 ∷ 0x10 ∷ []) j (omega arith) (omega arith)

slave_process_pdu-respond_all_example :
    slave_process_pdu device (wire_all cyclic) 1498
    ≡ ((respond_all device cyclic).0, some (wire_all (respond_all device cyclic).1))
slave_process_pdu-respond_all_example =
    slave_process_pdu-respond_all device cyclic 1498 cyclic-AreDgrams cyclic-FitBuffer
      (omega (arith, length-cyclic))

slave_process_ethernet-eth_frame_example :
    slave_process_ethernet device (eth_frame slave_mac master_mac (wire_all cyclic) ++ 0 ∷ []) 1518
    ≡ (
      (respond_all device cyclic).0,
      some (eth_frame master_mac slave_mac (wire_all (respond_all device cyclic).1)),
    )
slave_process_ethernet-eth_frame_example =
    slave_process_ethernet-eth_frame device slave_mac master_mac cyclic (0 ∷ []) 1518
      cyclic-AreDgrams cyclic-FitBuffer (omega (arith, length-cyclic))
      (omega (arith, length-cyclic))

slave_process_ethernet_safe_example :
    HoldsBytes (slave_process_ethernet device (1 ∷ 2 ∷ []) 1518).0.esc
    × StaysInside device.esc (slave_process_ethernet device (1 ∷ 2 ∷ []) 1518).0.esc
slave_process_ethernet_safe_example =
    slave_process_ethernet_safe device (1 ∷ 2 ∷ []) 1518 (omega arith) registers-HoldsBytes

dgram_parse-wire_all_example :
    dgram_parse (wire_all cyclic) 1 (some 8) ≡ some (parsed_of write_other (5 ∷ []))
dgram_parse-wire_all_example =
    dgram_parse-wire_all (read_station ∷ []) write_other [] 8 cyclic-AreDgrams

pdu_count_datagrams_total_example : pdu_count_datagrams (1 ∷ 2 ∷ 3 ∷ []) ≢ out_of_fuel
pdu_count_datagrams_total_example = pdu_count_datagrams_total (1 ∷ 2 ∷ 3 ∷ [])

pdu_count_datagrams_parses_example : (dgram_parse (wire_all cyclic) 1 none ≢ none) ↔ (1 < 2)
pdu_count_datagrams_parses_example =
    pdu_count_datagrams_parses (wire_all cyclic) 2 1
      (pdu_count_datagrams-wire_all cyclic cyclic-AreDgrams) (omega (arith, length-cyclic))

parse_eth_frame-eth_frame_example :
    parse_eth_frame (eth_frame slave_mac master_mac (1 ∷ 2 ∷ 3 ∷ []) ++ 9 ∷ 9 ∷ [])
    ≡ some (1 ∷ 2 ∷ 3 ∷ [])
parse_eth_frame-eth_frame_example =
    parse_eth_frame-eth_frame slave_mac master_mac (1 ∷ 2 ∷ 3 ∷ []) (9 ∷ 9 ∷ []) (omega arith)

abbrev boxed : Slave
boxed = record { esc = mailboxes; mac = slave_mac; logical_position = 0 }
