-- ===== src/Slave/Pdu.antt =====
-- src/slave/ul_ecat_slave_pdu.c: the slave runs the datagrams of a frame, one after another, and
-- encodes its answer to each.
pub mod Refine
pub mod Safety
pub mod Addressing
pub mod Access
pub mod Scan
use ul_ecat.Common.{
  ℕ, zero, suc, ◌+◌, ◌-◌, List, [], ◌∷◌, ◌++◌, Option, none, some, Bool, true, false, ◌&&◌, ltb,
  leb, ◌==◌, if◌then◌else◌, length, Memory,
}
use ul_ecat.Wire.Datagram.{cmd_fprd, cmd_fpwr, cmd_apwr, Parsed, dgram_encode}
use ul_ecat.Wire.Pdu.{Count, counted, malformed, out_of_fuel, pdu_count_datagrams, dgram_parse}
use ul_ecat.Slave.Esc.{reg_stadr, reg_alctl, Slave, esc_read, esc_write, esc_read_u16_le}
use ul_ecat.Slave.AlMachine.{al_on_control_write}
use ul_ecat.Slave.Mailbox.{mailbox_on_sm0_write, mailbox_on_sm1_read}

abbrev pub dg_data_max : ℕ
dg_data_max = 256

unfoldable pub ado_range_overlaps : ℕ → ℕ → ℕ → Bool
ado_range_overlaps ado dlen reg = leb ado reg && ltb reg (ado + dlen)

-- The register memory after a datagram, what stands in the data buffer, and the working counter.
pub record Answer : Type 0 where
  pub esc : Memory
  pub buffer : List ℕ
  pub wkc : ℕ

-- The tests of the station address before FPRD and FPWR.
pub is_addressed : Memory → ℕ → Bool
is_addressed esc adp =
    let st = esc_read_u16_le esc reg_stadr in if st == 0 then false else adp == st

-- case UL_ECAT_CMD_FPRD
pub process_fprd : Slave → ℕ → ℕ → ℕ → List ℕ → Answer
unfolding is_addressed
process_fprd s adp ado dlen datab =
    let ignored : Answer = record { esc = s.esc; buffer = datab; wkc = 0 } in
    if is_addressed s.esc adp && ltb 0 dlen
    then elim (esc_read s.esc ado dlen) [
      | none ↦ ignored
      | some bytes ↦ record { esc = mailbox_on_sm1_read s.esc ado dlen; buffer = bytes; wkc = 1 }
    ]
    else ignored

-- After a write that covers the first byte of AL Control the state machine runs.
pub run_al : Memory → ℕ → ℕ → Memory
unfolding ado_range_overlaps
run_al esc ado dlen = if ado_range_overlaps ado dlen reg_alctl then al_on_control_write esc else esc

-- case UL_ECAT_CMD_FPWR; the result of `ul_ecat_slave_mailbox_on_sm0_write` is dropped.
pub process_fpwr : Slave → ℕ → ℕ → ℕ → List ℕ → Answer
unfolding is_addressed run_al
process_fpwr s adp ado dlen datab =
    let ignored : Answer = record { esc = s.esc; buffer = datab; wkc = 0 } in
    if is_addressed s.esc adp && ltb 0 dlen
    then elim (esc_write s.esc ado datab) [
      | none ↦ ignored
      | some written ↦ record {
        esc = (mailbox_on_sm0_write (run_al written ado dlen) ado dlen).0;
        buffer = datab;
        wkc = 1;
      }
    ]
    else ignored

-- case UL_ECAT_CMD_APWR
pub process_apwr : Slave → ℕ → ℕ → ℕ → List ℕ → Answer
unfolding run_al
process_apwr s adp ado dlen datab =
    let ignored : Answer = record { esc = s.esc; buffer = datab; wkc = 0 } in
    if adp == s.logical_position && ltb 0 dlen
    then elim (esc_write s.esc ado datab) [
      | none ↦ ignored
      | some written ↦ record { esc = run_al written ado dlen; buffer = datab; wkc = 1 }
    ]
    else ignored

-- `datab` is the buffer that is both `data_in` and `data_out`: the `dlen` bytes parsed, so that
-- `data_in` is null exactly when `dlen` is 0, which every case tests before.
unfoldable pub process_one : Slave → ℕ → ℕ → ℕ → ℕ → List ℕ → Answer
process_one s cmd adp ado dlen datab =
    if cmd == cmd_fprd
    then process_fprd s adp ado dlen datab
    else if cmd == cmd_fpwr
    then process_fpwr s adp ado dlen datab
    else if cmd == cmd_apwr
    then process_apwr s adp ado dlen datab
    else record { esc = s.esc; buffer = datab; wkc = 0 }

-- One round after the parse: the slave, and what is appended to the reply or `none` for the -1.
process_parsed : Slave → Parsed → ℕ → Slave × Option (List ℕ)
process_parsed s p room =
    let a = process_one s p.cmd p.adp p.ado p.data_len p.copied in
    let s' : Slave = record s { esc = a.esc } in
    if ltb dg_data_max p.data_len
    then (s, none)
    else (s', dgram_encode room p.cmd p.index p.adp p.ado p.data_len p.irq a.wkc (some a.buffer))

-- The loop at datagram `i`, with `left` rounds to go and `pdu_out` written so far. What the
-- datagrams before an error did to the slave stays done.
process_loop : List ℕ → ℕ → ℕ → ℕ → Slave → List ℕ → Slave × Option (List ℕ)
process_loop pdu_in cap zero i s pdu_out = (s, some pdu_out)
process_loop pdu_in cap (suc left) i s pdu_out = elim (dgram_parse pdu_in i (some dg_data_max)) [
  | none ↦ (s, none)
  | some p ↦
      let (s', encoded) = process_parsed s p (cap - length pdu_out) in
      elim encoded [
        | none ↦ (s', none)
        | some bytes ↦ process_loop pdu_in cap left (i + 1) s' (pdu_out ++ bytes)
      ]
]

unfoldable pub slave_process_pdu : Slave → List ℕ → ℕ → Slave × Option (List ℕ)
unfolding process_loop process_parsed process_one process_fprd process_fpwr process_apwr
slave_process_pdu s pdu_in pdu_out_cap = elim (pdu_count_datagrams pdu_in) [
  | counted nd ↦ process_loop pdu_in pdu_out_cap nd 0 s []
  | malformed ↦ (s, none)
  | out_of_fuel ↦ (s, none)
]
