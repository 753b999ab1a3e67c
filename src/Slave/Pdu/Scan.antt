-- ===== src/Slave/Pdu/Scan.antt =====
-- The beginning of a scan, seen from the slave: it is given a station address by its position in
-- the ring, and is then read by that address.
use ul_ecat.Common.{
  ℕ, ◌/◌, ◌%◌, ◌≡◌, ◌≢◌, refl, ◌∙◌, sym, [], ◌∷◌, some, arith, Memory, IsU16, w16_le, w32_le, load,
  store, load_ext, store_outside, inr, and_ff, or_shifted, length-w16_le,
}
use ul_ecat.Wire.Ethernet.{Mac}
use ul_ecat.Slave.Esc.{
  reg_stadr, reg_vendor, Slave, Identity, esc_read, esc_write, esc_read_u16_le, slave_init,
  HoldsBytes,
}
use ul_ecat.Slave.Esc.Laws.{slave_init_lem}
use ul_ecat.Slave.Mailbox.{mailbox_on_sm1_read}
use ul_ecat.Slave.Pdu.{run_al, process_apwr, process_one}
use ul_ecat.Slave.Pdu.Refine.{respond, respond_all}
use ul_ecat.Slave.Pdu.Addressing.{station}
use ul_ecat.Slave.Pdu.Access.{apwr, fprd, respond-fprd_zeros, sm1_read_elsewhere}

-- The memory with the station address written.
abbrev pub assigned : Memory → ℕ → Memory
assigned esc address = store esc reg_stadr (w16_le address)

pub respond-apwr_station :
    (s : Slave) (address : ℕ)
    → s.logical_position ≡ 0
    → respond s (apwr 0 0x10 (w16_le address)) ≡ (
      record s { esc = assigned s.esc address },
      record (apwr 0 0x10 (w16_le address)) { wkc = 1 },
    )
unfolding respond process_one process_apwr run_al esc_write w16_le
respond-apwr_station s address first = ground arith

-- A slave at another position takes no notice.
pub respond-apwr_other :
    (s : Slave) (adp address : ℕ)
    → adp ≢ s.logical_position
    → respond s (apwr adp 0x10 (w16_le address)) ≡ (s, apwr adp 0x10 (w16_le address))
unfolding respond process_one process_apwr
respond-apwr_other s adp address h = ground arith

pub station-assigned :
    (esc : Memory) (address : ℕ)
    → IsU16 address
    → esc_read_u16_le (assigned esc address) reg_stadr ≡ address
unfolding store w16_le esc_read_u16_le
station-assigned esc address h = ground (
  arith,
  and_ff address,
  and_ff (address / 256),
  or_shifted 8 (address % 256) (address / 256 % 256),
)

assigned-vendor :
    (esc : Memory) (address : ℕ) (id : Identity)
    → esc_read esc reg_vendor 4 ≡ some (w32_le id.vendor_id)
    → load (assigned esc address) 0x12 4 ≡ w32_le id.vendor_id
unfolding esc_read
assigned-vendor esc address id h =
    load_ext (assigned esc address) esc 0x12 4 (λ j p q.
      store_outside esc reg_stadr (w16_le address) j (inr (omega (arith, length-w16_le address))))
    ∙ ground arith

station_after_read :
    (esc : Memory)
    → esc_read_u16_le (mailbox_on_sm1_read esc 0x12 4) reg_stadr ≡ esc_read_u16_le esc reg_stadr
unfolding esc_read_u16_le
station_after_read esc = ground (
  arith,
  sm1_read_elsewhere esc 0x12 4 0x10 (omega arith),
  sm1_read_elsewhere esc 0x12 4 0x11 (omega arith),
)

-- The first two datagrams of a scan at a slave that has just been initialised: an APWR to ring
-- position 0 sets the station address, and an FPRD to that address returns the vendor id; both are
-- counted.
pub respond_all_scan :
    (s : Slave) (mac : Mac) (id : Identity) (address : ℕ)
    → HoldsBytes s.esc
    → IsU16 address
    → address ≢ 0
    → let (s', answers) =
        respond_all
          (slave_init s mac id)
          (apwr 0 0x10 (w16_le address) ∷ fprd address 0x12 4 ∷ []) in
      (station s' ≡ address)
      × (answers
          ≡ record (apwr 0 0x10 (w16_le address)) { wkc = 1 }
            ∷ record (fprd address 0x12 4) { wkc = 1; bytes = w32_le id.vendor_id }
            ∷ [])
unfolding respond_all
respond_all_scan s mac id address b small n =
    let t = slave_init s mac id in
    let fresh = slave_init_lem s mac id b in
    let set_station = station-assigned t.esc address small in
    let vendor = assigned-vendor t.esc address id fresh.0.vendor in
    rw
      (
        respond-apwr_station t address fresh.2,
        respond-fprd_zeros (record t { esc = assigned t.esc address }) address 0x12 4
            (sym set_station) (λ e. n (sym set_station ∙ e)) (omega arith),
        vendor,
      )
      (station_after_read (assigned t.esc address) ∙ set_station, refl)
