-- ===== src/Master/Loopback/Scan.antt =====
-- `ul_ecat_scan_network` on a line with one slave that has just been initialised.
use ul_ecat.Common.{
  ℕ, suc, ◌+◌, ◌≤◌, ◌≡◌, refl, ap, ◌∙◌, inr, List, [], ◌∷◌, some, arith, length, Memory, load,
  load_ext, store_outside, u16, IsU16, w16_le, w32_le, length-w16_le, AreBytes-w16_le,
}
use ul_ecat.Wire.Ethernet.{Mac}
use ul_ecat.Wire.Datagram.{IsDgram}
use ul_ecat.Slave.Esc.{
  Slave, Identity, reg_stadr, reg_vendor, reg_product, reg_rev, reg_serial, esc_read, slave_init,
  HoldsBytes,
}
use ul_ecat.Slave.Esc.Laws.{slave_init_lem, IsFresh}
use ul_ecat.Slave.AlMachine.{al_init}
use ul_ecat.Slave.Pdu.Refine.{respond}
use ul_ecat.Slave.Pdu.Access.{apwr}
use ul_ecat.Slave.Pdu.Scan.{assigned, respond-apwr_station, respond-apwr_other, station-assigned}
use ul_ecat.Master.{Transport, Port, accessed, apwr_blocking}
use ul_ecat.Master.Scan.{Station, identify, is_counted, listed, scan_from, scan_network}
use ul_ecat.Master.Loopback.{loopback, quiet, IsExchanged, apwr_blocking-respond}
use ul_ecat.Master.Loopback.Identify.{IsIdentity, IsNamed, after_read, identify_lem}

-- One turn of the loop: a position at which a slave takes its address, and one at which none does.
scan_taken :
    {W : Type 0} (n : ℕ) (t : Transport W) (port : Port) (w w1 w2 w3 : W) (pos : ℕ)
    → (stack out : List ℕ) (st : Station) (rest : List Station)
    → apwr_blocking t port w (u16 pos) reg_stadr (w16_le (u16 (0x1000 + pos))) 200
      ≡ (w1, accessed 1 out)
    → identify t port w1 (u16 (0x1000 + pos)) stack ≡ (w2, st)
    → scan_from n t port w2 (pos + 1) stack ≡ (w3, rest)
    → scan_from (suc n) t port w pos stack ≡ (w3, st ∷ rest)
unfolding scan_from listed is_counted
scan_taken n t port w w1 w2 w3 pos stack out st rest a i r = rw (a, i, r) refl

scan_ends :
    {W : Type 0} (n : ℕ) (t : Transport W) (port : Port) (w w1 : W) (pos : ℕ)
    → (stack out : List ℕ)
    → apwr_blocking t port w (u16 pos) reg_stadr (w16_le (u16 (0x1000 + pos))) 200
      ≡ (w1, accessed 0 out)
    → scan_from (suc n) t port w pos stack ≡ (w1, [])
unfolding scan_from is_counted
scan_ends n t port w w1 pos stack out a = rw a refl

apwr-IsDgram :
    (adp wkc address : ℕ)
    → IsU16 adp
    → IsU16 wkc
    → IsDgram (record (apwr adp 0x10 (w16_le address)) { wkc = wkc })
apwr-IsDgram adp wkc address a k = record {
  cmd_u8 = omega arith;
  index_u8 = omega arith;
  adp_u16 = a;
  ado_u16 = omega arith;
  irq_u16 = omega arith;
  wkc_u16 = k;
  bytes_fit = omega (arith, length-w16_le address);
  bytes_u8 = AreBytes-w16_le address;
}

apwr-IsExchanged :
    (s : Slave) (adp wkc address : ℕ)
    → IsU16 adp
    → IsU16 wkc
    → (respond s (apwr adp 0x10 (w16_le address))).1
      ≡ record (apwr adp 0x10 (w16_le address)) { wkc = wkc }
    → IsExchanged s (apwr adp 0x10 (w16_le address))
apwr-IsExchanged s adp wkc address a k e = record {
  asks = apwr-IsDgram adp 0 address a (omega arith);
  answers = rw e (apwr-IsDgram adp wkc address a k);
  fits = omega (arith, length-w16_le address);
}

load-assigned :
    (esc : Memory) (address place : ℕ) (v : ℕ)
    → 0x12 ≤ place
    → esc_read esc place 4 ≡ some (w32_le v)
    → load (assigned esc address) place 4 ≡ w32_le v
unfolding esc_read
load-assigned esc address place v h e =
    load_ext (assigned esc address) esc place 4 (λ j p q.
      store_outside esc reg_stadr (w16_le address) j (inr (omega (arith, length-w16_le address))))
    ∙ ground arith

first_name :
    (s : Slave) (mac : Mac) (id : Identity)
    → HoldsBytes s.esc
    → IsNamed
        (record (slave_init s mac id) { esc = assigned (slave_init s mac id).esc 0x1000 })
        0x1000
        id
first_name s mac id b =
    let t = slave_init s mac id in
    let fresh : IsFresh id s.esc t.esc = (slave_init_lem s mac id b).0 in
    record {
      addressed = station-assigned t.esc 0x1000 (omega arith);
      vendor = load-assigned t.esc 0x1000 0x12 id.vendor_id (omega arith) fresh.vendor;
      product = load-assigned t.esc 0x1000 0x16 id.product_code (omega arith) fresh.product;
      revision = load-assigned t.esc 0x1000 0x1a id.revision (omega arith) fresh.revision;
      serial = load-assigned t.esc 0x1000 0x1e id.serial (omega arith) fresh.serial;
    }

-- A scan of a line with one slave that has just been initialised finds exactly that slave: at
-- station address 0x1000, in INIT, with the identity it was initialised with.
pub scan_network-slave_init :
    (port : Port) (s : Slave) (mac : Mac) (id : Identity) (stack : List ℕ)
    → HoldsBytes s.esc
    → IsIdentity id
    → length stack ≡ 4
    → (scan_network loopback port (quiet (slave_init s mac id)) stack).1
      ≡ record {
        station_address = 0x1000;
        state = al_init;
        vendor_id = id.vendor_id;
        product_code = id.product_code;
        revision_no = id.revision;
        serial_no = id.serial;
      }
        ∷ []
unfolding scan_network
scan_network-slave_init port s mac id stack b i l =
    let t : Slave = slave_init s mac id in
    let first : Slave = record t { esc = assigned t.esc 0x1000 } in
    let last : Slave =
      after_read (after_read (after_read (after_read first reg_vendor) reg_product) reg_rev)
        reg_serial in
    let place = (slave_init_lem s mac id b).2 in
    let takes = respond-apwr_station t 0x1000 place in
    let refuses = respond-apwr_other last 1 0x1001 (λ e. omega (arith, e, place)) in
    ap (λ r. r.1)
      (scan_taken 15 loopback port (quiet t) (quiet first) (quiet last) (quiet last) 0 stack
        (w16_le 0x1000) _ []
        (apwr_blocking-respond port t 0 0x10 (w16_le 0x1000) 200
            (apwr-IsExchanged t 0 1 0x1000 (omega arith) (omega arith) (ap (λ r. r.1) takes))
          ∙ ap (λ r. (quiet r.0, accessed r.1.wkc (w16_le 0x1000))) takes)
        (identify_lem port first 0x1000 id stack (first_name s mac id b) i (omega arith)
          (omega arith) l)
        (scan_ends 14 loopback port (quiet last) (quiet last) 1 stack (w16_le 0x1001) (
          apwr_blocking-respond port last 1 0x10 (w16_le 0x1001) 200
            (apwr-IsExchanged last 1 0 0x1001 (omega arith) (omega arith) (ap (λ r. r.1) refuses))
          ∙ ap (λ r. (quiet r.0, accessed r.1.wkc (w16_le 0x1001))) refuses)))
