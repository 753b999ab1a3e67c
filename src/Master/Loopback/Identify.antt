-- ===== src/Master/Loopback/Identify.antt =====
-- `ul_ecat_scan_network` on the line: the identity of a slave is read by its station address.
use ul_ecat.Common.{
  ℕ, ◌+◌, ◌≤◌, ◌≡◌, ◌≢◌, refl, sym, ap, ◌∙◌, List, [], arith, length, load, load_ext, IsU16, IsU32,
  w32_le, length-w32_le, AreBytes-w32_le, r32_le, r32_le-w32_le, append-nil,
}
use ul_ecat.Slave.Esc.{
  Slave, Identity, reg_vendor, reg_product, reg_rev, reg_serial, esc_read_u16_le,
}
use ul_ecat.Slave.Mailbox.{mailbox_on_sm1_read}
use ul_ecat.Slave.AlMachine.{al_init}
use ul_ecat.Slave.Pdu.Refine.{respond}
use ul_ecat.Slave.Pdu.Addressing.{station}
use ul_ecat.Slave.Pdu.Access.{fprd, respond-fprd_zeros, sm1_read_elsewhere}
use ul_ecat.Master.{Port, accessed}
use ul_ecat.Master.Scan.{value_of, valued, read_u32, identify}
use ul_ecat.Master.Loopback.{loopback, quiet, IsExchanged, fprd_blocking-respond}

-- Identities as the registers hold them.
pub record IsIdentity (id : Identity) : Type 0 where
  pub vendor_id : IsU32 id.vendor_id
  pub product_code : IsU32 id.product_code
  pub revision : IsU32 id.revision
  pub serial : IsU32 id.serial

-- What a scan reads of a slave.
pub record IsNamed (s : Slave) (address : ℕ) (id : Identity) : Type 0 where
  pub addressed : station s ≡ address
  pub vendor : load s.esc 0x12 4 ≡ w32_le id.vendor_id
  pub product : load s.esc 0x16 4 ≡ w32_le id.product_code
  pub revision : load s.esc 0x1a 4 ≡ w32_le id.revision
  pub serial : load s.esc 0x1e 4 ≡ w32_le id.serial

abbrev pub after_read : Slave → ℕ → Slave
after_read s ado = record s { esc = mailbox_on_sm1_read s.esc ado 4 }

load_after_read :
    (s : Slave) (ado place : ℕ)
    → place + 4 ≤ 0x80d
    → load (after_read s ado).esc place 4 ≡ load s.esc place 4
load_after_read s ado place h =
    load_ext (after_read s ado).esc s.esc place 4
      (λ j p q. sm1_read_elsewhere s.esc ado 4 j (omega arith))

station_after_read : (s : Slave) (ado : ℕ) → station (after_read s ado) ≡ station s
unfolding esc_read_u16_le
station_after_read s ado = ground (
  arith,
  sm1_read_elsewhere s.esc ado 4 0x10 (omega arith),
  sm1_read_elsewhere s.esc ado 4 0x11 (omega arith),
)

after_read-IsNamed :
    (s : Slave) (ado address : ℕ) (id : Identity)
    → IsNamed s address id
    → IsNamed (after_read s ado) address id
after_read-IsNamed s ado address id n = record {
  addressed = station_after_read s ado ∙ n.addressed;
  vendor = load_after_read s ado 0x12 (omega arith) ∙ n.vendor;
  product = load_after_read s ado 0x16 (omega arith) ∙ n.product;
  revision = load_after_read s ado 0x1a (omega arith) ∙ n.revision;
  serial = load_after_read s ado 0x1e (omega arith) ∙ n.serial;
}

fprd_answer :
    (s : Slave) (address ado v : ℕ)
    → station s ≡ address
    → address ≢ 0
    → ado + 4 ≤ 0x800
    → load s.esc ado 4 ≡ w32_le v
    → respond s (fprd address ado 4)
      ≡ (after_read s ado, record (fprd address ado 4) { wkc = 1; bytes = w32_le v })
fprd_answer s address ado v a z h e =
    respond-fprd_zeros s address ado 4 (sym a) (λ q. z (sym a ∙ q)) (omega arith)
    ∙ ap (λ b. (after_read s ado, record (fprd address ado 4) { wkc = 1; bytes = b })) e

fprd-IsExchanged :
    (s : Slave) (address ado v : ℕ)
    → IsU16 address
    → ado + 4 ≤ 0x800
    → respond s (fprd address ado 4)
      ≡ (after_read s ado, record (fprd address ado 4) { wkc = 1; bytes = w32_le v })
    → IsExchanged s (fprd address ado 4)
fprd-IsExchanged s address ado v u h e = record {
  asks = record {
    cmd_u8 = omega arith;
    index_u8 = omega arith;
    adp_u16 = u;
    ado_u16 = omega arith;
    irq_u16 = omega arith;
    wkc_u16 = omega arith;
    bytes_fit = omega arith;
    bytes_u8 = omega arith;
  };
  answers = rw (ap (λ r. r.1) e) (record {
    cmd_u8 = omega arith;
    index_u8 = omega arith;
    adp_u16 = u;
    ado_u16 = omega arith;
    irq_u16 = omega arith;
    wkc_u16 = omega arith;
    bytes_fit = omega (arith, length-w32_le v);
    bytes_u8 = AreBytes-w32_le v;
  });
  fits = omega arith;
}

r32_le-word : (v : ℕ) → IsU32 v → r32_le (w32_le v) ≡ v
r32_le-word v b = ap r32_le (sym (append-nil (w32_le v))) ∙ r32_le-w32_le v [] b

-- A register is read with its value.
read_u32_lem :
    (port : Port) (s : Slave) (address ado v : ℕ) (tmp : List ℕ)
    → station s ≡ address
    → address ≢ 0
    → IsU16 address
    → ado + 4 ≤ 0x800
    → load s.esc ado 4 ≡ w32_le v
    → IsU32 v
    → length tmp ≡ 4
    → read_u32 loopback port (quiet s) address ado tmp ≡ (quiet (after_read s ado), (v, w32_le v))
unfolding read_u32 valued value_of
read_u32_lem port s address ado v tmp a z u h e b l =
    let answer = fprd_answer s address ado v a z h e in
    let access = fprd_blocking-respond port s address ado tmp 200 in
    ap (valued tmp) (
      (rw l at access) (fprd-IsExchanged s address ado v u h answer)
      ∙ ap (λ r. (quiet r.0, accessed r.1.wkc r.1.bytes)) answer)
    ∙ ap (λ x. (quiet (after_read s ado), (x, w32_le v))) (r32_le-word v b)

-- The four registers in turn.
pub identify_lem :
    (port : Port) (s : Slave) (address : ℕ) (id : Identity) (tmp : List ℕ)
    → IsNamed s address id
    → IsIdentity id
    → address ≢ 0
    → IsU16 address
    → length tmp ≡ 4
    → identify loopback port (quiet s) address tmp ≡ (
      quiet (
          after_read
            (after_read (after_read (after_read s reg_vendor) reg_product) reg_rev)
            reg_serial),
      record {
        station_address = address;
        state = al_init;
        vendor_id = id.vendor_id;
        product_code = id.product_code;
        revision_no = id.revision;
        serial_no = id.serial;
      },
    )
unfolding identify
identify_lem port s address id tmp n i z u l =
    let s1 : Slave = after_read s reg_vendor in
    let n1 = after_read-IsNamed s reg_vendor address id n in
    let s2 : Slave = after_read s1 reg_product in
    let n2 = after_read-IsNamed s1 reg_product address id n1 in
    let s3 : Slave = after_read s2 reg_rev in
    let n3 = after_read-IsNamed s2 reg_rev address id n2 in
    rw
      (
        read_u32_lem port s address reg_vendor id.vendor_id tmp n.addressed z u (omega arith)
            n.vendor i.vendor_id l,
        read_u32_lem port s1 address reg_product id.product_code (w32_le id.vendor_id) n1.addressed
            z u (omega arith) n1.product i.product_code (length-w32_le id.vendor_id),
        read_u32_lem port s2 address reg_rev id.revision (w32_le id.product_code) n2.addressed z u
            (omega arith) n2.revision i.revision (length-w32_le id.product_code),
        read_u32_lem port s3 address reg_serial id.serial (w32_le id.revision) n3.addressed z u
            (omega arith) n3.serial i.serial (length-w32_le id.revision),
      )
      refl
