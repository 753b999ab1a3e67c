-- ===== src/Slave/Esc.antt =====
-- src/slave/ul_ecat_esc.c, and `ul_ecat_slave_init` and `ul_ecat_slave_reset` of
-- src/slave/ul_ecat_slave.c: the 4096 bytes of register memory. `esc` is the memory from the
-- array's first byte on, so that an access at 4096 or beyond is one out of the array.
pub mod Laws
use ul_ecat.Common.{
  ℕ, ◌≡◌, ◌+◌, ◌≤◌, List, Option, none, some, ltb, ◌==◌, ◌||◌, if◌then◌else◌, bit_or, ◌<<<◌, length,
  Memory, poke, load, store, fill, w32_le, IsU8,
}
use ul_ecat.Wire.Ethernet.{Mac}

abbrev pub esc_size : ℕ
esc_size = 4096

-- Register offsets of include/ul_ecat_esc_regs.h.
abbrev pub reg_stadr : ℕ
reg_stadr = 0x0010

abbrev pub reg_vendor : ℕ
reg_vendor = 0x0012

abbrev pub reg_product : ℕ
reg_product = 0x0016

abbrev pub reg_rev : ℕ
reg_rev = 0x001a

abbrev pub reg_serial : ℕ
reg_serial = 0x001e

abbrev pub reg_alctl : ℕ
reg_alctl = 0x0120

abbrev pub reg_alstat : ℕ
reg_alstat = 0x0130

abbrev pub reg_alstacode : ℕ
reg_alstacode = 0x0134

abbrev pub reg_alevent : ℕ
reg_alevent = 0x0220

-- ul_ecat_slave_identity_t
pub record Identity : Type 0 where
  pub vendor_id : ℕ
  pub product_code : ℕ
  pub revision : ℕ
  pub serial : ℕ

-- ul_ecat_slave_t
pub record Slave : Type 0 where
  pub esc : Memory
  pub mac : Mac
  pub logical_position : ℕ

unfoldable pub esc_apply_identity : Memory → Identity → Memory
esc_apply_identity esc id =
    let vendor = store esc reg_vendor (w32_le id.vendor_id) in
    let product = store vendor reg_product (w32_le id.product_code) in
    let rev = store product reg_rev (w32_le id.revision) in store rev reg_serial (w32_le id.serial)

unfoldable pub esc_set_al_status_init : Memory → Memory
esc_set_al_status_init esc =
    let state = poke esc reg_alstat 0x01 in
    let high = poke state (reg_alstat + 1) 0x00 in
    let code = poke high reg_alstacode 0x00 in poke code (reg_alstacode + 1) 0x00

-- The bytes that go to `dst`; `none` is the -1.
unfoldable pub esc_read : Memory → ℕ → ℕ → Option (List ℕ)
esc_read esc ado len =
    if ltb esc_size (ado + len) || len == 0 then none else some (load esc ado len)

-- The memory after the copy of all bytes of `src`; `none` is the -1.
unfoldable pub esc_write : Memory → ℕ → List ℕ → Option Memory
esc_write esc ado src =
    if ltb esc_size (ado + length src) || length src == 0 then none else some (store esc ado src)

unfoldable pub esc_read_u16_le : Memory → ℕ → ℕ
esc_read_u16_le esc ado =
    if ltb esc_size (ado + 2) then 0 else bit_or (esc ado) (esc (ado + 1) <<< 8)

unfoldable pub slave_init : Slave → Mac → Identity → Slave
slave_init s mac id = record {
  esc = esc_set_al_status_init (esc_apply_identity (fill s.esc 0 0 esc_size) id);
  mac = mac;
  logical_position = 0;
}

unfoldable pub slave_reset : Slave → Identity → Slave
slave_reset s id = record s {
  esc = esc_set_al_status_init (esc_apply_identity (fill s.esc 0 0 esc_size) id);
}

-- Memory of bytes.
abbrev pub HoldsBytes : Memory → Type 0
HoldsBytes esc = (j : ℕ) → IsU8 (esc j)

-- Nothing outside the array is written.
abbrev pub StaysInside : Memory → Memory → Type 0
StaysInside before after = (j : ℕ) → esc_size ≤ j → after j ≡ before j
