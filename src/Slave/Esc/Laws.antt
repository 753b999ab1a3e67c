-- ===== src/Slave/Esc/Laws.antt =====
-- Register reads and writes: what a write changes, and what init leaves in the registers.
use ul_ecat.Common.{
  ℕ, inr, ◌+◌, ◌*◌, ◌≤◌, ◌<◌, ◌≡◌, ◌⊎◌, refl, ◌∙◌, List, some, arith, length, get_or, Memory, load,
  store, fill, load-store_self, store_at, store_outside, store-IsU8, AreBytes, AreBytes-w32_le,
  IsU8, or_shifted, w32_le,
}
use ul_ecat.Wire.Ethernet.{Mac}
use ul_ecat.Slave.Esc.{
  esc_size, reg_stadr, reg_vendor, reg_product, reg_rev, reg_serial, reg_alstat, reg_alstacode,
  Identity, Slave, esc_apply_identity, esc_set_al_status_init, esc_read, esc_write, esc_read_u16_le,
  slave_init, slave_reset, HoldsBytes, StaysInside,
}

-- A 16-bit register in memory of bytes.
pub esc_read_u16_le-sum :
    (esc : Memory) (ado : ℕ)
    → HoldsBytes esc
    → ado + 2 ≤ esc_size
    → esc_read_u16_le esc ado ≡ esc ado + esc (ado + 1) * 256
unfolding esc_read_u16_le
esc_read_u16_le-sum esc ado b h = ground (arith, or_shifted 8 (esc ado) (esc (ado + 1)) (b ado))

-- A write that is accepted lies inside the array, puts the bytes there and changes no other byte.
pub record IsWritten (esc : Memory) (ado : ℕ) (src : List ℕ) (after : Memory) : Type 0 where
  pub inside : ado + length src ≤ esc_size
  pub not_empty : 0 < length src
  pub there : (i : ℕ) → i < length src → after (ado + i) ≡ get_or src i 0
  pub elsewhere : (j : ℕ) → (j < ado) ⊎ (ado + length src ≤ j) → after j ≡ esc j

pub esc_write-IsWritten :
    (esc : Memory) (ado : ℕ) (src : List ℕ) (after : Memory)
    → esc_write esc ado src ≡ some after
    → IsWritten esc ado src after
unfolding esc_write
esc_write-IsWritten esc ado src after e = record {
  inside = ground arith;
  not_empty = ground arith;
  there = λ i h. ground (arith, store_at esc ado src i h);
  elsewhere = λ j h. ground (arith, store_outside esc ado src j h);
}

-- A read after a write of the same range gives the bytes written; both are refused alike.
pub esc_read-esc_write :
    (esc after : Memory) (ado : ℕ) (src : List ℕ)
    → esc_write esc ado src ≡ some after
    → esc_read after ado (length src) ≡ some src
unfolding esc_read esc_write
esc_read-esc_write esc after ado src e = ground (arith, load-store_self esc ado src)

pub esc_write-HoldsBytes :
    (esc after : Memory) (ado : ℕ) (src : List ℕ)
    → HoldsBytes esc
    → AreBytes src
    → esc_write esc ado src ≡ some after
    → HoldsBytes after
unfolding esc_write
esc_write-HoldsBytes esc after ado src b s e j = ground (arith, store-IsU8 esc ado src j (b j) s)

pub esc_write-StaysInside :
    (esc after : Memory) (ado : ℕ) (src : List ℕ)
    → esc_write esc ado src ≡ some after
    → StaysInside esc after
esc_write-StaysInside esc after ado src e j h =
    let w = esc_write-IsWritten esc ado src after e in w.elsewhere j (inr (omega (arith, w.inside)))

pub esc_apply_identity-IsU8 :
    (esc : Memory) (id : Identity) (j : ℕ) → IsU8 (esc j) → IsU8 (esc_apply_identity esc id j)
unfolding esc_apply_identity
esc_apply_identity-IsU8 esc id j h =
    store-IsU8 _ _ _ j
      (store-IsU8 _ _ _ j
        (store-IsU8 _ _ _ j (store-IsU8 esc reg_vendor _ j h (AreBytes-w32_le id.vendor_id))
          (AreBytes-w32_le id.product_code))
        (AreBytes-w32_le id.revision))
      (AreBytes-w32_le id.serial)

esc_apply_identity_stays :
    (esc : Memory) (id : Identity) → StaysInside esc (esc_apply_identity esc id)
unfolding esc_apply_identity w32_le store
esc_apply_identity_stays esc id j h = ground arith

esc_set_al_status_init-IsU8 :
    (esc : Memory) (j : ℕ) → IsU8 (esc j) → IsU8 (esc_set_al_status_init esc j)
unfolding esc_set_al_status_init
esc_set_al_status_init-IsU8 esc j h = ground arith

esc_set_al_status_init_stays : (esc : Memory) → StaysInside esc (esc_set_al_status_init esc)
unfolding esc_set_al_status_init
esc_set_al_status_init_stays esc j h = ground arith

cleared-IsU8 : (esc : Memory) (j : ℕ) → IsU8 (esc j) → IsU8 (fill esc 0 0 esc_size j)
unfolding fill
cleared-IsU8 esc j h = ground arith

cleared_stays : (esc : Memory) → StaysInside esc (fill esc 0 0 esc_size)
unfolding fill
cleared_stays esc j h = ground arith

-- After init the registers hold the identity, the state is INIT with no error, and no station
-- address is set; what stands behind the array is untouched.
pub record IsFresh (id : Identity) (before esc : Memory) : Type 0 where
  pub vendor : esc_read esc reg_vendor 4 ≡ some (w32_le id.vendor_id)
  pub product : esc_read esc reg_product 4 ≡ some (w32_le id.product_code)
  pub revision : esc_read esc reg_rev 4 ≡ some (w32_le id.revision)
  pub serial : esc_read esc reg_serial 4 ≡ some (w32_le id.serial)
  pub status : esc_read_u16_le esc reg_alstat ≡ 1
  pub code : esc_read_u16_le esc reg_alstacode ≡ 0
  pub station : esc_read_u16_le esc reg_stadr ≡ 0
  pub bytes : HoldsBytes esc
  pub stays : StaysInside before esc

pub slave_reset-IsFresh :
    (s : Slave) (id : Identity) → HoldsBytes s.esc → IsFresh id s.esc (slave_reset s id).esc
unfolding slave_reset esc_apply_identity esc_set_al_status_init esc_read esc_read_u16_le load store
    fill w32_le
slave_reset-IsFresh s id b = record {
  vendor = refl;
  product = refl;
  revision = refl;
  serial = refl;
  status = refl;
  code = refl;
  station = refl;
  bytes = λ j.
      esc_set_al_status_init-IsU8 named j
        (esc_apply_identity-IsU8 cleared id j (cleared-IsU8 s.esc j (b j)));
  stays = λ j h.
      esc_set_al_status_init_stays named j h
      ∙ esc_apply_identity_stays cleared id j h
      ∙ cleared_stays s.esc j h;
}
  where
    cleared : Memory
    cleared = fill s.esc 0 0 esc_size

    named : Memory
    named = esc_apply_identity cleared id

-- `ul_ecat_slave_init` leaves the same registers, whatever the memory held, and the addresses.
pub slave_init_lem :
    (s : Slave) (mac : Mac) (id : Identity)
    → HoldsBytes s.esc
    → IsFresh id s.esc (slave_init s mac id).esc
      × ((slave_init s mac id).mac ≡ mac)
      × ((slave_init s mac id).logical_position ≡ 0)
unfolding slave_init slave_reset
slave_init_lem s mac id b = (slave_reset-IsFresh s id b, refl, refl)
