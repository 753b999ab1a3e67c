-- ===== src/Slave/SyncManager.antt =====
-- src/slave/ul_ecat_slave_sm.h: the SyncManager registers, read out of the register memory.
use ul_ecat.Common.{
  ℕ, ◌≡◌, ◌≤◌, ◌<◌, refl, arith, ◌+◌, ◌*◌, Bool, true, false, ◌&&◌, ltb, ◌==◌, if◌then◌else◌,
  bit_and, bit_or, ◌<<<◌, u16, Memory,
}
use ul_ecat.Slave.Esc.{esc_size}

abbrev pub reg_sm0 : ℕ
reg_sm0 = 0x0800

abbrev pub esc_sm_size : ℕ
esc_sm_size = 8

-- UL_ECAT_SM_OFS_STATUS
abbrev pub sm_ofs_status : ℕ
sm_ofs_status = 5

abbrev pub sm_ctrl_mode_mask : ℕ
sm_ctrl_mode_mask = 0x03

abbrev pub sm_ctrl_mode_mbx : ℕ
sm_ctrl_mode_mbx = 0x02

-- ul_ecat_sm_config_t
pub record SmConfig : Type 0 where
  pub start_addr : ℕ
  pub len : ℕ
  pub control : ℕ
  pub status : ℕ
  pub activate : ℕ
  pub pdi_ctrl : ℕ

abbrev pub sm_base : ℕ → ℕ
sm_base sm_index = u16 (reg_sm0 + sm_index * esc_sm_size)

unfoldable pub sm_read : Memory → ℕ → SmConfig
sm_read esc sm_index =
    let base = sm_base sm_index in
    if ltb esc_size (base + esc_sm_size)
    then record { start_addr = 0; len = 0; control = 0; status = 0; activate = 0; pdi_ctrl = 0 }
    else record {
      start_addr = bit_or (esc base) (esc (base + 1) <<< 8);
      len = bit_or (esc (base + 2)) (esc (base + 3) <<< 8);
      control = esc (base + 4);
      status = esc (base + 5);
      activate = esc (base + 6);
      pdi_ctrl = esc (base + 7);
    }

unfoldable pub sm_is_active : SmConfig → Bool
sm_is_active sm = if bit_and sm.activate 0x01 == 0 then false else true

unfoldable pub sm_is_mailbox : SmConfig → Bool
sm_is_mailbox sm = bit_and sm.control sm_ctrl_mode_mask == sm_ctrl_mode_mbx

-- The test that the mailbox code makes of a SyncManager before it uses it.
unfoldable pub sm_is_usable : SmConfig → Bool
sm_is_usable sm = sm_is_active sm && sm_is_mailbox sm && (if sm.len == 0 then false else true)

-- `true` is the 0 of the source: SM0 and SM1 both pass.
unfoldable pub sm_validate_mailbox_pair : Memory → Bool
unfolding sm_is_usable
sm_validate_mailbox_pair esc = sm_is_usable (sm_read esc 0) && sm_is_usable (sm_read esc 1)

-- The registers of a SyncManager are the only bytes that are read of the memory.
pub sm_read_ext :
    (m m' : Memory) (sm_index : ℕ)
    → ((j : ℕ) → sm_base sm_index ≤ j → j < sm_base sm_index + 8 → m j ≡ m' j)
    → sm_read m sm_index ≡ sm_read m' sm_index
unfolding sm_read
sm_read_ext m m' sm_index h =
    let base = sm_base sm_index in
    rw
      (
        h base (omega arith) (omega arith),
        h (base + 1) (omega arith) (omega arith),
        h (base + 2) (omega arith) (omega arith),
        h (base + 3) (omega arith) (omega arith),
        h (base + 4) (omega arith) (omega arith),
        h (base + 5) (omega arith) (omega arith),
        h (base + 6) (omega arith) (omega arith),
        h (base + 7) (omega arith) (omega arith),
      )
      refl
