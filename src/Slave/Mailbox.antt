-- ===== src/Slave/Mailbox.antt =====
-- src/slave/ul_ecat_slave_mailbox.c: the mailbox header, and the handshake over SM0 (master to
-- slave) and SM1 (slave to master).
pub mod Header
pub mod Handshake
pub mod Reply
use ul_ecat.Common.{
  ℕ, ◌+◌, ◌-◌, List, [], ◌∷◌, Option, none, some, Bool, true, false, ◌||◌, ltb, ◌==◌, if◌then◌else◌,
  bit_and, bit_or, ◌<<<◌, ◌>>>◌, u8, length, get_or, Memory, poke, store, fill,
}
use ul_ecat.Slave.Esc.{esc_size}
use ul_ecat.Slave.SyncManager.{sm_base, sm_ofs_status, SmConfig, sm_read, sm_is_usable}

abbrev pub mbx_hdr_len : ℕ
mbx_hdr_len = 6

-- UL_ECAT_SM_STAT_MBX_FULL
abbrev pub sm_stat_mbx_full : ℕ
sm_stat_mbx_full = 0x08

-- ul_ecat_mbx_header_t
pub record MbxHeader : Type 0 where
  pub len : ℕ
  pub address : ℕ
  pub channel : ℕ
  pub priority : ℕ
  pub type : ℕ
  pub counter : ℕ

unfoldable pub mbx_header_decode : List ℕ → MbxHeader
mbx_header_decode frame = record {
  len = bit_or (get_or frame 0 0) (get_or frame 1 0 <<< 8);
  address = bit_or (get_or frame 2 0) (get_or frame 3 0 <<< 8);
  channel = bit_and (get_or frame 4 0) 0x3f;
  priority = bit_and (get_or frame 4 0 >>> 6) 0x03;
  type = bit_and (get_or frame 5 0) 0x0f;
  counter = bit_and (get_or frame 5 0 >>> 4) 0x0f;
}

-- The six bytes written at `frame`.
unfoldable pub mbx_header_encode : MbxHeader → List ℕ
mbx_header_encode hdr =
    u8 (bit_and hdr.len 0xff)
    ∷ u8 (bit_and (hdr.len >>> 8) 0xff)
    ∷ u8 (bit_and hdr.address 0xff)
    ∷ u8 (bit_and (hdr.address >>> 8) 0xff)
    ∷ u8 (bit_or (bit_and hdr.channel 0x3f) (bit_and hdr.priority 0x03 <<< 6))
    ∷ u8 (bit_or (bit_and hdr.type 0x0f) (bit_and hdr.counter 0x0f <<< 4))
    ∷ []

pub sm_set_status_bit : Memory → ℕ → ℕ → Memory
sm_set_status_bit esc sm_index bit_mask =
    let at = sm_base sm_index + sm_ofs_status in poke esc at (bit_or (esc at) bit_mask)

-- `(uint8_t)~bit_mask` is 255 - bit_mask.
unfoldable pub sm_clear_status_bit : Memory → ℕ → ℕ → Memory
sm_clear_status_bit esc sm_index bit_mask =
    let at = sm_base sm_index + sm_ofs_status in poke esc at (bit_and (esc at) (255 - bit_mask))

-- `none` is the -1.
unfoldable pub mailbox_write_sm1 : Memory → List ℕ → Option Memory
unfolding sm_set_status_bit
mailbox_write_sm1 esc frame =
    let len = length frame in
    let sm1 = sm_read esc 1 in
    let copied = store esc sm1.start_addr frame in
    let padded =
      if ltb len sm1.len then fill copied (sm1.start_addr + len) 0 (sm1.len - len) else copied in
    if len == 0
    then none
    else if sm_is_usable sm1
    then if ltb sm1.len len
      then none
      else if ltb esc_size (sm1.start_addr + sm1.len)
      then none
      else some (sm_set_status_bit padded 1 sm_stat_mbx_full)
    else none

-- The memory, and whether a request is complete (the return value).
unfoldable pub mailbox_on_sm0_write : Memory → ℕ → ℕ → Memory × Bool
unfolding sm_set_status_bit
mailbox_on_sm0_write esc write_ado write_len =
    let sm0 = sm_read esc 0 in
    if write_len == 0
    then (esc, false)
    else if sm_is_usable sm0
    then if write_ado + write_len == sm0.start_addr + sm0.len
      then if ltb write_ado sm0.start_addr
        then (esc, false)
        else (sm_set_status_bit esc 0 sm_stat_mbx_full, true)
      else (esc, false)
    else (esc, false)

unfoldable pub mailbox_on_sm1_read : Memory → ℕ → ℕ → Memory
unfolding sm_clear_status_bit
mailbox_on_sm1_read esc read_ado read_len =
    let sm1 = sm_read esc 1 in
    if read_len == 0
    then esc
    else if sm_is_usable sm1
    then if read_ado + read_len == sm1.start_addr + sm1.len
      then if ltb read_ado sm1.start_addr then esc else sm_clear_status_bit esc 1 sm_stat_mbx_full
      else esc
    else esc
