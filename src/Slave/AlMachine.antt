-- ===== src/Slave/AlMachine.antt =====
-- src/slave/ul_ecat_slave_al.c: the AL state machine, run after each write of AL Control.
pub mod Registers
pub mod Transitions
pub mod Requests
use ul_ecat.Common.{
  ℕ, ◌+◌, Bool, true, false, ◌&&◌, ◌||◌, ◌==◌, if◌then◌else◌, bit_and, bit_or, ◌>>>◌, u8, u16,
  Memory, poke, List, [], ◌∷◌,
}
use ul_ecat.Al.{
  al_mask_state, al_ctrl_ack, al_stat_err, al_err_none, al_err_invalid_state_change,
  al_err_bootstrap_not_supported, al_err_invalid_mailbox_cfg, al_status_state,
}
use ul_ecat.Slave.Esc.{reg_alctl, reg_alstat, reg_alstacode, esc_read_u16_le}
use ul_ecat.Slave.SyncManager.{sm_validate_mailbox_pair}

abbrev pub al_init : ℕ
al_init = 1

abbrev pub al_preop : ℕ
al_preop = 2

abbrev pub al_boot : ℕ
al_boot = 3

abbrev pub al_safeop : ℕ
al_safeop = 4

abbrev pub al_op : ℕ
al_op = 8

unfoldable pub is_valid_transition : ℕ → ℕ → Bool
is_valid_transition from to =
    if to == al_init
    then true
    else if from == al_init
    then to == al_preop
    else if from == al_preop
    then to == al_safeop
    else if from == al_safeop
    then to == al_op || to == al_preop
    else if from == al_op
    then to == al_safeop
    else false

unfoldable pub write_al_status : Memory → ℕ → ℕ → Memory
write_al_status esc status code =
    let low = poke esc reg_alstat (u8 (bit_and status 0xff)) in
    let high = poke low (reg_alstat + 1) (u8 (bit_and (status >>> 8) 0xff)) in
    let code_low = poke high reg_alstacode (u8 (bit_and code 0xff)) in
    poke code_low (reg_alstacode + 1) (u8 (bit_and (code >>> 8) 0xff))

-- The body after the registers are read.
unfoldable pub al_dispatch : Memory → ℕ → ℕ → Memory
al_dispatch esc alctl cur =
    let req = u8 (bit_and alctl al_mask_state) in
    if bit_and alctl al_ctrl_ack == 0
    then if req == cur
      then esc
      else if req == al_boot
      then write_al_status esc (bit_or cur al_stat_err) al_err_bootstrap_not_supported
      else if is_valid_transition cur req
      then if cur == al_init && req == al_preop
        then if sm_validate_mailbox_pair esc
          then write_al_status esc req al_err_none
          else write_al_status esc (bit_or cur al_stat_err) al_err_invalid_mailbox_cfg
        else write_al_status esc req al_err_none
      else write_al_status esc (bit_or cur al_stat_err) al_err_invalid_state_change
    else if req == cur
    then write_al_status esc cur al_err_none
    else esc

unfoldable pub al_on_control_write : Memory → Memory
unfolding al_dispatch
al_on_control_write esc =
    let alctl = esc_read_u16_le esc reg_alctl in
    let alstat = esc_read_u16_le esc reg_alstat in al_dispatch esc alctl (al_status_state alstat)
