-- ===== src/Al.antt =====
-- src/common/ul_ecat_al.c and include/ul_ecat_al.h: the AL Control and AL Status words.
use ul_ecat.Common.{
  ℕ, ◌+◌, ◌%◌, ◌/◌, ◌≡◌, Bool, true, false, arith, if◌then◌else◌, ◌==◌, bit_and, bit_or, u8, u16,
  and_0f, and_10, or_shifted,
}

-- UL_ECAT_AL_MASK_STATE, UL_ECAT_AL_CTRL_ACK, UL_ECAT_AL_STAT_ERR
abbrev pub al_mask_state : ℕ
al_mask_state = 0x000f

abbrev pub al_ctrl_ack : ℕ
al_ctrl_ack = 0x0010

abbrev pub al_stat_err : ℕ
al_stat_err = 0x0010

-- AL Status Code values.
abbrev pub al_err_none : ℕ
al_err_none = 0x0000

abbrev pub al_err_invalid_state_change : ℕ
al_err_invalid_state_change = 0x0011

abbrev pub al_err_bootstrap_not_supported : ℕ
al_err_bootstrap_not_supported = 0x0013

abbrev pub al_err_invalid_mailbox_cfg : ℕ
al_err_invalid_mailbox_cfg = 0x0016

unfoldable pub al_control_word : ℕ → Bool → ℕ
al_control_word state_nibble ack =
    let w = u16 (bit_and state_nibble al_mask_state) in
    if ack then u16 (bit_or w al_ctrl_ack) else w

unfoldable pub al_status_state : ℕ → ℕ
al_status_state al_status = u8 (bit_and al_status al_mask_state)

unfoldable pub al_status_error_indicated : ℕ → Bool
al_status_error_indicated al_status = if bit_and al_status al_stat_err == 0 then false else true

pub al_status_state_lem : (w : ℕ) → al_status_state w ≡ w % 16
unfolding al_status_state
al_status_state_lem w = omega (arith, and_0f w)

pub al_status_error_indicated_lem : (w : ℕ) → al_status_error_indicated w ≡ (w / 16 % 2 == 1)
unfolding al_status_error_indicated
al_status_error_indicated_lem w = ground (arith, and_10 w)

-- The word that the master writes: the state in the low nibble, the acknowledge in bit 4.
pub al_control_word_lem :
    (state : ℕ) (ack : Bool) → al_control_word state ack ≡ state % 16 + (if ack then 16 else 0)
unfolding al_control_word
al_control_word_lem state true = ground (arith, and_0f state, or_shifted 4 (state % 16) 1)
al_control_word_lem state false = ground (arith, and_0f state)
