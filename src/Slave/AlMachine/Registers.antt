-- ===== src/Slave/AlMachine/Registers.antt =====
-- The registers before and after a run of the state machine.
use ul_ecat.Common.{ℕ, ◌/◌, ◌%◌, ◌≡◌, ◌≢◌, arith, Memory, IsU16, and_ff, or_shifted}
use ul_ecat.Slave.Esc.{reg_alctl, reg_alstat, reg_alstacode, esc_read_u16_le, HoldsBytes}
use ul_ecat.Slave.AlMachine.{write_al_status}

-- What the master reads of the machine, and the word that it writes.
abbrev pub al_status : Memory → ℕ
al_status esc = esc_read_u16_le esc reg_alstat

abbrev pub al_code : Memory → ℕ
al_code esc = esc_read_u16_le esc reg_alstacode

abbrev pub al_state : Memory → ℕ
al_state esc = al_status esc % 16

abbrev pub al_control : Memory → ℕ
al_control esc = esc_read_u16_le esc reg_alctl

pub write_al_status-HoldsBytes :
    (esc : Memory) (status code : ℕ) → HoldsBytes esc → HoldsBytes (write_al_status esc status code)
unfolding write_al_status
write_al_status-HoldsBytes esc status code b j = ground (arith, b j)

pub al_status-write_al_status :
    (esc : Memory) (status code : ℕ)
    → IsU16 status
    → al_status (write_al_status esc status code) ≡ status
unfolding write_al_status esc_read_u16_le
al_status-write_al_status esc status code h =
    ground (
      arith,
      and_ff status,
      and_ff (status / 256),
      or_shifted 8 (status % 256) (status / 256 % 256),
    )

pub al_code-write_al_status :
    (esc : Memory) (status code : ℕ) → IsU16 code → al_code (write_al_status esc status code) ≡ code
unfolding write_al_status esc_read_u16_le
al_code-write_al_status esc status code h =
    ground (arith, and_ff code, and_ff (code / 256), or_shifted 8 (code % 256) (code / 256 % 256))

-- Only the four bytes of AL Status and AL Status Code change.
abbrev pub OnlyStatus : Memory → Memory → Type 0
OnlyStatus before after =
    (j : ℕ) → j ≢ 0x130 → j ≢ 0x131 → j ≢ 0x134 → j ≢ 0x135 → after j ≡ before j

pub write_al_status-OnlyStatus :
    (esc : Memory) (status code : ℕ) → OnlyStatus esc (write_al_status esc status code)
unfolding write_al_status
write_al_status-OnlyStatus esc status code j a b c d = ground arith
