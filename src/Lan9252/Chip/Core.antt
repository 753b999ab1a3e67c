-- ===== src/Lan9252/Chip/Core.antt =====
-- The registers of the EtherCAT core of the LAN9252, behind its command register.
use ul_ecat.Common.{
  IsU32, store, ℕ, ◌+◌, ◌-◌, ◌*◌, ◌≤◌, ◌<◌, ◌≡◌, ◌≢◌, List, bit_and, w32_le, length, take, Memory,
  load,
}
use ul_ecat.Lan9252.{Spi}
use ul_ecat.Lan9252.Core.{csr_esc_csr_data, csr_esc_csr_cmd, esc_csr_cmd_busy}
use ul_ecat.Lan9252.Chunks.{IsAccess}
use ul_ecat.Lan9252.Chip.{Registers}

-- The command register: a command to read, which carries the size in the bits from 16 on and the
-- address in those below, keeps the register busy for a number of polls, less than the driver's
-- limit, and then the low bytes of the data register are those at the address.
pub record CoreRegisters {W : Type 0} {spi : Spi W} (chip : Registers spi) : Type 0 where
  pub memory : W → Memory
  pub busy : W → ℕ
  pub pending : W → List ℕ
  pub read_starts :
      (w : W) (address n : ℕ)
      → chip.IsIdle w
      → IsAccess address n
      → address + n ≤ 4096
      → (memory (chip.after_write w csr_esc_csr_cmd (0xc0000000 + n * 65536 + address)) ≡ memory w)
        × (pending (chip.after_write w csr_esc_csr_cmd (0xc0000000 + n * 65536 + address))
            ≡ load (memory w) address n)
        × (busy (chip.after_write w csr_esc_csr_cmd (0xc0000000 + n * 65536 + address)) < 100000)
  pub is_free : (w : W) → busy w ≡ 0 → bit_and (chip.value w csr_esc_csr_cmd) esc_csr_cmd_busy ≡ 0
  pub is_busy : (w : W) → 1 ≤ busy w → bit_and (chip.value w csr_esc_csr_cmd) esc_csr_cmd_busy ≢ 0
  pub polled :
      (w : W)
      → (memory (chip.after_read w csr_esc_csr_cmd) ≡ memory w)
        × (pending (chip.after_read w csr_esc_csr_cmd) ≡ pending w)
        × (busy (chip.after_read w csr_esc_csr_cmd) ≡ busy w - 1)
  pub data_ready :
      (w : W)
      → busy w ≡ 0
      → take (length (pending w)) (w32_le (chip.value w csr_esc_csr_data)) ≡ pending w
  pub data_taken : (w : W) → memory (chip.after_read w csr_esc_csr_data) ≡ memory w

-- A command to write stores the low bytes of the data register.
pub record WritableCore {W : Type 0} {spi : Spi W} {chip : Registers spi}
    (core : CoreRegisters chip) : Type 0 where
  pub write_starts :
      (w : W) (address n v : ℕ)
      → chip.IsIdle w
      → IsAccess address n
      → address + n ≤ 4096
      → IsU32 v
      → (core.memory (
            chip.after_write
              (chip.after_write w csr_esc_csr_data v)
              csr_esc_csr_cmd
              (0x80000000 + n * 65536 + address))
          ≡ store (core.memory w) address (take n (w32_le v)))
        × (core.busy (
              chip.after_write
                (chip.after_write w csr_esc_csr_data v)
                csr_esc_csr_cmd
                (0x80000000 + n * 65536 + address))
            < 100000)
