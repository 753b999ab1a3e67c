-- ===== src/Lan9252.antt =====
-- controllers/lan9252/src/lan9252.c with controllers/lan9252/include/lan9252_regs.h: the registers
-- of the LAN9252 over SPI. The hardware layer (controllers/lan9252/include/lan9252_hal.h, one
-- implementation per board) is a parameter: operations on a state that is the bus and the chip.
pub mod Core
pub mod Chunks
pub mod ProcessRam
pub mod Access
pub mod Selected
pub mod Chip
pub mod Ports
use ul_ecat.Common.{
  ℕ, zero, suc, List, [], ◌∷◌, Option, none, some, Bool, true, false, ◌==◌, not, if◌then◌else◌, u8,
  ◌>>>◌, bit_and, w32_le, r32_le,
}

-- `lan9252_hal_spi_*`: true where the result is 0, and `none` where a read fails.
pub record Spi (W : Type 0) : Type 0 where
  pub select : W → W × Bool
  pub deselect : W → W
  pub write : W → List ℕ → W × Bool
  pub read : W → ℕ → W × Option (List ℕ)

-- EIO, ETIMEDOUT, EINVAL
pub data Errno : Type 0 where
  eio etimedout einval : Errno

pub data Result (A : Type 0) : Type 0 where
  ok : A → Result A
  err : Errno → Result A

-- A function of the driver: what it does to the bus, and its result.
abbrev pub Action : Type 0 → Type 0 → Type 0
Action W A = W → W × Result A

unfoldable pub next : {W A B : Type 0} → (A → Action W B) → W × Result A → W × Result B
next k (w, ok a) = k a w
next k (w, err e) = (w, err e)

infixl 5 ◌>>=◌ ◌>>◌
unfoldable pub ◌>>=◌ : {W A B : Type 0} → Action W A → (A → Action W B) → Action W B
unfolding next
◌>>=◌ m k w = next k (m w)

unfoldable pub ◌>>◌ : {W A B : Type 0} → Action W A → Action W B → Action W B
unfolding ◌>>=◌
m >> k = m >>= λ _. k

unfoldable pub done : {W A : Type 0} → A → Action W A
done a w = (w, ok a)

unfoldable pub fail : {W A : Type 0} → Errno → Action W A
fail e w = (w, err e)

as_error : {W A : Type 0} → Errno → W × Result A → W × Result A
as_error e (w, ok a) = (w, ok a)
as_error e (w, err e') = (w, err e)

-- `if (m != 0) return -e;`
unfoldable pub or_error : {W A : Type 0} → Errno → Action W A → Action W A
unfolding as_error
or_error e m w = as_error e (m w)

checked : {W : Type 0} → W × Bool → W × Result Unit
checked (w, true) = (w, ok tt)
checked (w, false) = (w, err eio)

checked_bytes : {W : Type 0} → W × Option (List ℕ) → W × Result (List ℕ)
checked_bytes (w, some bytes) = (w, ok bytes)
checked_bytes (w, none) = (w, err eio)

-- `lan9252_init`
unfoldable pub lan9252_init : {W : Type 0} → Action W Unit
unfolding done
lan9252_init = done tt

-- LAN9252_SPI_SERIAL_WRITE, LAN9252_SPI_FAST_READ, LAN9252_SPI_FAST_READ_DUMMY_BYTES
abbrev pub spi_serial_write : ℕ
spi_serial_write = 0x02

abbrev pub spi_fast_read : ℕ
spi_fast_read = 0x0b

abbrev pub spi_fast_read_dummy_bytes : ℕ
spi_fast_read_dummy_bytes = 1

-- LAN9252_CSR_RESET_CTRL, LAN9252_RESET_CTRL_RST
abbrev pub csr_reset_ctrl : ℕ
csr_reset_ctrl = 0x01f8

abbrev pub reset_ctrl_rst : ℕ
reset_ctrl_rst = 64

-- LAN9252_BUSY_MAX
unfoldable pub busy_max : ℕ
busy_max = 100000

module _ {W : Type 0} (spi : Spi W) where
  unfoldable pub spi_write : List ℕ → Action W Unit
  unfolding checked
  spi_write bytes w = checked (spi.write w bytes)

  unfoldable pub spi_read : ℕ → Action W (List ℕ)
  unfolding checked_bytes
  spi_read count w = checked_bytes (spi.read w count)

  selected : W × Bool → W × Result Unit
  selected (w, false) = (w, err eio)
  selected (w, true) = (w, ok tt)

  -- `if (lan9252_hal_spi_select() != 0) return -EIO;`
  unfoldable pub spi_select : Action W Unit
  unfolding selected
  spi_select w = selected (spi.select w)

  unfoldable pub spi_deselect : Action W Unit
  spi_deselect w = (spi.deselect w, ok tt)

  releasing : {A : Type 0} → W × Result A → W × Result A
  releasing (w, ok a) = (w, ok a)
  releasing (w, err e) = (spi.deselect w, err eio)

  -- `if (m != 0) { lan9252_hal_spi_deselect(); return -EIO; }`
  unfoldable pub or_release : {A : Type 0} → Action W A → Action W A
  unfolding releasing
  or_release m w = releasing (m w)

  unfoldable pub reg32_read : ℕ → Action W ℕ
  reg32_read addr = do
    spi_select
    or_release (
        spi_write (
          spi_fast_read
          ∷ u8 (bit_and (addr >>> 8) 0xff)
          ∷ u8 (bit_and addr 0xff)
          ∷ spi_fast_read_dummy_bytes
          ∷ []))
    rx ← or_release (spi_read 4)
    spi_deselect
    done (r32_le rx)

  unfoldable pub reg32_write : ℕ → ℕ → Action W Unit
  reg32_write addr val = do
    spi_select
    or_release (
        spi_write
          (spi_serial_write ∷ u8 (bit_and (addr >>> 8) 0xff) ∷ u8 (bit_and addr 0xff) ∷ w32_le val))
    spi_deselect

  -- A loop that reads a register until a test of its value holds, with `left` reads to go.
  unfoldable pub wait_until : ℕ → ℕ → (ℕ → Bool) → Action W Unit
  wait_until zero addr test = fail etimedout
  wait_until (suc left) addr test = do
    v ← or_error eio (reg32_read addr)
    let rest = wait_until left addr test in if test v then done tt else rest

  -- The pointer `out` is not null.
  unfoldable pub read_csr_u32 : ℕ → Action W ℕ
  read_csr_u32 csr_addr = reg32_read csr_addr

  unfoldable pub write_csr_u32 : ℕ → ℕ → Action W Unit
  write_csr_u32 csr_addr val = reg32_write csr_addr val

  unfoldable pub soft_reset : Action W Unit
  soft_reset = do
    or_error eio (reg32_write csr_reset_ctrl reset_ctrl_rst)
    wait_until busy_max csr_reset_ctrl (λ r. bit_and r reset_ctrl_rst == 0)
