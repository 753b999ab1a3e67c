-- ===== src/Lan9252/Access.antt =====
-- `lan9252_esc_read` and `lan9252_esc_write`: the registers of the core below the process data
-- RAM, and the process data RAM. What a failed read leaves in the buffer has no counterpart.
use ul_ecat.Common.{ℕ, List, leb, ◌==◌, if◌then◌else◌, length}
use ul_ecat.Lan9252.{Spi, einval, Action, fail}
use ul_ecat.Lan9252.Core.{esc_read_loop, esc_write_loop}
use ul_ecat.Lan9252.ProcessRam.{pdram_read, pdram_write}

-- LAN9252_PDRAM_BASE
abbrev pub pdram_base : ℕ
pdram_base = 0x1000

module _ {W : Type 0} (spi : Spi W) where
  unfoldable pub esc_read : ℕ → ℕ → Action W (List ℕ)
  esc_read ado len =
      if len == 0
      then fail einval
      else if leb pdram_base ado
      then pdram_read spi ado len
      else esc_read_loop spi len ado len

  unfoldable pub esc_write : ℕ → List ℕ → Action W Unit
  esc_write ado buf =
      if length buf == 0
      then fail einval
      else if leb pdram_base ado
      then pdram_write spi ado buf
      else esc_write_loop spi (length buf) ado buf
