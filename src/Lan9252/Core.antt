-- ===== src/Lan9252/Core.antt =====
-- The registers of the EtherCAT core, which the LAN9252 reaches through a command register:
-- accesses of one, two or four bytes.
use ul_ecat.Common.{
  ℕ, zero, suc, ◌+◌, ◌-◌, List, [], ◌++◌, ◌==◌, ltb, not, if◌then◌else◌, u16, ◌<<<◌, bit_and,
  bit_or, length, take, drop, w32_le, r32_le,
}
use ul_ecat.Lan9252.{
  Spi, eio, etimedout, Action, ◌>>=◌, ◌>>◌, done, or_error, busy_max, reg32_read, reg32_write,
  wait_until,
}

-- LAN9252_CSR_ESC_CSR_DATA, LAN9252_CSR_ESC_CSR_CMD
abbrev pub csr_esc_csr_data : ℕ
csr_esc_csr_data = 0x0300

abbrev pub csr_esc_csr_cmd : ℕ
csr_esc_csr_cmd = 0x0304

-- LAN9252_ESC_CSR_CMD_BUSY, _READ, _WRITE: bits 31 and 30.
abbrev pub esc_csr_cmd_busy : ℕ
esc_csr_cmd_busy = 2147483648

abbrev pub esc_csr_cmd_read : ℕ
esc_csr_cmd_read = 3221225472

abbrev pub esc_csr_cmd_write : ℕ
esc_csr_cmd_write = 2147483648

-- LAN9252_ESC_CSR_CMD_SIZE
abbrev pub esc_csr_cmd_size : ℕ → ℕ
esc_csr_cmd_size n = n <<< 16

-- The size of the next access, at most `len`.
unfoldable pub esc_next_chunk_size : ℕ → ℕ → ℕ
esc_next_chunk_size address len =
    let size : ℕ = if ltb 4 len then 4 else len in
    if not (bit_and address 1 == 0)
    then 1
    else if not (bit_and address 2 == 0)
    then if not (bit_and size 1 == 0) then 1 else 2
    else if size == 3
    then 1
    else size

module _ {W : Type 0} (spi : Spi W) where
  unfoldable pub csr_cmd_wait_not_busy : Action W Unit
  csr_cmd_wait_not_busy =
      wait_until spi busy_max csr_esc_csr_cmd (λ v. bit_and v esc_csr_cmd_busy == 0)

  -- The bytes copied into `buf`.
  unfoldable pub esc_read_csr_u16 : ℕ → ℕ → Action W (List ℕ)
  esc_read_csr_u16 address len = do
    or_error eio (
        reg32_write spi csr_esc_csr_cmd
          (bit_or (bit_or esc_csr_cmd_read (esc_csr_cmd_size len)) address))
    or_error etimedout csr_cmd_wait_not_busy
    data_word ← or_error eio (reg32_read spi csr_esc_csr_data)
    done (take len (w32_le data_word))

  -- `bytes` is what `buf` holds, at most four.
  unfoldable pub esc_write_csr_u16 : ℕ → List ℕ → Action W Unit
  esc_write_csr_u16 address bytes = do
    or_error eio (reg32_write spi csr_esc_csr_data (r32_le bytes))
    or_error eio (
        reg32_write spi csr_esc_csr_cmd
          (bit_or (bit_or esc_csr_cmd_write (esc_csr_cmd_size (length bytes))) address))
    or_error etimedout csr_cmd_wait_not_busy

  -- The loop of `lan9252_esc_read`. Every turn takes at least one byte, so that `len` turns are
  -- enough.
  unfoldable pub esc_read_loop : ℕ → ℕ → ℕ → Action W (List ℕ)
  esc_read_loop zero ado len = done []
  esc_read_loop (suc turns) ado len =
      let chunk : ℕ = esc_next_chunk_size ado len in
      let rest = esc_read_loop turns (u16 (ado + chunk)) (u16 (len + 65536 - chunk)) in
      if len == 0
      then done []
      else (do bytes ← or_error eio (esc_read_csr_u16 ado chunk); more ← rest; done (bytes ++ more))

  -- The loop of `lan9252_esc_write`, whose pointer is the rest of `buf`.
  unfoldable pub esc_write_loop : ℕ → ℕ → List ℕ → Action W Unit
  esc_write_loop zero ado buf = done tt
  esc_write_loop (suc turns) ado buf =
      let chunk : ℕ = esc_next_chunk_size ado (length buf) in
      let rest = esc_write_loop turns (u16 (ado + chunk)) (drop chunk buf) in
      if length buf == 0
      then done tt
      else (do or_error eio (esc_write_csr_u16 ado (take chunk buf)); rest)
