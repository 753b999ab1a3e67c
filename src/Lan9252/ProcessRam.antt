-- ===== src/Lan9252/ProcessRam.antt =====
-- The process data RAM, which the LAN9252 reads and writes through two FIFOs. The counter
-- `fifo_cnt` is read from the chip and then only counted down; the value has no effect and is left
-- out, the read of the register is not.
use ul_ecat.Common.{
  ℕ, zero, suc, ◌-◌, List, [], ◌∷◌, ◌++◌, ◌==◌, ltb, not, if◌then◌else◌, u8, ◌<<<◌, ◌>>>◌, bit_and,
  bit_or, length, take, drop, replicate, w32_le, r32_le,
}
use ul_ecat.Lan9252.{
  Spi, eio, etimedout, einval, Action, ◌>>=◌, ◌>>◌, done, fail, or_error, spi_serial_write,
  spi_fast_read, spi_fast_read_dummy_bytes, busy_max, spi_write, spi_read, spi_select, spi_deselect,
  or_release, reg32_read, reg32_write, wait_until,
}

-- LAN9252_CSR_PRAM_RD_FIFO, LAN9252_CSR_PRAM_WR_FIFO
abbrev pub csr_pram_rd_fifo : ℕ
csr_pram_rd_fifo = 0x0000

abbrev pub csr_pram_wr_fifo : ℕ
csr_pram_wr_fifo = 0x0020

-- LAN9252_CSR_PRAM_RD_ADDR_LEN, LAN9252_CSR_PRAM_RD_CMD, LAN9252_CSR_PRAM_WR_ADDR_LEN,
-- LAN9252_CSR_PRAM_WR_CMD
abbrev pub csr_pram_rd_addr_len : ℕ
csr_pram_rd_addr_len = 0x0308

abbrev pub csr_pram_rd_cmd : ℕ
csr_pram_rd_cmd = 0x030c

abbrev pub csr_pram_wr_addr_len : ℕ
csr_pram_wr_addr_len = 0x0310

abbrev pub csr_pram_wr_cmd : ℕ
csr_pram_wr_cmd = 0x0314

-- LAN9252_PRAM_CMD_BUSY, _ABORT, _AVAIL: bits 31, 30 and 0.
abbrev pub pram_cmd_busy : ℕ
pram_cmd_busy = 2147483648

abbrev pub pram_cmd_abort : ℕ
pram_cmd_abort = 1073741824

abbrev pub pram_cmd_avail : ℕ
pram_cmd_avail = 1

-- LAN9252_PRAM_SIZE, LAN9252_PRAM_ADDR
abbrev pub pram_size : ℕ → ℕ
pram_size n = n <<< 16

abbrev pub pram_addr : ℕ → ℕ
pram_addr a = a

-- `temp_len` of the first word, of which `address` skips the first bytes.
unfoldable pub first_len : ℕ → ℕ → ℕ
first_len address len = let room : ℕ = 4 - bit_and address 3 in if ltb len room then len else room

module _ {W : Type 0} (spi : Spi W) where
  unfoldable pub pram_rd_wait_avail : Action W Unit
  pram_rd_wait_avail =
      wait_until spi busy_max csr_pram_rd_cmd (λ v. not (bit_and v pram_cmd_avail == 0))

  unfoldable pub pram_wr_wait_avail : Action W Unit
  pram_wr_wait_avail =
      wait_until spi busy_max csr_pram_wr_cmd (λ v. not (bit_and v pram_cmd_avail == 0))

  unfoldable pub pram_wait_rd_not_busy : Action W Unit
  pram_wait_rd_not_busy =
      wait_until spi busy_max csr_pram_rd_cmd (λ v. bit_and v pram_cmd_busy == 0)

  unfoldable pub pram_wait_wr_not_busy : Action W Unit
  pram_wait_wr_not_busy =
      wait_until spi busy_max csr_pram_wr_cmd (λ v. bit_and v pram_cmd_busy == 0)

  -- The words after the first one. Every turn takes at least one byte.
  unfoldable pub read_fifo : ℕ → ℕ → Action W (List ℕ)
  read_fifo zero len = done []
  read_fifo (suc turns) len =
      let temp_len : ℕ = if ltb 4 len then 4 else len in
      let rest = read_fifo turns (len - temp_len) in
      if len == 0 then done [] else (do
        chunk ← or_release spi (spi_read spi 4)
        more ← rest
        done (take temp_len chunk ++ more))

  unfoldable pub read_rest : ℕ → Action W (List ℕ)
  read_rest len = if len == 0 then done [] else (do
    spi_select spi
    or_release spi (
        spi_write spi (
          spi_fast_read
          ∷ u8 (bit_and (csr_pram_rd_fifo >>> 8) 0xff)
          ∷ u8 (bit_and csr_pram_rd_fifo 0xff)
          ∷ spi_fast_read_dummy_bytes
          ∷ []))
    bytes ← read_fifo len len
    spi_deselect spi
    done bytes)

  unfoldable pub pdram_read : ℕ → ℕ → Action W (List ℕ)
  pdram_read address len =
      let temp_len : ℕ = first_len address len in
      if len == 0 then fail einval else (do
        or_error eio (reg32_write spi csr_pram_rd_cmd pram_cmd_abort)
        or_error etimedout pram_wait_rd_not_busy
        or_error eio
            (reg32_write spi csr_pram_rd_addr_len (bit_or (pram_size len) (pram_addr address)))
        or_error eio (reg32_write spi csr_pram_rd_cmd pram_cmd_busy)
        or_error etimedout pram_rd_wait_avail
        or_error eio (reg32_read spi csr_pram_rd_cmd)
        v ← or_error eio (reg32_read spi csr_pram_rd_fifo)
        more ← read_rest (len - temp_len)
        done (take temp_len (drop (bit_and address 3) (w32_le v)) ++ more))

  unfoldable pub write_fifo : ℕ → List ℕ → Action W Unit
  write_fifo zero buf = done tt
  write_fifo (suc turns) buf =
      let temp_len : ℕ = if ltb 4 (length buf) then 4 else length buf in
      let rest = write_fifo turns (drop temp_len buf) in
      if length buf == 0 then done tt else (do
        or_release spi (spi_write spi (take temp_len buf ++ replicate {A = ℕ} (4 - temp_len) 0))
        rest)

  unfoldable pub write_rest : List ℕ → Action W Unit
  write_rest buf = if length buf == 0 then done tt else (do
    spi_select spi
    or_release spi (
        spi_write spi (
          spi_serial_write
          ∷ u8 (bit_and (csr_pram_wr_fifo >>> 8) 0xff)
          ∷ u8 (bit_and csr_pram_wr_fifo 0xff)
          ∷ []))
    write_fifo (length buf) buf
    spi_deselect spi)

  unfoldable pub pdram_write : ℕ → List ℕ → Action W Unit
  pdram_write address buf =
      let temp_len : ℕ = first_len address (length buf) in
      if length buf == 0 then fail einval else (do
        or_error eio (reg32_write spi csr_pram_wr_cmd pram_cmd_abort)
        or_error etimedout pram_wait_wr_not_busy
        or_error eio (
            reg32_write spi csr_pram_wr_addr_len
              (bit_or (pram_size (length buf)) (pram_addr address)))
        or_error eio (reg32_write spi csr_pram_wr_cmd pram_cmd_busy)
        or_error etimedout pram_wr_wait_avail
        or_error eio (reg32_read spi csr_pram_wr_cmd)
        or_error eio (
            reg32_write spi csr_pram_wr_fifo
              (r32_le (replicate {A = ℕ} (bit_and address 3) 0 ++ take temp_len buf)))
        write_rest (drop temp_len buf))
