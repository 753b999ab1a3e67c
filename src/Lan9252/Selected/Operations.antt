-- ===== src/Lan9252/Selected/Operations.antt =====
-- Every operation of controllers/lan9252/src/lan9252.c keeps the chip unselected between its transactions.
use ul_ecat.Common.{ℕ, zero, suc, List, [], ◌∷◌, Bool, ◌==◌, length}
use ul_ecat.Lan9252.{
  Spi, lan9252_init, reg32_read, reg32_write, wait_until, read_csr_u32, write_csr_u32, soft_reset,
}
use ul_ecat.Lan9252.Core.{
  csr_cmd_wait_not_busy, esc_read_csr_u16, esc_write_csr_u16, esc_read_loop, esc_write_loop,
}
use ul_ecat.Lan9252.ProcessRam.{
  pram_rd_wait_avail, pram_wr_wait_avail, pram_wait_rd_not_busy, pram_wait_wr_not_busy, read_fifo,
  read_rest, pdram_read, write_fifo, write_rest, pdram_write,
}
use ul_ecat.Lan9252.Access.{esc_read, esc_write}
use ul_ecat.Lan9252.Selected.{
  IsSelector, Keeps, keeps, spi_write-Keeps, spi_read-Keeps, Leads-Keeps, Leads, bind-Leads,
  then-Leads, done-Leads, either-Leads, spi_select-Leads, spi_deselect-Leads, or_release-Leads,
}

module _ {S : Type 0} {spi : Spi S} {Idle Busy : S → Type 0} (law : IsSelector spi Idle Busy) where
  reg32_read-Keeps : (addr : ℕ) → Keeps Idle (reg32_read spi addr)
  unfolding reg32_read
  reg32_read-Keeps addr = Leads-Keeps (
      then-Leads (spi_select-Leads law) (
        then-Leads (or_release-Leads law (spi_write-Keeps law _)) (
          bind-Leads (or_release-Leads law (spi_read-Keeps law 4))
            (λ rx. then-Leads (spi_deselect-Leads law) (done-Leads _)))))

  reg32_write-Keeps : (addr val : ℕ) → Keeps Idle (reg32_write spi addr val)
  unfolding reg32_write
  reg32_write-Keeps addr val = Leads-Keeps (
      then-Leads (spi_select-Leads law)
        (then-Leads (or_release-Leads law (spi_write-Keeps law _)) (spi_deselect-Leads law)))

  wait_until-Keeps : (left addr : ℕ) (test : ℕ → Bool) → Keeps Idle (wait_until spi left addr test)
  unfolding wait_until
  wait_until-Keeps zero addr test = search keeps
  wait_until-Keeps (suc left) addr test = search (keeps, reg32_read-Keeps, wait_until-Keeps left)

  read_csr_u32-Keeps : (csr_addr : ℕ) → Keeps Idle (read_csr_u32 spi csr_addr)
  unfolding read_csr_u32
  read_csr_u32-Keeps csr_addr = reg32_read-Keeps csr_addr

  write_csr_u32-Keeps : (csr_addr val : ℕ) → Keeps Idle (write_csr_u32 spi csr_addr val)
  unfolding write_csr_u32
  write_csr_u32-Keeps csr_addr val = reg32_write-Keeps csr_addr val

  lan9252_init-Keeps : Keeps Idle lan9252_init
  unfolding lan9252_init
  lan9252_init-Keeps = search keeps

  soft_reset-Keeps : Keeps Idle (soft_reset spi)
  unfolding soft_reset
  soft_reset-Keeps = search (keeps, reg32_write-Keeps, wait_until-Keeps)

  esc_read_csr_u16-Keeps : (address len : ℕ) → Keeps Idle (esc_read_csr_u16 spi address len)
  unfolding esc_read_csr_u16 csr_cmd_wait_not_busy
  esc_read_csr_u16-Keeps address len =
      search (keeps, reg32_read-Keeps, reg32_write-Keeps, wait_until-Keeps)

  esc_write_csr_u16-Keeps :
      (address : ℕ) (bytes : List ℕ) → Keeps Idle (esc_write_csr_u16 spi address bytes)
  unfolding esc_write_csr_u16 csr_cmd_wait_not_busy
  esc_write_csr_u16-Keeps address bytes = search (keeps, reg32_write-Keeps, wait_until-Keeps)

  esc_read_loop-Keeps : (turns ado len : ℕ) → Keeps Idle (esc_read_loop spi turns ado len)
  unfolding esc_read_loop
  esc_read_loop-Keeps zero ado len = search keeps
  esc_read_loop-Keeps (suc turns) ado len =
      search (keeps, esc_read_csr_u16-Keeps, esc_read_loop-Keeps turns)

  esc_write_loop-Keeps :
      (turns ado : ℕ) (buf : List ℕ) → Keeps Idle (esc_write_loop spi turns ado buf)
  unfolding esc_write_loop
  esc_write_loop-Keeps zero ado buf = search keeps
  esc_write_loop-Keeps (suc turns) ado buf =
      search (keeps, esc_write_csr_u16-Keeps, esc_write_loop-Keeps turns)

  read_fifo-Leads : (turns len : ℕ) → Leads Idle Busy Busy (read_fifo spi turns len)
  unfolding read_fifo
  read_fifo-Leads zero len = done-Leads _
  read_fifo-Leads (suc turns) len = either-Leads (len == 0) (done-Leads _) (
      bind-Leads (or_release-Leads law (spi_read-Keeps law 4))
        (λ chunk. bind-Leads (read_fifo-Leads turns _) (λ more. done-Leads _)))

  write_fifo-Leads : (turns : ℕ) (buf : List ℕ) → Leads Idle Busy Busy (write_fifo spi turns buf)
  unfolding write_fifo
  write_fifo-Leads zero buf = done-Leads _
  write_fifo-Leads (suc turns) buf =
      either-Leads (length buf == 0) (done-Leads _)
        (then-Leads (or_release-Leads law (spi_write-Keeps law _)) (write_fifo-Leads turns _))

  read_rest-Keeps : (len : ℕ) → Keeps Idle (read_rest spi len)
  unfolding read_rest
  read_rest-Keeps len = Leads-Keeps (
      either-Leads (len == 0) (done-Leads _) (
        then-Leads (spi_select-Leads law) (
          then-Leads (or_release-Leads law (spi_write-Keeps law _)) (
            bind-Leads (read_fifo-Leads len len)
              (λ bytes. then-Leads (spi_deselect-Leads law) (done-Leads _))))))

  write_rest-Keeps : (buf : List ℕ) → Keeps Idle (write_rest spi buf)
  unfolding write_rest
  write_rest-Keeps buf = Leads-Keeps (
      either-Leads (length buf == 0) (done-Leads _) (
        then-Leads (spi_select-Leads law) (
          then-Leads (or_release-Leads law (spi_write-Keeps law _))
            (then-Leads (write_fifo-Leads (length buf) buf) (spi_deselect-Leads law)))))

  pdram_read-Keeps : (address len : ℕ) → Keeps Idle (pdram_read spi address len)
  unfolding pdram_read pram_wait_rd_not_busy pram_rd_wait_avail
  pdram_read-Keeps address len =
      search (keeps, reg32_read-Keeps, reg32_write-Keeps, wait_until-Keeps, read_rest-Keeps) depth
        20

  pdram_write-Keeps : (address : ℕ) (buf : List ℕ) → Keeps Idle (pdram_write spi address buf)
  unfolding pdram_write pram_wait_wr_not_busy pram_wr_wait_avail
  pdram_write-Keeps address buf =
      search (keeps, reg32_read-Keeps, reg32_write-Keeps, wait_until-Keeps, write_rest-Keeps) depth
        20

  esc_read-Keeps : (ado len : ℕ) → Keeps Idle (esc_read spi ado len)
  unfolding esc_read
  esc_read-Keeps ado len = search (keeps, pdram_read-Keeps, esc_read_loop-Keeps)

  esc_write-Keeps : (ado : ℕ) (buf : List ℕ) → Keeps Idle (esc_write spi ado buf)
  unfolding esc_write
  esc_write-Keeps ado buf = search (keeps, pdram_write-Keeps, esc_write_loop-Keeps)

-- A call of the driver by its user.
pub data Call : Type 0 where
  inits : Call
  resets : Call
  reads_register : ℕ → Call
  writes_register : ℕ → ℕ → Call
  reads_core : ℕ → ℕ → Call
  writes_core : ℕ → List ℕ → Call
  reads_ram : ℕ → ℕ → Call
  writes_ram : ℕ → List ℕ → Call

abbrev pub call : {W : Type 0} → Spi W → Call → W → W
call spi inits w = (lan9252_init w).0
call spi resets w = (soft_reset spi w).0
call spi (reads_register addr) w = (read_csr_u32 spi addr w).0
call spi (writes_register addr val) w = (write_csr_u32 spi addr val w).0
call spi (reads_core ado len) w = (esc_read spi ado len w).0
call spi (writes_core ado buf) w = (esc_write spi ado buf w).0
call spi (reads_ram address len) w = (pdram_read spi address len w).0
call spi (writes_ram address buf) w = (pdram_write spi address buf w).0

abbrev pub calls : {W : Type 0} → Spi W → List Call → W → W
calls spi [] w = w
calls spi (c ∷ cs) w = calls spi cs (call spi c w)

module _ {S : Type 0} {spi : Spi S} {Idle Busy : S → Type 0} (law : IsSelector spi Idle Busy) where
  call_idle : (c : Call) (s : S) → Idle s → Idle (call spi c s)
  call_idle inits s h = (lan9252_init-Keeps law).at s h
  call_idle resets s h = (soft_reset-Keeps law).at s h
  call_idle (reads_register addr) s h = (read_csr_u32-Keeps law addr).at s h
  call_idle (writes_register addr val) s h = (write_csr_u32-Keeps law addr val).at s h
  call_idle (reads_core ado len) s h = (esc_read-Keeps law ado len).at s h
  call_idle (writes_core ado buf) s h = (esc_write-Keeps law ado buf).at s h
  call_idle (reads_ram address len) s h = (pdram_read-Keeps law address len).at s h
  call_idle (writes_ram address buf) s h = (pdram_write-Keeps law address buf).at s h

  -- Any sequence of calls.
  pub calls_idle : (cs : List Call) (s : S) → Idle s → Idle (calls spi cs s)
  calls_idle [] s h = h
  calls_idle (c ∷ cs) s h = calls_idle cs (call spi c s) (call_idle c s h)
