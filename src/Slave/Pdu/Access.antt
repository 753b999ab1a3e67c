-- ===== src/Slave/Pdu/Access.antt =====
-- What the datagrams that are taken do: register access by station address, and the assignment of
-- the address that a scan makes first.
use ul_ecat.Common.{
  ℕ, ◌+◌, ◌≤◌, ◌<◌, ◌≡◌, ◌≢◌, refl, List, arith, length, Memory, load, store, replicate,
  length-replicate,
}
use ul_ecat.Wire.Datagram.{Dgram}
use ul_ecat.Slave.Esc.{esc_size, Slave, esc_read, esc_write}
use ul_ecat.Slave.Mailbox.{mailbox_on_sm0_write, mailbox_on_sm1_read}
use ul_ecat.Slave.Pdu.{run_al, process_fprd, process_fpwr, process_one}
use ul_ecat.Slave.Pdu.Refine.{respond}
use ul_ecat.Slave.Pdu.Addressing.{station}

-- FPRD, FPWR and APWR as the master sends them.
abbrev pub fprd : ℕ → ℕ → ℕ → Dgram
fprd adp ado len = record {
  cmd = 4;
  index = 0;
  adp = adp;
  ado = ado;
  irq = 0;
  wkc = 0;
  bytes = replicate len 0;
}

abbrev pub fpwr : ℕ → ℕ → List ℕ → Dgram
fpwr adp ado src = record {
  cmd = 5;
  index = 0;
  adp = adp;
  ado = ado;
  irq = 0;
  wkc = 0;
  bytes = src;
}

abbrev pub apwr : ℕ → ℕ → List ℕ → Dgram
apwr adp ado src = record {
  cmd = 2;
  index = 0;
  adp = adp;
  ado = ado;
  irq = 0;
  wkc = 0;
  bytes = src;
}

-- A range of at least one byte inside the register memory.
abbrev pub InRange : ℕ → ℕ → Type 0
InRange ado len = (0 < len) × (ado + len ≤ esc_size)

-- FPRD to the slave's own station address answers with working counter 1 and the registers' bytes
-- where the range is one of the register memory, and else with working counter 0.
pub respond-fprd :
    (s : Slave) (d : Dgram)
    → d.cmd ≡ 4
    → d.adp ≡ station s
    → station s ≢ 0
    → InRange d.ado (length d.bytes)
    → respond s d ≡ (
      record s { esc = mailbox_on_sm1_read s.esc d.ado (length d.bytes) },
      record d { wkc = 1; bytes = load s.esc d.ado (length d.bytes) },
    )
unfolding respond process_one process_fprd esc_read
respond-fprd s d c a n r = ground arith

pub respond-fprd_out_of_range :
    (s : Slave) (d : Dgram)
    → d.cmd ≡ 4
    → ¬ InRange d.ado (length d.bytes)
    → respond s d ≡ (s, record d { wkc = 0 })
unfolding respond process_one process_fprd esc_read
respond-fprd_out_of_range s d c r = ground arith

pub respond-fpwr :
    (s : Slave) (d : Dgram)
    → d.cmd ≡ 5
    → d.adp ≡ station s
    → station s ≢ 0
    → InRange d.ado (length d.bytes)
    → let n = length d.bytes in
      respond s d ≡ (
        record s {
          esc = (mailbox_on_sm0_write (run_al (store s.esc d.ado d.bytes) d.ado n) d.ado n).0;
        },
        record d { wkc = 1 },
      )
unfolding respond process_one process_fpwr esc_write
respond-fpwr s d c a n r = ground arith

-- The same for the read request that carries zeros.
pub respond-fprd_zeros :
    (s : Slave) (adp ado len : ℕ)
    → adp ≡ station s
    → station s ≢ 0
    → InRange ado len
    → respond s (fprd adp ado len) ≡ (
      record s { esc = mailbox_on_sm1_read s.esc ado len },
      record (fprd adp ado len) { wkc = 1; bytes = load s.esc ado len },
    )
respond-fprd_zeros s adp ado len a n r =
    rw (length-replicate {A = ℕ} len 0) at (
      respond-fprd s (fprd adp ado len) refl a n (omega (arith, r, length-replicate {A = ℕ} len 0)))

pub sm1_read_elsewhere :
    (esc : Memory) (ado len j : ℕ) → j ≢ 0x80d → mailbox_on_sm1_read esc ado len j ≡ esc j
unfolding mailbox_on_sm1_read
sm1_read_elsewhere esc ado len j h = ground arith

-- The memory that an FPWR above the SyncManager registers leaves.
module _ (s : Slave) (ado : ℕ) (src : List ℕ) (above : 0x820 ≤ ado) where
  written : Memory
  written =
      (mailbox_on_sm0_write (run_al (store s.esc ado src) ado (length src)) ado (length src)).0
