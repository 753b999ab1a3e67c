-- ===== src/Tests.antt =====
-- Runs of the definitions and theorems at concrete inputs, and the data they share.
pub mod Frames
pub mod Registers
pub mod Objects
pub mod Network
pub mod Cycle
pub mod Chip
pub mod Line
pub mod Lifecycle
pub mod Files
pub mod Commands
pub mod Session
pub mod System
use ul_ecat.Common.{ℕ, List, [], ◌∷◌, Memory, store}
use ul_ecat.Wire.Ethernet.{Mac}
use ul_ecat.Wire.Datagram.{Dgram}
use ul_ecat.Slave.Esc.{Identity, Slave}

abbrev pub master_mac : Mac
master_mac = record { b0 = 2; b1 = 0; b2 = 0; b3 = 0; b4 = 0; b5 = 1 }

abbrev pub slave_mac : Mac
slave_mac = record { b0 = 2; b1 = 0; b2 = 0; b3 = 0; b4 = 0; b5 = 2 }

abbrev pub servo : Identity
servo = record { vendor_id = 0x1234; product_code = 0x5678; revision = 1; serial = 7 }

-- Register memory that is zero but for the station address 0x1001.
abbrev pub registers : Memory
registers = store (λ _. 0) 0x10 (0x01 ∷ 0x10 ∷ [])

abbrev pub device : Slave
device = record { esc = registers; mac = slave_mac; logical_position = 0 }

-- A read of the station address, and a write for another slave.
abbrev pub read_station : Dgram
read_station = record {
  cmd = 4;
  index = 7;
  adp = 0x1001;
  ado = 0x10;
  irq = 0;
  wkc = 0;
  bytes = 0 ∷ 0 ∷ [];
}

abbrev pub write_other : Dgram
write_other = record {
  cmd = 5;
  index = 8;
  adp = 0x1002;
  ado = 0x1000;
  irq = 0;
  wkc = 0;
  bytes = 5 ∷ [];
}

-- SM0 and SM1 as mailboxes of 64 bytes at 0x0c00 and 0x0c80, and the words in AL Control and AL
-- Status.
abbrev pub mailboxes : Memory
mailboxes = store registers 0x800 (
    0x00 ∷ 0x0c ∷ 0x40 ∷ 0x00 ∷ 0x26 ∷ 0x00 ∷ 0x01 ∷ 0x00 ∷ 0x80 ∷ 0x0c ∷ 0x40 ∷ 0x00 ∷ 0x22 ∷ 0x00
    ∷ 0x01 ∷ 0x00 ∷ [])

abbrev pub al_words : ℕ → ℕ → Memory
al_words control status = store (store mailboxes 0x120 (control ∷ 0 ∷ [])) 0x130 (status ∷ 0 ∷ [])
