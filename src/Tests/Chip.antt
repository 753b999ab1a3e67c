-- ===== src/Tests/Chip.antt =====
-- The driver of the LAN9252 on a simulated chip.
pub mod Simulated
use ul_ecat.Common.{
  ◌≤◌, ◌<◌, store, AreBytes, AreBytes-take, AreBytes-w32_le, AreBytes-get_or, ℕ, zero, suc, ◌+◌,
  ◌-◌, ◌*◌, ◌/◌, ◌%◌, ◌≡◌, ◌⊎◌, inl, inr, refl, sym, ap, ap₂, ◌∙◌, List, [], ◌∷◌, append-nil, none,
  some, true, false, arith, ◌==◌, if◌then◌else◌, IsU32, w32_le, r32_le, r32_le-w32_le, w32_le-bytes,
  length, take, Memory, load,
}
use ul_ecat.Controller.{lan9252_spi, poll_software, with_slave}
use ul_ecat.Controller.Lan9252.{Device, poll_lan9252}
use ul_ecat.Controller.Lan9252.Mirror.{copied, poll_lan9252-poll_software}
use ul_ecat.Slave.Esc.{esc_read_u16_le, reg_alstat, reg_alevent}
use ul_ecat.Tests.{slave_mac, registers}
use ul_ecat.Lan9252.{err, eio, Spi, ok}
use ul_ecat.Lan9252.Core.{csr_esc_csr_data, csr_esc_csr_cmd}
use ul_ecat.Lan9252.Chunks.{IsAccess}
use ul_ecat.Lan9252.Access.{esc_read, esc_write}
use ul_ecat.Lan9252.Chip.{Registers}
use ul_ecat.Lan9252.Chip.Stuck.{esc_read-eio}
use ul_ecat.Lan9252.Chip.Core.{CoreRegisters, WritableCore}
use ul_ecat.Lan9252.Chip.Writes.{esc_write-store}
use ul_ecat.Lan9252.Chip.Reads.{esc_read-load}
use ul_ecat.Lan9252.Selected.Monitor.{released, monitored, calls-released}
use ul_ecat.Lan9252.Selected.Operations.{inits, resets, reads_core, writes_ram, calls}
use ul_ecat.Tests.Chip.Simulated.{Sim, core, sim, sim_registers, sim_core, sim_writable}

abbrev fresh : Sim
fresh = record { asked = 0; busy = 0; count = 0; word = 0; cells = λ j. j }

esc_read-load_example :
    (w' : Sim) × (esc_read sim 0x11 9 fresh ≡ (w', ok (load (core fresh) 0x11 9)))
    × (sim_registers.IsIdle w')
    × (core w' ≡ core fresh)
unfolding sim_registers sim_core
esc_read-load_example =
    esc_read-load sim sim_registers sim_core fresh 0x11 9 tt (omega arith) (omega arith)

calls-released_example :
    (calls
      (monitored sim)
      (inits ∷ resets ∷ reads_core 0x11 9 ∷ writes_ram 0x10 (1 ∷ 2 ∷ []) ∷ [])
      (fresh, released)).1
    ≡ released
calls-released_example =
    calls-released sim (inits ∷ resets ∷ reads_core 0x11 9 ∷ writes_ram 0x10 (1 ∷ 2 ∷ []) ∷ [])
      fresh

abbrev chip_slave : Device ℕ Sim
chip_slave = record {
  ctrl = record {
    slave = record { esc = registers; mac = slave_mac; logical_position = 0 };
    backend = lan9252_spi;
    last_al_status = 0;
    last_al_event = 0;
    application = record { on_al_status = some (λ st user. user + st); on_esc_event = none };
    user = 0;
    on_mailbox_rx = none;
    server = record {
      objects = λ _. 0;
      transfer = record { active = false; entry = none; offset = 0; toggle_expected = 0 };
    };
  };
  pdram = record {
    in_offset = 0;
    in_len = 0;
    in_buf = none;
    out_offset = 0;
    out_len = 0;
    out_buf = none;
  };
  bus = fresh;
}

poll_lan9252-poll_software_example :
    (w : Sim) × (poll_lan9252 sim chip_slave ≡ (
      record chip_slave {
        ctrl = poll_software (
            with_slave chip_slave.ctrl (record chip_slave.ctrl.slave {
              esc = copied chip_slave.ctrl.slave.esc (core fresh);
            }));
        bus = w;
      },
      ok tt,
    ))
    × (sim_registers.IsIdle w)
    × ((poll_lan9252 sim chip_slave).0.ctrl.last_al_status
        ≡ esc_read_u16_le (core fresh) reg_alstat)
    × ((poll_lan9252 sim chip_slave).0.ctrl.last_al_event
        ≡ r32_le (load (core fresh) reg_alevent 4))
unfolding sim_registers sim_core
poll_lan9252-poll_software_example =
    poll_lan9252-poll_software sim sim_registers sim_core chip_slave tt refl refl

esc_write-store_example :
    (w' : Sim) × (esc_write sim 0x121 (1 ∷ 2 ∷ 3 ∷ []) fresh ≡ (w', ok tt))
    × (sim_registers.IsIdle w')
    × (core w' ≡ store (core fresh) 0x121 (1 ∷ 2 ∷ 3 ∷ []))
unfolding sim_registers sim_core
esc_write-store_example =
    esc_write-store sim sim_registers sim_core sim_writable fresh 0x121 (1 ∷ 2 ∷ 3 ∷ []) tt
      (omega arith) (omega arith) (omega arith)

-- A chip of which every register has only the busy bit set.
abbrev busy_spi : Spi Unit
busy_spi = record {
  select = λ s. (s, true);
  deselect = λ s. s;
  write = λ s bytes. (s, true);
  read = λ s count. (s, some (w32_le 2147483648));
}

abbrev busy_registers : Registers busy_spi
busy_registers = record {
  IsIdle = λ s. Unit;
  value = λ s addr. 2147483648;
  after_read = λ s addr. s;
  after_write = λ s addr val. s;
  value-IsU32 = λ s addr. omega arith;
  selects = λ s i. refl;
  read_asks = λ s addr i a. refl;
  read_answers = λ s addr i a. refl;
  read_ends = λ s addr i a. refl;
  write_takes = λ s addr val i a v. refl;
  write_ends = λ s addr val i a v. refl;
  after_read-IsIdle = λ s addr i. tt;
  after_write-IsIdle = λ s addr val i. tt;
}

esc_read-eio_example : (esc_read busy_spi 0x130 2 tt).1 ≡ err eio
esc_read-eio_example =
    esc_read-eio busy_spi busy_registers (λ s. omega arith) tt 0x130 2 tt (omega arith)
      (omega arith)
