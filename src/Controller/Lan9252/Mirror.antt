-- ===== src/Controller/Lan9252/Mirror.antt =====
-- A poll of the LAN9252 is a poll of the software backend on the registers of the chip.
use ul_ecat.Common.{
  ℕ, r32_le, Option, none, some, ◌+◌, ◌≤◌, ◌≡◌, refl, ap, ◌∙◌, List, arith, length, Memory, load,
  store, length-load,
}
use ul_ecat.Slave.Esc
use ul_ecat.Slave.Esc.{esc_read_u16_le, reg_stadr, reg_alstat, reg_alevent, esc_write}
use ul_ecat.Controller.{Controller, event_of, with_slave, notify, poll_software}
use ul_ecat.Controller.Lan9252.{
  event_value, call_changed, Device, on_bus, stored, store_registers, notify_application, mirror,
  move_input, move_output, poll_lan9252,
}
use ul_ecat.Lan9252.{Spi, Result, ok, Action, done}
use ul_ecat.Lan9252.Access.{esc_read}
use ul_ecat.Lan9252.Chip.{Registers, Runs, bind-Runs, then-Runs}
use ul_ecat.Lan9252.Chip.Core.{CoreRegisters}
use ul_ecat.Lan9252.Chip.Reads.{esc_read-load}

-- The registers that a poll copies.
abbrev pub copied : Memory → Memory → Memory
copied esc chip =
    store (store (store esc reg_stadr (load chip reg_stadr 2)) reg_alstat (load chip reg_alstat 2))
      reg_alevent (load chip reg_alevent 4)

event_value-event_of : (o : Option (List ℕ)) → event_value o ≡ event_of o
unfolding event_value event_of
event_value-event_of none = refl
event_value-event_of (some tmp) = refl

call_changed-notify :
    {U : Type 0} (call : Option (ℕ → U → U)) (now last : ℕ) (user : U)
    → call_changed call now last user ≡ notify call now last user
unfolding call_changed notify
call_changed-notify none now last user = refl
call_changed-notify (some call) now last user = refl

copied_status :
    (esc chip : Memory)
    → esc_read_u16_le (copied esc chip) reg_alstat ≡ esc_read_u16_le chip reg_alstat
unfolding esc_read_u16_le store load
copied_status esc chip = refl

copied_event :
    (esc chip : Memory)
    → Esc.esc_read (copied esc chip) reg_alevent 4 ≡ some (load chip reg_alevent 4)
unfolding Esc.esc_read store load
copied_event esc chip = refl

-- What a poll notes on a slave with these registers.
poll_software_noted :
    {U : Type 0} (ctrl : Controller U) (chip : Memory)
    → let after =
        poll_software (with_slave ctrl (record ctrl.slave { esc = copied ctrl.slave.esc chip })) in
      (after.last_al_status ≡ esc_read_u16_le chip reg_alstat)
      × (after.last_al_event ≡ r32_le (load chip reg_alevent 4))
unfolding poll_software with_slave event_of
poll_software_noted ctrl chip =
    (copied_status ctrl.slave.esc chip, ap event_of (copied_event ctrl.slave.esc chip))

module _ {U W : Type 0} where
  with_esc : Device U W → Memory → W → Device U W
  with_esc d esc bus = record d {
    ctrl = with_slave d.ctrl (record d.ctrl.slave { esc = esc });
    bus = bus;
  }

  on_bus-Runs :
      {A : Type 0} (m : Action W A) {d : Device U W} {w : W} {a : A}
      → m d.bus ≡ (w, ok a)
      → Runs (on_bus m) d (record d { bus = w }) a
  unfolding on_bus
  on_bus-Runs m {d} h = record { result = ap (λ r. (record d { bus = r.0 }, r.1)) h }

  store_registers-Runs :
      (d : Device U W) (ado : ℕ) (bytes : List ℕ)
      → 1 ≤ length bytes
      → ado + length bytes ≤ 4096
      → Runs (store_registers ado bytes) d (with_esc d (store d.ctrl.slave.esc ado bytes) d.bus) tt
  unfolding store_registers stored esc_write with_esc
  store_registers-Runs d ado bytes l h = record { result = ground arith }

  module _ (spi : Spi W) (chip : Registers spi) (core : CoreRegisters chip) where
    mirror-Runs :
        (d : Device U W) (mem : Memory) (ado count : ℕ)
        → chip.IsIdle d.bus
        → core.memory d.bus ≡ mem
        → 1 ≤ count
        → ado + count ≤ 4096
        → (w : W) × (Runs
            (mirror spi ado count)
            d
            (with_esc d (store d.ctrl.slave.esc ado (load mem ado count)) w)
            tt)
          × (chip.IsIdle w)
          × (core.memory w ≡ mem)
    unfolding mirror with_esc
    mirror-Runs d mem ado count i e l h =
        let (w, r, i', m) = esc_read-load spi chip core d.bus ado count i l h in
        let size = length-load mem ado count in
        (
          w,
          bind-Runs _
              (on_bus-Runs (esc_read spi ado count) (r ∙ ap (λ k. (w, ok (load k ado count))) e))
              (store_registers-Runs (record d { bus = w }) ado _ (omega (arith, size))
                (omega (arith, size))),
          i',
          m ∙ e,
        )

    no_input-Runs : (d : Device U W) → d.pdram.in_len ≡ 0 → Runs (move_input spi) d d tt
    unfolding move_input done
    no_input-Runs d h = record { result = ground (arith, h) }

    no_output-Runs : (d : Device U W) → d.pdram.out_len ≡ 0 → Runs (move_output spi) d d tt
    unfolding move_output done
    no_output-Runs d h = record { result = ground (arith, h) }

    notify-Runs :
        (d : Device U W) → Runs notify_application d (record d { ctrl = poll_software d.ctrl }) tt
    unfolding notify_application poll_software notify
    notify-Runs d =
        let ev = Esc.esc_read d.ctrl.slave.esc reg_alevent 4 in
        record {
          result =
              rw
                (
                  event_value-event_of ev,
                  call_changed-notify d.ctrl.application.on_al_status
                      (esc_read_u16_le d.ctrl.slave.esc reg_alstat) d.ctrl.last_al_status
                      d.ctrl.user,
                )
                (rw
                  (call_changed-notify d.ctrl.application.on_esc_event (event_of ev)
                    d.ctrl.last_al_event _)
                  refl);
        }

    -- On a chip that answers, and with no process data configured, the poll succeeds: it leaves
    -- the controller as a poll of the software backend does on a slave whose station address, AL
    -- status and AL event registers hold what those of the chip hold, callbacks included. The AL status and
    -- the AL event that the controller notes for the next poll are those of the chip.
    pub poll_lan9252-poll_software :
        (d : Device U W)
        → chip.IsIdle d.bus
        → d.pdram.in_len ≡ 0
        → d.pdram.out_len ≡ 0
        → (w : W) × (poll_lan9252 spi d ≡ (
          record d {
            ctrl = poll_software (
                with_slave d.ctrl
                  (record d.ctrl.slave { esc = copied d.ctrl.slave.esc (core.memory d.bus) }));
            bus = w;
          },
          ok tt,
        ))
          × (chip.IsIdle w)
          × ((poll_lan9252 spi d).0.ctrl.last_al_status
              ≡ esc_read_u16_le (core.memory d.bus) reg_alstat)
          × ((poll_lan9252 spi d).0.ctrl.last_al_event
              ≡ r32_le (load (core.memory d.bus) reg_alevent 4))
    unfolding poll_lan9252 with_esc with_slave
    poll_lan9252-poll_software d i n o =
        let mem : Memory = core.memory d.bus in
        let (w, r, i', m) = mirror-Runs d mem reg_stadr 2 i refl (omega arith) (omega arith) in
        let d1 : Device U W =
          with_esc d (store d.ctrl.slave.esc reg_stadr (load mem reg_stadr 2)) w in
        let (v, q, j, k) = mirror-Runs d1 mem reg_alstat 2 i' m (omega arith) (omega arith) in
        let d2 : Device U W =
          with_esc d1 (store d1.ctrl.slave.esc reg_alstat (load mem reg_alstat 2)) v in
        let (u, p, l, g) = mirror-Runs d2 mem reg_alevent 4 j k (omega arith) (omega arith) in
        let d3 : Device U W =
          with_esc d2 (store d2.ctrl.slave.esc reg_alevent (load mem reg_alevent 4)) u in
        let noted = poll_software_noted d.ctrl mem in
        let polled =
          (then-Runs r (
            then-Runs q (
              then-Runs p (
                then-Runs (no_input-Runs d3 n)
                  (then-Runs (no_output-Runs d3 o) (notify-Runs d3)))))).result in
        (
          u,
          polled,
          l,
          ap (λ (x : Device U W × Result Unit). x.0.ctrl.last_al_status) polled ∙ noted.0,
          ap (λ (x : Device U W × Result Unit). x.0.ctrl.last_al_event) polled ∙ noted.1,
        )
