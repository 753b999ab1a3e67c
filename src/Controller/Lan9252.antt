-- ===== src/Controller/Lan9252.antt =====
-- src/slave/ul_ecat_slave_controller_lan9252.c: the backend that keeps the register memory of the
-- slave as a copy of registers of a LAN9252, and moves process data. `ctrl->pdram`, which only
-- this backend uses, stands beside the rest of the controller. `ctrl->slave` is not null.
pub mod Mirror
use ul_ecat.Common.{
  ℕ, List, Option, none, some, Bool, true, false, ltb, ◌==◌, if◌then◌else◌, Memory, r32_le,
}
use ul_ecat.Slave.Esc
use ul_ecat.Slave.Esc.{Slave, reg_stadr, reg_alstat, reg_alevent, esc_write, esc_read_u16_le}
use ul_ecat.Controller.{Controller, with_slave}
use ul_ecat.Lan9252.{Spi, eio, Result, ok, err, Action, ◌>>=◌, ◌>>◌, done}
use ul_ecat.Lan9252.ProcessRam.{pdram_read, pdram_write}
use ul_ecat.Lan9252.Access.{esc_read}

-- ul_ecat_slave_controller_pdram_cfg_t; the contents of a buffer, or null.
pub record Pdram : Type 0 where
  pub in_offset : ℕ
  pub in_len : ℕ
  pub in_buf : Option (List ℕ)
  pub out_offset : ℕ
  pub out_len : ℕ
  pub out_buf : Option (List ℕ)

-- The controller, its process data and the bus.
pub record Device (U W : Type 0) : Type 0 where
  pub ctrl : Controller U
  pub pdram : Pdram
  pub bus : W

unfoldable pub set_pdram : {U W : Type 0} → Device U W → Option Pdram → Device U W
set_pdram d none = record d {
  pdram = record {
    in_offset = 0;
    in_len = 0;
    in_buf = none;
    out_offset = 0;
    out_len = 0;
    out_buf = none;
  };
}
set_pdram d (some cfg) = record d { pdram = cfg }

-- The event register as the application sees it; 0 where it cannot be read.
event_value : Option (List ℕ) → ℕ
event_value none = 0
event_value (some tmp) = r32_le tmp

-- `if (call != NULL && now != last) call(now, user_ctx);`
call_changed : {U : Type 0} → Option (ℕ → U → U) → ℕ → ℕ → U → U
call_changed none now last user = user
call_changed (some call) now last user = if now == last then user else call now user

module _ {U W : Type 0} where
  -- A call of the driver.
  unfoldable pub on_bus : {A : Type 0} → Action W A → Action (Device U W) A
  on_bus m d = (record d { bus = (m d.bus).0 }, (m d.bus).1)

  stored : Device U W → Option Memory → Device U W × Result Unit
  stored d none = (d, err eio)
  stored d (some esc) =
      (record d { ctrl = with_slave d.ctrl (record d.ctrl.slave { esc = esc }) }, ok tt)

  -- `ul_ecat_esc_write` on the memory of the slave.
  unfoldable pub store_registers : ℕ → List ℕ → Action (Device U W) Unit
  unfolding stored
  store_registers ado bytes d = stored d (esc_write d.ctrl.slave.esc ado bytes)

  unfoldable pub set_input : List ℕ → Action (Device U W) Unit
  set_input bytes d = (record d { pdram = record d.pdram { in_buf = some bytes } }, ok tt)

  -- What follows the transfers: the callbacks, and the values they were last called for.
  unfoldable pub notify_application : Action (Device U W) Unit
  unfolding event_value call_changed
  notify_application d =
      let ctrl : Controller U = d.ctrl in
      let st : ℕ = esc_read_u16_le ctrl.slave.esc reg_alstat in
      let ev : ℕ = event_value (Esc.esc_read ctrl.slave.esc reg_alevent 4) in
      let told : U = call_changed ctrl.application.on_al_status st ctrl.last_al_status ctrl.user in
      (
        record d {
          ctrl = record ctrl {
            user = call_changed ctrl.application.on_esc_event ev ctrl.last_al_event told;
            last_al_status = st;
            last_al_event = ev;
          };
        },
        ok tt,
      )

  module _ (spi : Spi W) where
    -- The `count` bytes at a register, copied from the chip.
    unfoldable pub mirror : ℕ → ℕ → Action (Device U W) Unit
    mirror ado count = on_bus (esc_read spi ado count) >>= store_registers ado

    input_from : Pdram → Option (List ℕ) → Action (Device U W) Unit
    input_from pdram none = done tt
    input_from pdram (some buf) = on_bus (pdram_read spi pdram.in_offset pdram.in_len) >>= set_input

    output_of : Pdram → Option (List ℕ) → Action (Device U W) Unit
    output_of pdram none = done tt
    output_of pdram (some buf) = on_bus (pdram_write spi pdram.out_offset buf)

    -- `in_buf` and `out_buf` have `in_len` and `out_len` bytes.
    unfoldable pub move_input : Action (Device U W) Unit
    unfolding input_from
    move_input d = if ltb 0 d.pdram.in_len then input_from d.pdram d.pdram.in_buf d else done tt d

    unfoldable pub move_output : Action (Device U W) Unit
    unfolding output_of
    move_output d = if ltb 0 d.pdram.out_len then output_of d.pdram d.pdram.out_buf d else done tt d

    unfoldable pub poll_lan9252 : Action (Device U W) Unit
    poll_lan9252 = do
      mirror reg_stadr 2
      mirror reg_alstat 2
      mirror reg_alevent 4
      move_input
      move_output
      notify_application
