-- ===== src/Controller.antt =====
-- src/slave/ul_ecat_slave_controller.c: the software backend, which joins the frames of
-- `ul_ecat_slave_process_ethernet` to the mailbox and the SDO server. The application's callbacks
-- are parameters: an application has a state and two functions. A mailbox handler is one that the
-- application gives, as a function of the slave and of its state, or the default one. No pointer
-- is null but the callbacks.
pub mod Service
pub mod Lan9252
use ul_ecat.Common.{
  ℕ, ◌+◌, List, [], ◌∷◌, Option, none, some, Bool, true, false, ◌&&◌, ◌||◌, ltb, ◌==◌, ◌>>=◌,
  if◌then◌else◌, bit_and, r32_le, length, Memory, load,
}
use ul_ecat.Wire.Ethernet.{Mac}
use ul_ecat.Slave.Esc.{
  Identity, Slave, esc_size, reg_alstat, reg_alevent, esc_read, esc_read_u16_le, slave_init,
}
use ul_ecat.Slave.SyncManager.{
  SmConfig, sm_base, sm_ofs_status, sm_read, sm_is_active, sm_is_mailbox,
}
use ul_ecat.Slave.Mailbox.{sm_stat_mbx_full, sm_clear_status_bit, mailbox_write_sm1}
use ul_ecat.Slave.Ethernet.{slave_process_ethernet}
use ul_ecat.Od.{Table, od_set_table}
use ul_ecat.Coe.{Server}
use ul_ecat.Coe.Process.{coe_process}

-- ul_ecat_slave_backend_t
pub data Backend : Type 0 where
  software_ethernet lan9252_spi : Backend

-- An application: what it does when the AL status or the event register has changed.
pub record Application (U : Type 0) : Type 0 where
  pub on_al_status : Option (ℕ → U → U)
  pub on_esc_event : Option (ℕ → U → U)

-- A mailbox handler takes the frame and may write to the slave's memory.
abbrev pub Handler : Type 0 → Type 0
Handler U = List ℕ → Memory × U → Memory × U

-- ul_ecat_slave_controller_t, with the slave it points to, the state of the application and that
-- of the SDO server. `on_mailbox_rx` is `none` for the default handler.
pub record Controller (U : Type 0) : Type 0 where
  pub slave : Slave
  pub backend : Backend
  pub last_al_status : ℕ
  pub last_al_event : ℕ
  pub application : Application U
  pub user : U
  pub on_mailbox_rx : Option (Handler U)
  pub server : Server

event_of : Option (List ℕ) → ℕ
event_of none = 0
event_of (some evb) = r32_le evb

-- A callback that is there is called when the value has changed.
unfoldable pub notify : {U : Type 0} → Option (ℕ → U → U) → ℕ → ℕ → U → U
notify none now before user = user
notify (some call) now before user = if now == before then user else call now user

unfoldable pub poll_software : {U : Type 0} → Controller U → Controller U
unfolding event_of
poll_software ctrl =
    let st : ℕ = esc_read_u16_le ctrl.slave.esc reg_alstat in
    let ev : ℕ = event_of (esc_read ctrl.slave.esc reg_alevent 4) in
    record ctrl {
      last_al_status = st;
      last_al_event = ev;
      user =
          notify ctrl.application.on_esc_event ev ctrl.last_al_event
            (notify ctrl.application.on_al_status st ctrl.last_al_status ctrl.user);
    }

-- The memory after a reply of `ul_ecat_slave_controller_mailbox_reply`: its result is not used.
unfoldable pub replied : Memory → List ℕ → Memory
replied esc [] = esc
replied esc (b ∷ bs) = elim (mailbox_write_sm1 esc (b ∷ bs)) [ none ↦ esc | some esc' ↦ esc' ]

-- The default handler: a reply buffer of 256 bytes.
unfoldable pub default_coe_mailbox_handler : Table → List ℕ → Memory → Server → Memory × Server
unfolding replied
default_coe_mailbox_handler table frame esc server =
    let answer : Server × List ℕ = coe_process table server frame 256 in
    (replied esc answer.1, answer.0)

-- The memory, the application's state and the server after the handler.
unfoldable pub handled :
    {U : Type 0} → Table → Option (Handler U) → List ℕ → Memory → U → Server → Memory × U × Server
handled table none frame esc user server =
    let after : Memory × Server = default_coe_mailbox_handler table frame esc server in
    (after.0, user, after.1)
handled table (some handler) frame esc user server =
    let after = handler frame (esc, user) in (after.0, after.1, server)

unfoldable pub dispatch_mailbox_if_ready : {U : Type 0} → Table → Controller U → Controller U
unfolding handled
dispatch_mailbox_if_ready table ctrl =
    let esc : Memory = ctrl.slave.esc in
    let sm0 : SmConfig = sm_read esc 0 in
    let status : ℕ = esc (sm_base 0 + sm_ofs_status) in
    let after =
      handled table ctrl.on_mailbox_rx (load esc sm0.start_addr sm0.len) esc ctrl.user
        ctrl.server in
    if sm_is_active sm0 && sm_is_mailbox sm0
    then if sm0.len == 0
      then ctrl
      else if bit_and status sm_stat_mbx_full == 0
      then ctrl
      else if ltb esc_size (sm0.start_addr + sm0.len)
      then ctrl
      else record ctrl {
        slave = record ctrl.slave { esc = sm_clear_status_bit after.0 0 sm_stat_mbx_full };
        user = after.1;
        server = after.2;
      }
    else ctrl

-- The results: 0, with the reply if one is sent, -1, -ENOTSUP, and what the poll of the LAN9252
-- returns.
pub data Outcome : Type 0 where
  done : Outcome
  replied_with : List ℕ → Outcome
  error : Outcome
  not_supported : Outcome

unfoldable pub with_slave : {U : Type 0} → Controller U → Slave → Controller U
with_slave ctrl s = record ctrl { slave = s }

after_frame : {U : Type 0} → Table → Controller U → Slave × Option (List ℕ) → Controller U × Outcome
after_frame table ctrl (s, none) = (with_slave ctrl s, error)
after_frame table ctrl (s, some tx) =
    (dispatch_mailbox_if_ready table (with_slave ctrl s), replied_with tx)

unfoldable pub controller_process_ethernet :
    {U : Type 0} → Table → Controller U → List ℕ → ℕ → Controller U × Outcome
unfolding after_frame
controller_process_ethernet table ctrl rx tx_cap = elim ctrl.backend [
  | software_ethernet ↦ after_frame table ctrl (slave_process_ethernet ctrl.slave rx tx_cap)
  | lan9252_spi ↦ (ctrl, not_supported)
]

-- `poll_lan9252` is `none` where the LAN9252 is not built in.
unfoldable pub controller_poll :
    {U : Type 0}
    → Option (Controller U → Controller U × Outcome)
    → Controller U
    → Controller U × Outcome
controller_poll poll_lan9252 ctrl = elim ctrl.backend [
  | software_ethernet ↦ (poll_software ctrl, done)
  | lan9252_spi ↦ elim poll_lan9252 [ none ↦ (ctrl, not_supported) | some poll ↦ poll ctrl ]
]

unfoldable pub set_callbacks : {U : Type 0} → Controller U → Application U → U → Controller U
set_callbacks ctrl application user = record ctrl { application = application; user = user }

unfoldable pub set_mailbox_handler : {U : Type 0} → Controller U → Option (Handler U) → Controller U
set_mailbox_handler ctrl cb = record ctrl { on_mailbox_rx = cb }

-- Without callbacks; the event register is in bounds, so its value is always taken over.
unfoldable pub controller_init :
    {U : Type 0} → Slave → Server → U → Backend → Mac → Identity → Controller U
unfolding event_of
controller_init s server user backend mac id =
    let fresh : Slave = slave_init s mac id in
    record {
      slave = fresh;
      backend = backend;
      last_al_status = esc_read_u16_le fresh.esc reg_alstat;
      last_al_event = event_of (esc_read fresh.esc reg_alevent 4);
      application = record { on_al_status = none; on_esc_event = none };
      user = user;
      on_mailbox_rx = none;
      server = server;
    }

-- The whole of `ul_ecat_slave_controller_init`: the controller, and the table that it installs, the
-- generated one.
unfoldable pub controller_setup :
    {U : Type 0} → Table → Slave → Server → U → Backend → Mac → Identity → Controller U × Table
controller_setup generated s server user backend mac id =
    (controller_init s server user backend mac id, od_set_table (some generated))

-- `ul_ecat_slave_controller_mailbox_reply`, `none` for an error.
unfoldable pub mailbox_reply : {U : Type 0} → Controller U → List ℕ → Option (Controller U)
mailbox_reply ctrl frame = do
  esc ← mailbox_write_sm1 ctrl.slave.esc frame
  some (record ctrl { slave = record ctrl.slave { esc = esc } })
