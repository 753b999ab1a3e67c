-- ===== src/Controller/Service.antt =====
-- The mailbox service: a request in the SM0 buffer is answered in the SM1 buffer.
use ul_ecat.Common.{
  ℕ, ◌+◌, ◌-◌, ◌≤◌, ◌<◌, ◌≡◌, ◌≢◌, ◌⊎◌, inl, inr, refl, ap, ◌∙◌, List, [], ◌∷◌, ◌++◌, Option-cases,
  sym, none, some, true, arith, bit_and, bit_or, length, replicate, Memory, load, load_ext,
}
use ul_ecat.Slave.Mailbox.Handshake.{sm0_status, sm1_status}
use ul_ecat.Slave.Mailbox.Reply.{
  mailbox_write_sm1_iff, mailbox_write_sm1_buffer, mailbox_write_sm1_status,
  mailbox_write_sm1_elsewhere,
}
use ul_ecat.Slave.Esc.{esc_size}
use ul_ecat.Slave.SyncManager.{sm_base, sm_ofs_status, sm_read, sm_is_usable}
use ul_ecat.Slave.Mailbox.{sm_clear_status_bit, mailbox_write_sm1}
use ul_ecat.Od.{Table}
use ul_ecat.Coe.Process.{coe_process}
use ul_ecat.Controller.{
  Controller, default_coe_mailbox_handler, handled, replied, dispatch_mailbox_if_ready,
}

-- Nothing happens while the SM0 mailbox is empty.
pub dispatch_mailbox_idle :
    {U : Type 0} (table : Table) (ctrl : Controller U)
    → bit_and (ctrl.slave.esc (sm_base 0 + sm_ofs_status)) 0x08 ≡ 0
    → dispatch_mailbox_if_ready table ctrl ≡ ctrl
unfolding dispatch_mailbox_if_ready
dispatch_mailbox_idle table ctrl h = ground arith

-- A reply that goes into SM1: SM1 is active, in mailbox mode and not empty, and it holds the reply
-- inside the register memory.
abbrev pub Accepts : Memory → List ℕ → Type 0
Accepts esc reply =
    (0 < length reply)
    × (sm_is_usable (sm_read esc 1) ≡ true)
    × (length reply ≤ (sm_read esc 1).len)
    × ((sm_read esc 1).start_addr + (sm_read esc 1).len ≤ esc_size)

-- Outside a range.
abbrev pub Away : ℕ → ℕ → ℕ → Type 0
Away start len j = (j < start) ⊎ (start + len ≤ j)

-- The memory where a reply was accepted, and where it was dropped. In both SM0 is empty again.
pub record IsReplied (esc : Memory) (reply : List ℕ) (esc' : Memory) : Type 0 where
  pub accepted : Accepts esc reply
  pub buffer :
      load esc' (sm_read esc 1).start_addr (sm_read esc 1).len
      ≡ reply ++ replicate ((sm_read esc 1).len - length reply) 0
  pub emptied : esc' sm0_status ≡ bit_and (esc sm0_status) 0xf7
  pub filled : esc' sm1_status ≡ bit_or (esc sm1_status) 8
  pub elsewhere :
      (j : ℕ)
      → j ≢ sm0_status
      → j ≢ sm1_status
      → Away (sm_read esc 1).start_addr (sm_read esc 1).len j
      → esc' j ≡ esc j

pub record IsDropped (esc : Memory) (reply : List ℕ) (esc' : Memory) : Type 0 where
  pub refused : ¬ Accepts esc reply
  pub emptied : esc' sm0_status ≡ bit_and (esc sm0_status) 0xf7
  pub elsewhere : (j : ℕ) → j ≢ sm0_status → esc' j ≡ esc j

written_or_not :
    (esc : Memory) (reply : List ℕ)
    → ((after : Memory) × (mailbox_write_sm1 esc reply ≡ some after) × (replied esc reply ≡ after))
      ⊎ ((¬ Accepts esc reply) × (replied esc reply ≡ esc))
unfolding replied
written_or_not esc [] = inr (λ h. omega (arith, h.0), refl)
written_or_not esc (b ∷ bs) = elim (Option-cases (mailbox_write_sm1 esc (b ∷ bs))) [
  | inl e ↦ inr (λ h. (mailbox_write_sm1_iff esc (b ∷ bs)).1 h e, rw (replied, e) refl)
  | inr (after, e) ↦ inl (after, e, rw (replied, e) refl)
]

-- The memory after the reply, and SM0 emptied.
module _ (esc : Memory) (reply : List ℕ) (above : 0x810 ≤ (sm_read esc 1).start_addr) where
  cleared_elsewhere : (m : Memory) (j : ℕ) → j ≢ sm0_status → sm_clear_status_bit m 0 8 j ≡ m j
  unfolding sm_clear_status_bit
  cleared_elsewhere m j n = ground arith

  cleared : (m : Memory) → sm_clear_status_bit m 0 8 sm0_status ≡ bit_and (m sm0_status) 0xf7
  unfolding sm_clear_status_bit
  cleared m = refl

  IsReplied-after :
      (after : Memory)
      → mailbox_write_sm1 esc reply ≡ some after
      → IsReplied esc reply (sm_clear_status_bit after 0 8)
  IsReplied-after after e = record {
    accepted = (mailbox_write_sm1_iff esc reply).0 (λ n. cc (sym e ∙ n));
    buffer =
        load_ext _ after _ _ (λ j p q. cleared_elsewhere after j (omega arith))
        ∙ mailbox_write_sm1_buffer esc reply after e (omega arith);
    emptied =
        cleared after
        ∙ ap (λ (b : ℕ). bit_and b 0xf7)
            (mailbox_write_sm1_elsewhere esc reply after e sm0_status (omega arith) (omega arith));
    filled =
        cleared_elsewhere after sm1_status (omega arith)
        ∙ mailbox_write_sm1_status esc reply after e (omega arith);
    elsewhere = λ j n m o.
        cleared_elsewhere after j n ∙ mailbox_write_sm1_elsewhere esc reply after e j m o;
  }

  answered :
      IsReplied esc reply (sm_clear_status_bit (replied esc reply) 0 8)
      ⊎ IsDropped esc reply (sm_clear_status_bit (replied esc reply) 0 8)
  answered = elim (written_or_not esc reply) [
    | inl (after, e, h) ↦ inl (rw h (IsReplied-after after e))
    | inr (n, h) ↦
        inr
          (rw h (record { refused = n; emptied = cleared esc; elsewhere = cleared_elsewhere esc }))
  ]

dispatch_mailbox_default :
    {U : Type 0} (table : Table) (ctrl : Controller U)
    → ctrl.on_mailbox_rx ≡ none
    → sm_is_usable (sm_read ctrl.slave.esc 0) ≡ true
    → bit_and (ctrl.slave.esc sm0_status) 0x08 ≢ 0
    → (sm_read ctrl.slave.esc 0).start_addr + (sm_read ctrl.slave.esc 0).len ≤ esc_size
    → let esc = ctrl.slave.esc in
      let (server, reply) =
        coe_process table ctrl.server
          (load esc (sm_read esc 0).start_addr (sm_read esc 0).len)
          256 in
      dispatch_mailbox_if_ready table ctrl ≡ record ctrl {
        slave = record ctrl.slave { esc = sm_clear_status_bit (replied esc reply) 0 8 };
        server = server;
      }
unfolding dispatch_mailbox_if_ready handled default_coe_mailbox_handler sm_is_usable
dispatch_mailbox_default table ctrl default usable full inside = ground arith

-- With the default handler, a request in the SM0 buffer, and a SM1 buffer above the SyncManager
-- registers: the SDO server gets the bytes of the SM0 buffer and moves on by this one request, SM0 is
-- empty again, and its reply stands in the SM1 buffer, zeros behind it, with the mailbox-full bit of
-- SM1 set, or, exactly where SM1 does not accept it, is dropped. No other byte of the memory and
-- nothing else of the controller changes.
pub dispatch_mailbox_answered :
    {U : Type 0} (table : Table) (ctrl : Controller U)
    → ctrl.on_mailbox_rx ≡ none
    → sm_is_usable (sm_read ctrl.slave.esc 0) ≡ true
    → bit_and (ctrl.slave.esc sm0_status) 0x08 ≢ 0
    → (sm_read ctrl.slave.esc 0).start_addr + (sm_read ctrl.slave.esc 0).len ≤ esc_size
    → 0x810 ≤ (sm_read ctrl.slave.esc 1).start_addr
    → let esc = ctrl.slave.esc in
      let after = dispatch_mailbox_if_ready table ctrl in
      let (server, reply) =
        coe_process table ctrl.server
          (load esc (sm_read esc 0).start_addr (sm_read esc 0).len)
          256 in
      (after ≡ record ctrl { slave = record ctrl.slave { esc = after.slave.esc }; server = server })
      × (IsReplied esc reply after.slave.esc ⊎ IsDropped esc reply after.slave.esc)
dispatch_mailbox_answered table ctrl default usable full inside above =
    rw (dispatch_mailbox_default table ctrl default usable full inside)
      (refl, answered ctrl.slave.esc _ above)
