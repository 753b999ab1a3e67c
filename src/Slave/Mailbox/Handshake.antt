-- ===== src/Slave/Mailbox/Handshake.antt =====
-- The mailbox-full bits, and what a reply leaves in the SM1 buffer.
use ul_ecat.Common.{
  ℕ, ◌+◌, ◌/◌, ◌%◌, ◌≤◌, ◌<◌, ◌≡◌, ◌≢◌, ◌⊎◌, inl, inr, bit_or, bit_and, true, false, arith, Memory,
  or_08, and_f7,
}
use ul_ecat.Slave.Esc.{HoldsBytes}
use ul_ecat.Slave.SyncManager.{SmConfig, sm_read, sm_is_usable}
use ul_ecat.Slave.Mailbox.{mailbox_on_sm0_write, mailbox_on_sm1_read}

abbrev pub sm0_status : ℕ
sm0_status = 0x0805

abbrev pub sm1_status : ℕ
sm1_status = 0x080d

-- The mailbox-full bit of a status byte.
abbrev pub IsFull : ℕ → Type 0
IsFull status = status / 8 % 2 ≡ 1

abbrev pub IsEmpty : ℕ → Type 0
IsEmpty status = status / 8 % 2 ≡ 0

-- An access to `len` bytes at `ado` that lies at the end of a SyncManager's buffer: it ends where
-- the buffer ends and does not begin before it.
abbrev pub CoversEnd : SmConfig → ℕ → ℕ → Type 0
CoversEnd sm ado len =
    (sm_is_usable sm ≡ true)
    × (0 < len)
    × (ado + len ≡ sm.start_addr + sm.len)
    × (sm.start_addr ≤ ado)

-- A write that covers the end of the SM0 buffer reports a request and sets the full bit of SM0;
-- no other byte changes.
pub mailbox_on_sm0_write-IsFull :
    (esc : Memory) (ado len : ℕ)
    → HoldsBytes esc
    → CoversEnd (sm_read esc 0) ado len
    → let (esc', complete) = mailbox_on_sm0_write esc ado len in
      (complete ≡ true) × IsFull (esc' sm0_status) × ((j : ℕ) → j ≢ sm0_status → esc' j ≡ esc j)
unfolding mailbox_on_sm0_write
mailbox_on_sm0_write-IsFull esc ado len b c =
    (ground arith, ground (arith, or_08 (esc sm0_status) (b sm0_status)), λ j h. ground arith)

pub mailbox_on_sm0_write_ignored :
    (esc : Memory) (ado len : ℕ)
    → ¬ CoversEnd (sm_read esc 0) ado len
    → mailbox_on_sm0_write esc ado len ≡ (esc, false)
unfolding mailbox_on_sm0_write
mailbox_on_sm0_write_ignored esc ado len c = ground arith

-- A read that covers the end of the SM1 buffer clears the full bit of SM1; no other byte changes.
pub mailbox_on_sm1_read-IsEmpty :
    (esc : Memory) (ado len : ℕ)
    → HoldsBytes esc
    → CoversEnd (sm_read esc 1) ado len
    → IsEmpty (mailbox_on_sm1_read esc ado len sm1_status)
      × ((j : ℕ) → j ≢ sm1_status → mailbox_on_sm1_read esc ado len j ≡ esc j)
unfolding mailbox_on_sm1_read
mailbox_on_sm1_read-IsEmpty esc ado len b c =
    (ground (arith, and_f7 (esc sm1_status) (b sm1_status)), λ j h. ground arith)

pub mailbox_on_sm1_read_ignored :
    (esc : Memory) (ado len : ℕ)
    → ¬ CoversEnd (sm_read esc 1) ado len
    → mailbox_on_sm1_read esc ado len ≡ esc
unfolding mailbox_on_sm1_read
mailbox_on_sm1_read_ignored esc ado len c = ground arith

-- What an access leaves of a status byte: changed where it covers the end of the buffer, else kept.
abbrev pub StatusAfter : Type 0 → ℕ → ℕ → ℕ → Type 0
StatusAfter Covers changed before after =
    (Covers × (after ≡ changed)) ⊎ ((¬ Covers) × (after ≡ before))

covers_or_not : (sm : SmConfig) (ado len : ℕ) → CoversEnd sm ado len ⊎ (¬ CoversEnd sm ado len)
covers_or_not sm ado len = ground arith

pub mailbox_on_sm0_write-StatusAfter :
    (esc : Memory) (ado len : ℕ)
    → StatusAfter
        (CoversEnd (sm_read esc 0) ado len)
        (bit_or (esc sm0_status) 8)
        (esc sm0_status)
        ((mailbox_on_sm0_write esc ado len).0 sm0_status)
unfolding mailbox_on_sm0_write
mailbox_on_sm0_write-StatusAfter esc ado len = elim (covers_or_not (sm_read esc 0) ado len) [
  | inl c ↦ inl (c, ground arith)
  | inr n ↦ inr (n, ground arith)
]

pub mailbox_on_sm1_read-StatusAfter :
    (esc : Memory) (ado len : ℕ)
    → StatusAfter
        (CoversEnd (sm_read esc 1) ado len)
        (bit_and (esc sm1_status) 0xf7)
        (esc sm1_status)
        (mailbox_on_sm1_read esc ado len sm1_status)
unfolding mailbox_on_sm1_read
mailbox_on_sm1_read-StatusAfter esc ado len = elim (covers_or_not (sm_read esc 1) ado len) [
  | inl c ↦ inl (c, ground arith)
  | inr n ↦ inr (n, ground arith)
]
