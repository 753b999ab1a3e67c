-- ===== src/Slave/Mailbox/Reply.antt =====
-- What a reply that the slave enqueues leaves in the register memory.
use ul_ecat.Common.{
  ℕ, bit_or, ◌↔◌, sym, get_or_beyond, get_or-append_zeros, store_at, ◌+◌, ◌-◌, ◌≤◌, ◌<◌, ◌≡◌, ◌≢◌,
  ◌⊎◌, ap, ◌∙◌, List, ◌++◌, none, some, true, arith, ltb, if◌then◌else◌, length, get_or, Memory,
  store, fill, load, replicate, length-append, length-replicate, or_08, load_of_bytes,
  store_outside, AreBytes, store-IsU8,
}
use native.Mathlib.Decide.{dec_lt}
use ul_ecat.Slave.Esc.{esc_size, HoldsBytes}
use ul_ecat.Slave.SyncManager.{SmConfig, sm_read, sm_is_usable}
use ul_ecat.Slave.Mailbox.{sm_set_status_bit, mailbox_write_sm1}
use ul_ecat.Slave.Mailbox.Handshake.{sm1_status, IsFull}

module _ (esc : Memory) (frame : List ℕ) where
  abbrev sm1 : SmConfig
  sm1 = sm_read esc 1

  -- The buffer after the copy and the padding.
  padded : Memory
  padded =
      if ltb (length frame) sm1.len
      then fill (store esc sm1.start_addr frame) (sm1.start_addr + length frame) 0
          (sm1.len - length frame)
      else store esc sm1.start_addr frame

  -- A reply of at least one byte is enqueued exactly when SM1 is active, in mailbox mode and not
  -- empty, the reply fits its buffer, and the buffer fits the register memory.
  pub mailbox_write_sm1_iff :
      (mailbox_write_sm1 esc frame ≢ none)
      ↔ (0 < length frame)
        × (sm_is_usable sm1 ≡ true)
        × (length frame ≤ sm1.len)
        × (sm1.start_addr + sm1.len ≤ esc_size)
  unfolding mailbox_write_sm1
  mailbox_write_sm1_iff = ground arith

  module _ (after : Memory) (accepted : mailbox_write_sm1 esc frame ≡ some after) where
    after_lem : after ≡ sm_set_status_bit padded 1 8
    unfolding mailbox_write_sm1 padded
    after_lem = ground arith

    fits : (length frame ≤ sm1.len) × (sm1.start_addr + sm1.len ≤ esc_size) × (0 < length frame)
    unfolding mailbox_write_sm1
    fits = ground arith

    padded_outside :
        (j : ℕ) → (j < sm1.start_addr) ⊎ (sm1.start_addr + sm1.len ≤ j) → padded j ≡ esc j
    unfolding padded fill
    padded_outside j h =
        ground (arith, fits, store_outside esc sm1.start_addr frame j (omega (arith, fits)))

    padded-IsU8 : HoldsBytes esc → AreBytes frame → HoldsBytes padded
    unfolding padded fill
    padded-IsU8 b f j = ground (arith, store-IsU8 esc sm1.start_addr frame j (b j) f)

    -- The byte at each place of the buffer: the frame, then zeros.
    padded_inside : (i : ℕ) → i < sm1.len → padded (sm1.start_addr + i) ≡ get_or frame i 0
    unfolding padded fill
    padded_inside i h = elim (dec_lt i (length frame)) [
      | yes p ↦ ground (arith, fits, store_at esc sm1.start_addr frame i p)
      | no p ↦ ground (arith, fits, get_or_beyond frame i (omega arith))
    ]

    -- The reply sets the full bit of SM1, and changes no byte but those of the SM1 buffer and the
    -- status of SM1; all of them lie in the register memory.
    pub mailbox_write_sm1-IsFull :
        HoldsBytes esc
        → AreBytes frame
        → IsFull (after sm1_status)
          × ((j : ℕ)
              → j ≢ sm1_status
              → (j < sm1.start_addr) ⊎ (sm1.start_addr + sm1.len ≤ j)
              → after j ≡ esc j)
          × (sm1.start_addr + sm1.len ≤ esc_size)
    unfolding sm_set_status_bit
    mailbox_write_sm1-IsFull b f = (
      rw after_lem (ground (arith, or_08 (padded sm1_status) (padded-IsU8 b f sm1_status))),
      λ j n o. rw after_lem (ground (arith, padded_outside j o)),
      fits.1,
    )

    pub mailbox_write_sm1-HoldsBytes : HoldsBytes esc → AreBytes frame → HoldsBytes after
    unfolding sm_set_status_bit
    mailbox_write_sm1-HoldsBytes b f j =
        rw after_lem (
          ground (arith, padded-IsU8 b f j, or_08 (padded sm1_status) (padded-IsU8 b f sm1_status)))

    -- Where the SM1 buffer does not hold the status byte of SM1, the buffer holds the reply, and
    -- zeros behind it.
    pub mailbox_write_sm1_buffer :
        (sm1_status < sm1.start_addr) ⊎ (sm1.start_addr + sm1.len ≤ sm1_status)
        → load after sm1.start_addr sm1.len ≡ frame ++ replicate (sm1.len - length frame) 0
    unfolding sm_set_status_bit
    mailbox_write_sm1_buffer away =
        ap (load after sm1.start_addr) (sym size)
        ∙ load_of_bytes after sm1.start_addr contents
            λ i p. rw (after_lem, get_or-append_zeros) (ground (arith, size, padded_inside i))
      where
        contents : List ℕ
        contents = frame ++ replicate (sm1.len - length frame) 0

        size : length contents ≡ sm1.len
        size = omega (
          arith,
          fits,
          length-append frame (replicate (sm1.len - length frame) 0),
          length-replicate {A = ℕ} (sm1.len - length frame) 0,
        )

    pub mailbox_write_sm1_elsewhere :
        (j : ℕ)
        → j ≢ sm1_status
        → (j < sm1.start_addr) ⊎ (sm1.start_addr + sm1.len ≤ j)
        → after j ≡ esc j
    unfolding sm_set_status_bit
    mailbox_write_sm1_elsewhere j n o = rw after_lem (ground (arith, padded_outside j o))

    pub mailbox_write_sm1_status :
        (sm1_status < sm1.start_addr) ⊎ (sm1.start_addr + sm1.len ≤ sm1_status)
        → after sm1_status ≡ bit_or (esc sm1_status) 8
    unfolding sm_set_status_bit
    mailbox_write_sm1_status away =
        rw after_lem (ap (λ (b : ℕ). bit_or b 8) (padded_outside sm1_status away))
