-- ===== src/Tests/Registers.antt =====
-- The AL state machine, the register memory and the mailbox.
use ul_ecat.Common.{
  ◌+◌, ◌≡◌, ◌⊎◌, inl, refl, [], ◌∷◌, some, true, arith, Memory, store, fill, store-IsU8,
}
use ul_ecat.Slave.Esc.{HoldsBytes, reg_alctl, esc_read_u16_le}
use ul_ecat.Slave.SyncManager.{
  sm_read, sm_is_usable, sm_is_active, sm_is_mailbox, sm_validate_mailbox_pair,
}
use ul_ecat.Slave.AlMachine.{al_on_control_write, is_valid_transition}
use ul_ecat.Slave.AlMachine.Registers.{al_status, al_code, al_state}
use ul_ecat.Slave.AlMachine.Transitions.{
  Edge, is_valid_transition_iff, requested, refusal_code, al_granted, al_refused,
  al_on_control_write-Edge,
}
use ul_ecat.Slave.AlMachine.Requests.{requests, requests_bring_up}
use ul_ecat.Slave.Mailbox.{sm_set_status_bit, mailbox_write_sm1}
use ul_ecat.Tests.{registers, mailboxes, al_words}

registers-HoldsBytes : HoldsBytes registers
registers-HoldsBytes j = store-IsU8 (λ _. 0) 0x10 (0x01 ∷ 0x10 ∷ []) j (omega arith) (omega arith)

mailboxes-HoldsBytes : HoldsBytes mailboxes
mailboxes-HoldsBytes j = store-IsU8 registers 0x800 _ j (registers-HoldsBytes j) (omega arith)

mailboxes_usable :
    (sm_validate_mailbox_pair mailboxes ≡ true)
    × (sm_is_usable (sm_read mailboxes 0) ≡ true)
    × (sm_is_usable (sm_read mailboxes 1) ≡ true)
unfolding sm_validate_mailbox_pair sm_is_usable sm_is_active sm_is_mailbox sm_read store
mailboxes_usable = (refl, refl, refl)

sm0_place : ((sm_read mailboxes 0).start_addr ≡ 0xc00) × ((sm_read mailboxes 0).len ≡ 64)
unfolding sm_read store
sm0_place = (refl, refl)

sm1_place : ((sm_read mailboxes 1).start_addr ≡ 0xc80) × ((sm_read mailboxes 1).len ≡ 64)
unfolding sm_read store
sm1_place = (refl, refl)

-- The memory with a reply of two bytes, but for the status.
abbrev reply_memory : Memory
reply_memory = fill (store mailboxes 0xc80 (1 ∷ 2 ∷ [])) 0xc82 0 62

al_on_control_write-Edge_example :
    (al_state (al_on_control_write (al_words 4 2)) ≡ al_state (al_words 4 2))
    ⊎ Edge (al_state (al_words 4 2)) (al_state (al_on_control_write (al_words 4 2)))
al_on_control_write-Edge_example = al_on_control_write-Edge (al_words 4 2)

words_4_2 : (al_state (al_words 4 2) ≡ 2) × (esc_read_u16_le (al_words 4 2) reg_alctl ≡ 4)
unfolding esc_read_u16_le store
words_4_2 = (refl, refl)

Edge-4_2 : Edge (al_state (al_words 4 2)) (requested (al_words 4 2))
unfolding is_valid_transition esc_read_u16_le store
Edge-4_2 = (is_valid_transition_iff 2 4).0 refl

al_granted_example :
    (al_status (al_on_control_write (al_words 4 2)) ≡ requested (al_words 4 2))
    × (al_code (al_on_control_write (al_words 4 2)) ≡ 0)
al_granted_example =
    al_granted (al_words 4 2) (omega (arith, words_4_2)) (omega (arith, words_4_2))
      (Edge-4_2, λ from_init. absurd (omega (arith, words_4_2, from_init)))

words_8_2 : (al_state (al_words 8 2) ≡ 2) × (esc_read_u16_le (al_words 8 2) reg_alctl ≡ 8)
unfolding esc_read_u16_le store
words_8_2 = (refl, refl)

no-Edge_8_2 : ¬ Edge (al_state (al_words 8 2)) (requested (al_words 8 2))
unfolding is_valid_transition esc_read_u16_le store
no-Edge_8_2 edge =
    let valid : is_valid_transition 2 8 ≡ true = (is_valid_transition_iff 2 8).1 edge in
    absurd (ground arith)

al_refused_example :
    (al_status (al_on_control_write (al_words 8 2)) ≡ al_state (al_words 8 2) + 16)
    × (al_code (al_on_control_write (al_words 8 2))
        ≡ refusal_code (al_state (al_words 8 2)) (requested (al_words 8 2)))
al_refused_example =
    al_refused (al_words 8 2) (omega (arith, words_8_2)) (omega (arith, words_8_2))
      (inl no-Edge_8_2)

words_0x12_2 :
    (al_state (al_words 0x12 0x12) ≡ 2) × (esc_read_u16_le (al_words 0x12 0x12) reg_alctl ≡ 0x12)
unfolding esc_read_u16_le store
words_0x12_2 = (refl, refl)

words_0_1 : (al_state (al_words 0 1) ≡ 1) × (sm_validate_mailbox_pair (al_words 0 1) ≡ true)
unfolding esc_read_u16_le store sm_validate_mailbox_pair sm_is_usable sm_is_active sm_is_mailbox
    sm_read
words_0_1 = (refl, refl)

requests_bring_up_example :
    (al_status (requests (al_words 0 1) (2 ∷ 4 ∷ 8 ∷ [])) ≡ 8)
    × (al_code (requests (al_words 0 1) (2 ∷ 4 ∷ 8 ∷ [])) ≡ 0)
requests_bring_up_example = requests_bring_up (al_words 0 1) words_0_1.0 words_0_1.1

answered : mailbox_write_sm1 mailboxes (1 ∷ 2 ∷ []) ≡ some (sm_set_status_bit reply_memory 1 8)
unfolding mailbox_write_sm1 sm_is_usable sm_is_active sm_is_mailbox sm_read store
answered = refl
