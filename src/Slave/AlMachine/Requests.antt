-- ===== src/Slave/AlMachine/Requests.antt =====
-- The machine under the words that a master writes to AL Control, one after another.
use ul_ecat.Common.{
  ℕ, ◌/◌, ◌%◌, ◌<◌, ◌≡◌, ◌≢◌, ◌⊎◌, inl, inr, refl, ap, ◌∙◌, arith, true, Memory, List, [], ◌∷◌,
  IsU16, and_ff, or_shifted, store, w16_le,
}
use ul_ecat.Slave.Esc.{reg_alctl, esc_read_u16_le}
use ul_ecat.Slave.SyncManager.{sm_read, sm_validate_mailbox_pair}
use ul_ecat.Slave.AlMachine.{write_al_status, al_on_control_write}
use ul_ecat.Slave.AlMachine.Registers.{
  al_status, al_code, al_state, al_control, al_status-write_al_status, al_code-write_al_status,
}
use ul_ecat.Slave.AlMachine.Transitions.{
  Edge, IsLegal, requested, acknowledge, granted_lem, al_on_control_write-Edge,
  al_on_control_write-IsLegal,
}

-- The master writes AL Control and the machine runs.
unfoldable pub request : Memory → ℕ → Memory
request esc word = al_on_control_write (store esc reg_alctl (w16_le word))

pub requests : Memory → List ℕ → Memory
requests esc [] = esc
requests esc (w ∷ ws) = requests (request esc w) ws

al_status-store_control :
    (esc : Memory) (word : ℕ) → al_status (store esc reg_alctl (w16_le word)) ≡ al_status esc
unfolding store w16_le esc_read_u16_le
al_status-store_control esc word = refl

pair-store_control :
    (esc : Memory) (word : ℕ)
    → sm_validate_mailbox_pair (store esc reg_alctl (w16_le word)) ≡ sm_validate_mailbox_pair esc
unfolding store w16_le sm_validate_mailbox_pair sm_read
pair-store_control esc word = refl

al_control-store_control :
    (esc : Memory) (word : ℕ) → IsU16 word → al_control (store esc reg_alctl (w16_le word)) ≡ word
unfolding store w16_le esc_read_u16_le
al_control-store_control esc word h =
    ground (arith, and_ff word, and_ff (word / 256), or_shifted 8 (word % 256) (word / 256 % 256))

pair-write_al_status :
    (esc : Memory) (status code : ℕ)
    → sm_validate_mailbox_pair (write_al_status esc status code) ≡ sm_validate_mailbox_pair esc
unfolding write_al_status sm_validate_mailbox_pair sm_read
pair-write_al_status esc status code = refl

-- In every run of control words from a legal state, the state stays legal.
pub requests-IsLegal :
    (esc : Memory) (words : List ℕ)
    → IsLegal (al_state esc)
    → IsLegal (al_state (requests esc words))
unfolding requests request
requests-IsLegal esc [] l = l
requests-IsLegal esc (w ∷ ws) l = requests-IsLegal (request esc w) ws (
    al_on_control_write-IsLegal (store esc reg_alctl (w16_le w))
      (rw (al_status-store_control esc w) l))

-- One granted request, with what it leaves for the next.
request_granted :
    (esc : Memory) (word : ℕ)
    → word < 16
    → word ≢ al_state esc
    → Edge (al_state esc) word
    → sm_validate_mailbox_pair esc ≡ true
    → (al_status (request esc word) ≡ word)
      × (al_code (request esc word) ≡ 0)
      × (sm_validate_mailbox_pair (request esc word) ≡ true)
unfolding request
request_granted esc word small other edge pair =
    rw (granted_lem m no_ack elsewhere (rw (there, state) edge, λ _ _. pair')) (
      rw there (al_status-write_al_status m word 0 (omega arith)),
      al_code-write_al_status m (requested m) 0 (omega arith),
      pair-write_al_status m (requested m) 0 ∙ pair',
    )
  where
    m : Memory
    m = store esc reg_alctl (w16_le word)

    state : al_state m ≡ al_state esc
    state = ap (λ w. w % 16) (al_status-store_control esc word)

    there : requested m ≡ word
    there = omega (arith, al_control-store_control esc word (omega arith))

    no_ack : acknowledge m ≡ 0
    no_ack = omega (arith, al_control-store_control esc word (omega arith))

    elsewhere : requested m ≢ al_state m
    elsewhere = omega (arith, there, state)

    pair' : sm_validate_mailbox_pair m ≡ true
    pair' = pair-store_control esc word ∙ pair

-- From INIT, with the mailbox SyncManagers configured, the requests for PREOP, SAFEOP and OP in
-- this order bring the slave to OP with no error.
pub requests_bring_up :
    (esc : Memory)
    → al_state esc ≡ 1
    → sm_validate_mailbox_pair esc ≡ true
    → (al_status (requests esc (2 ∷ 4 ∷ 8 ∷ [])) ≡ 8)
      × (al_code (requests esc (2 ∷ 4 ∷ 8 ∷ [])) ≡ 0)
unfolding requests
requests_bring_up esc init pair =
    let preop = request_granted esc 2 (omega arith) (omega arith) (inr (inl (init, refl))) pair in
    let safeop =
      request_granted (request esc 2) 4 (omega arith) (omega (arith, preop)) (ground (arith, preop))
        preop.2 in
    let op =
      request_granted (request (request esc 2) 4) 8 (omega arith) (omega (arith, safeop))
        (ground (arith, safeop)) safeop.2 in
    (op.0, op.1)

-- OP is reached from SAFEOP only: a request that ends in OP began in OP or in SAFEOP.
pub request_op :
    (esc : Memory) (word : ℕ)
    → al_state (request esc word) ≡ 8
    → (al_state esc ≡ 8) ⊎ (al_state esc ≡ 4)
unfolding request
request_op esc word e = ground (
  arith,
  al_on_control_write-Edge (store esc reg_alctl (w16_le word)),
  al_status-store_control esc word,
)
