-- ===== src/Slave/AlMachine/Transitions.antt =====
-- The transitions that the AL state machine makes and refuses.
use ul_ecat.Common.{
  ℕ, ◌+◌, ◌/◌, ◌%◌, ◌<◌, ◌≡◌, ◌≢◌, ◌↔◌, ◌⊎◌, inl, inr, ap, arith, true, false, ◌==◌, if◌then◌else◌,
  Memory, and_0f, and_10, or_shifted,
}
use ul_ecat.Al.{al_status_state_lem}
use ul_ecat.Slave.Esc.{HoldsBytes}
use ul_ecat.Slave.SyncManager.{sm_validate_mailbox_pair}
use ul_ecat.Slave.AlMachine.{is_valid_transition, write_al_status, al_dispatch, al_on_control_write}
use ul_ecat.Slave.AlMachine.Registers.{
  al_status, al_code, al_state, al_control, OnlyStatus, write_al_status-HoldsBytes,
  write_al_status-OnlyStatus, al_status-write_al_status, al_code-write_al_status,
}

-- The state graph: to INIT from everywhere, and one step up or down between the others.
abbrev pub Edge : ℕ → ℕ → Type 0
Edge from to =
    (to ≡ 1)
    ⊎ (from ≡ 1) × (to ≡ 2)
    ⊎ (from ≡ 2) × (to ≡ 4)
    ⊎ (from ≡ 4) × (to ≡ 8)
    ⊎ (from ≡ 4) × (to ≡ 2)
    ⊎ (from ≡ 8) × (to ≡ 4)

abbrev pub IsLegal : ℕ → Type 0
IsLegal s = (s ≡ 1) ⊎ (s ≡ 2) ⊎ (s ≡ 4) ⊎ (s ≡ 8)

pub is_valid_transition_iff : (from to : ℕ) → (is_valid_transition from to ≡ true) ↔ Edge from to
unfolding is_valid_transition
is_valid_transition_iff from to = ground arith

-- The state asked for, and whether the acknowledge bit is set.
abbrev pub requested : Memory → ℕ
requested esc = al_control esc % 16

abbrev pub acknowledge : Memory → ℕ
acknowledge esc = al_control esc / 16 % 2

-- Why a request is refused: BOOT, a missing edge, or INIT to PREOP with no mailbox configured.
abbrev pub refusal_code : ℕ → ℕ → ℕ
refusal_code from to = if to == 3 then 0x13 else if is_valid_transition from to then 0x16 else 0x11

-- A request that the machine grants: an edge of the graph, and for INIT to PREOP the mailbox
-- SyncManagers configured.
abbrev pub IsGranted : Memory → Type 0
IsGranted esc =
    Edge (al_state esc) (requested esc)
    × (al_state esc ≡ 1 → requested esc ≡ 2 → sm_validate_mailbox_pair esc ≡ true)

abbrev pub IsRefused : Memory → Type 0
IsRefused esc =
    ¬ Edge (al_state esc) (requested esc)
    ⊎ (al_state esc ≡ 1) × (requested esc ≡ 2) × (sm_validate_mailbox_pair esc ≡ false)

module _ (esc : Memory) where
  pub granted_lem :
      acknowledge esc ≡ 0
      → requested esc ≢ al_state esc
      → IsGranted esc
      → al_on_control_write esc ≡ write_al_status esc (requested esc) 0
  unfolding al_on_control_write al_dispatch is_valid_transition
  granted_lem a n (e, m) = ground (
    arith,
    al_status_state_lem (al_status esc),
    and_0f (al_control esc),
    and_10 (al_control esc),
    m,
  )

  refused_lem :
      acknowledge esc ≡ 0
      → requested esc ≢ al_state esc
      → IsRefused esc
      → al_on_control_write esc
        ≡ write_al_status esc (al_state esc + 16) (refusal_code (al_state esc) (requested esc))
  unfolding al_on_control_write al_dispatch is_valid_transition
  refused_lem a n r = ground (
    arith,
    al_status_state_lem (al_status esc),
    and_0f (al_control esc),
    and_10 (al_control esc),
    or_shifted 4 (al_state esc) 1,
  )

  acknowledged_lem :
      acknowledge esc ≡ 1
      → requested esc ≡ al_state esc
      → al_on_control_write esc ≡ write_al_status esc (al_state esc) 0
  unfolding al_on_control_write al_dispatch
  acknowledged_lem a n =
      ground (
        arith,
        al_status_state_lem (al_status esc),
        and_0f (al_control esc),
        and_10 (al_control esc),
      )

  -- Nothing changes on an acknowledge of another state, and on a request for the present state.
  pub al_unchanged :
      (acknowledge esc ≡ 1) × (requested esc ≢ al_state esc)
        ⊎ (acknowledge esc ≡ 0) × (requested esc ≡ al_state esc)
      → al_on_control_write esc ≡ esc
  unfolding al_on_control_write al_dispatch
  al_unchanged h =
      ground (
        arith,
        al_status_state_lem (al_status esc),
        and_0f (al_control esc),
        and_10 (al_control esc),
      )

  -- A request, without acknowledge, for another state that has an edge of the state graph, with
  -- the mailbox SyncManagers configured where it goes from INIT to PREOP, is granted: AL Status
  -- becomes the state asked for, with no error bit, and the status code is cleared.
  pub al_granted :
      acknowledge esc ≡ 0
      → requested esc ≢ al_state esc
      → IsGranted esc
      → (al_status (al_on_control_write esc) ≡ requested esc)
        × (al_code (al_on_control_write esc) ≡ 0)
  al_granted a n g = rw (granted_lem a n g) (
    al_status-write_al_status esc (requested esc) 0 (omega arith),
    al_code-write_al_status esc (requested esc) 0 (omega arith),
  )

  -- Any other request, without acknowledge, for another state is refused: the state stays, the
  -- error bit is set, and the status code is 0x13 for BOOT, 0x16 for a mailbox that is not
  -- configured, and 0x11 for a transition that the graph does not have.
  pub al_refused :
      acknowledge esc ≡ 0
      → requested esc ≢ al_state esc
      → IsRefused esc
      → (al_status (al_on_control_write esc) ≡ al_state esc + 16)
        × (al_code (al_on_control_write esc) ≡ refusal_code (al_state esc) (requested esc))
  al_refused a n r = rw (refused_lem a n r) (
    al_status-write_al_status esc _ _ (omega arith),
    al_code-write_al_status esc _ _ (ground arith),
  )

  -- An acknowledge that names the present state clears the error bit and the status code.
  pub al_acknowledged :
      acknowledge esc ≡ 1
      → requested esc ≡ al_state esc
      → (al_status (al_on_control_write esc) ≡ al_state esc)
        × (al_code (al_on_control_write esc) ≡ 0)
  al_acknowledged a n = rw (acknowledged_lem a n) (
    al_status-write_al_status esc (al_state esc) 0 (omega arith),
    al_code-write_al_status esc (al_state esc) 0 (omega arith),
  )

  pub al_outcomes :
      (al_on_control_write esc ≡ esc)
      ⊎ Edge (al_state esc) (requested esc)
        × (al_on_control_write esc ≡ write_al_status esc (requested esc) 0)
      ⊎ (al_on_control_write esc ≡ write_al_status esc (al_state esc) 0)
      ⊎ (al_on_control_write esc ≡ write_al_status esc (al_state esc + 16) 0x13)
      ⊎ (al_on_control_write esc ≡ write_al_status esc (al_state esc + 16) 0x16)
      ⊎ (al_on_control_write esc ≡ write_al_status esc (al_state esc + 16) 0x11)
  unfolding al_on_control_write al_dispatch is_valid_transition
  al_outcomes = ground (
    arith,
    al_status_state_lem (al_status esc),
    and_0f (al_control esc),
    and_10 (al_control esc),
    or_shifted 4 (al_state esc) 1,
  )

  -- Where something is written, it is a status word whose state is the old one or one edge on.
  al_written :
      (al_on_control_write esc ≡ esc)
      ⊎ ((status : ℕ) × (code : ℕ) × (al_on_control_write esc ≡ write_al_status esc status code)
          × (status < 32)
          × ((status % 16 ≡ al_state esc) ⊎ Edge (al_state esc) (status % 16)))
  al_written = elim al_outcomes [
    | inl e ↦ inl e
    | inr (inl (edge, e)) ↦ inr (requested esc, 0, e, omega arith, ground arith)
    | inr (inr (inl e)) ↦ inr (al_state esc, 0, e, omega arith, inl (omega arith))
    | inr (inr (inr (inl e))) ↦ inr (al_state esc + 16, 0x13, e, omega arith, inl (omega arith))
    | inr (inr (inr (inr (inl e)))) ↦
        inr (al_state esc + 16, 0x16, e, omega arith, inl (omega arith))
    | inr (inr (inr (inr (inr e)))) ↦
        inr (al_state esc + 16, 0x11, e, omega arith, inl (omega arith))
  ]

  -- Whatever the control word, the state stays or follows an edge of the state graph.
  pub al_on_control_write-Edge :
      (al_state (al_on_control_write esc) ≡ al_state esc)
      ⊎ Edge (al_state esc) (al_state (al_on_control_write esc))
  al_on_control_write-Edge = elim al_written [
    | inl e ↦ inl (ap al_state e)
    | inr (status, code, e, small, h) ↦
        rw (e, al_status-write_al_status esc status code (omega arith)) h
  ]

  -- The machine writes nothing but AL Status and AL Status Code.
  pub al_on_control_write-OnlyStatus : OnlyStatus esc (al_on_control_write esc)
  al_on_control_write-OnlyStatus = elim al_written [
    | inl e ↦ λ j _ _ _ _. ap (λ m. m j) e
    | inr (status, code, e, _, _) ↦ rw e (write_al_status-OnlyStatus esc status code)
  ]

  pub al_on_control_write-HoldsBytes : HoldsBytes esc → HoldsBytes (al_on_control_write esc)
  al_on_control_write-HoldsBytes b = elim al_written [
    | inl e ↦ rw e b
    | inr (status, code, e, _, _) ↦ rw e (write_al_status-HoldsBytes esc status code b)
  ]

-- A legal state stays legal.
pub al_on_control_write-IsLegal :
    (esc : Memory) → IsLegal (al_state esc) → IsLegal (al_state (al_on_control_write esc))
al_on_control_write-IsLegal esc l = ground (arith, al_on_control_write-Edge esc)
