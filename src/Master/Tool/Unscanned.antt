-- ===== src/Master/Tool/Unscanned.antt =====
-- The commands that need a scan, in a process that has made none.
use ul_ecat.Common.{
  ℕ, ◌≡◌, refl, ap, sym, ◌∙◌, List, [], ◌⊎◌, inl, inr, some, Bool, true, false, Bool-cases, ltb,
  if◌then◌else◌, length, drop, codes, is_same,
}
use ul_ecat.Master.{Transport}
use ul_ecat.Master.State.{station_at, request_slave_state}
use ul_ecat.Master.Lifecycle.{Master, master_init}
use ul_ecat.Master.Esi.{describe_all, scan_slaves_with_esi}
use ul_ecat.Master.Tool.{
  Process, Host, settings_for, nth, leave, run_scan_esi, run_slave_state, run_command, started,
  app_execute,
}

abbrev pub unscanned : {W : Type 0} → W → Master → Process W
unscanned w m = record { world = w; master = m; slaves_db = [] }

abbrev pub NeedsScan : List (List ℕ) → Type 0
NeedsScan argv = (nth argv 2 ≡ codes "slave-state") ⊎ (nth argv 2 ≡ codes "scan-esi")

-- The arguments that the command wants.
abbrev wanted : List ℕ → ℕ
wanted cmd = if is_same cmd (codes "scan-esi") then 4 else 5

module _ {W : Type 0} (h : Host W) where
  run_slave_state-unscanned :
      (w : W) (m : Master) (idx st : List ℕ)
      → run_slave_state h (unscanned w m) idx st ≡ unscanned w m
  unfolding run_slave_state request_slave_state station_at
  run_slave_state-unscanned w m idx st = refl

  run_scan_esi-unscanned :
      (w : W) (m : Master) (args : List (List ℕ))
      → run_scan_esi h (unscanned w m) args ≡ unscanned w m
  unfolding run_scan_esi scan_slaves_with_esi describe_all
  run_scan_esi-unscanned w m args = refl

  leave_either :
      (p : Process W) (b : Bool)
      → (if b then leave h p 1 else leave h p 0) ≡ leave h p (if b then 1 else 0)
  leave_either p true = refl
  leave_either p false = refl

  run_command-unscanned :
      (w : W) (m : Master) (argv : List (List ℕ))
      → NeedsScan argv
      → run_command h (unscanned w m) argv
        ≡ leave h (unscanned w m) (if ltb (length argv) (wanted (nth argv 2)) then 1 else 0)
  unfolding run_command is_same
  run_command-unscanned w m argv (inl e) =
      rw (run_command, e, run_slave_state-unscanned w m (nth argv 3) (nth argv 4))
        (leave_either (unscanned w m) (ltb (length argv) 5))
  run_command-unscanned w m argv (inr e) =
      rw (run_command, e, run_scan_esi-unscanned w m (drop 3 argv))
        (leave_either (unscanned w m) (ltb (length argv) 4))

  -- What a command without a scan does: the start, and the shutdown if that succeeded.
  idle : List (List ℕ) → (W × Master) × Bool → Process W × ℕ
  idle argv ((w, m), false) = (unscanned w m, 1)
  idle argv ((w, m), true) =
      leave h (unscanned w m) (if ltb (length argv) (wanted (nth argv 2)) then 1 else 0)

  started_unscanned :
      (argv : List (List ℕ)) (r : (W × Master) × Bool)
      → NeedsScan argv
      → started h [] argv r ≡ idle argv r
  unfolding started idle
  started_unscanned argv ((w, m), false) n = refl
  started_unscanned argv ((w, m), true) n = run_command-unscanned w m argv n

  idle_slaves_db : (argv : List (List ℕ)) (r : (W × Master) × Bool) → (idle argv r).0.slaves_db ≡ []
  unfolding idle leave
  idle_slaves_db argv ((w, m), false) = refl
  idle_slaves_db argv ((w, m), true) = refl

idle_transport :
    {W : Type 0} (h : Host W) (t : Transport W) (argv : List (List ℕ)) (r : (W × Master) × Bool)
    → idle h argv r ≡ idle (record h { transport = t }) argv r
unfolding idle leave
idle_transport h t argv ((w, m), false) = refl
idle_transport h t argv ((w, m), true) = refl

-- The whole run of such a command.
abbrev idle_run : {W : Type 0} → Host W → W → Master → List (List ℕ) → Process W × ℕ
idle_run h w m argv =
    if ltb (length argv) 3
    then (unscanned w m, 1)
    else idle h argv (master_init h.platform (some (settings_for (nth argv 1))) w m)

app_execute_idle :
    {W : Type 0} (h : Host W) (w : W) (m : Master) (argv : List (List ℕ))
    → NeedsScan argv
    → app_execute h (unscanned w m) argv ≡ idle_run h w m argv
unfolding app_execute
app_execute_idle h w m argv n =
    ap (λ (r : Process _ × ℕ). if ltb (length argv) 3 then (unscanned w m, 1) else r)
      (started_unscanned h argv (master_init h.platform (some (settings_for (nth argv 1))) w m) n)

idle_run_transport :
    {W : Type 0} (h : Host W) (t : Transport W) (w : W) (m : Master) (argv : List (List ℕ))
    → idle_run h w m argv ≡ idle_run (record h { transport = t }) w m argv
idle_run_transport h t w m argv =
    ap (λ (r : Process _ × ℕ). if ltb (length argv) 3 then (unscanned w m, 1) else r)
      (idle_transport h t argv (master_init h.platform (some (settings_for (nth argv 1))) w m))

idle_run_db :
    {W : Type 0} (h : Host W) (w : W) (m : Master) (argv : List (List ℕ))
    → (idle_run h w m argv).0.slaves_db ≡ []
idle_run_db h w m argv = elim (Bool-cases (ltb (length argv) 3)) [
  | inl e ↦ rw e refl
  | inr e ↦
      rw e (idle_slaves_db h argv (master_init h.platform (some (settings_for (nth argv 1))) w m))
]

-- In a process that has made no scan, the commands slave-state and scan-esi do nothing to the
-- network, in that the whole outcome is the same on any other transport, and leave the list of
-- stations empty.
pub app_execute-unscanned :
    {W : Type 0} (h : Host W) (t : Transport W) (w : W) (m : Master) (argv : List (List ℕ))
    → NeedsScan argv
    → (app_execute h (unscanned w m) argv
        ≡ app_execute (record h { transport = t }) (unscanned w m) argv)
      × ((app_execute h (unscanned w m) argv).0.slaves_db ≡ [])
app_execute-unscanned h t w m argv n = (
  app_execute_idle h w m argv n
      ∙ idle_run_transport h t w m argv
      ∙ sym (app_execute_idle (record h { transport = t }) w m argv n),
  ap (λ (r : Process _ × ℕ). r.0.slaves_db) (app_execute_idle h w m argv n)
      ∙ idle_run_db h w m argv,
)
