-- ===== src/Posix/Resources.antt =====
-- The sockets and threads that the master holds of the system on Linux and NuttX.
use ul_ecat.Common.{ℕ, ◌≡◌, refl, sym, ap, ◌∙◌, [], ◌∷◌, Option, none, some, Bool, true, false}
use ul_ecat.Master.Lifecycle.{
  Settings, Master, configured, start_worker, opened, closed, master_init, master_shutdown,
}
use ul_ecat.Master.Lifecycle.Sockets.{owned, without_own}
use ul_ecat.Posix.{
  Posix, Osal, transport_open, transport_close, osal_realtime_hint, osal_worker_start,
  osal_worker_join, over, posix_platform,
}
use ul_ecat.Posix.Counted.{
  Used, counted, is_held, worker, transport_open-IsOpened, IsStarted, osal_worker_start-IsStarted,
  hint-IsSame, joined_none,
}

-- The master holds all of the sockets and threads: one of each while it runs, none while it does not.
pub record IsHolder {W : Type 0} (o : Osal (W × Used)) (m : Master) : Type 0 where
  pub sockets : o.world.1.sockets ≡ owned m.sockfd
  pub threads : o.world.1.threads ≡ worker o.worker_started o.worker_id
  pub runs : o.worker_started ≡ is_held m.sockfd

module _ {W : Type 0} (p : Posix W) where
  start_worker-IsHolder :
      (s : ℕ) (m : Master) (r : Osal (W × Used) × Bool)
      → m.sockfd ≡ some s
      → IsStarted p (s ∷ []) r
      → IsHolder
          (start_worker (posix_platform (counted p)) s m r).0.0
          (start_worker (posix_platform (counted p)) s m r).0.1
  unfolding start_worker posix_platform transport_close
  start_worker-IsHolder s m (o, true) h (e, t, f) = record {
    sockets = e ∙ ap owned (sym h);
    threads = t;
    runs = f ∙ ap is_held (sym h);
  }
  start_worker-IsHolder s m (o, false) h (e, t, f) = record {
    sockets = without_own s o.world.1.sockets e;
    threads = t;
    runs = f;
  }

  opened-IsHolder :
      (cfg : Settings) (m : Master) (o : Osal (W × Used)) (fd : Option ℕ)
      → m.sockfd ≡ none
      → o.world.1.sockets ≡ owned fd
      → o.world.1.threads ≡ []
      → o.worker_started ≡ false
      → IsHolder
          (opened (posix_platform (counted p)) cfg m (o, fd)).0.0
          (opened (posix_platform (counted p)) cfg m (o, fd)).0.1
  unfolding opened configured posix_platform
  opened-IsHolder cfg m o none h e t f = record {
    sockets = e ∙ ap owned (sym h);
    threads = t ∙ ap (λ (b : Bool). worker b o.worker_id) (sym f);
    runs = f ∙ ap is_held (sym h);
  }
  opened-IsHolder cfg m o (some s) h e t f =
      let (world, started) = hint-IsSame p o cfg.rt_priority in
      start_worker-IsHolder s (configured cfg s m)
        (osal_worker_start (counted p) (osal_realtime_hint (counted p) o cfg.rt_priority)
          cfg.rt_priority)
        refl
        (osal_worker_start-IsStarted p (osal_realtime_hint (counted p) o cfg.rt_priority)
          cfg.rt_priority (s ∷ []) (ap (λ (u : Used). u.sockets) world ∙ e)
          (ap (λ (u : Used). u.threads) world ∙ t) (started ∙ f))

  master_init-IsHolder :
      (cfg : Option Settings) (o : Osal (W × Used)) (m : Master)
      → m.sockfd ≡ none
      → IsHolder o m
      → IsHolder
          (master_init (posix_platform (counted p)) cfg o m).0.0
          (master_init (posix_platform (counted p)) cfg o m).0.1
  unfolding master_init posix_platform over
  master_init-IsHolder none o m e h = h
  master_init-IsHolder (some cfg) o m e h =
      let idle : o.worker_started ≡ false = h.runs ∙ ap is_held e in
      let none_run = h.threads ∙ ap (λ (b : Bool). worker b o.worker_id) idle in
      let (got, same) =
        transport_open-IsOpened p cfg.iface_name o.world (h.sockets ∙ ap owned e) none_run in
      opened-IsHolder cfg m
        (record o { world = (transport_open (counted p) o.world cfg.iface_name).0 })
        (transport_open (counted p) o.world cfg.iface_name).1 e got same idle

  closed-IsHolder :
      (o : Osal (W × Used)) (m : Master) (fd : Option ℕ)
      → m.sockfd ≡ fd
      → IsHolder o m
      → IsHolder
          (closed (posix_platform (counted p)) o m fd).0.0
          (closed (posix_platform (counted p)) o m fd).0.1
  unfolding closed posix_platform transport_close
  closed-IsHolder o m none e h = h
  closed-IsHolder o m (some s) e h =
      let (none_run, stopped, same) = joined_none p o (h.runs ∙ ap is_held e) h.threads in
      record {
        sockets = without_own s _ (same ∙ h.sockets ∙ ap owned e);
        threads =
            none_run
            ∙ ap (λ (b : Bool). worker b (osal_worker_join (counted p) o).worker_id) (sym stopped);
        runs = stopped;
      }

  master_shutdown-IsHolder :
      (o : Osal (W × Used)) (m : Master)
      → IsHolder o m
      → IsHolder
          (master_shutdown (posix_platform (counted p)) o m).0.0
          (master_shutdown (posix_platform (counted p)) o m).0.1
  unfolding master_shutdown
  master_shutdown-IsHolder o m h = closed-IsHolder o m m.sockfd refl h

-- Starts of a master that is not running, and shutdowns, on this system.
pub data Runs {W : Type 0} (p : Posix W) (o : Osal (W × Used)) (m : Master)
    : Osal (W × Used) → Master → Type 0 where
  here : Runs p o m o m
  starts :
      {o' : Osal (W × Used)} {m' : Master} (cfg : Option Settings)
      → Runs p o m o' m'
      → m'.sockfd ≡ none
      → Runs p o m
          (master_init (posix_platform (counted p)) cfg o' m').0.0
          (master_init (posix_platform (counted p)) cfg o' m').0.1
  stops :
      {o' : Osal (W × Used)} {m' : Master}
      → Runs p o m o' m'
      → Runs p o m
          (master_shutdown (posix_platform (counted p)) o' m').0.0
          (master_shutdown (posix_platform (counted p)) o' m').0.1

-- On Linux and NuttX, whichever system calls fail, and as long as the master is started only when it
-- is not running: after any starts and shutdowns the sockets that the system has open are exactly
-- the one of the master, and a thread runs, the worker of the master, exactly while it has one.
pub Runs-IsHolder :
    {W : Type 0} (p : Posix W) {o : Osal (W × Used)} {m : Master} {o' : Osal (W × Used)}
    {m' : Master}
    → IsHolder o m
    → Runs p o m o' m'
    → IsHolder o' m'
Runs-IsHolder p h here = h
Runs-IsHolder p h (starts cfg r e) = master_init-IsHolder p cfg _ _ e (Runs-IsHolder p h r)
Runs-IsHolder p h (stops r) = master_shutdown-IsHolder p _ _ (Runs-IsHolder p h r)
