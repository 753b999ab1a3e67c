-- ===== src/Master/Lifecycle/Sockets.antt =====
-- The sockets that `ul_ecat_master_init` and `ul_ecat_master_shutdown` leave open.
use ul_ecat.Common.{
  ℕ, ◌≡◌, refl, sym, ap, ◌∙◌, List, [], ◌∷◌, Option, none, some, Bool, true, false, arith, ◌==◌,
  if◌then◌else◌,
}
use ul_ecat.Master.Lifecycle.{
  Platform, Settings, Master, configured, start_worker, opened, closed, master_init,
  master_shutdown,
}

abbrev pub without : ℕ → List ℕ → List ℕ
without s [] = []
without s (x ∷ xs) = if x == s then xs else x ∷ without s xs

abbrev pub with_opened : Option ℕ → List ℕ → List ℕ
with_opened none sockets = sockets
with_opened (some s) sockets = s ∷ sockets

-- The platform with the sockets that were opened and not closed.
abbrev pub tracked : {W : Type 0} → Platform W → Platform (W × List ℕ)
tracked platform = record {
  osal_init = λ s. (platform.osal_init s.0, s.1);
  osal_shutdown = λ s. (platform.osal_shutdown s.0, s.1);
  open_socket = λ s name. (
    ((platform.open_socket s.0 name).0, with_opened (platform.open_socket s.0 name).1 s.1),
    (platform.open_socket s.0 name).1,
  );
  close_socket = λ s fd. (platform.close_socket s.0 fd, without fd s.1);
  realtime_hint = λ s priority. (platform.realtime_hint s.0 priority, s.1);
  worker_start = λ s priority.
      (((platform.worker_start s.0 priority).0, s.1), (platform.worker_start s.0 priority).1);
  worker_join = λ s. (platform.worker_join s.0, s.1);
}

abbrev pub owned : Option ℕ → List ℕ
owned none = []
owned (some s) = s ∷ []

-- The state of the system: the platform with its sockets sockets, and the globals of the master.
abbrev pub System : Type 0 → Type 0
System W = (W × List ℕ) × Master

-- A start of a master that is not running, with the settings or a null pointer, and a shutdown.
pub data Step {W : Type 0} (platform : Platform W) : System W → System W → Type 0 where
  starts :
      (cfg : Option Settings) (w : W × List ℕ) (m : Master)
      → m.sockfd ≡ none
      → Step platform (w, m) (master_init (tracked platform) cfg w m).0
  stops :
      (w : W × List ℕ) (m : Master)
      → Step platform (w, m) (master_shutdown (tracked platform) w m).0

pub data Reach {W : Type 0} (platform : Platform W) (s : System W) : System W → Type 0 where
  here : Reach platform s s
  next : {t u : System W} → Reach platform s t → Step platform t u → Reach platform s u

-- Exactly the socket of the master is sockets.
abbrev pub IsOwner : {W : Type 0} → System W → Type 0
IsOwner (w, m) = w.1 ≡ owned m.sockfd

pub without_own : (s : ℕ) (held : List ℕ) → held ≡ s ∷ [] → without s held ≡ []
without_own s held e = ap (without s) e ∙ ground arith

pub with_opened-owned : (o : Option ℕ) (held : List ℕ) → held ≡ [] → with_opened o held ≡ owned o
with_opened-owned none held e = e
with_opened-owned (some s) held e = ap (◌∷◌ s) e

module _ {W : Type 0} (platform : Platform W) where
  start_worker-IsOwner :
      (s : ℕ) (m : Master) (w : W × List ℕ) (b : Bool)
      → m.sockfd ≡ some s
      → w.1 ≡ s ∷ []
      → IsOwner (start_worker (tracked platform) s m (w, b)).0
  unfolding start_worker
  start_worker-IsOwner s m w true e h = h ∙ ap owned (sym e)
  start_worker-IsOwner s m w false e h = without_own s _ h

  opened-IsOwner :
      (cfg : Settings) (m : Master) (w : W) (fd : Option ℕ)
      → m.sockfd ≡ none
      → IsOwner (opened (tracked platform) cfg m ((w, with_opened fd []), fd)).0
  unfolding opened configured
  opened-IsOwner cfg m w none e = ap owned (sym e)
  opened-IsOwner cfg m w (some s) e = start_worker-IsOwner s (configured cfg s m) _ _ refl refl

  pub master_init-IsOwner :
      (cfg : Option Settings) (w : W × List ℕ) (m : Master)
      → m.sockfd ≡ none
      → w.1 ≡ []
      → IsOwner (master_init (tracked platform) cfg w m).0
  unfolding master_init
  master_init-IsOwner none w m e h = h ∙ ap owned (sym e)
  master_init-IsOwner (some cfg) (w, sockets) m e h = rw h (
      opened-IsOwner cfg m (platform.open_socket (platform.osal_init w) cfg.iface_name).0
        (platform.open_socket (platform.osal_init w) cfg.iface_name).1 e)

  closed-IsOwner :
      (w : W × List ℕ) (m : Master) (fd : Option ℕ)
      → w.1 ≡ owned fd
      → m.sockfd ≡ fd
      → IsOwner (closed (tracked platform) w m fd).0
  unfolding closed
  closed-IsOwner w m none h e = h ∙ ap owned (sym e)
  closed-IsOwner w m (some s) h e = without_own s _ h

  pub master_shutdown-IsOwner :
      (w : W × List ℕ) (m : Master)
      → IsOwner (w, m)
      → IsOwner (master_shutdown (tracked platform) w m).0
  unfolding master_shutdown
  master_shutdown-IsOwner w m h = closed-IsOwner w m m.sockfd h refl

  start_worker_failed :
      (s : ℕ) (m : Master) (r : (W × List ℕ) × Bool)
      → (start_worker (tracked platform) s m r).1 ≡ false
      → (start_worker (tracked platform) s m r).0.1.sockfd ≡ none
  unfolding start_worker
  start_worker_failed s m (w, true) f = cc
  start_worker_failed s m (w, false) f = refl

  opened_failed :
      (cfg : Settings) (m : Master) (r : (W × List ℕ) × Option ℕ)
      → m.sockfd ≡ none
      → (opened (tracked platform) cfg m r).1 ≡ false
      → (opened (tracked platform) cfg m r).0.1.sockfd ≡ none
  unfolding opened
  opened_failed cfg m (w, none) e f = e
  opened_failed cfg m (w, some s) e f =
      start_worker_failed s (configured cfg s m)
        ((tracked platform).worker_start ((tracked platform).realtime_hint w cfg.rt_priority)
          cfg.rt_priority)
        f

  pub master_init_failed :
      (cfg : Option Settings) (w : W × List ℕ) (m : Master)
      → m.sockfd ≡ none
      → (master_init (tracked platform) cfg w m).1 ≡ false
      → (master_init (tracked platform) cfg w m).0.1.sockfd ≡ none
  unfolding master_init
  master_init_failed none w m e f = e
  master_init_failed (some cfg) w m e f =
      opened_failed cfg m
        ((tracked platform).open_socket ((tracked platform).osal_init w) cfg.iface_name) e f

  closed_sockfd :
      (w : W × List ℕ) (m : Master) (fd : Option ℕ)
      → m.sockfd ≡ fd
      → (closed (tracked platform) w m fd).0.1.sockfd ≡ none
  unfolding closed
  closed_sockfd w m none e = e
  closed_sockfd w m (some s) e = refl

  pub master_shutdown_sockfd :
      (w : W × List ℕ) (m : Master) → (master_shutdown (tracked platform) w m).0.1.sockfd ≡ none
  unfolding master_shutdown
  master_shutdown_sockfd w m = closed_sockfd w m m.sockfd refl

  Step-IsOwner : {a b : System W} → Step platform a b → IsOwner a → IsOwner b
  Step-IsOwner (starts cfg w m e) h = master_init-IsOwner cfg w m e (h ∙ ap owned e)
  Step-IsOwner (stops w m) h = master_shutdown-IsOwner w m h

  -- Whatever sockets the platform gives and whichever of its calls fail: as long as the master is
  -- started only when it is not running, the sockets opened and not closed are always exactly
  -- the one that it holds, and none after a failed start or a shutdown.
  pub Reach-IsOwner : {a b : System W} → IsOwner a → Reach platform a b → IsOwner b
  Reach-IsOwner h here = h
  Reach-IsOwner h (next r s) = Step-IsOwner s (Reach-IsOwner h r)
