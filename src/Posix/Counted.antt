-- ===== src/Posix/Counted.antt =====
-- What the calls of the transport and of the operating system layer leave of the sockets and threads
-- that the system gives.
use ul_ecat.Common.{
  ℕ, ◌≡◌, refl, sym, ap, ◌∙◌, List, [], ◌∷◌, Option, none, some, Bool, true, false, ◌==◌,
  if◌then◌else◌, take,
}
use ul_ecat.Master.Lifecycle.Sockets.{without, with_opened, owned, without_own, with_opened-owned}
use ul_ecat.Posix.{
  Posix, Osal, bound, indexed, with_socket, transport_open, osal_realtime_hint, retried, created,
  osal_worker_start, osal_worker_join,
}

-- The sockets that are open and the threads that run.
pub record Used : Type 0 where
  pub sockets : List ℕ
  pub threads : List ℕ

-- The system with what it has given and not taken back.
abbrev pub counted : {W : Type 0} → Posix W → Posix (W × Used)
counted p = record {
  socket = λ s. (
    ((p.socket s.0).0, record s.1 { sockets = with_opened (p.socket s.0).1 s.1.sockets }),
    (p.socket s.0).1,
  );
  if_index = λ s fd name. (((p.if_index s.0 fd name).0, s.1), (p.if_index s.0 fd name).1);
  bind = λ s fd i. (((p.bind s.0 fd i).0, s.1), (p.bind s.0 fd i).1);
  close = λ s fd. (p.close s.0 fd, record s.1 { sockets = without fd s.1.sockets });
  send = λ s fd frame. (((p.send s.0 fd frame).0, s.1), (p.send s.0 fd frame).1);
  recv = λ s fd room. (((p.recv s.0 fd room).0, s.1), (p.recv s.0 fd room).1);
  select = λ s fd sec usec. (((p.select s.0 fd sec usec).0, s.1), (p.select s.0 fd sec usec).1);
  clock_gettime = λ s. (((p.clock_gettime s.0).0, s.1), (p.clock_gettime s.0).1);
  clock_nanosleep = λ s sec nsec. (p.clock_nanosleep s.0 sec nsec, s.1);
  usleep = λ s us. (p.usleep s.0 us, s.1);
  set_realtime = λ s priority. (p.set_realtime s.0 priority, s.1);
  create_rt = λ s priority. (
    (
      (p.create_rt s.0 priority).0,
      record s.1 { threads = with_opened (p.create_rt s.0 priority).1 s.1.threads },
    ),
    (p.create_rt s.0 priority).1,
  );
  create = λ s. (
    ((p.create s.0).0, record s.1 { threads = with_opened (p.create s.0).1 s.1.threads }),
    (p.create s.0).1,
  );
  join = λ s id. (p.join s.0 id, record s.1 { threads = without id s.1.threads });
}

abbrev pub is_held : Option ℕ → Bool
is_held none = false
is_held (some s) = true

-- The worker that runs.
abbrev pub worker : Bool → ℕ → List ℕ
worker true id = id ∷ []
worker false id = []

module _ {W : Type 0} (p : Posix W) where
  abbrev pub IsOpened : (W × Used) × Option ℕ → Type 0
  IsOpened r = (r.0.1.sockets ≡ owned r.1) × (r.0.1.threads ≡ [])

  bound-IsOpened :
      (s : ℕ) (w : W × Used) (b : Bool)
      → w.1.sockets ≡ s ∷ []
      → w.1.threads ≡ []
      → IsOpened (bound (counted p) s (w, b))
  unfolding bound
  bound-IsOpened s w false e t = (without_own s w.1.sockets e, t)
  bound-IsOpened s w true e t = (e, t)

  indexed-IsOpened :
      (s : ℕ) (w : W × Used) (i : Option ℕ)
      → w.1.sockets ≡ s ∷ []
      → w.1.threads ≡ []
      → IsOpened (indexed (counted p) s (w, i))
  unfolding indexed
  indexed-IsOpened s w none e t = (without_own s w.1.sockets e, t)
  indexed-IsOpened s w (some i) e t =
      bound-IsOpened s ((counted p).bind w s i).0 (p.bind w.0 s i).1 e t

  with_socket-IsOpened :
      (name : List ℕ) (w : W × Used) (fd : Option ℕ)
      → w.1.sockets ≡ owned fd
      → w.1.threads ≡ []
      → IsOpened (with_socket (counted p) name (w, fd))
  unfolding with_socket
  with_socket-IsOpened name w none e t = (e, t)
  with_socket-IsOpened name w (some s) e t =
      indexed-IsOpened s ((counted p).if_index w s (take 15 name)).0
        (p.if_index w.0 s (take 15 name)).1 e t

  pub transport_open-IsOpened :
      (name : List ℕ) (w : W × Used)
      → w.1.sockets ≡ []
      → w.1.threads ≡ []
      → IsOpened (transport_open (counted p) w name)
  unfolding transport_open
  transport_open-IsOpened name w e t =
      with_socket-IsOpened name ((counted p).socket w).0 (p.socket w.0).1
        (with_opened-owned (p.socket w.0).1 w.1.sockets e) t

  -- What a start of the worker leaves.
  abbrev pub IsStarted : List ℕ → Osal (W × Used) × Bool → Type 0
  IsStarted held r =
      (r.0.world.1.sockets ≡ held)
      × (r.0.world.1.threads ≡ worker r.0.worker_started r.0.worker_id)
      × (r.0.worker_started ≡ r.1)

  retried-IsStarted :
      (o : Osal (W × Used)) (w : W × Used) (id : Option ℕ) (held : List ℕ)
      → w.1.sockets ≡ held
      → w.1.threads ≡ owned id
      → o.worker_started ≡ false
      → IsStarted held (retried (counted p) o (w, id))
  unfolding retried
  retried-IsStarted o w none held e t f =
      (e, t ∙ ap (λ (b : Bool). worker b o.worker_id) (sym f), f)
  retried-IsStarted o w (some id) held e t f = (e, t, refl)

  created-IsStarted :
      (o : Osal (W × Used)) (w : W × Used) (id : Option ℕ) (held : List ℕ)
      → w.1.sockets ≡ held
      → w.1.threads ≡ owned id
      → o.worker_started ≡ false
      → IsStarted held (created (counted p) o (w, id))
  unfolding created
  created-IsStarted o w none held e t f =
      retried-IsStarted o ((counted p).create w).0 (p.create w.0).1 held e
        (with_opened-owned (p.create w.0).1 w.1.threads t) f
  created-IsStarted o w (some id) held e t f = (e, t, refl)

  pub osal_worker_start-IsStarted :
      (o : Osal (W × Used)) (priority : ℕ) (held : List ℕ)
      → o.world.1.sockets ≡ held
      → o.world.1.threads ≡ []
      → o.worker_started ≡ false
      → IsStarted held (osal_worker_start (counted p) o priority)
  unfolding osal_worker_start
  osal_worker_start-IsStarted o priority held e t f =
      created-IsStarted o ((counted p).create_rt o.world priority).0
        (p.create_rt o.world.0 priority).1 held e
        (with_opened-owned (p.create_rt o.world.0 priority).1 o.world.1.threads t) f

  abbrev pub IsSame : Osal (W × Used) → Osal (W × Used) → Type 0
  IsSame o o' = (o'.world.1 ≡ o.world.1) × (o'.worker_started ≡ o.worker_started)

  either-IsSame :
      (b : Bool) (o x y : Osal (W × Used)) → IsSame o x → IsSame o y → IsSame o (if b then x else y)
  either-IsSame true o x y hx hy = hx
  either-IsSame false o x y hx hy = hy

  pub hint-IsSame :
      (o : Osal (W × Used)) (priority : ℕ) → IsSame o (osal_realtime_hint (counted p) o priority)
  unfolding osal_realtime_hint
  hint-IsSame o priority = either-IsSame (priority == 0) o o _ (refl, refl) (refl, refl)

  pub joined_none :
      (o : Osal (W × Used))
      → o.worker_started ≡ true
      → o.world.1.threads ≡ worker o.worker_started o.worker_id
      → ((osal_worker_join (counted p) o).world.1.threads ≡ [])
        × ((osal_worker_join (counted p) o).worker_started ≡ false)
        × ((osal_worker_join (counted p) o).world.1.sockets ≡ o.world.1.sockets)
  unfolding osal_worker_join
  joined_none o f t =
      rw (osal_worker_join, f)
        ((
          without_own o.worker_id o.world.1.threads (t ∙ ap (λ (b : Bool). worker b o.worker_id) f),
          refl,
          refl,
        ))
