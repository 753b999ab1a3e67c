-- ===== src/Posix.antt =====
-- The transport and the operating system layer of Linux and NuttX, which differ only in the order of
-- declarations and in that NuttX does not lock memory: src/transport/transport_linux.c with
-- src/osal/osal_linux.c, and src/transport/transport_nuttx.c with src/osal/osal_nuttx.c. The system
-- calls are a parameter: operations on a state that is the system's. The mutexes and the condition
-- variable are passed on as they are and have no counterpart.
pub mod Counted
pub mod Resources
use ul_ecat.Common.{
  ℕ, ◌+◌, ◌*◌, ◌/◌, ◌%◌, ◌^◌, List, Option, none, some, Bool, true, false, ◌==◌, if◌then◌else◌,
  take,
}
use ul_ecat.Master.{Transport}
use ul_ecat.Master.Lifecycle.{Platform}

-- `none` and false where a call fails. `create_rt` is pthread_create with the scheduling attributes
-- for a priority, `create` the one without attributes.
pub record Posix (W : Type 0) : Type 0 where
  pub socket : W → W × Option ℕ
  pub if_index : W → ℕ → List ℕ → W × Option ℕ
  pub bind : W → ℕ → ℕ → W × Bool
  pub close : W → ℕ → W
  pub send : W → ℕ → List ℕ → W × Bool
  pub recv : W → ℕ → ℕ → W × Option (List ℕ)
  pub select : W → ℕ → ℕ → ℕ → W × Bool
  pub clock_gettime : W → W × (ℕ × ℕ)
  pub clock_nanosleep : W → ℕ → ℕ → W
  pub usleep : W → ℕ → W
  pub set_realtime : W → ℕ → W
  pub create_rt : W → ℕ → W × Option ℕ
  pub create : W → W × Option ℕ
  pub join : W → ℕ → W

-- The system, `g_worker_id` and `g_worker_started`.
pub record Osal (W : Type 0) : Type 0 where
  pub world : W
  pub worker_id : ℕ
  pub worker_started : Bool

module _ {W : Type 0} (p : Posix W) where
  bound : ℕ → W × Bool → W × Option ℕ
  bound s (w, false) = (p.close w s, none)
  bound s (w, true) = (w, some s)

  indexed : ℕ → W × Option ℕ → W × Option ℕ
  unfolding bound
  indexed s (w, none) = (p.close w s, none)
  indexed s (w, some ifindex) = bound s (p.bind w s ifindex)

  with_socket : List ℕ → W × Option ℕ → W × Option ℕ
  unfolding indexed
  with_socket ifname (w, none) = (w, none)
  with_socket ifname (w, some s) = indexed s (p.if_index w s (take 15 ifname))

  -- The name is not null; IFNAMSIZ is 16.
  unfoldable pub transport_open : W → List ℕ → W × Option ℕ
  unfolding with_socket
  transport_open w ifname = with_socket ifname (p.socket w)

  unfoldable pub transport_close : W → ℕ → W
  transport_close w fd = p.close w fd

  unfoldable pub transport_wait_readable : W → ℕ → ℕ → W × Bool
  transport_wait_readable w fd timeout_ms =
      p.select w fd (timeout_ms / 1000) (timeout_ms % 1000 * 1000)

  in_ns : W × (ℕ × ℕ) → W × ℕ
  in_ns (w, (sec, nsec)) = (w, (sec * 1000000000 + nsec) % 2 ^ 64)

  unfoldable pub osal_monotonic_ns : W → W × ℕ
  unfolding in_ns
  osal_monotonic_ns w = in_ns (p.clock_gettime w)

  -- The sleep, and `*abs_ns` afterwards.
  unfoldable pub osal_sleep_until_ns : W → ℕ → ℕ → W × ℕ
  osal_sleep_until_ns w abs_ns period_ns = (
    p.clock_nanosleep w (abs_ns / 1000000000) (abs_ns % 1000000000),
    (abs_ns + period_ns) % 2 ^ 64,
  )

  -- A priority is not negative.
  unfoldable pub osal_realtime_hint : Osal W → ℕ → Osal W
  osal_realtime_hint o rt_priority =
      if rt_priority == 0 then o else record o { world = p.set_realtime o.world rt_priority }

  retried : Osal W → W × Option ℕ → Osal W × Bool
  retried o (w, none) = (record o { world = w }, false)
  retried o (w, some id) = (record { world = w; worker_id = id; worker_started = true }, true)

  created : Osal W → W × Option ℕ → Osal W × Bool
  unfolding retried
  created o (w, none) = retried o (p.create w)
  created o (w, some id) = (record { world = w; worker_id = id; worker_started = true }, true)

  -- True is the 0.
  unfoldable pub osal_worker_start : Osal W → ℕ → Osal W × Bool
  unfolding created
  osal_worker_start o rt_priority = created o (p.create_rt o.world rt_priority)

  unfoldable pub osal_worker_join : Osal W → Osal W
  osal_worker_join o =
      if o.worker_started
      then record o { world = p.join o.world o.worker_id; worker_started = false }
      else o

  over : Osal W → W × Option ℕ → Osal W × Option ℕ
  over o (w, fd) = (record o { world = w }, fd)

  -- What the start and the shutdown of the master ask for.
  unfoldable pub posix_platform : Platform (Osal W)
  unfolding over
  posix_platform = record {
    osal_init = λ o. o;
    osal_shutdown = λ o. o;
    open_socket = λ o name. over o (transport_open o.world name);
    close_socket = λ o fd. record o { world = transport_close o.world fd };
    realtime_hint = osal_realtime_hint;
    worker_start = osal_worker_start;
    worker_join = osal_worker_join;
  }

  -- What an exchange of the master on the socket `fd` asks for.
  unfoldable pub posix_transport : ℕ → Transport W
  posix_transport fd = record {
    send = λ w frame. p.send w fd frame;
    wait_readable = λ w ms. transport_wait_readable w fd ms;
    recv = λ w room. p.recv w fd room;
    sleep_us = λ w us. p.usleep w us;
    sleep_until_ns = λ w abs. p.clock_nanosleep w (abs / 1000000000) (abs % 1000000000);
    monotonic_ns = osal_monotonic_ns;
  }
