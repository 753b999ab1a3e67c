-- ===== src/Zephyr.antt =====
-- The transports and the clock of Zephyr: src/transport/transport_zephyr.c,
-- src/transport/transport_zephyr_netdev.c, and the sleep and the worker of src/osal/osal_zephyr.c.
-- The calls of the kernel are parameters: operations on a state that is the kernel's. The mutexes
-- and the condition variable are passed on as they are and have no counterpart.
pub mod Interface
pub mod Sleep
use ul_ecat.Common.{
  ℕ, zero, suc, ◌+◌, ◌-◌, ◌/◌, ◌%◌, ◌^◌, List, Option, none, some, Bool, true, false, ltb, ◌==◌,
  ◌&&◌, if◌then◌else◌, u32, length,
}

-- `none` and false where a call fails. `pkt_alloc` gives a packet, which `pkt_unref` releases and
-- `queue_tx` hands to the interface.
pub record Net (W : Type 0) : Type 0 where
  pub if_by_name : W → List ℕ → W × Option ℕ
  pub if_by_index : W → ℕ → W × Option ℕ
  pub socket : W → W × Option ℕ
  pub bind : W → ℕ → ℕ → W × Bool
  pub close : W → ℕ → W
  pub poll : W → ℕ → ℕ → W × Bool
  pub send : W → ℕ → List ℕ → W × Bool
  pub recv : W → ℕ → ℕ → W × Option (List ℕ)
  pub pkt_alloc : W → ℕ → ℕ → W × Option ℕ
  pub pkt_write : W → ℕ → List ℕ → W × Bool
  pub pkt_unref : W → ℕ → W
  pub queue_tx : W → ℕ → ℕ → W

module _ {W : Type 0} (n : Net W) where
  bound : ℕ → W × Bool → W × Option ℕ
  bound s (w, false) = (n.close w s, none)
  bound s (w, true) = (w, some s)

  with_socket : ℕ → W × Option ℕ → W × Option ℕ
  unfolding bound
  with_socket ifindex (w, none) = (w, none)
  with_socket ifindex (w, some s) = bound s (n.bind w s ifindex)

  with_index : W × Option ℕ → W × Option ℕ
  unfolding with_socket
  with_index (w, none) = (w, none)
  with_index (w, some ifindex) = with_socket ifindex (n.socket w)

  -- `ul_ecat_transport_open` over packet sockets; the name is not null.
  unfoldable pub socket_open : W → List ℕ → W × Option ℕ
  unfolding with_index
  socket_open w ifname = with_index (n.if_by_name w ifname)

  unfoldable pub socket_close : W → ℕ → W
  socket_close w fd = n.close w fd

  unfoldable pub socket_send : W → ℕ → List ℕ → W × Bool
  socket_send w fd bytes = n.send w fd bytes

  unfoldable pub socket_recv : W → ℕ → ℕ → W × Option (List ℕ)
  socket_recv w fd room = n.recv w fd room

  unfoldable pub socket_wait_readable : W → ℕ → ℕ → W × Bool
  socket_wait_readable w fd timeout_ms = n.poll w fd timeout_ms

-- The transport that sends through an interface: the kernel, and `g_netif`.
pub record Netdev (W : Type 0) : Type 0 where
  pub world : W
  pub netif : Option ℕ

module _ {W : Type 0} (n : Net W) where
  netdev_bound : Netdev W → ℕ → W × Bool → Netdev W × Option ℕ
  netdev_bound d s (w, false) = (record { world = n.close w s; netif = none }, none)
  netdev_bound d s (w, true) = (record d { world = w }, some s)

  netdev_socket : Netdev W → ℕ → W × Option ℕ → Netdev W × Option ℕ
  unfolding netdev_bound
  netdev_socket d ifindex (w, none) = (record { world = w; netif = none }, none)
  netdev_socket d ifindex (w, some s) = netdev_bound (record d { world = w }) s (n.bind w s ifindex)

  netdev_interface : ℕ → W × Option ℕ → Netdev W × Option ℕ
  unfolding netdev_socket
  netdev_interface ifindex (w, none) = (record { world = w; netif = none }, none)
  netdev_interface ifindex (w, some netif) =
      netdev_socket (record { world = w; netif = some netif }) ifindex (n.socket w)

  netdev_index : Netdev W → W × Option ℕ → Netdev W × Option ℕ
  unfolding netdev_interface
  netdev_index d (w, none) = (record d { world = w }, none)
  netdev_index d (w, some ifindex) = netdev_interface ifindex (n.if_by_index w ifindex)

  unfoldable pub netdev_open : Netdev W → List ℕ → Netdev W × Option ℕ
  unfolding netdev_index
  netdev_open d ifname = netdev_index d (n.if_by_name d.world ifname)

  unfoldable pub netdev_close : Netdev W → ℕ → Netdev W
  netdev_close d fd = record { world = n.close d.world fd; netif = none }

  pkt_written : ℕ → ℕ → W × Bool → W × Bool
  pkt_written netif pkt (w, false) = (n.pkt_unref w pkt, false)
  pkt_written netif pkt (w, true) = (n.queue_tx w netif pkt, true)

  pkt_allocated : ℕ → List ℕ → W × Option ℕ → W × Bool
  unfolding pkt_written
  pkt_allocated netif bytes (w, none) = (w, false)
  pkt_allocated netif bytes (w, some pkt) = pkt_written netif pkt (n.pkt_write w pkt bytes)

  sent_through : Netdev W → List ℕ → Option ℕ → W × Bool
  unfolding pkt_allocated
  sent_through d bytes none = (d.world, false)
  sent_through d bytes (some netif) =
      pkt_allocated netif bytes (n.pkt_alloc d.world netif (length bytes))

  -- True where the length is the result, false where it is -1.
  unfoldable pub netdev_send : Netdev W → List ℕ → Netdev W × Bool
  unfolding sent_through
  netdev_send d bytes =
      let sent = sent_through d bytes d.netif in (record d { world = sent.0 }, sent.1)

-- The time since the start in nanoseconds, and the two sleeps.
pub record KernelClock (W : Type 0) : Type 0 where
  pub uptime_ns : W → ℕ
  pub msleep : W → ℕ → W
  pub usleep : W → ℕ → W

-- `a - b` of two `uint64_t`, and whether it is positive as an `int64_t`.
abbrev pub minus64 : ℕ → ℕ → ℕ
minus64 a b = (a + 2 ^ 64 - b) % 2 ^ 64

abbrev pub is_ahead : ℕ → ℕ → Bool
is_ahead a b = ltb 0 (minus64 a b) && ltb (minus64 a b) (2 ^ 63)

module _ {W : Type 0} (k : KernelClock W) where
  -- The sleep for what is left, below a millisecond.
  unfoldable pub sleep_rest : W → ℕ → W
  sleep_rest w wait_ns = if ltb 0 wait_ns then k.usleep w (u32 ((wait_ns + 999) / 1000)) else w

  -- The loop, which sleeps a millisecond in each turn.
  unfoldable pub sleep_loop : ℕ → W → ℕ → ℕ → W
  sleep_loop zero w abs_ns wait_ns = w
  sleep_loop (suc turns) w abs_ns wait_ns = elim (ltb 1000000 wait_ns) [
    | false ↦ sleep_rest w wait_ns
    | true ↦
        let later = k.msleep w 1 in
        elim (is_ahead abs_ns (k.uptime_ns later)) [
          | false ↦ later
          | true ↦ sleep_loop turns later abs_ns (minus64 abs_ns (k.uptime_ns later))
        ]
  ]

  -- The kernel and `*abs_ns` afterwards, with a number of turns for the loop.
  unfoldable pub zephyr_sleep_until_ns : ℕ → W → ℕ → ℕ → W × ℕ
  zephyr_sleep_until_ns turns w abs_ns period_ns = (
    if is_ahead abs_ns (k.uptime_ns w)
        then sleep_loop turns w abs_ns (minus64 abs_ns (k.uptime_ns w))
        else w,
    (abs_ns + period_ns) % 2 ^ 64,
  )
