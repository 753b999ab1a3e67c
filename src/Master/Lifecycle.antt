-- ===== src/Master/Lifecycle.antt =====
-- `ul_ecat_master_init` and `ul_ecat_master_shutdown` of src/master/ul_ecat_master.c. What they call
-- of include/ul_ecat_transport.h and include/ul_ecat_osal.h is a parameter: operations on a state
-- that is the operating system's. Their messages have no counterpart.
pub mod Sockets
use ul_ecat.Common.{ℕ, List, Option, none, some, Bool, true, false, if◌then◌else◌}
use ul_ecat.Wire.Ethernet.{Mac}
use ul_ecat.Master.Clock.{Cyclic}

-- `open` is `none` where `ul_ecat_transport_open` is negative, `worker_start` is true where its
-- result is 0.
pub record Platform (W : Type 0) : Type 0 where
  pub osal_init : W → W
  pub osal_shutdown : W → W
  pub open_socket : W → List ℕ → W × Option ℕ
  pub close_socket : W → ℕ → W
  pub realtime_hint : W → ℕ → W
  pub worker_start : W → ℕ → W × Bool
  pub worker_join : W → W

-- ul_ecat_master_settings_t, without the nominal cycle, which is not read.
pub record Settings : Type 0 where
  pub iface_name : List ℕ
  pub dst_mac : Mac
  pub src_mac : Mac
  pub rt_priority : ℕ
  pub dc_enable : Bool

-- The globals: `sockfd` is `none` where `g_sockfd` is negative.
pub record Master : Type 0 where
  pub sockfd : Option ℕ
  pub dst_mac : Mac
  pub src_mac : Mac
  pub running : Bool
  pub cyclic : Cyclic

-- The globals once the socket is open.
unfoldable pub configured : Settings → ℕ → Master → Master
configured cfg s m = record {
  sockfd = some s;
  dst_mac = cfg.dst_mac;
  src_mac = cfg.src_mac;
  running = true;
  cyclic = record m.cyclic {
    clock = record m.cyclic.clock { state = if cfg.dc_enable then 1 else 0 };
    queue = record m.cyclic.queue { index_seq = 0 };
  };
}

module _ {W : Type 0} (platform : Platform W) where
  unfoldable pub start_worker : ℕ → Master → W × Bool → (W × Master) × Bool
  start_worker s m (w, true) = ((w, m), true)
  start_worker s m (w, false) = ((platform.close_socket w s, record m { sockfd = none }), false)

  unfoldable pub opened : Settings → Master → W × Option ℕ → (W × Master) × Bool
  unfolding start_worker
  opened cfg m (w, none) = ((w, m), false)
  opened cfg m (w, some s) =
      start_worker s (configured cfg s m)
        (platform.worker_start (platform.realtime_hint w cfg.rt_priority) cfg.rt_priority)

  -- True is the 0; no settings are the null pointer.
  unfoldable pub master_init : Option Settings → W → Master → (W × Master) × Bool
  unfolding opened
  master_init none w m = ((w, m), false)
  master_init (some cfg) w m =
      opened cfg m (platform.open_socket (platform.osal_init w) cfg.iface_name)

  unfoldable pub closed : W → Master → Option ℕ → (W × Master) × Bool
  closed w m none = ((w, m), false)
  closed w m (some s) = (
    (
      platform.osal_shutdown (platform.close_socket (platform.worker_join w) s),
      record m { sockfd = none; running = false },
    ),
    true,
  )

  unfoldable pub master_shutdown : W → Master → (W × Master) × Bool
  unfolding closed
  master_shutdown w m = closed w m m.sockfd
