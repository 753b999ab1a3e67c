-- ===== src/Tests/System.antt =====
-- Systems under the master and the ports: their sockets, threads, packets, locks and clocks.
use ul_ecat.Common.{
  ℕ, ◌+◌, ◌*◌, ◌≤◌, ◌≡◌, ◌≢◌, refl, List, [], ◌∷◌, none, some, true, false, arith, codes, replicate,
}
use ul_ecat.Master.Lifecycle.{Master, master_init, master_shutdown}
use ul_ecat.Posix.{Posix, Osal, posix_platform}
use ul_ecat.Posix.Counted.{Used, counted}
use ul_ecat.Posix.Resources.{IsHolder, here, starts, stops, Runs-IsHolder}
use ul_ecat.Zephyr.{Net, Netdev, netdev_open, netdev_send, KernelClock, zephyr_sleep_until_ns}
use ul_ecat.Zephyr.Interface.{Taken, counting, IsTidy, idle, opens, sends, Uses-IsTidy}
use ul_ecat.Zephyr.Sleep.{IsClock, zephyr_sleep_until_ns_enough}
use ul_ecat.Lan9252.Selected.Operations.{Call, reads_core, writes_register, calls}
use ul_ecat.Lan9252.Ports.{
  Zephyr, Hal, hal_init, hal_select, hal_deselect, zephyr_spi, Nuttx, NuttxHal, nuttx_spi,
}
use ul_ecat.Lan9252.Ports.Locks.{
  Lock, free, with_lock, zephyr_calls-Free, with_spi_lock, nuttx_calls-IsFree,
}
use ul_ecat.Lan9252.Ports.ChipSelect.{with_level, first_select_level}
use ul_ecat.Tests.Lifecycle.{settings, unused}

-- A system that gives the sockets and threads 3, 4, … and starts threads only without attributes.
abbrev small_system : Posix ℕ
small_system = record {
  socket = λ n. (n + 1, some (3 + n));
  if_index = λ n fd name. (n, some 2);
  bind = λ n fd i. (n, true);
  close = λ n fd. n;
  send = λ n fd frame. (n, true);
  recv = λ n fd room. (n, none);
  select = λ n fd sec usec. (n, false);
  clock_gettime = λ n. (n, (n, 0));
  clock_nanosleep = λ n sec nsec. n;
  usleep = λ n us. n;
  set_realtime = λ n priority. n;
  create_rt = λ n priority. (n, none);
  create = λ n. (n + 1, some (3 + n));
  join = λ n id. n;
}

abbrev osal : Osal (ℕ × Used)
osal = record {
  world = (0, record { sockets = []; threads = [] });
  worker_id = 0;
  worker_started = false;
}

abbrev up : (Osal (ℕ × Used) × Master)
up = (master_init (posix_platform (counted small_system)) (some settings) osal unused).0

Runs-IsHolder_example :
    IsHolder
      (master_shutdown (posix_platform (counted small_system)) up.0 up.1).0.0
      (master_shutdown (posix_platform (counted small_system)) up.0 up.1).0.1
Runs-IsHolder_example =
    Runs-IsHolder small_system {o = osal} {m = unused}
      (record { sockets = refl; threads = refl; runs = refl })
      (stops (starts (some settings) here refl))

-- A network that gives sockets and packets, and on which no packet takes the bytes.
abbrev small_net : Net ℕ
small_net = record {
  if_by_name = λ n name. (n, some 1);
  if_by_index = λ n i. (n, some 7);
  socket = λ n. (n + 1, some (3 + n));
  bind = λ n fd i. (n, true);
  close = λ n fd. n;
  poll = λ n fd ms. (n, false);
  send = λ n fd bytes. (n, true);
  recv = λ n fd room. (n, none);
  pkt_alloc = λ n netif len. (n + 1, some (3 + n));
  pkt_write = λ n pkt bytes. (n, false);
  pkt_unref = λ n pkt. n;
  queue_tx = λ n netif pkt. n;
}

abbrev netdev : Netdev (ℕ × Taken)
netdev = record { world = (0, record { sockets = []; packets = [] }); netif = none }

abbrev opened_netdev : Netdev (ℕ × Taken)
opened_netdev = (netdev_open (counting small_net) netdev (codes "eth0")).0

Uses-IsTidy_example :
    IsTidy
      (netdev_send (counting small_net) opened_netdev (1 ∷ [])).0
      (netdev_open (counting small_net) netdev (codes "eth0")).1
Uses-IsTidy_example =
    Uses-IsTidy small_net {d = netdev} (record { sockets = refl; netif = refl; packets = refl })
      (sends (1 ∷ []) (opens (codes "eth0") idle))

-- A clock on which every millisecond lasts 50 ns more.
abbrev clock : KernelClock ℕ
clock = record {
  uptime_ns = λ n. n;
  msleep = λ n ms. n + ms * 1000050;
  usleep = λ n us. n + us * 1000;
}

clock-IsClock : IsClock clock
clock-IsClock = record {
  msleep_least = λ n. omega arith;
  msleep_most = λ n. omega arith;
  usleep_least = λ n us. omega arith;
}

zephyr_sleep_until_ns_enough_example :
    (5000000 ≤ (zephyr_sleep_until_ns clock 5 1000000 5000000 1000000).0)
    × ((zephyr_sleep_until_ns clock 5 1000000 5000000 1000000).1 ≡ 6000000)
zephyr_sleep_until_ns_enough_example =
    zephyr_sleep_until_ns_enough clock clock-IsClock 5 1000000 5000000 1000000 (omega arith)
      (omega arith) (omega arith)

-- A kernel on which everything succeeds but the reads of the bus.
abbrev kernel : Zephyr ℕ
kernel = record {
  is_ready = λ n. true;
  has_cs = λ n. true;
  configure_inactive = λ n. (n, true);
  mutex_init = λ n. n;
  mutex_lock = λ n. (n + 1, true);
  mutex_unlock = λ n. n;
  pin_set = λ n v. (n, true);
  spi_write = λ n bytes. (n, true);
  spi_read = λ n len. (n, none);
  busy_wait = λ n us. n;
  usleep = λ n us. n;
}

abbrev two_calls : List Call
two_calls = reads_core 0x120 2 ∷ writes_register 0x1f8 1 ∷ []

abbrev unlocked : Hal (ℕ × Lock)
unlocked = record { world = (0, free); ready = true }

zephyr_calls-Free_example :
    (calls (zephyr_spi (with_lock kernel)) two_calls unlocked).world.1 ≡ free
zephyr_calls-Free_example = zephyr_calls-Free kernel two_calls unlocked refl

abbrev idle_line : Hal (ℕ × ℕ)
idle_line = record { world = (0, 1); ready = false }

first_select_level_example :
    ((hal_select (with_level kernel) (hal_init (with_level kernel) idle_line).0).0.world.1
      ≡ (hal_init (with_level kernel) idle_line).0.world.1)
    × ((hal_deselect
          (with_level kernel)
          (hal_select (with_level kernel) (hal_init (with_level kernel) idle_line).0).0).world.1
        ≢ (hal_init (with_level kernel) idle_line).0.world.1)
unfolding hal_init hal_select
first_select_level_example = first_select_level kernel idle_line refl refl refl

abbrev bus : Nuttx ℕ ℕ
bus = record {
  lock = λ n dev b. n + 1;
  select_device = λ n dev devid b. n;
  send_block = λ n dev bytes. n;
  recv_block = λ n dev len. (n, replicate len 0);
  udelay = λ n us. n;
}

abbrev nuttx_unlocked : NuttxHal (ℕ × Lock) ℕ
nuttx_unlocked = record { world = (0, free); spidev = some 1; devid = 0; inited = true }

nuttx_calls-IsFree_example :
    (calls (nuttx_spi (with_spi_lock bus)) two_calls nuttx_unlocked).world.1 ≡ free
nuttx_calls-IsFree_example = nuttx_calls-IsFree bus two_calls nuttx_unlocked refl
