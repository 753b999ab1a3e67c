-- ===== src/Tests/Lifecycle.antt =====
-- The start and the shutdown of the master.
use ul_ecat.Common.{ℕ, ◌+◌, ◌≡◌, refl, List, [], none, some, true, ltb}
use ul_ecat.Master.Lifecycle.{Platform, Settings, Master, configured, master_init, master_shutdown}
use ul_ecat.Master.Lifecycle.Sockets.{tracked}
use ul_ecat.Tests.{master_mac, slave_mac}

-- A platform that gives the sockets 3, 4, … and fails to start the second worker.
abbrev pub platform : Platform ℕ
platform = record {
  osal_init = λ n. n;
  osal_shutdown = λ n. n;
  open_socket = λ n name. (n + 1, some (3 + n));
  close_socket = λ n fd. n;
  realtime_hint = λ n priority. n;
  worker_start = λ n priority. (n, ltb n 2);
  worker_join = λ n. n;
}

abbrev pub settings : Settings
settings = record {
  iface_name = [];
  dst_mac = slave_mac;
  src_mac = master_mac;
  rt_priority = 0;
  dc_enable = true;
}

abbrev pub unused : Master
unused = record {
  sockfd = none;
  dst_mac = slave_mac;
  src_mac = master_mac;
  running = true;
  cyclic = record {
    clock = record { state = 0; offset = 0; timeout = 0; error_code = 0 };
    queue = record { items = []; index_seq = 0 };
    events = [];
  };
}

abbrev started_once : (ℕ × List ℕ) × Master
started_once = (master_init (tracked platform) (some settings) (0, []) unused).0

abbrev stopped_once : (ℕ × List ℕ) × Master
stopped_once = (master_shutdown (tracked platform) started_once.0 started_once.1).0

stopped_sockfd : stopped_once.1.sockfd ≡ none
unfolding master_init master_shutdown configured
stopped_sockfd = refl
