-- ===== src/Tests/Commands.antt =====
-- Runs of the command line.
use ul_ecat.Common.{ℕ, ◌+◌, ◌≡◌, refl, List, [], ◌∷◌, none, inl, true, false, codes, replicate}
use ul_ecat.Master.{Transport}
use ul_ecat.Master.Tool.{Process, Host, app_execute}
use ul_ecat.Master.Tool.Sockets.{tracked_host, IsStopped, app_execute-IsStopped}
use ul_ecat.Master.Tool.Unscanned.{unscanned, app_execute-unscanned}
use ul_ecat.Tests.Lifecycle.{platform, unused}

-- A network on which nothing comes back, and one on which nothing can be sent.
abbrev silent : Transport ℕ
silent = record {
  send = λ n frame. (n + 1, true);
  wait_readable = λ n ms. (n, false);
  recv = λ n room. (n, none);
  sleep_us = λ n us. n;
  sleep_until_ns = λ n ns. n;
  monotonic_ns = λ n. (n, 0);
}

abbrev broken : Transport ℕ
broken = record silent { send = λ n frame. (n + 1, false) }

abbrev host : Host ℕ
host = record {
  platform = platform;
  transport = silent;
  files = λ name. none;
  stack = 0 ∷ 0 ∷ 0 ∷ 0 ∷ [];
  raw = 0 ∷ 0 ∷ [];
  buf = replicate 512 0;
}

abbrev stopped : Process (ℕ × List ℕ)
stopped = record { world = (0, []); master = unused; slaves_db = [] }

abbrev read_args : List (List ℕ)
read_args = codes "tool" ∷ codes "eth0" ∷ codes "read" ∷ codes "1001" ∷ codes "130" ∷ codes "2" ∷ []

app_execute-IsStopped_example : IsStopped (app_execute (tracked_host host) stopped read_args).0
app_execute-IsStopped_example = app_execute-IsStopped host stopped read_args (refl, refl)

abbrev request_op : List (List ℕ)
request_op = codes "tool" ∷ codes "eth0" ∷ codes "slave-state" ∷ codes "0" ∷ codes "8" ∷ []

app_execute-unscanned_example :
    (app_execute host (unscanned 0 unused) request_op
      ≡ app_execute (record host { transport = broken }) (unscanned 0 unused) request_op)
    × ((app_execute host (unscanned 0 unused) request_op).0.slaves_db ≡ [])
app_execute-unscanned_example = app_execute-unscanned host broken 0 unused request_op (inl refl)
