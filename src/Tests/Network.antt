-- ===== src/Tests/Network.antt =====
-- The mailbox service of the controller and the polling of the master.
use ul_ecat.Common.{
  ℕ, ◌+◌, ◌≤◌, ◌≡◌, ◌≢◌, ◌⊎◌, refl, List, [], ◌∷◌, none, true, false, arith, bit_and, Memory, load,
  store,
}
use ul_ecat.Slave.Esc.{esc_size}
use ul_ecat.Slave.SyncManager.{
  sm_read, sm_is_usable, sm_is_active, sm_is_mailbox, sm_base, sm_ofs_status,
}
use ul_ecat.Coe.{Server}
use ul_ecat.Coe.Process.{coe_process}
use ul_ecat.Controller.{Controller, software_ethernet, dispatch_mailbox_if_ready}
use ul_ecat.Controller.Service.{IsReplied, IsDropped, dispatch_mailbox_answered}
use ul_ecat.Master.{Transport, Port}
use ul_ecat.Master.Queue.{send_batched_frames}
use ul_ecat.Master.Queue.Groups.{concat, AreBatches}
use ul_ecat.Master.Queue.Batches.{framed, recorder, send_batched_frames-AreBatches}
use ul_ecat.Tests.{master_mac, slave_mac, mailboxes}

-- A network on which nothing comes back; its state is the number of frames sent.
abbrev silent : Transport ℕ
silent = record {
  send = λ n frame. (n + 1, true);
  wait_readable = λ n timeout_ms. (n, false);
  recv = λ n room. (n, none);
  sleep_us = λ n us. n;
  sleep_until_ns = λ n ns. n;
  monotonic_ns = λ n. (n, 0);
}

abbrev port : Port
port = record { dst_mac = slave_mac; src_mac = master_mac; is_open = true }

-- A request to upload an object, in the SM0 buffer of a slave without a dictionary.
abbrev request_memory : Memory
request_memory =
    store (store mailboxes 0x805 (0x08 ∷ [])) 0xc00
      (10 ∷ 0 ∷ 0 ∷ 0 ∷ 0 ∷ 0x13 ∷ 0x00 ∷ 0x20 ∷ 0x40 ∷ 0x00 ∷ 0x10 ∷ 0x00 ∷ [])

abbrev idle_server : Server
idle_server = record {
  objects = λ _. 0;
  transfer = record { active = false; entry = none; offset = 0; toggle_expected = 0 };
}

abbrev controller : Controller ℕ
controller = record {
  slave = record { esc = request_memory; mac = slave_mac; logical_position = 0 };
  backend = software_ethernet;
  last_al_status = 1;
  last_al_event = 0;
  application = record { on_al_status = none; on_esc_event = none };
  user = 0;
  on_mailbox_rx = none;
  server = idle_server;
}

request_usable :
    (sm_is_usable (sm_read request_memory 0) ≡ true)
    × (bit_and (request_memory (sm_base 0 + sm_ofs_status)) 0x08 ≢ 0)
    × ((sm_read request_memory 0).start_addr + (sm_read request_memory 0).len ≤ esc_size)
    × (0x810 ≤ (sm_read request_memory 1).start_addr)
unfolding sm_is_usable sm_is_active sm_is_mailbox sm_read store
request_usable = (refl, omega arith, omega arith, omega arith)

dispatch_mailbox_answered_example :
    let after = dispatch_mailbox_if_ready none controller in
    let (server, reply) =
      coe_process none idle_server
        (load request_memory (sm_read request_memory 0).start_addr (sm_read request_memory 0).len)
        256 in
    (after ≡ record controller {
      slave = record controller.slave { esc = after.slave.esc };
      server = server;
    })
    × (IsReplied request_memory reply after.slave.esc
        ⊎ IsDropped request_memory reply after.slave.esc)
dispatch_mailbox_answered_example =
    dispatch_mailbox_answered none controller refl request_usable.0 request_usable.1
      request_usable.2 request_usable.3

send_batched_frames-AreBatches_example :
    (groups : List (List (List ℕ))) × (send_batched_frames recorder port []
        (record { items = (1 ∷ 2 ∷ []) ∷ (3 ∷ []) ∷ []; index_seq = 2 })
      ≡ (framed port groups, record { items = []; index_seq = 2 }))
    × (concat groups ≡ (1 ∷ 2 ∷ []) ∷ (3 ∷ []) ∷ [])
    × AreBatches groups
send_batched_frames-AreBatches_example =
    send_batched_frames-AreBatches port
      (record { items = (1 ∷ 2 ∷ []) ∷ (3 ∷ []) ∷ []; index_seq = 2 }) refl
      (omega arith, (omega arith, tt))
