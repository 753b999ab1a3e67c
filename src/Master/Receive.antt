-- ===== src/Master/Receive.antt =====
-- The frames that come back in a cycle, and the cycle itself, of src/master/ul_ecat_master.c.
pub mod Invariant
pub mod Timeout
use ul_ecat.Common.{
  ℕ, zero, suc, ◌+◌, ◌-◌, ◌*◌, List, ◌++◌, Option, none, some, Bool, ◌&&◌, ltb, leb, ◌==◌,
  if◌then◌else◌, length, take, drop, replicate, get_or, bit_or, ◌<<<◌, r32_le,
}
use ul_ecat.Wire.Datagram.{Parsed, cmd_fprd}
use ul_ecat.Wire.Pdu.{dgram_parse, Count, counted, malformed, out_of_fuel, pdu_count_datagrams}
use ul_ecat.Wire.Ethernet.{parse_eth_frame}
use ul_ecat.Slave.Ethernet.{mac_at}
use ul_ecat.Master.{Transport, Port}
use ul_ecat.Master.Queue.{Queue, send_batched_frames}
use ul_ecat.Master.Events.{Frame, frame_received, post_evt}
use ul_ecat.Master.Clock.{DcClock, Cyclic, reg_dcsys0, dc_init, dc_cycle, handle_dc_response}

-- `memcpy(&st, datab, 8)`
unfoldable pub r64_le : List ℕ → ℕ
r64_le p = r32_le p + r32_le (drop 4 p) * 4294967296

-- The time of the reference slave, of which a datagram carries an answer.
unfoldable pub is_dc_answer : Parsed → Bool
is_dc_answer p = p.cmd == cmd_fprd && p.ado == reg_dcsys0 && leb 8 p.data_len && leb 1 p.wkc

unfoldable pub rx_datagram : {W : Type 0} → Transport W → W → Cyclic → Option Parsed → W × Cyclic
rx_datagram t w m none = (w, m)
rx_datagram t w m (some p) =
    let now = t.monotonic_ns w in
    if is_dc_answer p then (now.0, handle_dc_response m now.1 (r64_le p.copied)) else (w, m)

-- The loop from datagram `i` on, with `left` rounds to go; a buffer of 32 bytes.
unfoldable pub rx_loop : {W : Type 0} → List ℕ → ℕ → ℕ → Transport W → W → Cyclic → W × Cyclic
rx_loop pdu zero i t w m = (w, m)
rx_loop pdu (suc left) i t w m =
    let after = rx_datagram t w m (dgram_parse pdu i (some 32)) in
    rx_loop pdu left (i + 1) t after.0 after.1

unfoldable pub process_rx_datagrams : {W : Type 0} → Transport W → W → Cyclic → List ℕ → W × Cyclic
process_rx_datagrams t w m pdu = elim (pdu_count_datagrams pdu) [
  | counted nd ↦ rx_loop pdu nd 0 t w m
  | malformed ↦ (w, m)
  | out_of_fuel ↦ (w, m)
]

-- The copy of a frame that fits an event, with zeros behind it.
unfoldable pub frame_of : List ℕ → Frame
frame_of rx =
    let payload : List ℕ = take 1500 (drop 14 rx) in
    record {
      dst_mac = mac_at rx;
      src_mac = mac_at (drop 6 rx);
      ethertype = bit_or (get_or rx 12 0 <<< 8) (get_or rx 13 0);
      payload = payload ++ replicate {A = ℕ} (1500 - length payload) 0;
    }

unfoldable pub received_frame : {W : Type 0} → Transport W → W → Cyclic → List ℕ → W × Cyclic
received_frame t w m rx = elim (parse_eth_frame rx) [
  | none ↦ (w, m)
  | some pdu ↦
      let after = process_rx_datagrams t w m pdu in
      if ltb 1514 (length rx) then after else (
        after.0,
        record after.1 {
          events = post_evt after.1.events (frame_received (frame_of rx) (length rx));
        },
      )
]

-- The loop reads until nothing is left; `turns` bounds the frames of one call.
unfoldable pub receive_loop : {W : Type 0} → ℕ → Transport W → W → Cyclic → W × Cyclic
receive_loop zero t w m = (w, m)
receive_loop (suc turns) t w m =
    let r = t.recv w 1600 in
    elim r.1 [
      | none ↦ (r.0, m)
      | some rx ↦ receive_loop turns t (received_frame t r.0 m rx).0 (received_frame t r.0 m rx).1
    ]

unfoldable pub receive_frames_nonblock :
    {W : Type 0} → ℕ → Transport W → Port → W → Cyclic → W × Cyclic
receive_frames_nonblock turns t port w m =
    let ready = t.wait_readable w 0 in
    if port.is_open
    then if ready.1 then receive_loop turns t ready.0 m else (ready.0, m)
    else (w, m)

-- CYCLE_TIME_NS
abbrev pub cycle_time_ns : ℕ
cycle_time_ns = 1000000

-- One round of `periodic_thread_func`.
unfoldable pub cycle : {W : Type 0} → ℕ → Transport W → Port → W → Cyclic → W × Cyclic
cycle turns t port w m =
    let asked : Cyclic = dc_cycle m in
    let sent = send_batched_frames t port w asked.queue in
    let after = receive_frames_nonblock turns t port sent.0 (record asked { queue = sent.1 }) in
    (t.sleep_until_ns after.0 cycle_time_ns, after.1)

-- The thread as long as `g_running` is set: `n` rounds.
unfoldable pub cycles : {W : Type 0} → ℕ → ℕ → Transport W → Port → W → Cyclic → W × Cyclic
cycles zero turns t port w m = (w, m)
cycles (suc n) turns t port w m =
    let after = cycle turns t port w m in cycles n turns t port after.0 after.1

unfoldable pub periodic_thread : {W : Type 0} → ℕ → ℕ → Transport W → Port → W → Cyclic → W × Cyclic
periodic_thread n turns t port w m =
    cycles n turns t port w (if m.clock.state == 1 then dc_init m else m)
