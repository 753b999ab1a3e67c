-- ===== src/Master/Exchange.antt =====
-- What the operations of a transport keep, the accesses of the master keep.
pub mod Requests
use ul_ecat.Common.{
  ℕ, zero, suc, ◌+◌, List, [], Option, none, some, Option-cases, inl, inr, Bool, true, false,
  Bool-cases, ltb, ◌==◌, if◌then◌else◌, length, take, u8, u16, bit_and, w16_le,
}
use ul_ecat.Al.{al_control_word}
use ul_ecat.Wire.Ethernet.{build_eth_frame}
use ul_ecat.Wire.Datagram.{cmd_fprd, cmd_fpwr, cmd_apwr, dgram_encode}
use ul_ecat.Slave.Esc.{
  reg_alctl, reg_alstat, reg_stadr, reg_vendor, reg_product, reg_rev, reg_serial,
}
use ul_ecat.Master.{
  Transport, Port, Access, counted, send_built, send_ec_payload, recv_ready, recv_eth_frame,
  received, after_send, exchange_ec_payload, answered, exchange_dgram, apwr_blocking, fprd_blocking,
  fpwr_blocking,
}
use ul_ecat.Master.Scan.{
  Station, is_counted, valued, read_u32, identify, listed, scan_from, max_slaves, scan_network,
}
use ul_ecat.Master.State.{
  status_of, read_al_status_blocking, done_of, write_al_control_blocking, shown_state, after_status,
  poll_loop, station_at, polled, poll_slave_state, acknowledged, request_slave_state,
}
use ul_ecat.Master.Sync.{read_of, fprd_sync, fpwr_sync}

-- The operations of the transport that an access uses keep the predicate.
pub record Keeps {W : Type 0} (t : Transport W) (P : W → Type 0) : Type 0 where
  pub send : (w : W) (frame : List ℕ) → P w → P (t.send w frame).0
  pub wait_readable : (w : W) (ms : ℕ) → P w → P (t.wait_readable w ms).0
  pub recv : (w : W) (room : ℕ) → P w → P (t.recv w room).0
  pub sleep_us : (w : W) (us : ℕ) → P w → P (t.sleep_us w us)

module _ {W : Type 0} (t : Transport W) (P : W → Type 0) (k : Keeps t P) where
  send_built_kept : (w : W) (frame : Option (List ℕ)) → P w → P (send_built t w frame).0
  unfolding send_built
  send_built_kept w none h = h
  send_built_kept w (some frame) h = k.send w frame h

  recv_ready_kept : (room : ℕ) (r : W × Bool) → P r.0 → P (recv_ready t room r).0
  unfolding recv_ready
  recv_ready_kept room (w, true) h = k.recv w room h
  recv_ready_kept room (w, false) h = h

  received_kept : (cap : ℕ) (r : W × Option (List ℕ)) → P r.0 → P (received cap r).0
  unfolding received
  received_kept cap (w, rx) h = h

  after_send_kept : (cap ms : ℕ) (r : W × Bool) → P r.0 → P (after_send t cap ms r).0
  unfolding after_send recv_eth_frame
  after_send_kept cap ms (w, false) h = h
  after_send_kept cap ms (w, true) h =
      received_kept cap (recv_ready t 1600 (t.wait_readable w ms))
        (recv_ready_kept 1600 (t.wait_readable w ms) (k.wait_readable w ms h))

  exchange_ec_payload_kept :
      (port : Port) (w : W) (pdu : List ℕ) (cap ms : ℕ)
      → P w
      → P (exchange_ec_payload t port w pdu cap ms).0
  unfolding exchange_ec_payload send_ec_payload
  exchange_ec_payload_kept port w pdu cap ms h =
      after_send_kept cap ms (send_built t w (build_eth_frame port.dst_mac port.src_mac pdu 1600))
        (send_built_kept w (build_eth_frame port.dst_mac port.src_mac pdu 1600) h)

  answered_kept :
      (out : List ℕ) (data_out : Option ℕ) (r : W × Option (List ℕ))
      → P r.0
      → P (answered out data_out r).0
  unfolding answered
  answered_kept out data_out (w, resp) h = h

  exchange_dgram_kept :
      (port : Port) (w : W) (dg : Option (List ℕ)) (out : List ℕ) (data_out : Option ℕ) (ms : ℕ)
      → P w
      → P (exchange_dgram t port w dg out data_out ms).0
  unfolding exchange_dgram
  exchange_dgram_kept port w none out data_out ms h = h
  exchange_dgram_kept port w (some dg) out data_out ms h =
      answered_kept out data_out (exchange_ec_payload t port w dg 512 ms)
        (exchange_ec_payload_kept port w dg 512 ms h)

  pub apwr_blocking_kept :
      (port : Port) (w : W) (adp ado : ℕ) (bytes : List ℕ) (ms : ℕ)
      → P w
      → P (apwr_blocking t port w adp ado bytes ms).0
  unfolding apwr_blocking
  apwr_blocking_kept port w adp ado bytes ms h =
      exchange_dgram_kept port w
        (dgram_encode 512 cmd_apwr 0 adp ado (length bytes) 0 0 (some bytes)) bytes none ms h

  pub fprd_blocking_kept :
      (port : Port) (w : W) (station ado : ℕ) (out : List ℕ) (ms : ℕ)
      → P w
      → P (fprd_blocking t port w station ado out ms).0
  unfolding fprd_blocking
  fprd_blocking_kept port w station ado out ms h =
      exchange_dgram_kept port w (dgram_encode 512 cmd_fprd 0 station ado (length out) 0 0 none) out
        (some (length out)) ms h

  pub fpwr_blocking_kept :
      (port : Port) (w : W) (adp ado : ℕ) (bytes : List ℕ) (ms : ℕ)
      → P w
      → P (fpwr_blocking t port w adp ado bytes ms).0
  unfolding fpwr_blocking
  fpwr_blocking_kept port w adp ado bytes ms h =
      exchange_dgram_kept port w
        (dgram_encode 512 cmd_fpwr 0 adp ado (length bytes) 0 0 (some bytes)) bytes none ms h

  pub either_kept : {A : Type 0} (b : Bool) (r s : W × A) → P r.0 → P s.0 → P (if b then r else s).0
  either_kept true r s hr hs = hr
  either_kept false r s hr hs = hs

  read_of_kept : (r : W × Access) → P r.0 → P (read_of r).0
  unfolding read_of
  read_of_kept (w, a) h = h

  pub fprd_sync_kept :
      (port : Port) (w : W) (adp ado len : ℕ) (out : List ℕ) (ms : ℕ)
      → P w
      → P (fprd_sync t port w adp ado len out ms).0
  unfolding fprd_sync
  fprd_sync_kept port w adp ado len out ms h = either_kept (len == 0) _ _ h (
      either_kept (ltb (length out) len) _ _ h (
        either_kept port.is_open _ _
          (either_kept (ltb 512 len) _ _ h (
            read_of_kept (fprd_blocking t port w adp ado (take len out) ms)
              (fprd_blocking_kept port w adp ado (take len out) ms h)))
          h))

  pub fpwr_sync_kept :
      (port : Port) (w : W) (adp ado : ℕ) (bytes : List ℕ) (ms : ℕ)
      → P w
      → P (fpwr_sync t port w adp ado bytes ms).0
  unfolding fpwr_sync
  fpwr_sync_kept port w adp ado bytes ms h = either_kept (length bytes == 0) _ _ h (
      either_kept port.is_open _ _
        (either_kept (ltb 512 (length bytes)) _ _ h (
          read_of_kept (fpwr_blocking t port w adp ado bytes ms)
            (fpwr_blocking_kept port w adp ado bytes ms h)))
        h)
