-- ===== src/Master.antt =====
-- src/master/ul_ecat_master.c: blocking exchange of one datagram with the network. The transport
-- (include/ul_ecat_transport.h, one implementation per platform) is a parameter: operations
-- on a state that is the network's, and the clock and the sleeps of include/ul_ecat_osal.h, in
-- which the network goes on. `g_dst_mac`, `g_src_mac` and the test `g_sockfd < 0` are the
-- fields of `Port`; the lock around an exchange has no counterpart, since one exchange is one
-- step here.
pub mod State
pub mod Sync
pub mod Queue
pub mod Events
pub mod Clock
pub mod Receive
pub mod Scan
pub mod Lifecycle
pub mod Esi
pub mod Exchange
pub mod Tool
pub mod Loopback
use ul_ecat.Common.{
  ℕ, List, ◌++◌, Option, none, some, Bool, true, false, ◌>>=◌, ◌||◌, ltb, ◌==◌, if◌then◌else◌,
  length, drop,
}
use ul_ecat.Wire.Ethernet.{Mac, build_eth_frame, parse_eth_frame}
use ul_ecat.Wire.Datagram.{Parsed, cmd_fprd, cmd_fpwr, cmd_apwr, dgram_encode}
use ul_ecat.Wire.Pdu.{dgram_parse}

-- `send` is false where `ul_ecat_transport_send` is negative, `wait_readable` is true where
-- `ul_ecat_transport_wait_readable` is positive, and `recv` is `none` where
-- `ul_ecat_transport_recv` is negative.
pub record Transport (W : Type 0) : Type 0 where
  pub send : W → List ℕ → W × Bool
  pub wait_readable : W → ℕ → W × Bool
  pub recv : W → ℕ → W × Option (List ℕ)
  pub sleep_us : W → ℕ → W
  pub sleep_until_ns : W → ℕ → W
  pub monotonic_ns : W → W × ℕ

pub record Port : Type 0 where
  pub dst_mac : Mac
  pub src_mac : Mac
  pub is_open : Bool

send_built : {W : Type 0} → Transport W → W → Option (List ℕ) → W × Bool
send_built t w none = (w, false)
send_built t w (some frame) = t.send w frame

unfoldable pub send_ec_payload : {W : Type 0} → Transport W → Port → W → List ℕ → W × Bool
unfolding send_built
send_ec_payload t port w ec_payload =
    send_built t w (build_eth_frame port.dst_mac port.src_mac ec_payload 1600)

recv_ready : {W : Type 0} → Transport W → ℕ → W × Bool → W × Option (List ℕ)
recv_ready t room (w, true) = t.recv w room
recv_ready t room (w, false) = (w, none)

unfoldable pub recv_eth_frame : {W : Type 0} → Transport W → W → ℕ → ℕ → W × Option (List ℕ)
unfolding recv_ready
recv_eth_frame t w room timeout_ms = recv_ready t room (t.wait_readable w timeout_ms)

-- The datagrams of a frame that was received, if they fit `resp_cap`.
unfoldable pub payload_of : Option (List ℕ) → ℕ → Option (List ℕ)
payload_of none resp_cap = none
payload_of (some rx) resp_cap = do
  pdu ← parse_eth_frame rx
  if ltb resp_cap (length pdu) then none else some pdu

received : {W : Type 0} → ℕ → W × Option (List ℕ) → W × Option (List ℕ)
received resp_cap (w, rx) = (w, payload_of rx resp_cap)

after_send : {W : Type 0} → Transport W → ℕ → ℕ → W × Bool → W × Option (List ℕ)
unfolding received
after_send t resp_cap timeout_ms (w, false) = (w, none)
after_send t resp_cap timeout_ms (w, true) = received resp_cap (recv_eth_frame t w 1600 timeout_ms)

-- `none` is the -1.
unfoldable pub exchange_ec_payload :
    {W : Type 0} → Transport W → Port → W → List ℕ → ℕ → ℕ → W × Option (List ℕ)
unfolding after_send
exchange_ec_payload t port w ec_payload resp_cap timeout_ms =
    after_send t resp_cap timeout_ms (send_ec_payload t port w ec_payload)

-- The result of a blocking access: the working counter and the buffer `out` afterwards, or the
-- -1. A datagram that brings back fewer bytes than asked for leaves the rest of the buffer.
pub data Access : Type 0 where
  accessed : ℕ → List ℕ → Access
  failed : Access

unfoldable pub access_of : List ℕ → Option Parsed → Access
access_of out none = failed
access_of out (some p) = accessed p.wkc (p.copied ++ drop (length p.copied) out)

unfoldable pub answer_of : List ℕ → Option ℕ → Option (List ℕ) → Access
answer_of out data_out none = failed
answer_of out data_out (some resp) = access_of out (dgram_parse resp 0 data_out)

answered : {W : Type 0} → List ℕ → Option ℕ → W × Option (List ℕ) → W × Access
answered out data_out (w, resp) = (w, answer_of out data_out resp)

-- The common part of the three accesses: `data_out` is the capacity of `out`, or null.
exchange_dgram :
    {W : Type 0} → Transport W → Port → W → Option (List ℕ) → List ℕ → Option ℕ → ℕ → W × Access
unfolding answered
exchange_dgram t port w none out data_out timeout_ms = (w, failed)
exchange_dgram t port w (some dg) out data_out timeout_ms =
    answered out data_out (exchange_ec_payload t port w dg 512 timeout_ms)

unfoldable pub apwr_blocking :
    {W : Type 0} → Transport W → Port → W → ℕ → ℕ → List ℕ → ℕ → W × Access
unfolding exchange_dgram
apwr_blocking t port w adp_pos ado bytes timeout_ms =
    exchange_dgram t port w
      (dgram_encode 512 cmd_apwr 0 adp_pos ado (length bytes) 0 0 (some bytes)) bytes none
      timeout_ms

unfoldable pub fprd_blocking :
    {W : Type 0} → Transport W → Port → W → ℕ → ℕ → List ℕ → ℕ → W × Access
unfolding exchange_dgram
fprd_blocking t port w station ado out timeout_ms =
    exchange_dgram t port w (dgram_encode 512 cmd_fprd 0 station ado (length out) 0 0 none) out
      (some (length out)) timeout_ms

unfoldable pub fpwr_blocking :
    {W : Type 0} → Transport W → Port → W → ℕ → ℕ → List ℕ → ℕ → W × Access
unfolding exchange_dgram
fpwr_blocking t port w adp ado bytes timeout_ms =
    exchange_dgram t port w (dgram_encode 512 cmd_fpwr 0 adp ado (length bytes) 0 0 (some bytes))
      bytes none timeout_ms

-- The buffer of an access that at least one slave counted.
unfoldable pub counted : Access → Option (List ℕ)
counted failed = none
counted (accessed wkc out) = if ltb wkc 1 then none else some out
