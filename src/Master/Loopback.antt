-- ===== src/Master/Loopback.antt =====
-- The master of src/master/ul_ecat_master.c on a line with one slave of src/slave: a transport whose
-- state is the slave and the frame on its way back.
pub mod Identify
pub mod Scan
use ul_ecat.Common.{
  ℕ, ◌+◌, ◌-◌, ◌≤◌, ◌<◌, ◌≡◌, refl, sym, ap, ◌∙◌, List, [], ◌∷◌, ◌++◌, append-nil, Option, none,
  some, ◌>>=◌, Bool, true, false, arith, ltb, leb, ◌&&◌, le→ltb, le→leb, if◌then◌else◌, length,
  drop, take, take_all, replicate, length-replicate,
}
use ul_ecat.Wire.Ethernet.{Mac, build_eth_frame, parse_eth_frame, max_ec_payload}
use ul_ecat.Wire.Ethernet.RoundTrip.{eth_frame, build_eth_frame_lem, parse_eth_frame-eth_frame}
use ul_ecat.Wire.Datagram.{
  Parsed, Dgram, copy_data, wire, IsDgram, parsed_of, dgram_encode, dgram_wire_size,
}
use ul_ecat.Wire.Datagram.RoundTrip.{
  length-wire, dgram_encode-wire, dgram_encode_zeros, parse_one_dgram-wire, copy_data-wire,
}
use ul_ecat.Wire.Pdu.{AreDgrams, wire_all, dgram_parse}
use ul_ecat.Slave.Esc.{Slave}
use ul_ecat.Slave.Ethernet.{slave_process_ethernet}
use ul_ecat.Slave.Ethernet.Reply.{slave_process_ethernet-eth_frame}
use ul_ecat.Wire.Pdu.Walk.{dgram_parse-zero}
use ul_ecat.Slave.Pdu.Access.{apwr, fprd}
use ul_ecat.Slave.Pdu.Refine.{respond, respond_all, length-respond}
use ul_ecat.Master.{
  Transport, Port, send_built, received, recv_ready, after_send, answered, exchange_dgram,
  send_ec_payload, recv_eth_frame, payload_of, exchange_ec_payload, Access, accessed, access_of,
  answer_of, apwr_blocking, fprd_blocking,
}

pub record Line : Type 0 where
  pub slave : Slave
  pub reply : Option (List ℕ)

abbrev is_there : Option (List ℕ) → Bool
is_there none = false
is_there (some frame) = true

abbrev taken : Slave × Option (List ℕ) → Line
taken (s, tx) = record { slave = s; reply = tx }

-- The slave answers into a buffer of 1600 bytes.
abbrev pub loopback : Transport Line
loopback = record {
  send = λ line frame. (taken (slave_process_ethernet line.slave frame 1600), true);
  wait_readable = λ line timeout_ms. (line, is_there line.reply);
  recv = λ line room. (record line { reply = none }, line.reply);
  sleep_us = λ line us. line;
  sleep_until_ns = λ line ns. line;
  monotonic_ns = λ line. (line, 0);
}

abbrev pub quiet : Slave → Line
quiet s = record { slave = s; reply = none }

wire_one : (d : Dgram) → wire_all (d ∷ []) ≡ wire d
unfolding wire_all
wire_one d = append-nil (wire d)

-- A datagram that fits one exchange.
pub record IsExchanged (s : Slave) (d : Dgram) : Type 0 where
  pub asks : IsDgram d
  pub answers : IsDgram (respond s d).1
  pub fits : length d.bytes ≤ 256

slave_answers :
    (s : Slave) (dst src : Mac) (d : Dgram)
    → IsExchanged s d
    → slave_process_ethernet s (eth_frame dst src (wire d)) 1600
      ≡ ((respond s d).0, some (eth_frame src s.mac (wire (respond s d).1)))
unfolding respond_all
slave_answers s dst src d x =
    ap (λ f. slave_process_ethernet s f 1600)
      (sym (append-nil (eth_frame dst src (wire d)))
        ∙ ap (λ p. eth_frame dst src p ++ []) (sym (wire_one d)))
    ∙ slave_process_ethernet-eth_frame s dst src (d ∷ []) [] 1600 (x.asks, tt) (x.fits, tt)
        (omega (arith, ap length (wire_one d), length-wire d, x.fits))
        (omega (arith, ap length (wire_one d), length-wire d, x.fits))
    ∙ ap (λ p. ((respond s d).0, some (eth_frame src s.mac p))) (wire_one (respond s d).1)

built :
    (port : Port) (s : Slave) (d : Dgram)
    → IsExchanged s d
    → build_eth_frame port.dst_mac port.src_mac (wire d) 1600
      ≡ some (eth_frame port.dst_mac port.src_mac (wire d))
built port s d x =
    build_eth_frame_lem port.dst_mac port.src_mac (wire d) 1600
    ∙ rw
        (
          le→leb (length (wire d)) max_ec_payload (omega (arith, length-wire d, x.fits)),
          le→leb (18 + length (wire d)) 1600 (omega (arith, length-wire d, x.fits)),
        )
        refl

send_loopback :
    (port : Port) (s : Slave) (d : Dgram)
    → IsExchanged s d
    → send_ec_payload loopback port (quiet s) (wire d) ≡ (
      record {
        slave = (respond s d).0;
        reply = some (eth_frame port.src_mac s.mac (wire (respond s d).1));
      },
      true,
    )
unfolding send_ec_payload send_built
send_loopback port s d x =
    ap (send_built loopback (quiet s)) (built port s d x)
    ∙ ap (λ r. (taken r, true)) (slave_answers s port.dst_mac port.src_mac d x)

length-answer : (s : Slave) (d : Dgram) → IsExchanged s d → length (wire (respond s d).1) ≤ 512
length-answer s d x = omega (arith, length-wire (respond s d).1, length-respond s d, x.fits)

payload_back :
    (dst src : Mac) (ec_payload : List ℕ)
    → length ec_payload ≤ 512
    → payload_of (some (eth_frame dst src ec_payload)) 512 ≡ some ec_payload
unfolding payload_of
payload_back dst src ec_payload h =
    rw
      (
        sym (append-nil (eth_frame dst src ec_payload)),
        parse_eth_frame-eth_frame dst src ec_payload [] (omega arith),
        le→ltb 512 (length ec_payload) h,
      )
      refl

-- An exchange of one datagram on the line is the answer of the slave to it.
exchange_loopback :
    (port : Port) (s : Slave) (d : Dgram) (timeout_ms : ℕ)
    → IsExchanged s d
    → exchange_ec_payload loopback port (quiet s) (wire d) 512 timeout_ms
      ≡ (quiet (respond s d).0, some (wire (respond s d).1))
unfolding exchange_ec_payload after_send received recv_eth_frame recv_ready
exchange_loopback port s d timeout_ms x =
    ap (after_send loopback 512 timeout_ms) (send_loopback port s d x)
    ∙ ap (λ p. (quiet (respond s d).0, p))
        (payload_back port.src_mac s.mac (wire (respond s d).1) (length-answer s d x))

-- The answer as it is parsed: without a buffer, and into one that has its size.
first_parsed :
    (d : Dgram) (data_out : Option ℕ)
    → IsDgram d
    → dgram_parse (wire d) 0 data_out
      ≡ (copy_data (wire d ++ []) (length d.bytes) data_out >>= λ out. some (parsed_of d out))
first_parsed d data_out h =
    ap (λ b. dgram_parse b 0 data_out) (sym (append-nil (wire d)))
    ∙ dgram_parse-zero d [] data_out h
    ∙ parse_one_dgram-wire d h [] data_out

write_access :
    (d : Dgram) (out : List ℕ)
    → IsDgram d
    → access_of out (dgram_parse (wire d) 0 none) ≡ accessed d.wkc out
unfolding access_of copy_data
write_access d out h = ap (access_of out) (first_parsed d none h)

read_access :
    (d : Dgram) (out : List ℕ)
    → IsDgram d
    → length d.bytes ≡ length out
    → access_of out (dgram_parse (wire d) 0 (some (length out))) ≡ accessed d.wkc d.bytes
unfolding access_of
read_access d out h e =
    ap (access_of out) (first_parsed d (some (length out)) h)
    ∙ rw (copy_data-wire d h [] (length out), le→ltb (length out) (length d.bytes) (omega arith))
        (ap (accessed d.wkc) (filled d.bytes out e))
  where
    filled : (bs out : List ℕ) → length bs ≡ length out → bs ++ drop (length bs) out ≡ bs
    filled [] [] e = refl
    filled [] (o ∷ out) e = absurd (omega arith)
    filled (b ∷ bs) [] e = absurd (omega arith)
    filled (b ∷ bs) (o ∷ out) e = ap (◌∷◌ b) (filled bs out (omega arith))

encoded :
    (d : Dgram)
    → IsDgram d
    → length d.bytes ≤ 256
    → dgram_encode 512 d.cmd d.index d.adp d.ado (length d.bytes) d.irq d.wkc (some d.bytes)
      ≡ some (wire d)
encoded d h f =
    dgram_encode-wire 512 d h.bytes_fit
    ∙ rw (le→ltb 512 (dgram_wire_size (length d.bytes)) (omega arith)) refl

zeros_encoded :
    (adp ado len : ℕ)
    → IsDgram (fprd adp ado len)
    → length (fprd adp ado len).bytes ≤ 256
    → dgram_encode 512 4 0 adp ado len 0 0 none ≡ some (wire (fprd adp ado len))
zeros_encoded adp ado len h f =
    dgram_encode_zeros 512 4 0 adp ado len 0 0
    ∙ ap (λ n. dgram_encode 512 4 0 adp ado n 0 0 (some (replicate len 0)))
        (sym (length-replicate {A = ℕ} len 0))
    ∙ encoded (fprd adp ado len) h f

-- A blocking APWR on the line has the effect and the working counter of the slave's answer.
pub apwr_blocking-respond :
    (port : Port) (s : Slave) (adp ado : ℕ) (bytes : List ℕ) (timeout_ms : ℕ)
    → IsExchanged s (apwr adp ado bytes)
    → apwr_blocking loopback port (quiet s) adp ado bytes timeout_ms ≡ (
      quiet (respond s (apwr adp ado bytes)).0,
      accessed (respond s (apwr adp ado bytes)).1.wkc bytes,
    )
unfolding apwr_blocking exchange_dgram answered answer_of
apwr_blocking-respond port s adp ado bytes timeout_ms x =
    ap (λ dg. exchange_dgram loopback port (quiet s) dg bytes none timeout_ms)
      (encoded (apwr adp ado bytes) x.asks x.fits)
    ∙ ap (answered bytes none) (exchange_loopback port s (apwr adp ado bytes) timeout_ms x)
    ∙ ap (λ a. (quiet (respond s (apwr adp ado bytes)).0, a))
        (write_access (respond s (apwr adp ado bytes)).1 bytes x.answers)

-- A blocking FPRD on the line gives the working counter and the bytes of the slave's answer.
pub fprd_blocking-respond :
    (port : Port) (s : Slave) (adp ado : ℕ) (out : List ℕ) (timeout_ms : ℕ)
    → IsExchanged s (fprd adp ado (length out))
    → fprd_blocking loopback port (quiet s) adp ado out timeout_ms ≡ (
      quiet (respond s (fprd adp ado (length out))).0,
      accessed
          (respond s (fprd adp ado (length out))).1.wkc
          (respond s (fprd adp ado (length out))).1.bytes,
    )
unfolding fprd_blocking exchange_dgram answered answer_of
fprd_blocking-respond port s adp ado out timeout_ms x =
    let d : Dgram = fprd adp ado (length out) in
    ap (λ dg. exchange_dgram loopback port (quiet s) dg out (some (length out)) timeout_ms)
      (zeros_encoded adp ado (length out) x.asks x.fits)
    ∙ ap (answered out (some (length out))) (exchange_loopback port s d timeout_ms x)
    ∙ ap (λ a. (quiet (respond s d).0, a))
        (read_access (respond s d).1 out x.answers
          (length-respond s d ∙ length-replicate {A = ℕ} (length out) 0))
