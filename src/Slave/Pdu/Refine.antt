-- ===== src/Slave/Pdu/Refine.antt =====
-- The slave on a whole frame is the slave on its datagrams in order: the walk, the parse and the
-- encoding neither lose nor add anything.
use ul_ecat.Common.{
  ℕ, suc, ◌+◌, ◌-◌, ◌≤◌, ◌≡◌, refl, sym, ap, ◌∙◌, List, [], ◌∷◌, ◌++◌, append_assoc, append-nil,
  some, arith, le→ltb, length, length-append, length-load,
}
use ul_ecat.Wire.Datagram.{dgram_wire_size, dgram_encode, Dgram, wire, IsDgram, Parsed, parsed_of}
use ul_ecat.Wire.Datagram.RoundTrip.{dgram_encode-wire, length-wire}
use ul_ecat.Wire.Pdu.{dgram_parse, wire_all, AreDgrams, wire_size_all}
use ul_ecat.Wire.Pdu.Walk.{length-wire_all, pdu_count_datagrams-wire_all, dgram_parse-wire_all}
use ul_ecat.Slave.Esc.{Slave, esc_read}
use ul_ecat.Slave.Pdu.{
  dg_data_max, Answer, process_fprd, process_fpwr, process_apwr, process_one, process_parsed,
  process_loop, slave_process_pdu,
}

-- What the slave does with one datagram, and the datagram that it sends back.
unfoldable pub respond : Slave → Dgram → Slave × Dgram
respond s d =
    let a = process_one s d.cmd d.adp d.ado (length d.bytes) d.bytes in
    (record s { esc = a.esc }, record d { wkc = a.wkc; bytes = a.buffer })

unfoldable pub respond_all : Slave → List Dgram → Slave × List Dgram
respond_all s [] = (s, [])
respond_all s (d ∷ ds) =
    let (s', d') = respond s d in let (s'', ds') = respond_all s' ds in (s'', d' ∷ ds')

-- Datagrams that fit the buffer of one datagram's data.
abbrev pub FitBuffer : List Dgram → Type 0
FitBuffer [] = Unit
FitBuffer (d ∷ ds) = (length d.bytes ≤ dg_data_max) × FitBuffer ds

length-process_fprd :
    (s : Slave) (adp ado : ℕ) (datab : List ℕ)
    → length (process_fprd s adp ado (length datab) datab).buffer ≡ length datab
unfolding process_fprd esc_read
length-process_fprd s adp ado datab = ground (arith, length-load s.esc ado (length datab))

process_fpwr-buffer :
    (s : Slave) (adp ado dlen : ℕ) (datab : List ℕ)
    → (process_fpwr s adp ado dlen datab).buffer ≡ datab
unfolding process_fpwr
process_fpwr-buffer s adp ado dlen datab = ground arith

process_apwr-buffer :
    (s : Slave) (adp ado dlen : ℕ) (datab : List ℕ)
    → (process_apwr s adp ado dlen datab).buffer ≡ datab
unfolding process_apwr
process_apwr-buffer s adp ado dlen datab = ground arith

-- The data that goes back is as long as the data that came.
pub length-process_one :
    (s : Slave) (cmd adp ado : ℕ) (datab : List ℕ)
    → length (process_one s cmd adp ado (length datab) datab).buffer ≡ length datab
unfolding process_one
length-process_one s cmd adp ado datab = ground (
  arith,
  length-process_fprd s adp ado datab,
  process_fpwr-buffer s adp ado (length datab) datab,
  process_apwr-buffer s adp ado (length datab) datab,
)

pub length-respond : (s : Slave) (d : Dgram) → length (respond s d).1.bytes ≡ length d.bytes
unfolding respond
length-respond s d = length-process_one s d.cmd d.adp d.ado d.bytes

process_parsed-respond :
    (s : Slave) (d : Dgram) (room : ℕ)
    → length d.bytes ≤ dg_data_max
    → dgram_wire_size (length d.bytes) ≤ room
    → process_parsed s (parsed_of d d.bytes) room ≡ ((respond s d).0, some (wire (respond s d).1))
unfolding process_parsed respond
process_parsed-respond s d room small fits =
    rw (le→ltb dg_data_max (length d.bytes) small) (ap (λ o. ((respond s d).0, o)) encoded)
  where
    answer : Answer
    answer = process_one s d.cmd d.adp d.ado (length d.bytes) d.bytes

    same_length : length answer.buffer ≡ length d.bytes
    same_length = length-process_one s d.cmd d.adp d.ado d.bytes

    encoded :
        dgram_encode room d.cmd d.index d.adp d.ado
          (length d.bytes)
          d.irq
          answer.wkc
          (some answer.buffer)
        ≡ some (wire (respond s d).1)
    encoded =
        (rw same_length at (dgram_encode-wire room (respond s d).1 (omega (arith, same_length))))
        ∙ rw (le→ltb room (dgram_wire_size (length d.bytes)) fits)

AreDgrams-middle :
    (before : List Dgram) (d : Dgram) (after : List Dgram)
    → AreDgrams (before ++ d ∷ after)
    → IsDgram d
AreDgrams-middle [] d after h = h.0
AreDgrams-middle (b ∷ before) d after h = AreDgrams-middle before d after h.1

process_loop-zero :
    (pdu : List ℕ) (limit i : ℕ) (s : Slave) (out : List ℕ)
    → process_loop pdu limit 0 i s out ≡ (s, some out)
unfolding process_loop
process_loop-zero pdu limit i s out = refl

process_loop-suc :
    (pdu : List ℕ) (cap left i : ℕ) (s s' : Slave) (out bytes : List ℕ) (p : Parsed)
    → dgram_parse pdu i (some dg_data_max) ≡ some p
    → process_parsed s p (cap - length out) ≡ (s', some bytes)
    → process_loop pdu cap (suc left) i s out ≡ process_loop pdu cap left (i + 1) s' (out ++ bytes)
unfolding process_loop
process_loop-suc pdu limit left i s s' out bytes p parsed processed = ground arith

process_loop-respond_all :
    (before after : List Dgram) (cap : ℕ) (s : Slave) (out : List ℕ)
    → AreDgrams (before ++ after)
    → FitBuffer after
    → length out + wire_size_all after ≤ cap
    → process_loop (wire_all (before ++ after)) cap (length after) (length before) s out
      ≡ ((respond_all s after).0, some (out ++ wire_all (respond_all s after).1))
unfolding respond_all wire_all wire_size_all
process_loop-respond_all before [] limit s out h b f =
    process_loop-zero (wire_all (before ++ [])) limit (length before) s out
    ∙ ap (λ o. (s, some o)) (sym (append-nil out))
process_loop-respond_all before (d ∷ after) limit s out h b f =
    process_loop-suc _ limit (length after) (length before) s s' out (wire d') (parsed_of d d.bytes)
      parsed processed
    ∙ (rw (append_assoc before (d ∷ []) after, length-append, append_assoc out (wire d') _) at
        (process_loop-respond_all (before ++ d ∷ []) after limit s' (out ++ wire d')
          (rw append_assoc h) b.1 room))
  where
    s' : Slave
    s' = (respond s d).0

    d' : Dgram
    d' = (respond s d).1

    parsed :
        dgram_parse (wire_all (before ++ d ∷ after)) (length before) (some dg_data_max)
        ≡ some (parsed_of d d.bytes)
    parsed =
        dgram_parse-wire_all before d after dg_data_max h
        ∙ rw (le→ltb dg_data_max (length d.bytes) b.0)

    processed : process_parsed s (parsed_of d d.bytes) (limit - length out) ≡ (s', some (wire d'))
    processed = process_parsed-respond s d (limit - length out) b.0 (omega arith)

    room : length (out ++ wire d') + wire_size_all after ≤ limit
    room = omega (arith, length-append out (wire d'), length-wire d', length-respond s d)

-- The slave runs a frame of well-formed datagrams, each with at most 256 bytes of data, by
-- responding to each in order, each on the memory that the ones before it left; the reply is the
-- answers in the same order, and there is one whenever the reply buffer holds as many bytes as
-- came in.
pub slave_process_pdu-respond_all :
    (s : Slave) (ds : List Dgram) (limit : ℕ)
    → AreDgrams ds
    → FitBuffer ds
    → length (wire_all ds) ≤ limit
    → slave_process_pdu s (wire_all ds) limit
      ≡ ((respond_all s ds).0, some (wire_all (respond_all s ds).1))
unfolding slave_process_pdu
slave_process_pdu-respond_all s ds limit h b f =
    rw (pdu_count_datagrams-wire_all ds h, slave_process_pdu)
      (process_loop-respond_all [] ds limit s [] h b (omega (arith, length-wire_all ds)))

-- The answer keeps the length of the frame.
pub length-respond_all :
    (s : Slave) (ds : List Dgram) → length (wire_all (respond_all s ds).1) ≡ length (wire_all ds)
unfolding respond_all wire_all
length-respond_all s [] = refl
length-respond_all s (d ∷ ds) = omega (
  arith,
  length-append (wire d) (wire_all ds),
  length-append (wire (respond s d).1) (wire_all (respond_all (respond s d).0 ds).1),
  length-wire d,
  length-wire (respond s d).1,
  length-respond s d,
  length-respond_all (respond s d).0 ds,
)

-- The datagrams do not change the slave's Ethernet address.
pub mac-respond_all : (s : Slave) (ds : List Dgram) → (respond_all s ds).0.mac ≡ s.mac
unfolding respond_all respond
mac-respond_all s [] = refl
mac-respond_all s (d ∷ ds) = mac-respond_all (respond s d).0 ds
