-- ===== src/Slave/Pdu/Safety.antt =====
-- What holds on any input, well formed or not: no write outside the register memory, and no value
-- that is no byte.
use ul_ecat.Common.{
  ℕ, ◌⊎◌, zero, suc, ◌+◌, ◌-◌, ◌≡◌, refl, ◌∙◌, List, [], ◌++◌, some, arith, ltb, leb, ◌==◌, ◌&&◌,
  length, Option-cases, Memory, AreBytes, or_08, and_f7, inl, inr, Bool-cases,
}
use ul_ecat.Wire.Datagram.{Parsed}
use ul_ecat.Wire.Pdu.{counted, malformed, out_of_fuel, Count, pdu_count_datagrams, dgram_parse}
use ul_ecat.Wire.Pdu.Copied.{dgram_parse-copied}
use ul_ecat.Slave.Esc.{Slave, esc_write, HoldsBytes, StaysInside}
use ul_ecat.Slave.Esc.Laws.{esc_write-HoldsBytes, esc_write-StaysInside}
use ul_ecat.Slave.AlMachine.{al_on_control_write}
use ul_ecat.Slave.AlMachine.Transitions.{
  al_on_control_write-OnlyStatus, al_on_control_write-HoldsBytes,
}
use ul_ecat.Slave.Mailbox.{mailbox_on_sm0_write, mailbox_on_sm1_read}
use ul_ecat.Slave.Pdu.{
  run_al, process_fprd, process_fpwr, process_apwr, process_one, process_parsed, process_loop,
  slave_process_pdu,
}

-- A change of the memory that keeps bytes bytes and writes inside the array.
abbrev pub IsSafe : Memory → Memory → Type 0
IsSafe before after = (HoldsBytes before → HoldsBytes after) × StaysInside before after

same-IsSafe : (esc : Memory) → IsSafe esc esc
same-IsSafe esc = (λ b. b, λ j h. refl)

trans-IsSafe : {a b c : Memory} → IsSafe a b → IsSafe b c → IsSafe a c
trans-IsSafe p q = (λ h. q.0 (p.0 h), λ j h. q.1 j h ∙ p.1 j h)

al_on_control_write-IsSafe : (esc : Memory) → IsSafe esc (al_on_control_write esc)
al_on_control_write-IsSafe esc = (
  al_on_control_write-HoldsBytes esc,
  λ j h.
      al_on_control_write-OnlyStatus esc j (omega arith) (omega arith) (omega arith) (omega arith),
)

run_al-IsSafe : (esc : Memory) (ado dlen : ℕ) → IsSafe esc (run_al esc ado dlen)
unfolding run_al
run_al-IsSafe esc ado dlen = elim (Bool-cases (leb ado 0x120 && ltb 0x120 (ado + dlen))) [
  | inl e ↦ rw e (al_on_control_write-IsSafe esc)
  | inr e ↦ rw e (same-IsSafe esc)
]

mailbox_on_sm0_write-IsSafe :
    (esc : Memory) (ado len : ℕ) → IsSafe esc (mailbox_on_sm0_write esc ado len).0
unfolding mailbox_on_sm0_write
mailbox_on_sm0_write-IsSafe esc ado len =
    (λ b j. ground (arith, b j, or_08 (esc 0x805) (b 0x805)), λ j h. ground arith)

mailbox_on_sm1_read-IsSafe :
    (esc : Memory) (ado len : ℕ) → IsSafe esc (mailbox_on_sm1_read esc ado len)
unfolding mailbox_on_sm1_read
mailbox_on_sm1_read-IsSafe esc ado len =
    (λ b j. ground (arith, b j, and_f7 (esc 0x80d) (b 0x80d)), λ j h. ground arith)

esc_write-IsSafe :
    (esc after : Memory) (ado : ℕ) (src : List ℕ)
    → AreBytes src
    → esc_write esc ado src ≡ some after
    → IsSafe esc after
esc_write-IsSafe esc after ado src s e =
    (λ b. esc_write-HoldsBytes esc after ado src b s e, esc_write-StaysInside esc after ado src e)

fprd_outcome :
    (s : Slave) (adp ado dlen : ℕ) (datab : List ℕ)
    → ((process_fprd s adp ado dlen datab).esc ≡ s.esc)
      ⊎ ((process_fprd s adp ado dlen datab).esc ≡ mailbox_on_sm1_read s.esc ado dlen)
unfolding process_fprd
fprd_outcome s adp ado dlen datab = ground arith

fpwr_outcome :
    (s : Slave) (adp ado dlen : ℕ) (datab : List ℕ)
    → ((process_fpwr s adp ado dlen datab).esc ≡ s.esc)
      ⊎ ((w : Memory) × (esc_write s.esc ado datab ≡ some w)
          × ((process_fpwr s adp ado dlen datab).esc
              ≡ (mailbox_on_sm0_write (run_al w ado dlen) ado dlen).0))
unfolding process_fpwr
fpwr_outcome s adp ado dlen datab = ground arith

apwr_outcome :
    (s : Slave) (adp ado dlen : ℕ) (datab : List ℕ)
    → ((process_apwr s adp ado dlen datab).esc ≡ s.esc)
      ⊎ ((w : Memory) × (esc_write s.esc ado datab ≡ some w)
          × ((process_apwr s adp ado dlen datab).esc ≡ run_al w ado dlen))
unfolding process_apwr
apwr_outcome s adp ado dlen datab = ground arith

process_fprd-IsSafe :
    (s : Slave) (adp ado dlen : ℕ) (datab : List ℕ)
    → IsSafe s.esc (process_fprd s adp ado dlen datab).esc
process_fprd-IsSafe s adp ado dlen datab = elim (fprd_outcome s adp ado dlen datab) [
  | inl e ↦ rw e (same-IsSafe s.esc)
  | inr e ↦ rw e (mailbox_on_sm1_read-IsSafe s.esc ado dlen)
]

process_fpwr-IsSafe :
    (s : Slave) (adp ado dlen : ℕ) (datab : List ℕ)
    → AreBytes datab
    → IsSafe s.esc (process_fpwr s adp ado dlen datab).esc
process_fpwr-IsSafe s adp ado dlen datab b = elim (fpwr_outcome s adp ado dlen datab) [
  | inl e ↦ rw e (same-IsSafe s.esc)
  | inr (w, written, e) ↦ rw e (
      trans-IsSafe (esc_write-IsSafe s.esc w ado datab b written) (
        trans-IsSafe (run_al-IsSafe w ado dlen)
          (mailbox_on_sm0_write-IsSafe (run_al w ado dlen) ado dlen)))
]

process_apwr-IsSafe :
    (s : Slave) (adp ado dlen : ℕ) (datab : List ℕ)
    → AreBytes datab
    → IsSafe s.esc (process_apwr s adp ado dlen datab).esc
process_apwr-IsSafe s adp ado dlen datab b = elim (apwr_outcome s adp ado dlen datab) [
  | inl e ↦ rw e (same-IsSafe s.esc)
  | inr (w, written, e) ↦
      rw e (trans-IsSafe (esc_write-IsSafe s.esc w ado datab b written) (run_al-IsSafe w ado dlen))
]

pub process_one-IsSafe :
    (s : Slave) (cmd adp ado dlen : ℕ) (datab : List ℕ)
    → AreBytes datab
    → IsSafe s.esc (process_one s cmd adp ado dlen datab).esc
unfolding process_one
process_one-IsSafe s cmd adp ado dlen datab b = elim (Bool-cases (cmd == 4)) [
  | inl fprd ↦ rw fprd (process_fprd-IsSafe s adp ado dlen datab)
  | inr other ↦ rw other (elim (Bool-cases (cmd == 5)) [
    | inl fpwr ↦ rw fpwr (process_fpwr-IsSafe s adp ado dlen datab b)
    | inr other' ↦ rw other' (elim (Bool-cases (cmd == 2)) [
      | inl apwr ↦ rw apwr (process_apwr-IsSafe s adp ado dlen datab b)
      | inr none_of ↦ rw none_of (same-IsSafe s.esc)
    ])
  ])
]

process_parsed-IsSafe :
    (s : Slave) (p : Parsed) (room : ℕ)
    → AreBytes p.copied
    → IsSafe s.esc (process_parsed s p room).0.esc
unfolding process_parsed
process_parsed-IsSafe s p room b = elim (Bool-cases (ltb 256 p.data_len)) [
  | inl large ↦ rw large (same-IsSafe s.esc)
  | inr small ↦ rw small (process_one-IsSafe s p.cmd p.adp p.ado p.data_len p.copied b)
]

-- What one round leaves: the slave at a parse error, the slave after the datagram at an encoding
-- error, and else the rest of the loop.
loop_outcome :
    (pdu : List ℕ) (limit left i : ℕ) (s : Slave) (out : List ℕ)
    → ((process_loop pdu limit (suc left) i s out).0 ≡ s)
      ⊎ ((p : Parsed) × (dgram_parse pdu i (some 256) ≡ some p)
          × (((process_loop pdu limit (suc left) i s out).0
                ≡ (process_parsed s p (limit - length out)).0)
              ⊎ ((bytes : List ℕ) × (process_loop pdu limit (suc left) i s out
                    ≡ process_loop pdu limit left
                        (i + 1)
                        (process_parsed s p (limit - length out)).0
                        (out ++ bytes)))))
unfolding process_loop
loop_outcome pdu limit left i s out = elim (Option-cases (dgram_parse pdu i (some 256))) [
  | inl none_parsed ↦ inl (ground arith)
  | inr (p, parsed) ↦ elim (Option-cases (process_parsed s p (limit - length out)).1) [
    | inl none_encoded ↦ inr (p, parsed, inl (ground arith))
    | inr (bytes, encoded) ↦ inr (p, parsed, inr (bytes, ground arith))
  ]
]

process_loop-IsSafe :
    (pdu : List ℕ) (limit left i : ℕ) (s : Slave) (out : List ℕ)
    → AreBytes pdu
    → IsSafe s.esc (process_loop pdu limit left i s out).0.esc
unfolding process_loop
process_loop-IsSafe pdu limit zero i s out b = same-IsSafe s.esc
process_loop-IsSafe pdu limit (suc left) i s out b = elim (loop_outcome pdu limit left i s out) [
  | inl e ↦ rw e (same-IsSafe s.esc)
  | inr (p, parsed, inl e) ↦
      rw e (process_parsed-IsSafe s p _ (dgram_parse-copied pdu i 256 p b parsed))
  | inr (p, parsed, inr (bytes, e)) ↦ rw e (
      trans-IsSafe (process_parsed-IsSafe s p _ (dgram_parse-copied pdu i 256 p b parsed))
        (process_loop-IsSafe pdu limit left (i + 1) _ (out ++ bytes) b))
]

slave_process_pdu-IsSafe :
    (s : Slave) (pdu : List ℕ) (limit : ℕ)
    → AreBytes pdu
    → IsSafe s.esc (slave_process_pdu s pdu limit).0.esc
unfolding slave_process_pdu
slave_process_pdu-IsSafe s pdu limit b = by_count (pdu_count_datagrams pdu) refl
  where
    by_count :
        (c : Count)
        → pdu_count_datagrams pdu ≡ c
        → IsSafe s.esc (slave_process_pdu s pdu limit).0.esc
    by_count (counted nd) e = rw (e, slave_process_pdu) (process_loop-IsSafe pdu limit nd 0 s [] b)
    by_count malformed e = rw (e, slave_process_pdu) (same-IsSafe s.esc)
    by_count out_of_fuel e = rw (e, slave_process_pdu) (same-IsSafe s.esc)

-- Whatever bytes arrive, and whether or not the frame is answered, the slave writes nowhere behind
-- the 4096 bytes of its register memory, and leaves bytes in the memory.
pub slave_process_pdu_safe :
    (s : Slave) (pdu : List ℕ) (limit : ℕ)
    → AreBytes pdu
    → HoldsBytes s.esc
    → HoldsBytes (slave_process_pdu s pdu limit).0.esc
      × StaysInside s.esc (slave_process_pdu s pdu limit).0.esc
slave_process_pdu_safe s pdu limit b h =
    ((slave_process_pdu-IsSafe s pdu limit b).0 h, (slave_process_pdu-IsSafe s pdu limit b).1)
