-- ===== src/Coe/Transfers.antt =====
-- What holds of the static `g_upload` between two frames.
use ul_ecat.Common.{
  ℕ, ◌+◌, ◌-◌, ◌<◌, ◌≡◌, ◌⊎◌, inl, inr, refl, List, [], ◌∷◌, Option, none, some, Bool, true, false,
  ◌||◌, ltb, leb, ◌==◌, if◌then◌else◌, arith, bit_and, bit_xor, u8, u16, IsU16, length, get_or,
  drop, Memory, r16_le,
}
use ul_ecat.Od.{Entry, Table, OdError, od_lookup, lookup_in}
use ul_ecat.Coe.{
  Transfer, Server, cancel, coe_service, handle_upload_entry, handle_upload_found,
  handle_upload_init, chunk_of, send_chunk, send_segment, send_active, handle_upload_segment,
}
use ul_ecat.Coe.Process.{
  payload_len, written, handle_download_entry, handle_download_found, handle_download_init,
  coe_process,
}

-- Entries whose length is the 16-bit number that its type says.
abbrev pub AreEntries : List Entry → Type 0
AreEntries [] = Unit
AreEntries (e ∷ es) = IsU16 e.len × AreEntries es

abbrev pub IsTable : Table → Type 0
IsTable none = Unit
IsTable (some entries) = AreEntries entries

-- An active transfer has an entry, something of it left to send, and expects one of the two
-- values of the toggle bit.
abbrev pub IsOpen : Bool → Option Entry → ℕ → ℕ → Type 0
IsOpen false entry offset toggle = Unit
IsOpen true none offset toggle = ⊥
IsOpen true (some e) offset toggle = (offset < e.len) × IsU16 e.len × ((toggle ≡ 0) ⊎ (toggle ≡ 16))

abbrev pub IsTransfer : Transfer → Type 0
IsTransfer t = IsOpen t.active t.entry t.offset t.toggle_expected

either :
    (b : Bool) (p q : Server × List ℕ)
    → (b ≡ true → IsTransfer p.0.transfer)
    → (b ≡ false → IsTransfer q.0.transfer)
    → IsTransfer (if b then p else q).0.transfer
either true p q when unless = when refl
either false p q when unless = unless refl

cancel-IsTransfer : (s : Server) → IsTransfer (cancel s).transfer
unfolding cancel
cancel-IsTransfer s = tt

lookup_in-IsU16 :
    (es : List Entry) (index subindex : ℕ) (e : Entry)
    → AreEntries es
    → lookup_in es index subindex ≡ some e
    → IsU16 e.len
unfolding lookup_in
lookup_in-IsU16 [] index subindex e a h = cc
lookup_in-IsU16 (x ∷ es) index subindex e a h =
    ground (arith, lookup_in-IsU16 es index subindex e a.1)

handle_upload_entry-IsTransfer :
    (s : Server) (req : List ℕ) (room index subindex : ℕ) (e : Entry)
    → IsU16 e.len
    → IsTransfer s.transfer
    → IsTransfer (handle_upload_entry s req room index subindex e).0.transfer
unfolding handle_upload_entry
handle_upload_entry-IsTransfer s req room index subindex e w t =
    either (bit_and e.flags 1 == 0) _ _ (λ _. cancel-IsTransfer s)
      (λ _.
        either (e.len == 0) _ _ (λ _. cancel-IsTransfer s)
          (λ _.
            either (ltb room 16) _ _ (λ _. t)
              (λ _.
                either (leb e.len 4) _ _ (λ _. cancel-IsTransfer s)
                  (λ h. (ground arith, w, inl refl)))))

handle_upload_found-IsTransfer :
    (table : Table) (s : Server) (req : List ℕ) (room index subindex : ℕ) (found : Option Entry)
    → ((e : Entry) → found ≡ some e → IsU16 e.len)
    → IsTransfer s.transfer
    → IsTransfer (handle_upload_found table s req room index subindex found).0.transfer
unfolding handle_upload_found
handle_upload_found-IsTransfer table s req room index subindex none w t = cancel-IsTransfer s
handle_upload_found-IsTransfer table s req room index subindex (some e) w t =
    handle_upload_entry-IsTransfer s req room index subindex e (w e refl) t

toggled : (n : ℕ) → (n ≡ 0) ⊎ (n ≡ 16) → (u8 (bit_xor n 0x10) ≡ 0) ⊎ (u8 (bit_xor n 0x10) ≡ 16)
toggled n (inl h) = inr (rw h refl)
toggled n (inr h) = inl (rw h refl)

-- A chunk that is not the last leaves something to send.
send_chunk-IsTransfer :
    (s : Server) (req : List ℕ) (toggle_in remaining : ℕ) (e : Entry)
    → remaining ≡ e.len - s.transfer.offset
    → s.transfer.offset < e.len
    → IsU16 e.len
    → (s.transfer.toggle_expected ≡ 0) ⊎ (s.transfer.toggle_expected ≡ 16)
    → IsTransfer (send_chunk s req toggle_in remaining (chunk_of remaining) e).0.transfer
unfolding send_chunk chunk_of
send_chunk-IsTransfer s req toggle_in remaining e r o w t =
    ground (arith, toggled s.transfer.toggle_expected t)

send_segment-IsTransfer :
    (s : Server) (req : List ℕ) (room cmd_byte : ℕ) (e : Entry)
    → IsOpen true (some e) s.transfer.offset s.transfer.toggle_expected
    → IsTransfer s.transfer
    → IsTransfer (send_segment s req room cmd_byte e).0.transfer
unfolding send_segment
send_segment-IsTransfer s req room cmd_byte e (o, w, toggle) t =
    either (bit_and cmd_byte 0x10 == s.transfer.toggle_expected) _ _
      (λ _.
        either (ltb room 16) _ _ (λ _. t)
          (λ _.
            send_chunk-IsTransfer s req (bit_and cmd_byte 0x10)
              (u16 (e.len + 65536 - s.transfer.offset)) e (omega arith) o w toggle))
      (λ _. cancel-IsTransfer s)

send_active-IsTransfer :
    (s : Server) (req : List ℕ) (room cmd_byte : ℕ) (active : Bool) (entry : Option Entry)
    → IsOpen active entry s.transfer.offset s.transfer.toggle_expected
    → IsTransfer s.transfer
    → IsTransfer (send_active s req room cmd_byte active entry).0.transfer
unfolding send_active
send_active-IsTransfer s req room cmd_byte true (some e) o t =
    send_segment-IsTransfer s req room cmd_byte e o t
send_active-IsTransfer s req room cmd_byte true none o t = t
send_active-IsTransfer s req room cmd_byte false entry o t = t

written-IsTransfer :
    (s : Server) (req : List ℕ) (room index subindex : ℕ) (result : Memory × Option OdError)
    → IsTransfer s.transfer
    → IsTransfer (written s req room index subindex result).0.transfer
unfolding written
written-IsTransfer s req room index subindex (objects, some code) t = t
written-IsTransfer s req room index subindex (objects, none) t = t

handle_download_found-IsTransfer :
    (table : Table) (s : Server) (req : List ℕ) (room : ℕ) (sdo_req : List ℕ)
    → (index subindex : ℕ) (found : Option Entry) → IsTransfer s.transfer
    → IsTransfer (handle_download_found table s req room sdo_req index subindex found).0.transfer
unfolding handle_download_found handle_download_entry
handle_download_found-IsTransfer table s req room sdo_req index subindex none t = t
handle_download_found-IsTransfer table s req room sdo_req index subindex (some e) t =
    either (bit_and e.flags 2 == 0) _ _ (λ _. t)
      (λ _.
        either (bit_and (get_or sdo_req 0 0) 2 == 0) _ _ (λ _. t)
          (λ _.
            either
              (payload_len (get_or sdo_req 0 0) == 0
                || ltb e.len (payload_len (get_or sdo_req 0 0)))
              _ _ (λ _. t) (λ _. written-IsTransfer s req room index subindex _ t)))

od_lookup-IsU16 :
    (table : Table) (index subindex : ℕ)
    → IsTable table
    → (e : Entry) → od_lookup table index subindex ≡ some e
    → IsU16 e.len
unfolding od_lookup
od_lookup-IsU16 none index subindex w e h = cc
od_lookup-IsU16 (some entries) index subindex w e h = lookup_in-IsU16 entries index subindex e w h

-- One frame preserves it, whatever the frame, for a dictionary with lengths of 16 bits: an active
-- transfer has an entry with something left to send and one of the two values of the toggle bit.
pub coe_process-IsTransfer :
    (table : Table) (s : Server) (frame : List ℕ) (room : ℕ)
    → IsTable table
    → IsTransfer s.transfer
    → IsTransfer (coe_process table s frame room).0.transfer
unfolding coe_process handle_upload_init handle_download_init handle_upload_segment
coe_process-IsTransfer table s frame room w t =
    let sdo : List ℕ = drop 8 frame in
    let svc : ℕ = coe_service (drop 6 frame) in
    let cmd_bits : ℕ = bit_and (get_or sdo 0 0) 0xe0 in
    let index : ℕ = r16_le (drop 1 sdo) in
    either (ltb (length frame) 16) _ _ (λ _. t)
      (λ _.
        either (bit_and (get_or frame 5 0) 0x0f == 0x03) _ _
          (λ _.
            either (svc == 0x08) _ _ (λ _. t)
              (λ _.
                either (svc == 0x02) _ _
                  (λ _.
                    either (cmd_bits == 0x40) _ _
                      (λ _.
                        handle_upload_found-IsTransfer table s frame room index (get_or sdo 3 0) _
                          (od_lookup-IsU16 table index (get_or sdo 3 0) w) t)
                      (λ _.
                        either (cmd_bits == 0x20) _ _
                          (λ _.
                            handle_download_found-IsTransfer table s frame room sdo index
                              (get_or sdo 3 0) (od_lookup table index (get_or sdo 3 0)) t)
                          (λ _.
                            either (cmd_bits == 0x60) _ _
                              (λ _.
                                send_active-IsTransfer s frame room (get_or sdo 0 0)
                                  s.transfer.active s.transfer.entry t t)
                              (λ _.
                                either (cmd_bits == 0x80) _ _ (λ _. cancel-IsTransfer s)
                                  (λ _. t)))))
                  (λ _. t)))
          (λ _. t))
