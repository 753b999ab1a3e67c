-- ===== src/Coe/Upload.antt =====
-- Uploads, at the frames: an object's bytes leave the server in one reply or in segments.
use ul_ecat.Common.{
  ℕ, zero, suc, ◌+◌, ◌-◌, ◌*◌, ◌/◌, ◌%◌, ◌≤◌, ◌<◌, ◌≡◌, ◌≢◌, refl, ◌∙◌, List, [], ◌∷◌, ◌++◌, some,
  true, false, arith, bit_and, bit_or, ◌<<<◌, ◌>>>◌, u8, replicate, IsU16, Memory, load,
  length-load, w16_le, and_ff,
}
use ul_ecat.Od.{Entry, Table, od_lookup, od_read}
use ul_ecat.Od.Storage.{IsReadable, HasStorage}
use ul_ecat.Coe.{
  Server, cancel, build_reply_headers, read_into_zeros, handle_upload_found, handle_upload_entry,
  handle_upload_init,
}
use ul_ecat.Coe.Process.{coe_process}
use ul_ecat.Coe.Frames.{Head, IsCoe, sdo_request, sdo_reply, coe_process-upload}

-- The request to upload an object, and one for the next segment.
unfoldable pub upload_request : Head → ℕ → ℕ → List ℕ
upload_request h index subindex = sdo_request h 0x40 index subindex (0 ∷ 0 ∷ 0 ∷ 0 ∷ [])

unfoldable pub segment_request : Head → ℕ → List ℕ
segment_request h toggle = sdo_request h (0x60 + toggle) 0 0 (0 ∷ 0 ∷ 0 ∷ 0 ∷ [])

-- A server in the course of sending the entry's bytes.
abbrev pub sending : Memory → Entry → ℕ → ℕ → Server
sending objects e offset toggle = record {
  objects = objects;
  transfer = record { active = true; entry = some e; offset = offset; toggle_expected = toggle };
}

abbrev pub sent : Memory → Entry → ℕ → Server
sent objects e toggle = record {
  objects = objects;
  transfer = record { active = false; entry = some e; offset = e.len; toggle_expected = toggle };
}

init_byte :
    (n : ℕ)
    → n ≢ 0
    → n ≤ 4
    → bit_or (bit_or (bit_or 0x40 0x02) 0x01) (u8 (u8 (bit_and (4 - n) 0x03) <<< 2))
      ≡ 0x43 + (4 - n) * 4
init_byte zero z h = absurd (z refl)
init_byte (suc zero) z h = refl
init_byte (suc (suc zero)) z h = refl
init_byte (suc (suc (suc zero))) z h = refl
init_byte (suc (suc (suc (suc zero)))) z h = refl
init_byte (suc (suc (suc (suc (suc n))))) z h = absurd (omega arith)

-- The reply that the handlers put together, with the object's address.
pub headed :
    (h : Head) (cmd0 i0 s0 cmd index subindex : ℕ) (body sdo : List ℕ)
    → IsU16 index
    → build_reply_headers (sdo_request h cmd0 i0 s0 body) 8 ++ cmd ∷ w16_le index ++ subindex ∷ sdo
      ≡ sdo_reply h (cmd ∷ index % 256 ∷ index / 256 ∷ subindex ∷ sdo)
unfolding sdo_request build_reply_headers sdo_reply w16_le
headed h cmd0 i0 s0 cmd index subindex body sdo word =
    ground (arith, and_ff index, and_ff (index / 256))

-- An object of up to four bytes is uploaded in one reply, padded with zeros.
pub coe_process_expedited :
    (table : Table) (s : Server) (h : Head) (index subindex room : ℕ) (e : Entry)
    → IsCoe h
    → IsU16 index
    → od_lookup table index subindex ≡ some e
    → IsReadable e
    → HasStorage e
    → e.len ≤ 4
    → 16 ≤ room
    → coe_process table s (upload_request h index subindex) room ≡ (
      cancel s,
      sdo_reply h (
          (0x43 + (4 - e.len) * 4)
            ∷ index % 256
            ∷ index / 256
            ∷ subindex
            ∷ load s.objects e.storage e.len
          ++ replicate (4 - e.len) 0),
    )
unfolding upload_request handle_upload_init handle_upload_found handle_upload_entry od_read
    read_into_zeros
coe_process_expedited table s h index subindex room e kind word found r st small enough =
    coe_process-upload table s h 0x40 index subindex (0 ∷ 0 ∷ 0 ∷ 0 ∷ []) room kind (omega arith)
      word refl
    ∙ rw (found) (
        ground (
          arith,
          init_byte e.len,
          length-load s.objects e.storage e.len,
          headed h 0x40 index subindex
              (bit_or (bit_or (bit_or 0x40 0x02) 0x01) (u8 (u8 (bit_and (4 - e.len) 0x03) <<< 2)))
              index subindex (0 ∷ 0 ∷ 0 ∷ 0 ∷ [])
              (load s.objects e.storage e.len ++ replicate (4 - e.len) 0) word,
        ))

-- A longer object starts a segmented upload: the reply carries its length.
pub coe_process_segmented :
    (table : Table) (s : Server) (h : Head) (index subindex room : ℕ) (e : Entry)
    → IsCoe h
    → IsU16 index
    → od_lookup table index subindex ≡ some e
    → IsReadable e
    → 4 < e.len
    → IsU16 e.len
    → 16 ≤ room
    → coe_process table s (upload_request h index subindex) room ≡ (
      sending s.objects e 0 0,
      sdo_reply h
          (0x41 ∷ index % 256 ∷ index / 256 ∷ subindex ∷ e.len % 256 ∷ e.len / 256 ∷ 0 ∷ 0 ∷ []),
    )
unfolding upload_request handle_upload_init handle_upload_found handle_upload_entry
coe_process_segmented table s h index subindex room e kind word found r long w enough =
    coe_process-upload table s h 0x40 index subindex (0 ∷ 0 ∷ 0 ∷ 0 ∷ []) room kind (omega arith)
      word refl
    ∙ rw (found) (
        ground (
          arith,
          and_ff e.len,
          and_ff (e.len / 256),
          headed h 0x40 index subindex (bit_or 0x40 0x01) index subindex (0 ∷ 0 ∷ 0 ∷ 0 ∷ [])
              (u8 (bit_and e.len 0xff) ∷ u8 (bit_and (e.len >>> 8) 0xff) ∷ 0 ∷ 0 ∷ []) word,
        ))
