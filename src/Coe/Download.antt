-- ===== src/Coe/Download.antt =====
-- Downloads, at the frames: a client's bytes reach the object, and an upload gives them back.
use ul_ecat.Common.{
  ℕ, zero, suc, ◌+◌, ◌-◌, ◌*◌, ◌/◌, ◌%◌, ◌≤◌, ◌≡◌, ◌≢◌, refl, ap, ◌∙◌, List, [], ◌∷◌, ◌++◌,
  take-append, length-append, length-replicate, some, arith, bit_and, length, replicate, IsU16,
  load, store,
}
use ul_ecat.Od.{Entry, Table, od_lookup, od_write}
use ul_ecat.Od.Storage.{IsReadable, IsWritable, HasStorage, load-store_front}
use ul_ecat.Coe.{Server}
use ul_ecat.Coe.Process.{
  payload_len, written, handle_download_entry, handle_download_found, handle_download_init,
  coe_process,
}
use ul_ecat.Coe.Frames.{Head, IsCoe, sdo_request, sdo_reply, coe_process-download}
use ul_ecat.Coe.Upload.{headed}
use ul_ecat.Coe.Client.{upload_object}
use ul_ecat.Coe.Uploaded.{upload_object_lem}

-- The request to download up to four bytes.
unfoldable pub download_request : Head → ℕ → ℕ → List ℕ → List ℕ
download_request h index subindex bytes =
    sdo_request h (0x23 + (4 - length bytes) * 4) index subindex
      (bytes ++ replicate {A = ℕ} (4 - length bytes) 0)

download_command :
    (n : ℕ)
    → n ≢ 0
    → n ≤ 4
    → (bit_and (0x23 + (4 - n) * 4) 0xe0 ≡ 0x20)
      × (bit_and (0x23 + (4 - n) * 4) 0x02 ≡ 2)
      × (payload_len (0x23 + (4 - n) * 4) ≡ n)
unfolding payload_len
download_command zero z h = absurd (z refl)
download_command (suc zero) z h = (refl, refl, refl)
download_command (suc (suc zero)) z h = (refl, refl, refl)
download_command (suc (suc (suc zero))) z h = (refl, refl, refl)
download_command (suc (suc (suc (suc zero)))) z h = (refl, refl, refl)
download_command (suc (suc (suc (suc (suc n))))) z h = absurd (omega arith)

-- An accepted download stores exactly the bytes given and leaves the transfer as it is.
pub coe_process_download :
    (table : Table) (s : Server) (h : Head) (index subindex room : ℕ) (e : Entry) (bytes : List ℕ)
    → IsCoe h
    → IsU16 index
    → od_lookup table index subindex ≡ some e
    → IsWritable e
    → HasStorage e
    → length bytes ≢ 0
    → length bytes ≤ 4
    → length bytes ≤ e.len
    → 16 ≤ room
    → coe_process table s (download_request h index subindex bytes) room ≡ (
      record { objects = store s.objects e.storage bytes; transfer = s.transfer },
      sdo_reply h (0x60 ∷ index % 256 ∷ index / 256 ∷ subindex ∷ 0 ∷ 0 ∷ 0 ∷ 0 ∷ []),
    )
unfolding download_request handle_download_init handle_download_found handle_download_entry written
    od_write
coe_process_download table s h index subindex room e bytes kind word found w st some_byte four fits
      enough =
    coe_process-download table s h (0x23 + (4 - length bytes) * 4) index subindex
      (bytes ++ replicate {A = ℕ} (4 - length bytes) 0) room kind
      (ground (
        arith,
        length-append bytes (replicate {A = ℕ} (4 - length bytes) 0),
        length-replicate {A = ℕ} (4 - length bytes) 0,
      ))
      word (download_command (length bytes) some_byte four).0
    ∙ rw
        (
          found,
          (download_command (length bytes) some_byte four).2,
          take-append bytes (replicate {A = ℕ} (4 - length bytes) 0),
        )
        (ground (
          arith,
          download_command (length bytes) some_byte four,
          headed h (0x23 + (4 - length bytes) * 4) index subindex 0x60 index subindex
              (bytes ++ replicate {A = ℕ} (4 - length bytes) 0) (0 ∷ 0 ∷ 0 ∷ 0 ∷ []) word,
        ))

-- After a download an upload of the same object gives the bytes, followed by what the object held
-- behind them.
pub upload_object-download :
    (table : Table) (s : Server) (h : Head) (index subindex room : ℕ) (e : Entry) (bytes : List ℕ)
    → IsCoe h
    → IsU16 index
    → od_lookup table index subindex ≡ some e
    → IsReadable e
    → IsWritable e
    → HasStorage e
    → IsU16 e.len
    → length bytes ≢ 0
    → length bytes ≤ 4
    → length bytes ≤ e.len
    → 16 ≤ room
    → upload_object table
        (coe_process table s (download_request h index subindex bytes) room).0
        h
        index
        subindex
        room
      ≡ some (bytes ++ load s.objects (e.storage + length bytes) (e.len - length bytes))
upload_object-download table s h index subindex room e bytes kind word found r w st wide some_byte
      four fits enough =
    rw
      (coe_process_download table s h index subindex room e bytes kind word found w st some_byte
        four fits enough)
      (upload_object_lem table
          (record { objects = store s.objects e.storage bytes; transfer = s.transfer }) h index
          subindex room e kind word found r st wide enough
        ∙ ap some (load-store_front s.objects e.storage e.len bytes fits))
