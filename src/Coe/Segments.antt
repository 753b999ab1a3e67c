-- ===== src/Coe/Segments.antt =====
-- What each segment of an upload carries.
use ul_ecat.Common.{
  ℕ, zero, suc, ◌+◌, ◌-◌, ◌*◌, ◌≤◌, ◌<◌, ◌≡◌, refl, ◌∙◌, [], ◌∷◌, ◌++◌, Bool, true, false, ◌==◌,
  arith, bit_and, bit_or, ◌<<<◌, u8, u16, replicate, IsU16, Memory, load,
}
use ul_ecat.Od.{Entry, Table}
use ul_ecat.Coe.{chunk_of, send_chunk, send_segment, send_active, handle_upload_segment}
use ul_ecat.Coe.Process.{coe_process}
use ul_ecat.Coe.Frames.{Head, IsCoe, sdo_reply, build_reply_headers_lem, coe_process-segment}
use ul_ecat.Coe.Upload.{segment_request, sending, sent}
use ul_ecat.Coe.Client.{toggle_bit, flipped}

segment_byte :
    (b : Bool) (n : ℕ)
    → n < 8
    → bit_or (bit_or (bit_or 0x00 (toggle_bit b)) (u8 (u8 n <<< 1))) 0x01 ≡ toggle_bit b + n * 2 + 1
unfolding toggle_bit
segment_byte false zero h = refl
segment_byte false (suc zero) h = refl
segment_byte false (suc (suc zero)) h = refl
segment_byte false (suc (suc (suc zero))) h = refl
segment_byte false (suc (suc (suc (suc zero)))) h = refl
segment_byte false (suc (suc (suc (suc (suc zero))))) h = refl
segment_byte false (suc (suc (suc (suc (suc (suc zero)))))) h = refl
segment_byte false (suc (suc (suc (suc (suc (suc (suc zero))))))) h = refl
segment_byte false (suc (suc (suc (suc (suc (suc (suc (suc n)))))))) h = absurd (omega arith)
segment_byte true zero h = refl
segment_byte true (suc zero) h = refl
segment_byte true (suc (suc zero)) h = refl
segment_byte true (suc (suc (suc zero))) h = refl
segment_byte true (suc (suc (suc (suc zero)))) h = refl
segment_byte true (suc (suc (suc (suc (suc zero))))) h = refl
segment_byte true (suc (suc (suc (suc (suc (suc zero)))))) h = refl
segment_byte true (suc (suc (suc (suc (suc (suc (suc zero))))))) h = refl
segment_byte true (suc (suc (suc (suc (suc (suc (suc (suc n)))))))) h = absurd (omega arith)

segment_command : (b : Bool) → bit_and (0x60 + toggle_bit b) 0xe0 ≡ 0x60
unfolding toggle_bit
segment_command false = refl
segment_command true = refl

pub chunk_small : (n : ℕ) → n < 8 → chunk_of n ≡ n
unfolding chunk_of
chunk_small n h = ground arith

pub chunk_large : (n : ℕ) → 7 < n → chunk_of n ≡ 7
unfolding chunk_of
chunk_large n h = ground arith

-- With the toggle bit expected, the next segment goes out.
send_segment-chunk :
    (objects : Memory) (e : Entry) (h : Head) (offset room : ℕ) (b : Bool)
    → offset < e.len
    → IsU16 e.len
    → 16 ≤ room
    → send_segment
        (sending objects e offset (toggle_bit b))
        (segment_request h (toggle_bit b))
        room
        (0x60 + toggle_bit b)
        e
      ≡ send_chunk
          (sending objects e offset (toggle_bit b))
          (segment_request h (toggle_bit b))
          (toggle_bit b)
          (e.len - offset)
          (chunk_of (e.len - offset))
          e
unfolding send_segment toggle_bit
send_segment-chunk objects e h offset room false p w enough =
    let left : u16 (e.len + 65536 - offset) ≡ e.len - offset = omega arith in rw left (ground arith)
send_segment-chunk objects e h offset room true p w enough =
    let left : u16 (e.len + 65536 - offset) ≡ e.len - offset = omega arith in rw left (ground arith)

-- The last segment: what is left, padded with zeros.
pub send_chunk_last :
    (objects : Memory) (e : Entry) (h : Head) (offset n : ℕ) (b : Bool)
    → offset + n ≡ e.len
    → n < 8
    → IsU16 e.len
    → send_chunk
        (sending objects e offset (toggle_bit b))
        (segment_request h (toggle_bit b))
        (toggle_bit b)
        n
        n
        e
      ≡ (
        sent objects e (toggle_bit (flipped b)),
        sdo_reply h (
            (toggle_bit b + (7 - n) * 2 + 1) ∷ load objects (e.storage + offset) n
            ++ replicate (7 - n) 0),
      )
unfolding send_chunk segment_request flipped toggle_bit sdo_reply
send_chunk_last objects e h offset n false p q w =
    let same : (n == n) ≡ true = ground arith in
    let position : u16 (offset + n) ≡ e.len = omega arith in
    rw
      (
        same,
        position,
        segment_byte false (7 - n) (omega arith),
        build_reply_headers_lem h (0x60 + toggle_bit false) 0 0 (0 ∷ 0 ∷ 0 ∷ 0 ∷ []),
      )
      refl
send_chunk_last objects e h offset n true p q w =
    let same : (n == n) ≡ true = ground arith in
    let position : u16 (offset + n) ≡ e.len = omega arith in
    rw
      (
        same,
        position,
        segment_byte true (7 - n) (omega arith),
        build_reply_headers_lem h (0x60 + toggle_bit true) 0 0 (0 ∷ 0 ∷ 0 ∷ 0 ∷ []),
      )
      refl

-- Any other segment: seven bytes, and more to come.
pub send_chunk_more :
    (objects : Memory) (e : Entry) (h : Head) (offset n : ℕ) (b : Bool)
    → offset + n ≡ e.len
    → 7 < n
    → IsU16 e.len
    → send_chunk
        (sending objects e offset (toggle_bit b))
        (segment_request h (toggle_bit b))
        (toggle_bit b)
        n
        7
        e
      ≡ (
        sending objects e (offset + 7) (toggle_bit (flipped b)),
        sdo_reply h (toggle_bit b ∷ load objects (e.storage + offset) 7),
      )
unfolding send_chunk segment_request flipped toggle_bit sdo_reply load
send_chunk_more objects e h offset n false p q w =
    let different : (7 == n) ≡ false = ground arith in
    let position : u16 (offset + 7) ≡ offset + 7 = omega arith in
    rw
      (
        different,
        position,
        build_reply_headers_lem h (0x60 + toggle_bit false) 0 0 (0 ∷ 0 ∷ 0 ∷ 0 ∷ []),
      )
      refl
send_chunk_more objects e h offset n true p q w =
    let different : (7 == n) ≡ false = ground arith in
    let position : u16 (offset + 7) ≡ offset + 7 = omega arith in
    rw
      (
        different,
        position,
        build_reply_headers_lem h (0x60 + toggle_bit true) 0 0 (0 ∷ 0 ∷ 0 ∷ 0 ∷ []),
      )
      refl

-- A request for the next segment reaches the transfer.
pub next_segment :
    (table : Table) (objects : Memory) (e : Entry) (h : Head) (offset room : ℕ) (b : Bool)
    → IsCoe h
    → offset < e.len
    → IsU16 e.len
    → 16 ≤ room
    → coe_process table
        (sending objects e offset (toggle_bit b))
        (segment_request h (toggle_bit b))
        room
      ≡ send_chunk
          (sending objects e offset (toggle_bit b))
          (segment_request h (toggle_bit b))
          (toggle_bit b)
          (e.len - offset)
          (chunk_of (e.len - offset))
          e
unfolding segment_request handle_upload_segment send_active
next_segment table objects e h offset room b kind p w enough =
    coe_process-segment table (sending objects e offset (toggle_bit b)) h (0x60 + toggle_bit b) 0 0
      (0 ∷ 0 ∷ 0 ∷ 0 ∷ []) room kind (omega arith) (segment_command b)
    ∙ send_segment-chunk objects e h offset room b p w enough
