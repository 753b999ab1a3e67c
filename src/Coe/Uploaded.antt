-- ===== src/Coe/Uploaded.antt =====
-- What a client makes of the segments: a whole upload gives it the object's bytes.
use ul_ecat.Common.{
  ℕ, zero, suc, ◌+◌, ◌-◌, ◌*◌, ◌/◌, ◌%◌, ◌≤◌, ◌<◌, ◌≡◌, ◌≢◌, ◌⊎◌, inl, inr, refl, sym, ap, ap₂, ◌∙◌,
  List, [], ◌∷◌, ◌++◌, take-append, some, Bool, true, false, arith, bit_and, length, take,
  replicate, IsU16, Memory, load, length-load, load-append, take-load, r16_le, r16_le-bytes, and_1,
  and_7, and_e0,
}
use ul_ecat.Od.{Entry, Table, od_lookup}
use ul_ecat.Od.Storage.{IsReadable, HasStorage}
use ul_ecat.Coe.{Server, chunk_of}
use ul_ecat.Coe.Frames.{Head, IsCoe, sdo_reply}
use ul_ecat.Coe.Upload.{sending, coe_process_expedited, coe_process_segmented}
use ul_ecat.Coe.Segments.{send_chunk_last, send_chunk_more, chunk_small, chunk_large, next_segment}
use ul_ecat.Coe.Client.{toggle_bit, flipped, prepended, collect, upload_object}

take_front : (n : ℕ) (xs ys : List ℕ) → length xs ≡ n → take n (xs ++ ys) ≡ xs
take_front n xs ys h = ap (λ k. take k (xs ++ ys)) (sym h) ∙ take-append xs ys

toggle_cases : (b : Bool) → (toggle_bit b ≡ 0) ⊎ (toggle_bit b ≡ 16)
unfolding toggle_bit
toggle_cases false = inl refl
toggle_cases true = inr refl

-- What a client reads in the command byte of a last segment of `n` bytes.
last_command :
    (b : Bool) (n : ℕ)
    → n < 8
    → (bit_and (toggle_bit b + (7 - n) * 2 + 1) 0xe0 ≡ 0)
      × (bit_and (toggle_bit b + (7 - n) * 2 + 1) 0x01 ≡ 1)
      × (7 - bit_and ((toggle_bit b + (7 - n) * 2 + 1) / 2) 0x07 ≡ n)
last_command b n h = ground (
  arith,
  toggle_cases b,
  and_e0 (toggle_bit b + (7 - n) * 2 + 1) (omega (arith, toggle_cases b)),
  and_1 (toggle_bit b + (7 - n) * 2 + 1),
  and_7 ((toggle_bit b + (7 - n) * 2 + 1) / 2),
)

more_command :
    (b : Bool)
    → (bit_and (toggle_bit b) 0xe0 ≡ 0)
      × (bit_and (toggle_bit b) 0x01 ≡ 0)
      × (7 - bit_and (toggle_bit b / 2) 0x07 ≡ 7)
unfolding toggle_bit
more_command false = (refl, refl, refl)
more_command true = (refl, refl, refl)

expedited_command :
    (n : ℕ)
    → n ≢ 0
    → n ≤ 4
    → (bit_and (0x43 + (4 - n) * 4) 0xe0 ≡ 0x40)
      × (bit_and (0x43 + (4 - n) * 4) 0x02 ≡ 2)
      × (4 - bit_and ((0x43 + (4 - n) * 4) / 4) 0x03 ≡ n)
expedited_command zero z h = absurd (z refl)
expedited_command (suc zero) z h = (refl, refl, refl)
expedited_command (suc (suc zero)) z h = (refl, refl, refl)
expedited_command (suc (suc (suc zero))) z h = (refl, refl, refl)
expedited_command (suc (suc (suc (suc zero)))) z h = (refl, refl, refl)
expedited_command (suc (suc (suc (suc (suc n))))) z h = absurd (omega arith)

le_or_lt : (a b : ℕ) → (a ≤ b) ⊎ (b < a)
le_or_lt a b = omega arith

rest_of_load :
    (m : Memory) (a offset n : ℕ)
    → offset + 7 ≤ n
    → load m (a + offset) 7 ++ load m (a + (offset + 7)) (n - (offset + 7))
      ≡ load m (a + offset) (n - offset)
rest_of_load m a offset n h =
    let start : a + (offset + 7) ≡ a + offset + 7 = omega arith in
    let count : 7 + (n - (offset + 7)) ≡ n - offset = omega arith in
    ap (λ b. load m (a + offset) 7 ++ load m b (n - (offset + 7))) start
    ∙ load-append m (a + offset) 7 (n - (offset + 7))
    ∙ ap (load m (a + offset)) count

collect_last :
    (fuel : ℕ) (table : Table) (objects : Memory) (e : Entry) (h : Head) (offset room : ℕ)
    (b : Bool)
    → IsCoe h
    → offset < e.len
    → e.len - offset < 8
    → IsU16 e.len
    → 16 ≤ room
    → collect (suc fuel) table (sending objects e offset (toggle_bit b)) h b room
      ≡ some (load objects (e.storage + offset) (e.len - offset))
unfolding collect sdo_reply
collect_last fuel table objects e h offset room b kind p q w enough =
    let n : chunk_of (e.len - offset) ≡ e.len - offset = chunk_small (e.len - offset) q in
    rw
      (
        next_segment table objects e h offset room b kind p w enough,
        n,
        send_chunk_last objects e h offset (e.len - offset) b (omega arith) q w,
      )
      (ground (
        arith,
        last_command b (e.len - offset) q,
        take_front (e.len - offset) (load objects (e.storage + offset) (e.len - offset))
            (replicate (7 - (e.len - offset)) 0)
            (length-load objects (e.storage + offset) (e.len - offset)),
      ))

collect_more :
    (fuel : ℕ) (table : Table) (objects : Memory) (e : Entry) (h : Head) (offset room : ℕ)
    (b : Bool)
    → IsCoe h
    → offset + 7 < e.len
    → IsU16 e.len
    → 16 ≤ room
    → collect (suc fuel) table (sending objects e offset (toggle_bit b)) h b room
      ≡ prepended (load objects (e.storage + offset) 7) (
          collect fuel table
            (sending objects e (offset + 7) (toggle_bit (flipped b)))
            h
            (flipped b)
            room)
unfolding collect sdo_reply toggle_bit flipped
collect_more fuel table objects e h offset room b kind p w enough =
    let n : chunk_of (e.len - offset) ≡ 7 = chunk_large (e.len - offset) (omega arith) in
    let seven : take 7 (load objects (e.storage + offset) 7) ≡ load objects (e.storage + offset) 7 =
      take-load objects (e.storage + offset) 7 7 (omega arith) in
    rw
      (
        next_segment table objects e h offset room b kind (omega arith) w enough,
        n,
        send_chunk_more objects e h offset (e.len - offset) b (omega arith) (omega arith) w,
      )
      (ground (arith, more_command b, seven))

-- The client collects what is left of the entry from the segments. A segment carries at least one
-- byte, so fuel for as many segments as bytes are left is enough.
pub collect_lem :
    (fuel : ℕ) (table : Table) (objects : Memory) (e : Entry) (h : Head) (offset room : ℕ)
    (b : Bool)
    → IsCoe h
    → offset < e.len
    → e.len - offset ≤ fuel
    → IsU16 e.len
    → 16 ≤ room
    → collect fuel table (sending objects e offset (toggle_bit b)) h b room
      ≡ some (load objects (e.storage + offset) (e.len - offset))
unfolding prepended
collect_lem zero table objects e h offset room b kind p q w enough = absurd (omega arith)
collect_lem (suc fuel) table objects e h offset room b kind p q w enough =
    elim (le_or_lt (e.len - offset) 7) [
      | inl small ↦ collect_last fuel table objects e h offset room b kind p (omega arith) w enough
      | inr large ↦
          collect_more fuel table objects e h offset room b kind (omega arith) w enough
          ∙ ap (prepended (load objects (e.storage + offset) 7)) (
              collect_lem fuel table objects e h (offset + 7) room (flipped b) kind (omega arith)
                (omega arith) w enough)
          ∙ ap some (rest_of_load objects e.storage offset e.len (omega arith))
    ]

-- An upload gives a client the bytes of the object, whatever its length.
pub upload_object_lem :
    (table : Table) (s : Server) (h : Head) (index subindex room : ℕ) (e : Entry)
    → IsCoe h
    → IsU16 index
    → od_lookup table index subindex ≡ some e
    → IsReadable e
    → HasStorage e
    → IsU16 e.len
    → 16 ≤ room
    → upload_object table s h index subindex room ≡ some (load s.objects e.storage e.len)
unfolding upload_object sdo_reply toggle_bit
upload_object_lem table s h index subindex room e kind word found r st w enough =
    elim (le_or_lt e.len 4) [
      | inl small ↦
          rw
            (coe_process_expedited table s h index subindex room e kind word found r st small
              enough)
            (ground (
              arith,
              expedited_command e.len (st.1) small,
              take_front e.len (load s.objects e.storage e.len) (replicate (4 - e.len) 0)
                  (length-load s.objects e.storage e.len),
            ))
      | inr long ↦
          let start : e.storage + 0 ≡ e.storage = omega arith in
          let whole : e.len - 0 ≡ e.len = omega arith in
          let size : r16_le (e.len % 256 ∷ e.len / 256 ∷ 0 ∷ 0 ∷ []) ≡ e.len =
            omega (arith, r16_le-bytes (e.len % 256) (e.len / 256) (0 ∷ 0 ∷ []) (omega arith)) in
          rw
            (
              coe_process_segmented table s h index subindex room e kind word found r long w enough,
              size,
            )
            (collect_lem e.len table s.objects e h 0 room false kind (omega arith) (omega arith) w
                enough
              ∙ ap₂ (λ a n. some (load s.objects a n)) start whole)
    ]
