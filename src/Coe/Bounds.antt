-- ===== src/Coe/Bounds.antt =====
-- The lengths of the aborts and of the replies to uploads.
use ul_ecat.Common.{
  ℕ, suc, ◌+◌, ◌-◌, ◌≤◌, ◌≡◌, refl, ap, List, [], ◌∷◌, ◌++◌, length-append, length-take,
  length-drop, length-replicate, Option, none, some, Bool, true, false, ltb, leb, bit_or, ◌<<<◌, u8,
  ◌==◌, if◌then◌else◌, arith, bit_and, length, take, drop, replicate, Memory, load, length-load,
  w16_le, w32_le,
}
use ul_ecat.Od.{Entry, Table, od_read}
use ul_ecat.Coe.{
  Server, abort_read_wo, abort_general, build_reply_headers, build_abort, missing_code,
  read_into_zeros, handle_upload_entry, handle_upload_found, send_chunk,
}

length-build_reply_headers :
    (req : List ℕ) (n : ℕ) → 16 ≤ length req → length (build_reply_headers req n) ≡ 8
unfolding build_reply_headers w16_le
length-build_reply_headers req n h = ground (
  arith,
  length-append (take 4 (drop 2 req)) (0x00 ∷ 0x30 ∷ []),
  length-take 4 (drop 2 req),
  length-drop 2 req,
)

-- The headers with a body of eight bytes, in two parts.
pub whole :
    (req front back : List ℕ) (n : ℕ)
    → 16 ≤ length req
    → length front + length back ≡ 8
    → length (build_reply_headers req n ++ front ++ back) ≡ 16
whole req front back n h b = omega (
  arith,
  length-append (build_reply_headers req n ++ front) back,
  length-append (build_reply_headers req n) front,
  length-build_reply_headers req n h,
)

-- Each branch of a test within the bound.
pub either :
    (b : Bool) (p q : Server × List ℕ) (room : ℕ)
    → (b ≡ true → length p.1 ≤ room)
    → (b ≡ false → length q.1 ≤ room)
    → length (if b then p else q).1 ≤ room
either true p q room when unless = when refl
either false p q room when unless = unless refl

pub either_list :
    (b : Bool) (xs ys : List ℕ) (room : ℕ)
    → (b ≡ true → length xs ≤ room)
    → (b ≡ false → length ys ≤ room)
    → length (if b then xs else ys) ≤ room
either_list true xs ys room when unless = when refl
either_list false xs ys room when unless = unless refl

-- A reply of sixteen bytes behind the test of the buffer.
pub guarded :
    (room : ℕ) (bs : List ℕ) → length bs ≡ 16 → length (if ltb room 16 then [] else bs) ≤ room
guarded room bs h = ground arith

pub guarded_pair :
    (room : ℕ) (s : Server) (p : Server × List ℕ)
    → length p.1 ≡ 16
    → length (if ltb room 16 then (s, []) else p).1 ≤ room
guarded_pair room s p h =
    either (ltb room 16) (s, []) p room (λ _. omega arith) (λ roomy. ground arith)

pub build_abort_fits :
    (req : List ℕ) (room index subindex code : ℕ)
    → 16 ≤ length req
    → length (build_abort req room index subindex code) ≤ room
unfolding build_abort w16_le w32_le
build_abort_fits req room index subindex code h = guarded room _ (whole req _ _ 8 h refl)

length-read_into_zeros :
    (objects : Memory) (e : Entry)
    → e.len ≤ 4
    → length (read_into_zeros (od_read objects (some e) e.len)) ≡ 4
unfolding read_into_zeros od_read
length-read_into_zeros objects e h = ground (
  arith,
  length-append (load objects e.storage e.len) (replicate {A = ℕ} (4 - e.len) 0),
  length-load objects e.storage e.len,
  length-replicate {A = ℕ} (4 - e.len) 0,
)

sixteen :
    (b : Bool) (p q : Server × List ℕ)
    → (b ≡ true → length p.1 ≡ 16)
    → (b ≡ false → length q.1 ≡ 16)
    → length (if b then p else q).1 ≡ 16
sixteen true p q when unless = when refl
sixteen false p q when unless = unless refl

handle_upload_entry_fits :
    (s : Server) (req : List ℕ) (room index subindex : ℕ) (e : Entry)
    → 16 ≤ length req
    → length (handle_upload_entry s req room index subindex e).1 ≤ room
unfolding handle_upload_entry w16_le
handle_upload_entry_fits s req room index subindex e h =
    either (bit_and e.flags 1 == 0) _ _ room
      (λ _. build_abort_fits req room index subindex abort_read_wo h)
      (λ _.
        either (e.len == 0) _ _ room (λ _. build_abort_fits req room index subindex abort_general h)
          (λ _. guarded_pair room s _ (
            sixteen (leb e.len 4) _ _
              (λ small.
                whole req _ _ 8 h
                  (ap (λ n. 3 + suc n) (length-read_into_zeros s.objects e (ground arith))))
              (λ _. whole req _ _ 8 h refl))))

pub handle_upload_found_fits :
    (table : Table) (s : Server) (req : List ℕ) (room index subindex : ℕ) (found : Option Entry)
    → 16 ≤ length req
    → length (handle_upload_found table s req room index subindex found).1 ≤ room
unfolding handle_upload_found
handle_upload_found_fits table s req room index subindex none h =
    build_abort_fits req room index subindex (missing_code table index) h
handle_upload_found_fits table s req room index subindex (some e) h =
    handle_upload_entry_fits s req room index subindex e h

pub length-send_chunk :
    (s : Server) (req : List ℕ) (toggle_in remaining chunk : ℕ) (e : Entry)
    → 16 ≤ length req
    → chunk ≤ 7
    → length (send_chunk s req toggle_in remaining chunk e).1 ≡ 16
unfolding send_chunk
length-send_chunk s req toggle_in remaining chunk e h c =
    whole req
      (bit_or (bit_or (bit_or 0x00 toggle_in) (u8 (u8 (7 - chunk) <<< 1)))
          (if chunk == remaining then 0x01 else 0x00)
        ∷ load s.objects (e.storage + s.transfer.offset) chunk)
      (replicate {A = ℕ} (7 - chunk) 0) 8 h
      (omega (
        arith,
        length-load s.objects (e.storage + s.transfer.offset) chunk,
        length-replicate {A = ℕ} (7 - chunk) 0,
      ))
