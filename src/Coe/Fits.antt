-- ===== src/Coe/Fits.antt =====
-- No reply is longer than the buffer it is written to.
use ul_ecat.Common.{
  ℕ, ◌+◌, ◌≤◌, refl, List, [], ◌∷◌, ◌++◌, length-append, length-take, length-drop, Option, none,
  some, Bool, true, false, ◌||◌, ltb, bit_or, ◌<<<◌, ◌==◌, if◌then◌else◌, arith, bit_and, u16,
  length, get_or, take, drop, Memory, w16_le,
}
use ul_ecat.Od.{Entry, Table, OdError, od_lookup, od_first}
use ul_ecat.Coe.{
  Server, coe_service, abort_write_ro, abort_length_mm, abort_toggle_bit, abort_general, cancel,
  build_abort, missing_code, handle_upload_init, chunk_of, send_segment, send_active,
  handle_upload_segment,
}
use ul_ecat.Coe.Process.{
  payload_len, written, handle_download_entry, handle_download_found, handle_download_init,
  list_indices, handle_sdo_info, coe_process,
}
use ul_ecat.Coe.Bounds.{
  either, either_list, guarded, guarded_pair, whole, build_abort_fits, handle_upload_found_fits,
  length-send_chunk,
}

list_indices_fit :
    (es : List Entry) (prev_index out_off room : ℕ)
    → 8 + out_off ≤ room
    → 8 + out_off + length (list_indices es prev_index out_off room) ≤ room
unfolding list_indices w16_le
list_indices_fit [] prev_index out_off room h = omega arith
list_indices_fit (e ∷ es) prev_index out_off room h = ground (
  arith,
  λ (q : 8 + out_off + 2 ≤ room). list_indices_fit es e.index (out_off + 2) room (omega arith),
  list_indices_fit es e.index out_off room h,
)

indices_fit :
    (b : Bool) (table : Table) (room : ℕ)
    → 16 ≤ room
    → 14 + length (if b then list_indices (od_first table) 0xffff 6 room else []) ≤ room
indices_fit true table room h = list_indices_fit (od_first table) 0xffff 6 room (omega arith)
indices_fit false table room h = omega arith

info_length :
    (frame indices : List ℕ) (list_type total room : ℕ)
    → 16 ≤ length frame
    → 14 + length indices ≤ room
    → length (
        w16_le total
        ++ take 4 (drop 2 frame)
        ++ 0x00 ∷ 0x80 ∷ 0x02 ∷ 0 ∷ 0 ∷ 0 ∷ w16_le list_type
        ++ indices)
      ≤ room
unfolding w16_le
info_length frame indices list_type total room h bound = omega (
  arith,
  length-take 4 (drop 2 frame),
  length-drop 2 frame,
  length-append (take 4 (drop 2 frame)) (0x00 ∷ 0x80 ∷ 0x02 ∷ 0 ∷ 0 ∷ 0 ∷ w16_le list_type),
  length-append (take 4 (drop 2 frame) ++ 0x00 ∷ 0x80 ∷ 0x02 ∷ 0 ∷ 0 ∷ 0 ∷ w16_le list_type)
      indices,
)

handle_sdo_info_fits :
    (table : Table) (frame : List ℕ) (room : ℕ) (info_req : List ℕ)
    → 16 ≤ length frame
    → length (handle_sdo_info table frame room info_req) ≤ room
unfolding handle_sdo_info w16_le
handle_sdo_info_fits table frame room info_req h =
    let list_type : ℕ = bit_or (get_or info_req 4 0) (get_or info_req 5 0 <<< 8) in
    let indices : List ℕ =
      if list_type == 0x01 then list_indices (od_first table) 0xffff 6 room else [] in
    either_list (get_or info_req 0 0 == 0x01) _ _ room
      (λ _.
        either_list (ltb room 16) _ _ room (λ _. omega arith)
          (λ roomy.
            info_length frame indices list_type (u16 (2 + u16 (6 + length indices))) room h
              (indices_fit (list_type == 0x01) table room (ground arith))))
      (λ _. omega arith)

chunk_of_bound : (n : ℕ) → chunk_of n ≤ 7
unfolding chunk_of
chunk_of_bound n = ground arith

send_segment_fits :
    (s : Server) (req : List ℕ) (room cmd_byte : ℕ) (e : Entry)
    → 16 ≤ length req
    → length (send_segment s req room cmd_byte e).1 ≤ room
unfolding send_segment
send_segment_fits s req room cmd_byte e h =
    either (bit_and cmd_byte 0x10 == s.transfer.toggle_expected) _ _ room
      (λ _.
        guarded_pair room s _
          (length-send_chunk s req (bit_and cmd_byte 0x10) _ _ e h (chunk_of_bound _)))
      (λ _. build_abort_fits req room e.index e.subindex abort_toggle_bit h)

send_active_fits :
    (s : Server) (req : List ℕ) (room cmd_byte : ℕ) (active : Bool) (entry : Option Entry)
    → 16 ≤ length req
    → length (send_active s req room cmd_byte active entry).1 ≤ room
unfolding send_active
send_active_fits s req room cmd_byte true (some e) h = send_segment_fits s req room cmd_byte e h
send_active_fits s req room cmd_byte true none h = build_abort_fits req room 0 0 abort_general h
send_active_fits s req room cmd_byte false e h = build_abort_fits req room 0 0 abort_general h

written_fits :
    (s : Server) (req : List ℕ) (room index subindex : ℕ) (result : Memory × Option OdError)
    → 16 ≤ length req
    → length (written s req room index subindex result).1 ≤ room
unfolding written w16_le
written_fits s req room index subindex (objects, some code) h =
    build_abort_fits req room index subindex abort_general h
written_fits s req room index subindex (objects, none) h = guarded room _ (whole req _ _ 8 h refl)

handle_download_found_fits :
    (table : Table) (s : Server) (req : List ℕ) (room : ℕ) (sdo_req : List ℕ)
    → (index subindex : ℕ) (found : Option Entry) → 16 ≤ length req
    → length (handle_download_found table s req room sdo_req index subindex found).1 ≤ room
unfolding handle_download_found handle_download_entry
handle_download_found_fits table s req room sdo_req index subindex none h =
    build_abort_fits req room index subindex (missing_code table index) h
handle_download_found_fits table s req room sdo_req index subindex (some e) h =
    either (bit_and e.flags 2 == 0) _ _ room
      (λ _. build_abort_fits req room index subindex abort_write_ro h)
      (λ _.
        either (bit_and (get_or sdo_req 0 0) 2 == 0) _ _ room
          (λ _. build_abort_fits req room index subindex abort_general h)
          (λ _.
            either
              (payload_len (get_or sdo_req 0 0) == 0
                || ltb e.len (payload_len (get_or sdo_req 0 0)))
              _ _ room (λ _. build_abort_fits req room index subindex abort_length_mm h)
              (λ _. written_fits s req room index subindex _ h)))

sdo_request_fits :
    (table : Table) (s : Server) (frame : List ℕ) (room cmd_bits index subindex : ℕ)
    → 16 ≤ length frame
    → length
        (if cmd_bits == 0x40
          then handle_upload_init table s frame room index subindex
          else if cmd_bits == 0x20
          then handle_download_init table s frame room (drop 8 frame) index subindex
          else if cmd_bits == 0x60
          then handle_upload_segment s frame room (get_or (drop 8 frame) 0 0)
          else if cmd_bits == 0x80
          then (cancel s, [])
          else (s, build_abort frame room index subindex abort_general)).1
      ≤ room
unfolding handle_upload_init handle_download_init handle_upload_segment
sdo_request_fits table s frame room cmd_bits index subindex h =
    either (cmd_bits == 0x40) _ _ room
      (λ _.
        handle_upload_found_fits table s frame room index subindex (od_lookup table index subindex)
          h)
      (λ _.
        either (cmd_bits == 0x20) _ _ room
          (λ _.
            handle_download_found_fits table s frame room (drop 8 frame) index subindex
              (od_lookup table index subindex) h)
          (λ _.
            either (cmd_bits == 0x60) _ _ room
              (λ _.
                send_active_fits s frame room (get_or (drop 8 frame) 0 0) s.transfer.active
                  s.transfer.entry h)
              (λ _.
                either (cmd_bits == 0x80) _ _ room (λ _. omega arith)
                  (λ _. build_abort_fits frame room index subindex abort_general h))))

-- Every reply fits the buffer, whatever the frame, the dictionary and the state.
pub coe_process_fits :
    (table : Table) (s : Server) (frame : List ℕ) (room : ℕ)
    → length (coe_process table s frame room).1 ≤ room
unfolding coe_process
coe_process_fits table s frame room =
    let sdo : List ℕ = drop 8 frame in
    let svc : ℕ = coe_service (drop 6 frame) in
    let cmd_bits : ℕ = bit_and (get_or sdo 0 0) 0xe0 in
    either (ltb (length frame) 16) _ _ room (λ _. omega arith)
      (λ long.
        let h : 16 ≤ length frame = ground arith in
        either (bit_and (get_or frame 5 0) 0x0f == 0x03) _ _ room
          (λ _.
            either (svc == 0x08) _ _ room (λ _. handle_sdo_info_fits table frame room sdo h)
              (λ _.
                either (svc == 0x02) _ _ room
                  (λ _. sdo_request_fits table s frame room cmd_bits _ _ h) (λ _. omega arith)))
          (λ _. omega arith))
