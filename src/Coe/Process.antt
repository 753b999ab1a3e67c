-- ===== src/Coe/Process.antt =====
-- The downloads and the object list of src/slave/ul_ecat_slave_coe.c, and
-- `ul_ecat_slave_coe_process`, which answers one mailbox frame.
use ul_ecat.Common.{
  ℕ, ◌+◌, ◌-◌, List, [], ◌∷◌, ◌++◌, Option, none, some, Bool, ◌||◌, ltb, ◌==◌, if◌then◌else◌,
  bit_and, bit_or, ◌<<<◌, ◌>>>◌, u8, u16, length, get_or, take, drop, Memory, w16_le, r16_le,
}
use ul_ecat.Od.{Entry, Table, OdError, od_flag_w, od_lookup, od_first, od_write}
use ul_ecat.Coe.{
  coe_frame_hdr_total, abort_write_ro, abort_length_mm, abort_general, Server, cancel, coe_service,
  build_reply_headers, build_abort, missing_code, handle_upload_init, handle_upload_segment,
}

-- The number of bytes that an expedited download carries.
unfoldable pub payload_len : ℕ → ℕ
payload_len cmd =
    let n : ℕ = if bit_and cmd 0x01 == 0 then 0 else bit_and (cmd >>> 2) 0x03 in u8 (4 - n)

-- The answer to a write whose result is given.
unfoldable pub written : Server → List ℕ → ℕ → ℕ → ℕ → Memory × Option OdError → Server × List ℕ
written s req room index subindex (objects, some code) = (
  record { objects = objects; transfer = s.transfer },
  build_abort req room index subindex abort_general,
)
written s req room index subindex (objects, none) = (
  record { objects = objects; transfer = s.transfer },
  if ltb room coe_frame_hdr_total
      then []
      else build_reply_headers req 8 ++ 0x60 ∷ w16_le index ++ subindex ∷ 0 ∷ 0 ∷ 0 ∷ 0 ∷ [],
)

unfoldable pub handle_download_entry :
    Server → List ℕ → ℕ → List ℕ → ℕ → ℕ → Entry → Server × List ℕ
unfolding written
handle_download_entry s req room sdo_req index subindex entry =
    let cmd : ℕ = get_or sdo_req 0 0 in
    let count : ℕ = payload_len cmd in
    if bit_and entry.flags od_flag_w == 0
    then (s, build_abort req room index subindex abort_write_ro)
    else if bit_and cmd 0x02 == 0
    then (s, build_abort req room index subindex abort_general)
    else if count == 0 || ltb entry.len count
    then (s, build_abort req room index subindex abort_length_mm)
    else written s req room index subindex
        (od_write s.objects (some entry) (take count (drop 4 sdo_req)))

unfoldable pub handle_download_found :
    Table → Server → List ℕ → ℕ → List ℕ → ℕ → ℕ → Option Entry → Server × List ℕ
handle_download_found table s req room sdo_req index subindex none =
    (s, build_abort req room index subindex (missing_code table index))
handle_download_found table s req room sdo_req index subindex (some entry) =
    handle_download_entry s req room sdo_req index subindex entry

unfoldable pub handle_download_init : Table → Server → List ℕ → ℕ → List ℕ → ℕ → ℕ → Server × List ℕ
unfolding handle_download_found
handle_download_init table s req room sdo_req index subindex =
    handle_download_found table s req room sdo_req index subindex (od_lookup table index subindex)

-- The loop over the entries: the bytes it writes from `out_off` on.
unfoldable pub list_indices : List Entry → ℕ → ℕ → ℕ → List ℕ
list_indices [] prev_index out_off room = []
list_indices (e ∷ es) prev_index out_off room =
    let same : Bool = e.index == prev_index in
    let rest : List ℕ = list_indices es e.index (if same then out_off else out_off + 2) room in
    if same then rest else if ltb room (8 + out_off + 2) then [] else w16_le e.index ++ rest

unfoldable pub handle_sdo_info : Table → List ℕ → ℕ → List ℕ → List ℕ
handle_sdo_info table frame room info_req =
    let list_type : ℕ = bit_or (get_or info_req 4 0) (get_or info_req 5 0 <<< 8) in
    let indices : List ℕ =
      if list_type == 0x01 then list_indices (od_first table) 0xffff 6 room else [] in
    if get_or info_req 0 0 == 0x01
    then if ltb room 16
      then []
      else w16_le (u16 (2 + u16 (6 + length indices)))
        ++ take 4 (drop 2 frame)
        ++ 0x00 ∷ u8 (0x08 <<< 4) ∷ 0x02 ∷ 0 ∷ 0 ∷ 0 ∷ w16_le list_type
        ++ indices
    else []

-- `ul_ecat_slave_coe_process` of a frame of its length `len`; no pointer is null.
unfoldable pub coe_process : Table → Server → List ℕ → ℕ → Server × List ℕ
coe_process table s frame room =
    let coe_hdr : List ℕ = drop 6 frame in
    let sdo : List ℕ = drop 8 frame in
    let svc : ℕ = coe_service coe_hdr in
    let cmd_bits : ℕ = bit_and (get_or sdo 0 0) 0xe0 in
    let index : ℕ = r16_le (drop 1 sdo) in
    let subindex : ℕ = get_or sdo 3 0 in
    if ltb (length frame) coe_frame_hdr_total
    then (s, [])
    else if bit_and (get_or frame 5 0) 0x0f == 0x03
    then if svc == 0x08
      then (s, handle_sdo_info table frame room sdo)
      else if svc == 0x02
      then if cmd_bits == 0x40
        then handle_upload_init table s frame room index subindex
        else if cmd_bits == 0x20
        then handle_download_init table s frame room sdo index subindex
        else if cmd_bits == 0x60
        then handle_upload_segment s frame room (get_or sdo 0 0)
        else if cmd_bits == 0x80
        then (cancel s, [])
        else (s, build_abort frame room index subindex abort_general)
      else (s, [])
    else (s, [])
