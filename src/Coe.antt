-- ===== src/Coe.antt =====
-- src/slave/ul_ecat_slave_coe.c: the SDO server of CANopen over EtherCAT. A mailbox frame goes
-- in, a reply comes out; the empty reply stands for the returned length 0. The state is the
-- storage of the objects and the transfer `g_upload`.
pub mod Process
pub mod Frames
pub mod Upload
pub mod Client
pub mod Segments
pub mod Uploaded
pub mod Download
pub mod Aborts
pub mod Bounds
pub mod Fits
pub mod Transfers
use ul_ecat.Common.{
  ℕ, ◌+◌, ◌-◌, List, [], ◌∷◌, ◌++◌, Option, none, some, Bool, true, false, ◌&&◌, ◌||◌, ltb, leb,
  ◌==◌, if◌then◌else◌, bit_and, bit_or, bit_xor, ◌<<<◌, ◌>>>◌, u8, u16, length, get_or, take, drop,
  replicate, Memory, load, w16_le, r16_le, w32_le,
}
use ul_ecat.Od.{
  Entry, Table, OdRead, read, read_failed, OdError, od_flag_r, od_flag_w, od_lookup,
  od_index_exists, od_first, od_read, od_write,
}

-- COE_FRAME_HDR_TOTAL
abbrev pub coe_frame_hdr_total : ℕ
coe_frame_hdr_total = 16

-- UL_ECAT_SDO_ABORT_*
abbrev pub abort_toggle_bit : ℕ
abort_toggle_bit = 0x05030000

abbrev pub abort_write_ro : ℕ
abort_write_ro = 0x06010002

abbrev pub abort_read_wo : ℕ
abort_read_wo = 0x06010001

abbrev pub abort_object_gone : ℕ
abort_object_gone = 0x06020000

abbrev pub abort_bad_subindex : ℕ
abort_bad_subindex = 0x06090011

abbrev pub abort_length_mm : ℕ
abort_length_mm = 0x06070010

abbrev pub abort_general : ℕ
abort_general = 0x08000000

-- The static `g_upload`; the entry it points to is constant.
pub record Transfer : Type 0 where
  pub active : Bool
  pub entry : Option Entry
  pub offset : ℕ
  pub toggle_expected : ℕ

pub record Server : Type 0 where
  pub objects : Memory
  pub transfer : Transfer

-- `g_upload.active = 0`
unfoldable pub cancel : Server → Server
cancel s = record {
  objects = s.objects;
  transfer = record {
    active = false;
    entry = s.transfer.entry;
    offset = s.transfer.offset;
    toggle_expected = s.transfer.toggle_expected;
  };
}

unfoldable pub coe_service : List ℕ → ℕ
coe_service coe_hdr = bit_and (get_or coe_hdr 1 0 >>> 4) 0x0f

-- The eight bytes of the mailbox header and the CoE header.
unfoldable pub build_reply_headers : List ℕ → ℕ → List ℕ
build_reply_headers req body_len =
    w16_le (u16 (2 + body_len)) ++ take 4 (drop 2 req) ++ 0x00 ∷ u8 (0x03 <<< 4) ∷ []

unfoldable pub build_abort : List ℕ → ℕ → ℕ → ℕ → ℕ → List ℕ
build_abort req room index subindex code =
    if ltb room coe_frame_hdr_total
    then []
    else build_reply_headers req 8 ++ 0x80 ∷ w16_le index ++ subindex ∷ w32_le code

-- The abort code for an object that is not found.
unfoldable pub missing_code : Table → ℕ → ℕ
missing_code table index =
    if od_index_exists table index then abort_bad_subindex else abort_object_gone

-- What `ul_ecat_od_read` leaves in four zeroed bytes.
unfoldable pub read_into_zeros : OdRead → List ℕ
read_into_zeros (read bs) = bs ++ replicate (4 - length bs) 0
read_into_zeros (read_failed code) = 0 ∷ 0 ∷ 0 ∷ 0 ∷ []

unfoldable pub handle_upload_entry : Server → List ℕ → ℕ → ℕ → ℕ → Entry → Server × List ℕ
handle_upload_entry s req room index subindex entry =
    if bit_and entry.flags od_flag_r == 0
    then (cancel s, build_abort req room index subindex abort_read_wo)
    else if entry.len == 0
    then (cancel s, build_abort req room index subindex abort_general)
    else if ltb room coe_frame_hdr_total
    then (s, [])
    else if leb entry.len 4
    then (
      cancel s,
      build_reply_headers req 8
          ++ bit_or (bit_or (bit_or 0x40 0x02) 0x01) (u8 (u8 (bit_and (4 - entry.len) 0x03) <<< 2))
            ∷ w16_le index
          ++ subindex ∷ read_into_zeros (od_read s.objects (some entry) entry.len),
    )
    else (
      record {
        objects = s.objects;
        transfer = record { active = true; entry = some entry; offset = 0; toggle_expected = 0 };
      },
      build_reply_headers req 8
          ++ bit_or 0x40 0x01 ∷ w16_le index
          ++ subindex
            ∷ u8 (bit_and entry.len 0xff)
            ∷ u8 (bit_and (entry.len >>> 8) 0xff)
            ∷ 0
            ∷ 0
            ∷ [],
    )

unfoldable pub handle_upload_found :
    Table → Server → List ℕ → ℕ → ℕ → ℕ → Option Entry → Server × List ℕ
handle_upload_found table s req room index subindex none =
    (cancel s, build_abort req room index subindex (missing_code table index))
handle_upload_found table s req room index subindex (some entry) =
    handle_upload_entry s req room index subindex entry

unfoldable pub handle_upload_init : Table → Server → List ℕ → ℕ → ℕ → ℕ → Server × List ℕ
unfolding handle_upload_found
handle_upload_init table s req room index subindex =
    handle_upload_found table s req room index subindex (od_lookup table index subindex)

-- The number of bytes that the next segment carries.
unfoldable pub chunk_of : ℕ → ℕ
chunk_of remaining = if ltb 7 remaining then 7 else remaining

-- The segment of `chunk` bytes and the transfer behind it.
unfoldable pub send_chunk : Server → List ℕ → ℕ → ℕ → ℕ → Entry → Server × List ℕ
send_chunk s req toggle_in remaining chunk entry =
    let last : Bool = chunk == remaining in
    (
      record {
        objects = s.objects;
        transfer = record {
          active = if last then false else true;
          entry = some entry;
          offset = u16 (s.transfer.offset + chunk);
          toggle_expected = u8 (bit_xor s.transfer.toggle_expected 0x10);
        };
      },
      build_reply_headers req 8
          ++ bit_or (bit_or (bit_or 0x00 toggle_in) (u8 (u8 (7 - chunk) <<< 1)))
              (if last then 0x01 else 0x00)
            ∷ load s.objects (entry.storage + s.transfer.offset) chunk
          ++ replicate (7 - chunk) 0,
    )

-- The test of the toggle bit.
unfoldable pub send_segment : Server → List ℕ → ℕ → ℕ → Entry → Server × List ℕ
send_segment s req room cmd_byte entry =
    let toggle_in : ℕ = bit_and cmd_byte 0x10 in
    let remaining : ℕ = u16 (entry.len + 65536 - s.transfer.offset) in
    if toggle_in == s.transfer.toggle_expected
    then if ltb room coe_frame_hdr_total
      then (s, [])
      else send_chunk s req toggle_in remaining (chunk_of remaining) entry
    else (cancel s, build_abort req room entry.index entry.subindex abort_toggle_bit)

unfoldable pub send_active : Server → List ℕ → ℕ → ℕ → Bool → Option Entry → Server × List ℕ
send_active s req room cmd_byte true (some entry) = send_segment s req room cmd_byte entry
send_active s req room cmd_byte true none = (s, build_abort req room 0 0 abort_general)
send_active s req room cmd_byte false e = (s, build_abort req room 0 0 abort_general)

unfoldable pub handle_upload_segment : Server → List ℕ → ℕ → ℕ → Server × List ℕ
unfolding send_active
handle_upload_segment s req room cmd_byte =
    send_active s req room cmd_byte s.transfer.active s.transfer.entry
