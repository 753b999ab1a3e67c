-- ===== src/Coe/Aborts.antt =====
-- The aborts: what a client hears when an object is not there or a segment is out of turn, and
-- that every reply fits the buffer it is given.
use ul_ecat.Common.{
  ℕ, ◌+◌, ◌≤◌, ◌≡◌, ◌≢◌, ◌↔◌, refl, ap, ◌∙◌, List, [], ◌∷◌, some, Bool, true, false, arith, bit_and,
  IsU16, Memory, w32_le, w32_le-bytes,
}
use ul_ecat.Od.{Entry, Table}
use ul_ecat.Od.Lookup.{NoMatch, NoIndex, od_lookup-none_iff, od_index_exists_iff}
use ul_ecat.Coe.{
  Server, cancel, build_abort, missing_code, handle_upload_found, handle_upload_init, send_segment,
  send_active, handle_upload_segment,
}
use ul_ecat.Coe.Process.{coe_process}
use ul_ecat.Coe.Frames.{
  Head, IsCoe, sdo_request, abort_reply, coe_process-upload, coe_process-segment,
}
use ul_ecat.Coe.Upload.{upload_request, segment_request, sending, headed}
use ul_ecat.Coe.Client.{toggle_bit, flipped}

-- An abort as a client reads it.
build_abort_lem :
    (h : Head) (cmd i s index subindex room code : ℕ) (body : List ℕ)
    → IsU16 index
    → 16 ≤ room
    → build_abort (sdo_request h cmd i s body) room index subindex code
      ≡ abort_reply h index subindex code
unfolding build_abort abort_reply
build_abort_lem h cmd i s index subindex room code body word enough =
    ground (arith, headed h cmd i s 0x80 index subindex body (w32_le code) word, w32_le-bytes code)

missing_code_iff :
    (entries : List Entry) (index : ℕ)
    → (missing_code (some entries) index ≡ 0x06020000) ↔ NoIndex entries index
unfolding missing_code
missing_code_iff entries index =
    let (only_if, of) = od_index_exists_iff entries index in
    (λ m. only_if (ground arith), λ n. rw (of n) refl)

-- A request for an object that is not in the dictionary cancels the transfer, and the abort tells
-- a missing index from a missing subindex.
pub coe_process_missing :
    (entries : List Entry) (s : Server) (h : Head) (index subindex room : ℕ)
    → IsCoe h
    → IsU16 index
    → 16 ≤ room
    → NoMatch entries index subindex
    → (coe_process (some entries) s (upload_request h index subindex) room
        ≡ (cancel s, abort_reply h index subindex (missing_code (some entries) index)))
      × ((missing_code (some entries) index ≡ 0x06020000) ↔ NoIndex entries index)
unfolding upload_request handle_upload_init handle_upload_found
coe_process_missing entries s h index subindex room kind word enough none_found = (
  coe_process-upload (some entries) s h 0x40 index subindex (0 ∷ 0 ∷ 0 ∷ 0 ∷ []) room kind
        (omega arith) word refl
      ∙ rw ((od_lookup-none_iff entries index subindex).1 none_found) (
          ap (λ bs. (cancel s, bs))
            (build_abort_lem h 0x40 index subindex index subindex room
              (missing_code (some entries) index) (0 ∷ 0 ∷ 0 ∷ 0 ∷ []) word enough)),
  missing_code_iff entries index,
)

wrong_toggle : (b : Bool) → bit_and (0x60 + toggle_bit (flipped b)) 0x10 ≢ toggle_bit b
unfolding toggle_bit flipped
wrong_toggle false = omega arith
wrong_toggle true = omega arith

segment_command : (b : Bool) → bit_and (0x60 + toggle_bit b) 0xe0 ≡ 0x60
unfolding toggle_bit
segment_command false = refl
segment_command true = refl

-- A request with the wrong toggle bit cancels the transfer and sends no byte of the object.
pub coe_process_wrong_toggle :
    (table : Table) (objects : Memory) (e : Entry) (h : Head) (offset room : ℕ) (b : Bool)
    → IsCoe h
    → IsU16 e.index
    → 16 ≤ room
    → coe_process table
        (sending objects e offset (toggle_bit b))
        (segment_request h (toggle_bit (flipped b)))
        room
      ≡ (
        cancel (sending objects e offset (toggle_bit b)),
        abort_reply h e.index e.subindex 0x05030000,
      )
unfolding segment_request handle_upload_segment send_active send_segment
coe_process_wrong_toggle table objects e h offset room b kind word enough =
    coe_process-segment table (sending objects e offset (toggle_bit b)) h
      (0x60 + toggle_bit (flipped b)) 0 0 (0 ∷ 0 ∷ 0 ∷ 0 ∷ []) room kind (omega arith)
      (segment_command (flipped b))
    ∙ ground (
      arith,
      wrong_toggle b,
      build_abort_lem h (0x60 + toggle_bit (flipped b)) 0 0 e.index e.subindex room 0x05030000
          (0 ∷ 0 ∷ 0 ∷ 0 ∷ []) word enough,
    )

-- Without a transfer a request for a segment is refused.
pub coe_process_no_transfer :
    (table : Table) (s : Server) (h : Head) (room : ℕ) (b : Bool)
    → IsCoe h
    → s.transfer.active ≡ false
    → 16 ≤ room
    → coe_process table s (segment_request h (toggle_bit b)) room
      ≡ (s, abort_reply h 0 0 0x08000000)
unfolding segment_request handle_upload_segment send_active
coe_process_no_transfer table s h room b kind idle enough =
    coe_process-segment table s h (0x60 + toggle_bit b) 0 0 (0 ∷ 0 ∷ 0 ∷ 0 ∷ []) room kind
      (omega arith) (segment_command b)
    ∙ ground (
      arith,
      build_abort_lem h (0x60 + toggle_bit b) 0 0 0 0 room 0x08000000 (0 ∷ 0 ∷ 0 ∷ 0 ∷ [])
          (omega arith) enough,
    )
