-- ===== src/Tests/Objects.antt =====
-- The object dictionary, the SDO server, the controller and the master's polling.
use ul_ecat.Common.{
  ◌+◌, ◌-◌, ◌≤◌, ◌≡◌, ◌↔◌, refl, List, [], ◌∷◌, ◌++◌, none, some, true, false, arith, length,
  Memory, load, store,
}
use ul_ecat.Od.{Entry, od_lookup}
use ul_ecat.Od.Lookup.{NoMatch, NoIndex, od_lookup_iff}
use ul_ecat.Od.Storage.{IsReadable}
use ul_ecat.Coe.{Server, cancel, missing_code}
use ul_ecat.Coe.Process.{coe_process}
use ul_ecat.Coe.Frames.{Head, abort_reply}
use ul_ecat.Coe.Upload.{upload_request, segment_request, sending}
use ul_ecat.Coe.Client.{toggle_bit, flipped, upload_object}
use ul_ecat.Coe.Uploaded.{upload_object_lem}
use ul_ecat.Coe.Download.{download_request, upload_object-download}
use ul_ecat.Coe.Aborts.{coe_process_missing, coe_process_wrong_toggle}
use ul_ecat.Coe.Fits.{coe_process_fits}
use ul_ecat.Coe.Transfers.{IsTransfer, coe_process-IsTransfer}

abbrev position : Entry
position = record { index = 0x6064; subindex = 0; type = 4; flags = 3; len = 9; storage = 0x100 }

abbrev gain : Entry
gain = record { index = 0x2000; subindex = 1; type = 2; flags = 3; len = 4; storage = 0x200 }

abbrev entries : List Entry
entries = gain ∷ position ∷ []

abbrev objects : Memory
objects = store (λ _. 0) 0x100 (1 ∷ 2 ∷ 3 ∷ 4 ∷ 5 ∷ 6 ∷ 7 ∷ 8 ∷ 9 ∷ [])

abbrev server : Server
server = record {
  objects = objects;
  transfer = record { active = false; entry = none; offset = 0; toggle_expected = 0 };
}

abbrev head : Head
head = record { b0 = 10; b1 = 0; b2 = 0; b3 = 0; b4 = 0; b5 = 0x13 }

found_position : od_lookup (some entries) 0x6064 0 ≡ some position
unfolding od_lookup
found_position =
    (od_lookup_iff entries 0x6064 0 position).1
      (gain ∷ [], [], refl, (refl, refl), (λ m. omega (arith, m), tt))

found_gain : od_lookup (some entries) 0x2000 1 ≡ some gain
found_gain = (od_lookup_iff entries 0x2000 1 gain).1 ([], position ∷ [], refl, (refl, refl), tt)

readable : IsReadable gain × IsReadable position
readable = (omega arith, omega arith)

upload_object_lem_example :
    upload_object (some entries) server head 0x6064 0 128 ≡ some (load objects 0x100 9)
upload_object_lem_example =
    upload_object_lem (some entries) server head 0x6064 0 128 position refl (omega arith)
      found_position (omega arith) (omega arith, omega arith) (omega arith) (omega arith)

upload_object-download_example :
    upload_object
      (some entries)
      (coe_process (some entries) server (download_request head 0x2000 1 (7 ∷ 8 ∷ [])) 128).0
      head
      0x2000
      1
      128
    ≡ some (7 ∷ 8 ∷ [] ++ load objects (0x200 + 2) (4 - 2))
upload_object-download_example =
    upload_object-download (some entries) server head 0x2000 1 128 gain (7 ∷ 8 ∷ []) refl
      (omega arith) found_gain (omega arith) (omega arith) (omega arith, omega arith) (omega arith)
      (omega arith) (omega arith) (omega arith) (omega arith)

no_match : NoMatch entries 0x1000 0
no_match = (λ m. omega (arith, m), (λ m. omega (arith, m), tt))

coe_process_missing_example :
    (coe_process (some entries) server (upload_request head 0x1000 0) 128
      ≡ (cancel server, abort_reply head 0x1000 0 (missing_code (some entries) 0x1000)))
    × ((missing_code (some entries) 0x1000 ≡ 0x06020000) ↔ NoIndex entries 0x1000)
coe_process_missing_example =
    coe_process_missing entries server head 0x1000 0 128 refl (omega arith) (omega arith) no_match

coe_process_wrong_toggle_example :
    coe_process
      (some entries)
      (sending objects position 7 (toggle_bit true))
      (segment_request head (toggle_bit (flipped true)))
      128
    ≡ (cancel (sending objects position 7 (toggle_bit true)), abort_reply head 0x6064 0 0x05030000)
coe_process_wrong_toggle_example =
    coe_process_wrong_toggle (some entries) objects position head 7 128 true refl (omega arith)
      (omega arith)

coe_process_fits_example :
    length (coe_process (some entries) server (upload_request head 0x6064 0) 10).1 ≤ 10
coe_process_fits_example = coe_process_fits (some entries) server (upload_request head 0x6064 0) 10

coe_process-IsTransfer_example :
    IsTransfer (coe_process (some entries) server (upload_request head 0x6064 0) 256).0.transfer
coe_process-IsTransfer_example =
    coe_process-IsTransfer (some entries) server (upload_request head 0x6064 0) 256
      (omega arith, (omega arith, tt)) tt
