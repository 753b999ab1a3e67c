-- ===== src/Master/Esi.antt =====
-- The ESI files of src/master/ul_ecat_master.c: the devices of a file (`ul_ecat_esi_parse_file`), the
-- library of devices (`merge_esi_res`) and what it adds to the stations of a scan
-- (`ul_ecat_scan_slaves_with_esi`). What a file holds is a parameter, `none` where it cannot be
-- opened or no memory is left for it.
pub mod Find
pub mod Hex
pub mod Document
pub mod Elements
pub mod RoundTrip
pub mod Library
pub mod Merge
use ul_ecat.Common.{
  ℕ, zero, suc, ◌+◌, ◌-◌, List, [], ◌∷◌, ◌++◌, Option, none, some, Bool, true, false, ◌>>=◌, ◌&&◌,
  ltb, ◌==◌, if◌then◌else◌, min, u32, length, take, drop, codes, c_string, strstr, strtoul,
}
use ul_ecat.Master.Scan.{Station}

-- ul_ecat_esi_device_t
pub record EsiDevice : Type 0 where
  pub vendor_id : ℕ
  pub product_code : ℕ
  pub revision_no : ℕ
  pub serial_no : ℕ
  pub device_name : List ℕ

abbrev pub open_tag : List ℕ → List ℕ
open_tag tag = codes "<" ++ (tag ++ codes ">")

abbrev pub close_tag : List ℕ → List ℕ
close_tag tag = codes "</" ++ (tag ++ codes ">")

-- The text between a tag and the end of its element: what both parsers of a tag look for.
unfoldable pub tag_text : List ℕ → List ℕ → Option (List ℕ)
tag_text xml tag = do
  i ← strstr xml (open_tag tag)
  let s = drop (i + length (open_tag tag)) xml
  l ← strstr s (close_tag tag)
  some (take l s)

-- `*val` afterwards, where it was 0; the buffer takes 127 bytes.
unfoldable pub parse_hex_tag : List ℕ → List ℕ → ℕ
parse_hex_tag xml tag = elim (tag_text xml tag) [
  | none ↦ 0
  | some text ↦ u32 (strtoul (take 127 text) 16)
]

-- `out` afterwards, where it was cleared.
unfoldable pub parse_string_tag : List ℕ → List ℕ → ℕ → List ℕ
parse_string_tag xml tag out_sz = elim (tag_text xml tag) [
  | none ↦ []
  | some text ↦ take (min (length text) (out_sz - 1)) text
]

-- The device of the text `temp`, whose fields were cleared.
unfoldable pub device_of : List ℕ → EsiDevice
device_of temp = record {
  vendor_id = parse_hex_tag temp (codes "VendorID");
  product_code = parse_hex_tag temp (codes "ProductCode");
  revision_no = parse_hex_tag temp (codes "RevisionNo");
  serial_no = parse_hex_tag temp (codes "SerialNo");
  device_name = parse_string_tag temp (codes "Name") 128;
}

-- One turn of the loop: a device and where the next search starts.
unfoldable pub next_device : List ℕ → Option (EsiDevice × List ℕ)
next_device from = do
  i ← strstr from (codes "<Device>")
  let dev_open = drop i from
  j ← strstr dev_open (codes "</Device>")
  some (device_of (take (min (j + 8) 4095) dev_open), drop (j + 8) dev_open)

unfoldable pub parse_devices : ℕ → List ℕ → List EsiDevice
parse_devices zero from = []
parse_devices (suc turns) from = elim (next_device from) [
  | none ↦ []
  | some (dev, rest) ↦ dev ∷ parse_devices turns rest
]

-- `none` is the -1, where `out_res` is not written.
unfoldable pub esi_parse_file : (List ℕ → Option (List ℕ)) → List ℕ → Option (List EsiDevice)
esi_parse_file files filename = do
  content ← files filename
  if length content == 0 then none else some (parse_devices 16 (c_string content))

-- The devices of a file behind those of the library, of which there are at most 64.
unfoldable pub merge_esi_res : List EsiDevice → List EsiDevice → List EsiDevice
merge_esi_res devs [] = devs
merge_esi_res devs (dev ∷ res) =
    merge_esi_res (if ltb (length devs) 64 then devs ++ (dev ∷ []) else devs) res

unfoldable pub merge_parsed : List EsiDevice → Option (List EsiDevice) → List EsiDevice
merge_parsed devs none = devs
merge_parsed devs (some res) = merge_esi_res devs res

unfoldable pub merge_files :
    (List ℕ → Option (List ℕ)) → List EsiDevice → List (List ℕ) → List EsiDevice
merge_files files devs [] = devs
merge_files files devs (filename ∷ file_list) =
    merge_files files (merge_parsed devs (esi_parse_file files filename)) file_list

-- An entry of `g_slaves_db`: what a scan writes of it, and the name.
pub record Listed : Type 0 where
  pub station : Station
  pub device_name : List ℕ

unfoldable pub is_described : Station → EsiDevice → Bool
is_described st ed = ed.vendor_id == st.vendor_id && ed.product_code == st.product_code

unfoldable pub name_after : List ℕ → List ℕ → List ℕ
name_after old new = if ltb 0 (length new) then take 127 new else old

unfoldable pub described : Listed → EsiDevice → Listed
described s ed = record {
  station = record s.station { revision_no = ed.revision_no; serial_no = ed.serial_no };
  device_name = name_after s.device_name ed.device_name;
}

-- The inner loop, which ends at the first device that fits.
unfoldable pub describe : List EsiDevice → Listed → Listed
describe [] s = s
describe (ed ∷ devs) s =
    let rest = describe devs s in if is_described s.station ed then described s ed else rest

unfoldable pub describe_all : List EsiDevice → List Listed → List Listed
describe_all devs [] = []
describe_all devs (s ∷ db) = describe devs s ∷ describe_all devs db

-- No list of files is the null pointer.
unfoldable pub scan_slaves_with_esi :
    (List ℕ → Option (List ℕ)) → Option (List (List ℕ)) → List Listed → List Listed
scan_slaves_with_esi files none db = describe_all [] db
scan_slaves_with_esi files (some file_list) db = describe_all (merge_files files [] file_list) db
