-- ===== src/Tests/Files.antt =====
-- A file of two devices, and the stations of a scan that it describes.
use ul_ecat.Common.{
  ℕ, ◌≡◌, refl, List, [], ◌∷◌, Option, some, arith, take, codes, strstr, is_prefix,
}
use ul_ecat.Master.Esi.{EsiDevice, Listed, esi_parse_file, scan_slaves_with_esi}
use ul_ecat.Master.Esi.Document.{IsEsiDevice}
use ul_ecat.Master.Esi.Elements.{document}
use ul_ecat.Master.Esi.RoundTrip.{IsDocument, esi_parse_file-document}
use ul_ecat.Master.Esi.Library.{found}
use ul_ecat.Master.Esi.Merge.{Describes, Pairwise, scan_slaves_with_esi-Describes}

abbrev drive : EsiDevice
drive = record {
  vendor_id = 0x1234;
  product_code = 0x5678;
  revision_no = 3;
  serial_no = 0xbeef;
  device_name = codes "Drive";
}

abbrev coupler : EsiDevice
coupler = record {
  vendor_id = 2;
  product_code = 0x44c2c52;
  revision_no = 0x110000;
  serial_no = 0;
  device_name = [];
}

abbrev prolog : List ℕ
prolog = codes "<EtherCATInfo><Devices>"

abbrev line_break : List ℕ
line_break = codes "\n  "

abbrev ending : List (List ℕ)
ending = codes "/Devices>" ∷ codes "/EtherCATInfo>" ∷ []

abbrev files : List ℕ → Option (List ℕ)
files filename = some (document prolog line_break (drive ∷ coupler ∷ []) ending)

drive_fits : IsEsiDevice drive
drive_fits = record {
  vendor_id = omega arith;
  product_code = omega arith;
  revision_no = omega arith;
  serial_no = omega arith;
  device_name = omega arith;
  fits = omega arith;
}

coupler_fits : IsEsiDevice coupler
coupler_fits = record {
  vendor_id = omega arith;
  product_code = omega arith;
  revision_no = omega arith;
  serial_no = omega arith;
  device_name = tt;
  fits = omega arith;
}

two_devices : IsDocument prolog line_break (drive ∷ coupler ∷ []) ending
unfolding strstr is_prefix
two_devices = record {
  pre_some = omega arith;
  pre_no_nul = omega arith;
  pre_no_device = refl;
  gap_text = omega arith;
  gap_short = omega arith;
  devices = (drive_fits, (coupler_fits, tt));
  tail_texts = omega arith;
  tail_no_device = (refl, (refl, tt));
}

esi_parse_file-document_example : esi_parse_file files (codes "a.xml") ≡ some (drive ∷ coupler ∷ [])
esi_parse_file-document_example =
    esi_parse_file-document files (codes "a.xml") prolog line_break (drive ∷ coupler ∷ []) ending
      refl two_devices

abbrev stations : List Listed
stations =
    record {
      station = record {
        station_address = 0x1000;
        state = 1;
        vendor_id = 0x1234;
        product_code = 0x5678;
        revision_no = 1;
        serial_no = 7;
      };
      device_name = [];
    }
    ∷ []

scan_slaves_with_esi-Describes_example :
    Pairwise
      (Describes (take 64 (found files (codes "a.xml" ∷ []))))
      stations
      (scan_slaves_with_esi files (some (codes "a.xml" ∷ [])) stations)
scan_slaves_with_esi-Describes_example =
    scan_slaves_with_esi-Describes files (codes "a.xml" ∷ []) stations
