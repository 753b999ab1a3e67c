-- ===== src/Tests/Line.antt =====
-- The master on a line with one slave.
use ul_ecat.Common.{◌≡◌, refl, [], ◌∷◌, true, arith}
use ul_ecat.Slave.Esc.{slave_init}
use ul_ecat.Slave.AlMachine.{al_init}
use ul_ecat.Master.{Port}
use ul_ecat.Master.Scan.{scan_network}
use ul_ecat.Master.Loopback.{loopback, quiet}
use ul_ecat.Master.Loopback.Scan.{scan_network-slave_init}
use ul_ecat.Tests.{master_mac, slave_mac, servo, device}
use ul_ecat.Tests.Frames.{registers-HoldsBytes}

abbrev port : Port
port = record { dst_mac = slave_mac; src_mac = master_mac; is_open = true }

scan_network-slave_init_example :
    (scan_network loopback port (quiet (slave_init device slave_mac servo)) (0 ∷ 0 ∷ 0 ∷ 0 ∷ [])).1
    ≡ record {
      station_address = 0x1000;
      state = al_init;
      vendor_id = 0x1234;
      product_code = 0x5678;
      revision_no = 1;
      serial_no = 7;
    }
      ∷ []
scan_network-slave_init_example =
    scan_network-slave_init port device slave_mac servo (0 ∷ 0 ∷ 0 ∷ 0 ∷ []) registers-HoldsBytes
      (omega arith) refl
