-- ===== src/Wire.antt =====
-- src/common/ul_ecat_frame.c: the EtherCAT wire format, one module for each layer.
pub mod Datagram
pub mod Pdu
pub mod Ethernet
