-- ===== src/Slave.antt =====
-- src/slave: the slave's register memory and what the master's datagrams do to it.
pub mod Esc
pub mod SyncManager
pub mod AlMachine
pub mod Mailbox
pub mod Pdu
pub mod Ethernet
