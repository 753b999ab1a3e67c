-- ===== src/Lib.antt =====
-- ul_ecat, an EtherCAT slave and master: a model of its protocol core.
--
-- A frame that arrives at the slave goes through the Ethernet header to the datagrams; each
-- datagram reads or writes the register memory of the slave; a write of AL Control runs the state
-- machine, a write of the SM0 buffer raises a mailbox request and a read of the SM1 buffer
-- empties it. The controller hands a mailbox request to the SDO server, which works on the object
-- dictionary, and puts its reply into the SM1 buffer. The master sends one datagram at a time
-- through a transport and waits for the answer; its cycle runs the distributed clock, sends the
-- queued datagrams, takes what comes back and posts events. Where a LAN9252 does the work of the
-- slave, the controller copies registers of the chip through a driver over SPI.
--
-- Files and sources, with the paths of the repository:
--   Wire            src/common/ul_ecat_frame.c (ul_ecat_dgram_*, ul_ecat_pdu_count_datagrams,
--                   ul_ecat_build_eth_frame, ul_ecat_parse_eth_frame)
--   Al              src/common/ul_ecat_al.c
--   Slave.Esc       src/slave/ul_ecat_esc.c and the initialisation of src/slave/ul_ecat_slave.c
--   Slave.SyncManager  src/slave/ul_ecat_slave_sm.h
--   Slave.AlMachine src/slave/ul_ecat_slave_al.c
--   Slave.Mailbox   src/slave/ul_ecat_slave_mailbox.c
--   Slave.Pdu       src/slave/ul_ecat_slave_pdu.c
--   Slave.Ethernet  src/slave/ul_ecat_slave.c (ul_ecat_slave_process_ethernet)
--   Od              src/slave/ul_ecat_slave_od.c
--   Coe             src/slave/ul_ecat_slave_coe.c
--   Controller      src/slave/ul_ecat_slave_controller.c, the software backend
--   Controller.Lan9252  src/slave/ul_ecat_slave_controller_lan9252.c
--   Lan9252         controllers/lan9252/src/lan9252.c: register transactions, core registers (Core),
--                   process data RAM (ProcessRam), what the driver relies on of the chip (Chip)
--   Lan9252.Ports   controllers/lan9252/ports/zephyr/hal_zephyr.c, ports/nuttx/hal_nuttx.c
--   Master          src/master/ul_ecat_master.c: exchange, AL polling and requests (State), scan
--                   (Scan), synchronous accesses (Sync), datagram queue (Queue), event loop
--                   (Events), distributed clock (Clock), received frames and the cycle (Receive),
--                   start and shutdown (Lifecycle), ESI files (Esi), command line (Tool);
--                   Loopback joins it to one slave by a transport that hands over the frames
--   Posix           src/transport/transport_linux.c and transport_nuttx.c, src/osal/osal_linux.c and
--                   osal_nuttx.c, which differ in no call that is modelled
--   Zephyr          src/transport/transport_zephyr.c, transport_zephyr_netdev.c (Interface), and the
--                   sleep of src/osal/osal_zephyr.c (Sleep)
--   Harness         tools/ul_ecat_slave_harness.c: a slave behind a TCP connection
--   Common          words, lists, bit masks, memory, little-endian fields and C strings
--   Tests           runs at concrete inputs
--
-- A function keeps its name without the prefix `ul_ecat_`. Bytes and words are natural numbers
-- with their wrap-around written out. The register memory and the storage of objects are
-- functions from addresses to bytes, so that a write beyond an array is visible as such. A
-- function that returns -1 returns `none`; a reply of length 0 of the SDO server is the empty
-- list. A pointer argument is not null, except where the code gives null a meaning.
--
-- The loops run on fuel. The count of the datagrams of a PDU has fuel for one more turn than the
-- PDU has bytes, and every turn takes at least twelve bytes. The loop over the datagrams has as
-- many turns as the count says. The polling has one turn for each millisecond of its time limit,
-- and every turn takes twenty. The client of an upload has one turn for each byte that the server
-- announces, and every segment carries at least one. The queue is sent in at most as many frames
-- as it has entries. The loop that receives frames until none is left has its number of turns as a
-- parameter, since it ends only when the network is silent; what is said of it holds for every
-- number. The busy loops of the LAN9252 have the limit of the source, and its accesses to a range
-- of registers have one turn for each byte, of which every turn takes at least one. So have the
-- loops that read and write a connection in full. A session of the test server, the loop over its
-- clients and the sleep of Zephyr have their number of turns as a parameter, and a statement that
-- they end says how many are enough. The parser of an ESI file has the 16 turns of the source.
--
-- Parameters: the transport of the master and the time in which the network goes on, the sockets
-- and threads that its start and shutdown ask for, the callbacks and mailbox handlers of an
-- application, the SPI hardware layer of the LAN9252, the chip behind it, as records of what its
-- registers do, what a file holds, the connection of a client, and the calls of the operating
-- systems under the transports, the clocks and the ports.
--
-- Not modelled: mutexes and condition variables, since a critical section is one step here; the
-- worker thread of Zephyr; the option parser of the test server; messages; samples and generated
-- tables, which are examples and data.
pub mod Common
pub mod Wire
pub mod Al
pub mod Slave
pub mod Od
pub mod Coe
pub mod Master
pub mod Lan9252
pub mod Controller
pub mod Posix
pub mod Zephyr
pub mod Harness
pub mod Tests
