-- ===== src/Harness.antt =====
-- The test server tools/ul_ecat_slave_harness.c: a slave behind a TCP connection that carries frames
-- with their length in front. What `read` and `write` do to a connection and the socket calls of the
-- start are parameters: operations on a state that is the operating system's. The option parser and
-- the messages have no counterpart.
pub mod Stream
pub mod Turns
pub mod Session
use ul_ecat.Common.{
  ℕ, zero, suc, ◌+◌, ◌-◌, ◌*◌, ◌/◌, ◌%◌, List, [], ◌∷◌, ◌++◌, Option, none, some, Bool, true, false,
  ltb, ◌==◌, ◌||◌, if◌then◌else◌, length, get_or, drop,
}
use ul_ecat.Wire.Ethernet.{Mac}
use ul_ecat.Slave.Esc.{Identity, Slave, slave_init}
use ul_ecat.Slave.Ethernet.{slave_process_ethernet}

-- `none` where `read` or `write` is negative; no bytes are the 0 at the end of the stream.
pub record Connection (W : Type 0) : Type 0 where
  pub read : W → ℕ → W × Option (List ℕ)
  pub write : W → List ℕ → W × Option ℕ

-- The bytes of `htonl` on the wire, and `ntohl` of four bytes.
abbrev pub be32 : ℕ → List ℕ
be32 n = n / 0x1000000 % 256 ∷ n / 0x10000 % 256 ∷ n / 0x100 % 256 ∷ n % 256 ∷ []

abbrev pub from_be32 : List ℕ → ℕ
from_be32 p =
    get_or p 0 0 * 0x1000000 + get_or p 1 0 * 0x10000 + get_or p 2 0 * 0x100 + get_or p 3 0

-- sizeof(rx) and sizeof(tx)
abbrev pub frame_buf : ℕ
frame_buf = 2048

abbrev pub harness_mac : Mac
harness_mac = record { b0 = 2; b1 = 0; b2 = 0; b3 = 0; b4 = 0; b5 = 1 }

module _ {W : Type 0} (c : Connection W) where
  -- The loop of `read_full`: `left` bytes are missing behind those in `got`. A turn takes at least
  -- one, so that `left` turns are enough.
  unfoldable pub read_loop : ℕ → W → ℕ → List ℕ → W × Option (List ℕ)
  read_loop zero w left got = if left == 0 then (w, some got) else (w, none)
  read_loop (suc turns) w left got = elim (left == 0) [
    | true ↦ (w, some got)
    | false ↦ elim (c.read w left).1 [
      | none ↦ ((c.read w left).0, none)
      | some bytes ↦ elim (length bytes == 0) [
        | true ↦ ((c.read w left).0, none)
        | false ↦ read_loop turns (c.read w left).0 (left - length bytes) (got ++ bytes)
      ]
    ]
  ]

  unfoldable pub read_full : W → ℕ → W × Option (List ℕ)
  read_full w n = read_loop n w n []

  -- The loop of `write_full`; true is the 0.
  unfoldable pub write_loop : ℕ → W → List ℕ → W × Bool
  write_loop zero w bytes = (w, length bytes == 0)
  write_loop (suc turns) w bytes = elim (length bytes == 0) [
    | true ↦ (w, true)
    | false ↦ elim (c.write w bytes).1 [
      | none ↦ ((c.write w bytes).0, false)
      | some k ↦ elim (k == 0) [
        | true ↦ ((c.write w bytes).0, false)
        | false ↦ write_loop turns (c.write w bytes).0 (drop k bytes)
      ]
    ]
  ]

  unfoldable pub write_full : W → List ℕ → W × Bool
  write_full w bytes = write_loop (length bytes) w bytes

  -- What is written for the result of the slave: true where the client goes on.
  unfoldable pub write_reply : W → Option (List ℕ) → W × Bool
  write_reply w none = write_full w (be32 0)
  write_reply w (some tx) =
      let header = write_full w (be32 (length tx)) in
      let body = if ltb 0 (length tx) then write_full header.0 tx else header in
      if header.1 then body else header

  replied : Slave × Option (List ℕ) → W → (W × Slave) × Bool
  replied (s, tx) w = (((write_reply w tx).0, s), (write_reply w tx).1)

  after_frame : Slave → W × Option (List ℕ) → (W × Slave) × Bool
  unfolding replied
  after_frame s (w, none) = ((w, s), false)
  after_frame s (w, some rx) = replied (slave_process_ethernet s rx frame_buf) w

  after_length : Slave → W × Option (List ℕ) → (W × Slave) × Bool
  unfolding after_frame
  after_length s (w, none) = ((w, s), false)
  after_length s (w, some nbe) =
      if from_be32 nbe == 0 || ltb frame_buf (from_be32 nbe)
      then (((write_full w (be32 0)).0, s), false)
      else after_frame s (read_full w (from_be32 nbe))

  -- One turn of the inner loop: the world and the slave, and whether the client goes on.
  unfoldable pub serve_turn : Slave → W → (W × Slave) × Bool
  unfolding after_length
  serve_turn s w = after_length s (read_full w 4)

  -- The inner loop with a number of turns, and whether it came to its end.
  unfoldable pub serve : ℕ → Slave → W → (W × Slave) × Bool
  serve zero s w = ((w, s), false)
  serve (suc turns) s w = elim (serve_turn s w).1 [
    | true ↦ serve turns (serve_turn s w).0.1 (serve_turn s w).0.0
    | false ↦ ((serve_turn s w).0, true)
  ]

-- The calls on sockets. `accept` is `none` where it is negative, and else gives the connection.
pub record Sockets (W : Type 0) : Type 0 where
  pub socket : W → W × Option ℕ
  pub bind : W → ℕ → ℕ → W × Bool
  pub listen : W → ℕ → W × Bool
  pub accept : W → ℕ → W × Option (ℕ × Connection W)
  pub close : W → ℕ → W

module _ {W : Type 0} (so : Sockets W) where
  bound : W → ℕ → Bool → W × Option ℕ
  bound w srv false = (so.close w srv, none)
  bound w srv true =
      let listening = so.listen w srv in
      if listening.1 then (listening.0, some srv) else (so.close listening.0 srv, none)

  bind_socket : ℕ → W × Option ℕ → W × Option ℕ
  unfolding bound
  bind_socket port (w, none) = (w, none)
  bind_socket port (w, some srv) = bound (so.bind w srv port).0 srv (so.bind w srv port).1

  -- The start of the server: the socket it listens on, or `none` for the exit code 1.
  unfoldable pub listen_on : ℕ → W → W × Option ℕ
  unfolding bind_socket
  listen_on port w = bind_socket port (so.socket w)

  serve_client : ℕ → Slave → W × Option (ℕ × Connection W) → W × Slave
  serve_client turns s (w, none) = (w, s)
  serve_client turns s (w, some (conn, c)) =
      let session = serve c turns s w in (so.close session.0.0 conn, session.0.1)

  -- The outer loop with a number of clients, each with a number of turns. The slave stays.
  unfoldable pub serve_clients : ℕ → ℕ → ℕ → Slave → W → W × Slave
  unfolding serve_client
  serve_clients zero turns srv s w = (w, s)
  serve_clients (suc clients) turns srv s w =
      let next = serve_client turns s (so.accept w srv) in
      serve_clients clients turns srv next.1 next.0

  running : ℕ → ℕ → Slave → W × Option ℕ → Option (W × Slave)
  running clients turns s (w, none) = none
  running clients turns s (w, some srv) = some (serve_clients clients turns srv s w)

  -- `main` up to the end of a number of clients, or `none` for the exit code 1.
  unfoldable pub harness : ℕ → ℕ → ℕ → Slave → Identity → W → Option (W × Slave)
  unfolding running
  harness clients turns port memory identity w =
      running clients turns (slave_init memory harness_mac identity) (listen_on port w)
