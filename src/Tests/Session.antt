-- ===== src/Tests/Session.antt =====
-- A session over a connection that gives at most three bytes at a time and takes at most two.
use ul_ecat.Common.{
  ℕ, ◌<◌, ◌≡◌, refl, List, [], ◌∷◌, ◌++◌, some, none, arith, min, length, take, drop, inr, true,
}
use ul_ecat.Wire.Datagram.{wire}
use ul_ecat.Wire.Ethernet.RoundTrip.{eth_frame}
use ul_ecat.Harness.{Connection, serve}
use ul_ecat.Harness.Stream.{IsStream}
use ul_ecat.Harness.Session.{requests, AreRequests, answers, slave_after, serve-answers}
use ul_ecat.Harness.Turns.{bad_length}
use ul_ecat.Tests.{master_mac, slave_mac, device, read_station}

abbrev slow : Connection (List ℕ × List ℕ)
slow = record {
  read = λ w n. ((drop (min n 3) w.0, w.1), some (take (min n 3) w.0));
  write = λ w bytes. ((w.0, w.1 ++ take (min (length bytes) 2) bytes), some (min (length bytes) 2));
}

slow-IsStream : IsStream slow (λ w. w.0) (λ w. w.1)
slow-IsStream = record {
  read_some = λ w n h. (min n 3, refl, refl, refl, omega arith, λ p. omega arith);
  write_some = λ w bytes h. (min (length bytes) 2, refl, refl, refl, omega arith, omega arith);
}

-- A frame with a datagram, four bytes that are no frame, and the length 4096.
abbrev frames : List (List ℕ)
frames = eth_frame slave_mac master_mac (wire read_station) ∷ (1 ∷ 2 ∷ 3 ∷ 4 ∷ []) ∷ []

abbrev from_client : List ℕ
from_client = requests frames ++ 0 ∷ 0 ∷ 16 ∷ 0 ∷ []

frames-AreRequests : AreRequests frames
unfolding ul_ecat.Common.w16_le wire
frames-AreRequests = omega arith

serve-answers_example :
    ((serve slow 3 device (from_client, [])).1 ≡ true)
    × ((serve slow 3 device (from_client, [])).0.1 ≡ slave_after device frames)
    × ((serve slow 3 device (from_client, [])).0.0.1 ≡ answers device frames ++ 0 ∷ 0 ∷ 0 ∷ 0 ∷ [])
serve-answers_example =
    serve-answers slow (λ w. w.0) (λ w. w.1) slow-IsStream frames 3 device (from_client, [])
      frames-AreRequests (bad_length 4096 [] (omega arith) (inr (omega arith))) refl (omega arith)
