-- ===== src/Coe/Client.antt =====
-- The other end of an upload, as CiA 301 describes it: it asks for the object, and as long as the
-- server says that more is to come it asks for the next segment with the other toggle bit.
use ul_ecat.Common.{
  ℕ, zero, suc, ◌-◌, List, ◌++◌, Option, none, some, Bool, true, false, ◌==◌, if◌then◌else◌,
  bit_and, ◌>>>◌, get_or, take, drop, r16_le,
}
use ul_ecat.Od.{Table}
use ul_ecat.Coe.{Server}
use ul_ecat.Coe.Process.{coe_process}
use ul_ecat.Coe.Frames.{Head}
use ul_ecat.Coe.Upload.{upload_request, segment_request}

unfoldable pub toggle_bit : Bool → ℕ
toggle_bit false = 0x00
toggle_bit true = 0x10

unfoldable pub flipped : Bool → Bool
flipped false = true
flipped true = false

unfoldable pub prepended : List ℕ → Option (List ℕ) → Option (List ℕ)
prepended bytes none = none
prepended bytes (some rest) = some (bytes ++ rest)

-- The bytes of the segments from here on; `none` on an abort, or when the fuel is used up.
unfoldable pub collect : ℕ → Table → Server → Head → Bool → ℕ → Option (List ℕ)
collect zero table s h toggle room = none
collect (suc fuel) table s h toggle room =
    let answer : Server × List ℕ =
      coe_process table s (segment_request h (toggle_bit toggle)) room in
    let cmd : ℕ = get_or answer.1 8 0 in
    let bytes : List ℕ = take (7 - bit_and (cmd >>> 1) 0x07) (drop 9 answer.1) in
    let rest : Option (List ℕ) = collect fuel table answer.0 h (flipped toggle) room in
    if bit_and cmd 0xe0 == 0
    then if bit_and cmd 0x01 == 0 then prepended bytes rest else some bytes
    else none

-- A whole upload. The fuel is the size that the server announces.
unfoldable pub upload_object : Table → Server → Head → ℕ → ℕ → ℕ → Option (List ℕ)
upload_object table s h index subindex room =
    let answer : Server × List ℕ = coe_process table s (upload_request h index subindex) room in
    let cmd : ℕ = get_or answer.1 8 0 in
    let body : List ℕ = drop 12 answer.1 in
    let segments : Option (List ℕ) = collect (r16_le body) table answer.0 h false room in
    if bit_and cmd 0xe0 == 0x40
    then if bit_and cmd 0x02 == 0 then segments else some (take (4 - bit_and (cmd >>> 2) 0x03) body)
    else none
