-- ===== src/Coe/Frames.antt =====
-- SDO frames as CiA 301 and ETG.1000 lay them out, and how `ul_ecat_slave_coe_process` takes one.
use ul_ecat.Common.{
  ℕ, ◌/◌, ◌%◌, ◌≤◌, ◌≡◌, refl, List, [], ◌∷◌, ◌++◌, arith, bit_and, length, IsU16, w16_le,
  r16_le-bytes,
}
use ul_ecat.Od.{Table}
use ul_ecat.Coe.{
  Server, coe_service, build_reply_headers, handle_upload_init, handle_upload_segment,
}
use ul_ecat.Coe.Process.{coe_process, handle_download_init}

-- The six bytes of a mailbox header.
pub record Head : Type 0 where
  pub b0 : ℕ
  pub b1 : ℕ
  pub b2 : ℕ
  pub b3 : ℕ
  pub b4 : ℕ
  pub b5 : ℕ

-- A mailbox header whose type is CoE.
abbrev pub IsCoe : Head → Type 0
IsCoe h = bit_and h.b5 0x0f ≡ 3

unfoldable pub sdo_request : Head → ℕ → ℕ → ℕ → List ℕ → List ℕ
sdo_request h cmd index subindex body =
    h.b0
    ∷ h.b1
    ∷ h.b2
    ∷ h.b3
    ∷ h.b4
    ∷ h.b5
    ∷ 0x00
    ∷ 0x20
    ∷ cmd
    ∷ index % 256
    ∷ index / 256
    ∷ subindex
    ∷ body

-- The reply to a request with the given mailbox header.
unfoldable pub sdo_reply : Head → List ℕ → List ℕ
sdo_reply h sdo = 10 ∷ 0 ∷ h.b2 ∷ h.b3 ∷ h.b4 ∷ h.b5 ∷ 0x00 ∷ 0x30 ∷ sdo

unfoldable pub abort_reply : Head → ℕ → ℕ → ℕ → List ℕ
abort_reply h index subindex code = sdo_reply h (
    0x80
    ∷ index % 256
    ∷ index / 256
    ∷ subindex
    ∷ code % 256
    ∷ code / 256 % 256
    ∷ code / 65536 % 256
    ∷ code / 16777216 % 256
    ∷ [])

pub build_reply_headers_lem :
    (h : Head) (cmd index subindex : ℕ) (body sdo : List ℕ)
    → build_reply_headers (sdo_request h cmd index subindex body) 8 ++ sdo ≡ sdo_reply h sdo
unfolding build_reply_headers sdo_request sdo_reply w16_le
build_reply_headers_lem h cmd index subindex body sdo = refl

-- The handler that a request reaches, for each command.
pub coe_process-upload :
    (table : Table) (s : Server) (h : Head) (cmd index subindex : ℕ) (body : List ℕ) (room : ℕ)
    → IsCoe h
    → 4 ≤ length body
    → IsU16 index
    → bit_and cmd 0xe0 ≡ 0x40
    → coe_process table s (sdo_request h cmd index subindex body) room
      ≡ handle_upload_init table s (sdo_request h cmd index subindex body) room index subindex
unfolding coe_process sdo_request coe_service
coe_process-upload table s h cmd index subindex body room kind long word c =
    ground (arith, r16_le-bytes (index % 256) (index / 256) (subindex ∷ body) (omega arith))

pub coe_process-segment :
    (table : Table) (s : Server) (h : Head) (cmd index subindex : ℕ) (body : List ℕ) (room : ℕ)
    → IsCoe h
    → 4 ≤ length body
    → bit_and cmd 0xe0 ≡ 0x60
    → coe_process table s (sdo_request h cmd index subindex body) room
      ≡ handle_upload_segment s (sdo_request h cmd index subindex body) room cmd
unfolding coe_process sdo_request coe_service
coe_process-segment table s h cmd index subindex body room kind long c = ground arith

pub coe_process-download :
    (table : Table) (s : Server) (h : Head) (cmd index subindex : ℕ) (body : List ℕ) (room : ℕ)
    → IsCoe h
    → 4 ≤ length body
    → IsU16 index
    → bit_and cmd 0xe0 ≡ 0x20
    → coe_process table s (sdo_request h cmd index subindex body) room
      ≡ handle_download_init table s
          (sdo_request h cmd index subindex body)
          room
          (cmd ∷ index % 256 ∷ index / 256 ∷ subindex ∷ body)
          index
          subindex
unfolding coe_process sdo_request coe_service
coe_process-download table s h cmd index subindex body room kind long word c =
    ground (arith, r16_le-bytes (index % 256) (index / 256) (subindex ∷ body) (omega arith))
