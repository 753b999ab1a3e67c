-- ===== src/Wire/Datagram.antt =====
-- One datagram of src/common/ul_ecat_frame.c: `ul_ecat_dgram_encode` and `parse_one_dgram`.
-- Buffers are lists of bytes; `dg + n` is `drop n dg`, and the bytes that remain from a pointer
-- on are the length of its list.
pub mod RoundTrip
use ul_ecat.Common.{
  ℕ, ◌+◌, List, [], ◌∷◌, ◌++◌, Option, none, some, ◌>>=◌, ltb, if◌then◌else◌, bit_and, length,
  get_or, take, drop, replicate, u16, w16_le, r16_le, IsU8, IsU16, ◌≤◌, AreBytes,
}

-- enum ul_ecat_dgram_cmd, the commands that the slave and the master use.
abbrev pub cmd_aprd : ℕ
cmd_aprd = 0x01

abbrev pub cmd_apwr : ℕ
cmd_apwr = 0x02

abbrev pub cmd_fprd : ℕ
cmd_fprd = 0x04

abbrev pub cmd_fpwr : ℕ
cmd_fpwr = 0x05

-- UL_ECAT_DGRAM_HDR_LEN, UL_ECAT_DGRAM_WKC_LEN, UL_ECAT_DGRAM_MAX_DATA
abbrev pub dgram_hdr_len : ℕ
dgram_hdr_len = 10

abbrev pub dgram_wkc_len : ℕ
dgram_wkc_len = 2

abbrev pub dgram_max_data : ℕ
dgram_max_data = 1498

-- The IRQ argument is not used.
unfoldable pub pack_len_irq : ℕ → ℕ → ℕ
pack_len_irq data_len_bytes irq =
    let capped = if ltb 0x7ff data_len_bytes then 0x7ff else data_len_bytes in
    u16 (bit_and capped 0x7ff)

unfoldable pub unpack_len : ℕ → ℕ
unpack_len len_word = u16 (bit_and len_word 0x7ff)

abbrev pub dgram_wire_size : ℕ → ℕ
dgram_wire_size data_len_bytes = dgram_hdr_len + data_len_bytes + dgram_wkc_len

-- What stands between header and WKC: `memcpy` of the data, or zeros for a null pointer.
pub payload : ℕ → Option (List ℕ) → List ℕ
payload data_len_bytes (some d) = take data_len_bytes d
payload data_len_bytes none = replicate data_len_bytes 0

-- `none` is the -1; otherwise the bytes written to `out`, whose number is returned.
unfoldable pub dgram_encode :
    (out_cap cmd index adp ado data_len_bytes irq wkc_out : ℕ) → Option (List ℕ) → Option (List ℕ)
unfolding payload
dgram_encode out_cap cmd index adp ado data_len_bytes irq wkc_out d =
    if ltb dgram_max_data data_len_bytes
    then none
    else if ltb out_cap (dgram_wire_size data_len_bytes)
    then none
    else some (
        cmd
        ∷ index
        ∷ (w16_le adp
            ++ (w16_le ado
                ++ (w16_le (pack_len_irq data_len_bytes irq)
                    ++ (w16_le irq ++ (payload data_len_bytes d ++ w16_le wkc_out))))))

-- The output parameters of a successful parse; `copied` is what goes to `data_out`.
pub record Parsed : Type 0 where
  pub cmd : ℕ
  pub index : ℕ
  pub adp : ℕ
  pub ado : ℕ
  pub data_len : ℕ
  pub irq : ℕ
  pub wkc : ℕ
  pub copied : List ℕ

-- `data_out` is `none` for a null pointer, and else the capacity of the buffer.
unfoldable pub copy_data : List ℕ → ℕ → Option ℕ → Option (List ℕ)
copy_data dg dlen none = some []
copy_data dg dlen (some data_cap) =
    if ltb 0 dlen
    then if ltb data_cap dlen then none else some (take dlen (drop dgram_hdr_len dg))
    else some []

unfoldable pub parse_one_dgram : List ℕ → Option ℕ → Option Parsed
unfolding copy_data
parse_one_dgram dg data_out =
    let dlen = unpack_len (r16_le (drop 6 dg)) in
    if ltb (length dg) (dgram_hdr_len + dgram_wkc_len)
    then none
    else if ltb dgram_max_data dlen
    then none
    else if ltb (length dg) (dgram_wire_size dlen)
    then none
    else do
      bytes ← copy_data dg dlen data_out
      some (record {
        cmd = get_or dg 0 0;
        index = get_or dg 1 0;
        adp = r16_le (drop 2 dg);
        ado = r16_le (drop 4 dg);
        data_len = dlen;
        irq = r16_le (drop 8 dg);
        wkc = r16_le (drop dlen (drop dgram_hdr_len dg));
        copied = bytes;
      })

-- A datagram as the protocol means it, and its bytes on the wire.
pub record Dgram : Type 0 where
  pub cmd : ℕ
  pub index : ℕ
  pub adp : ℕ
  pub ado : ℕ
  pub irq : ℕ
  pub wkc : ℕ
  pub bytes : List ℕ

unfoldable pub wire : Dgram → List ℕ
wire d =
    d.cmd
    ∷ d.index
    ∷ (w16_le d.adp
        ++ (w16_le d.ado
            ++ (w16_le (length d.bytes) ++ (w16_le d.irq ++ (d.bytes ++ w16_le d.wkc)))))

-- Fields in their ranges, and no more data than the format takes.
pub record IsDgram (d : Dgram) : Type 0 where
  pub cmd_u8 : IsU8 d.cmd
  pub index_u8 : IsU8 d.index
  pub adp_u16 : IsU16 d.adp
  pub ado_u16 : IsU16 d.ado
  pub irq_u16 : IsU16 d.irq
  pub wkc_u16 : IsU16 d.wkc
  pub bytes_fit : length d.bytes ≤ dgram_max_data
  pub bytes_u8 : AreBytes d.bytes

-- What a parse into a buffer of `cap` bytes, or with no buffer, gives for a datagram.
abbrev pub parsed_of : Dgram → List ℕ → Parsed
parsed_of d out = record {
  cmd = d.cmd;
  index = d.index;
  adp = d.adp;
  ado = d.ado;
  data_len = length d.bytes;
  irq = d.irq;
  wkc = d.wkc;
  copied = out;
}
