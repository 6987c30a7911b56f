-- ===== src/Secure.antt =====
-- The secure-flash messages in `usb_secure_flash_loop` of src/src/main.c: the checks that a message
-- passes before the device acts on it, and the short reply. `msg` is the received message and
-- `len` its length.
use Prim.Native.Nat.{bit_and}
use ufp_ffu_device_efi.Prelude.{
  ℕ, ◌+◌, List, ◌∷◌, [], Bool, true, false, ltb, ◌==◌, ◌!=◌, ◌||◌, ◌&&◌, if◌then◌else◌, replicate,
}
use ufp_ffu_device_efi.Prelude.Buffer.{blit}
use ufp_ffu_device_efi.Word.{u16, u32}
use ufp_ffu_device_efi.Bytes.{byte, rd_be16, rd_be32, wr_be16, wr_be32}
use ufp_ffu_device_efi.Efi.{is_error}
use ufp_ffu_device_efi.Proto.{
  nokx, max_header_data, max_payload_data, subblock_header_v1, subblock_header_v2,
  subblock_payload_v1, subblock_payload_v2, subblock_payload_v3,
}
pub mod Requests
pub mod Assembly
pub mod Growth
pub mod Chunks
mod Tests

-- `reply` is `send_fs_short(&usb, status, specifier); continue;`, and `pass` goes on.
pub data Checked (A : Type 0) : Type 0 where
  reply : ℕ → ℕ → Checked A
  pass : A → Checked A

infixl 5 ◌>>=◌ ◌>>◌
abbrev pub ◌>>=◌ : {A B : Type 0} → Checked A → (A → Checked B) → Checked B
reply status specifier >>= next = reply status specifier
pass x >>= next = next x

abbrev pub ◌>>◌ : {B : Type 0} → Checked (Unit {0}) → Checked B → Checked B
m >> next = m >>= λ _. next

-- `if (refuse) { send_fs_short(&usb, status, specifier); continue; }`
abbrev pub unless : Bool → ℕ → ℕ → Checked (Unit {0})
unless true status specifier = reply status specifier
unless false status specifier = pass tt

unfoldable pub status_from_efi : ℕ → ℕ
status_from_efi st = if is_error st then u16 (bit_and st 0xffff) else 0

-- The 16 bytes that `send_fs_short` sends.
unfoldable pub fs_short : ℕ → ℕ → List ℕ
fs_short status specifier =
    wr_be32 (wr_be16 (blit (replicate 16 0) 0 (nokx b'F' b'S')) 6 status) 8 specifier

-- What every secure-flash message says of itself.
pub record SecureMessage : Type 0 where
  pub protocol : ℕ
  pub progress : ℕ
  pub subblock : ℕ

unfoldable pub check_secure : List ℕ → ℕ → Checked SecureMessage
check_secure msg len = do
  unless (ltb len 16) 8 (u32 len)
  let protocol = rd_be16 msg 6
  unless (bit_and protocol 0x1f == 0 || bit_and protocol 0xffff_ffe0 != 0) 8 protocol
  unless (byte msg 11 != 1) 15 (byte msg 11)
  pass (record { protocol = protocol; progress = byte msg 8; subblock = rd_be32 msg 12 })

-- The locals of the header branch.
pub record HeaderChunk : Type 0 where
  pub header_v2 : Bool
  pub chunk_len : ℕ
  pub file_offset : ℕ
  pub total_len : ℕ
  pub data_offset : ℕ
  pub options : ℕ
  pub erase_options : ℕ
  pub copy_offset : ℕ

-- `if (!header_v2) { ... }`, which also sets `header_v2_received` to 0: no check of a V1 header
-- reads it.
unfoldable pub read_header_v1 : List ℕ → ℕ → Checked HeaderChunk
read_header_v1 msg len = do
  unless (ltb len 32) 8 (u32 len)
  let subblock_len = rd_be32 msg 16
  let chunk_len = rd_be32 msg 24
  unless (subblock_len != u32 (chunk_len + 12)) 16 subblock_len
  pass (record {
    header_v2 = false;
    chunk_len = chunk_len;
    file_offset = 0;
    total_len = chunk_len;
    data_offset = 32;
    options = byte msg 28;
    erase_options = byte msg 29;
    copy_offset = 0;
  })

-- The other branch, with the number of header bytes received before.
unfoldable pub read_header_v2 : ℕ → List ℕ → ℕ → Checked HeaderChunk
read_header_v2 header_v2_received msg len = do
  unless (ltb len 60) 8 (u32 len)
  pass (record {
    header_v2 = true;
    chunk_len = rd_be32 msg 33;
    file_offset = rd_be32 msg 29;
    total_len = rd_be32 msg 24;
    data_offset = 60;
    options = byte msg 28;
    erase_options = byte msg 37;
    copy_offset = header_v2_received;
  })

-- The checks on options, which a V2 header with no options skips.
unfoldable pub check_options : HeaderChunk → Checked (Unit {0})
check_options h =
    if h.header_v2 && h.options == 0
    then pass tt
    else unless (bit_and h.options 0xc0 != 0) 8 h.options
      >> unless (h.erase_options != 0) 8 h.erase_options

-- The checks that both kinds of header share.
unfoldable pub limit_header : ℕ → ℕ → HeaderChunk → Checked HeaderChunk
limit_header header_v2_received len h = do
  unless (h.header_v2 && ltb h.total_len (header_v2_received + h.chunk_len)) 16 h.chunk_len
  check_options h
  unless (ltb max_header_data h.chunk_len || ltb len (h.data_offset + h.chunk_len)) 16 h.chunk_len
  pass h

-- The checks on a header message, up to the assembly of the header.
unfoldable pub check_header : ℕ → ℕ → List ℕ → ℕ → Checked HeaderChunk
check_header header_v2_received subblock msg len =
    (if subblock == subblock_header_v2
      then read_header_v2 header_v2_received msg len
      else read_header_v1 msg len)
    >>= limit_header header_v2_received len

-- The locals of the payload branch.
pub record PayloadChunk : Type 0 where
  pub data_len : ℕ
  pub data_offset : ℕ

-- `data_offset`, `overhead` and `protocol_mask` of a payload subblock.
abbrev pub payload_form : ℕ → ℕ × ℕ × ℕ
payload_form subblock =
    if subblock == subblock_payload_v1
    then (28, 8, 0x3)
    else if subblock == subblock_payload_v2
    then (32, 12, 0xc)
    else (64, 44, 0x10)

unfoldable pub check_payload : SecureMessage → List ℕ → ℕ → Checked PayloadChunk
check_payload m msg len = do
  unless (ltb len 25) 8 (u32 len)
  let subblock_len = rd_be32 msg 16
  let data_len = rd_be32 msg 20
  let options = byte msg 24
  let (data_offset, overhead, protocol_mask) = payload_form m.subblock
  unless (subblock_len != u32 (data_len + overhead)) 16 subblock_len
  unless (bit_and options 0xfe != 0) 8 options
  unless (bit_and m.protocol protocol_mask == 0) 8 m.protocol
  unless (ltb max_payload_data data_len || ltb len (data_offset + data_len)) 16 data_len
  pass (record { data_len = data_len; data_offset = data_offset })
