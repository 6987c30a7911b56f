-- ===== src/Proto.antt =====
-- src/src/ufp_proto.c and src/include/ufp_proto.h: the frames of the UFP protocol.
use ufp_ffu_device_efi.Prelude.{ℕ, ◌∷◌, [], List, Bool, leb, ◌==◌, ◌&&◌}
use ufp_ffu_device_efi.Bytes.{byte}
pub mod Build
pub mod Parse
pub mod Frames
pub mod Replies
pub mod Async
mod Tests

abbrev pub magic_n : ℕ
magic_n = 0x4e

abbrev pub magic_o : ℕ
magic_o = 0x4f

abbrev pub magic_k : ℕ
magic_k = 0x4b

abbrev pub magic_x : ℕ
magic_x = 0x58

abbrev pub status_ok : ℕ
status_ok = 0

abbrev pub status_invalid_msg : ℕ
status_invalid_msg = 33540

abbrev pub status_resp_invalid_size : ℕ
status_resp_invalid_size = 34054

abbrev pub status_resp_no_subblocks : ℕ
status_resp_no_subblocks = 34055

abbrev pub status_resp_bad_status_len : ℕ
status_resp_bad_status_len = 34056

abbrev pub max_header_data : ℕ
max_header_data = 0x1FFBDC

abbrev pub max_payload_data : ℕ
max_payload_data = 0x1FFC18

abbrev pub sec_msg_header : ℕ
sec_msg_header = 2

abbrev pub sec_msg_payload : ℕ
sec_msg_payload = 4

abbrev pub subblock_header_v1 : ℕ
subblock_header_v1 = 0x0b

abbrev pub subblock_payload_v1 : ℕ
subblock_payload_v1 = 0x0c

abbrev pub subblock_payload_v2 : ℕ
subblock_payload_v2 = 0x1b

abbrev pub subblock_payload_v3 : ℕ
subblock_payload_v3 = 0x1d

abbrev pub subblock_header_v2 : ℕ
subblock_header_v2 = 0x21

-- UFP_RESPONSE
pub record Response : Type 0 where
  pub status : ℕ
  pub specifier : ℕ
  pub last_sector : ℕ
  pub final_state : ℕ

-- `memset(resp, 0, sizeof(*resp))`
abbrev pub blank : Response
blank = record { status = 0; specifier = 0; last_sector = 0; final_state = 0 }

-- The first six bytes of an extended packet.
abbrev pub nokx : ℕ → ℕ → List ℕ
nokx app ext = b'N' ∷ b'O' ∷ b'K' ∷ b'X' ∷ app ∷ ext ∷ []

unfoldable pub has_magic : List ℕ → ℕ → ℕ → ℕ → Bool
has_magic msg len app ext =
    leb 6 len
    && byte msg 0 == magic_n
    && byte msg 1 == magic_o
    && byte msg 2 == magic_k
    && byte msg 3 == magic_x
    && byte msg 4 == app
    && byte msg 5 == ext
