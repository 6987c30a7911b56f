-- ===== src/Proto/Parse.antt =====
-- The response parsers of src/src/ufp_proto.c. `msg` is the whole buffer and `len` the length that
-- the caller gives; `none` is a null `resp`. The result is the status and what `resp` points to.
use ufp_ffu_device_efi.Prelude.{
  ℕ, List, Option, none, some, Bool, ltb, leb, ◌||◌, ◌&&◌, ◌==◌, ◌!=◌, not, if◌then◌else◌,
}
use ufp_ffu_device_efi.Bytes.{byte, rd_be16, rd_be32}
use ufp_ffu_device_efi.Proto.{
  Response, blank, has_magic, status_ok, status_invalid_msg, status_resp_invalid_size,
  status_resp_no_subblocks, status_resp_bad_status_len,
}

-- `if (resp) { ... }`: what is stored where there is a response to fill.
abbrev pub store_in : Option Response → Response → Option Response
store_in none r = none
store_in (some _) r = some r

unfoldable pub parse_switch_response : List ℕ → ℕ → Option Response → ℕ × Option Response
parse_switch_response msg len resp =
    if not (has_magic msg len b'C' b'B') || ltb len 12
    then (status_invalid_msg, store_in resp blank)
    else (
      rd_be16 msg 6,
      store_in resp (record blank { status = rd_be16 msg 6; specifier = rd_be32 msg 8 }),
    )

unfoldable pub parse_secure_header_response : List ℕ → ℕ → Option Response → ℕ × Option Response
parse_secure_header_response msg len resp =
    if not (has_magic msg len b'F' b'S') || ltb len 16
    then (status_invalid_msg, store_in resp blank)
    else (
      rd_be16 msg 6,
      store_in resp (record blank { status = rd_be16 msg 6; specifier = rd_be32 msg 8 }),
    )

unfoldable pub parse_secure_payload_response :
    List ℕ → ℕ → Bool → Option Response → ℕ × Option Response
parse_secure_payload_response msg len expected_final resp =
    let status = rd_be16 msg 6 in
    let seen : Response = record {
      status = status;
      specifier = if leb 12 len then rd_be32 msg 8 else 0;
      last_sector = 0;
      final_state = 0;
    } in
    let full : Response = record {
      status = status;
      specifier = if leb 12 len then rd_be32 msg 8 else 0;
      last_sector = rd_be32 msg 28;
      final_state = if ltb 32 len then byte msg 32 else 0;
    } in
    if ltb len 16
    then (status_resp_invalid_size, store_in resp blank)
    else if not (has_magic msg len b'F' b'S')
    then (status_invalid_msg, store_in resp blank)
    else if status != 0
    then (status, store_in resp seen)
    else if byte msg 15 == 0
    then (status_resp_no_subblocks, store_in resp seen)
    else if ltb len 0x24
    then (status_resp_bad_status_len, store_in resp seen)
    else if rd_be32 msg 16 != 14
    then (status_resp_bad_status_len, store_in resp seen)
    else if expected_final && ltb 32 len && byte msg 32 != 1
    then (byte msg 32, store_in resp full)
    else (status_ok, store_in resp full)
