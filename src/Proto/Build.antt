-- ===== src/Proto/Build.antt =====
-- The builders of src/src/ufp_proto.c. `none` is a null `out`; the result is the length that the
-- builder returns and what `out` points to afterwards.
use ufp_ffu_device_efi.Prelude.{
  ℕ, ◌+◌, List, [], ◌∷◌, ◌++◌, Option, none, some, ltb, ◌||◌, if◌then◌else◌, Bool,
}
use ufp_ffu_device_efi.Prelude.Buffer.{blit}
use ufp_ffu_device_efi.Word.{u32}
use ufp_ffu_device_efi.Bytes.{poke, clear, wr_be16, wr_be32}
use ufp_ffu_device_efi.Proto.{
  nokx, max_header_data, max_payload_data, sec_msg_header, sec_msg_payload, subblock_header_v2,
  subblock_payload_v2,
}

unfoldable pub build_switch_reboot : Option (List ℕ) → ℕ → ℕ × Option (List ℕ)
build_switch_reboot none cap = (0, none)
build_switch_reboot (some out) cap =
    if ltb cap 7 then (0, some out) else (7, some (blit out 0 (nokx b'C' b'B' ++ b'R' ∷ [])))

-- The writes of `ufp_build_secure_header_request` behind its guard, in their order.
unfoldable pub header_request_frame : List ℕ → ℕ → ℕ → ℕ → List ℕ
header_request_frame out absolute_header_offset file_offset chunk_len =
    let out = clear out 0 60 in
    let out = blit out 0 (nokx b'F' b'S') in
    let out = poke out 6 0 in
    let out = poke out 7 sec_msg_header in
    let out = poke out 11 1 in
    let out = poke out 15 subblock_header_v2 in
    let out = wr_be32 out 16 (u32 (chunk_len + 40)) in
    let out = wr_be32 out 20 absolute_header_offset in
    let out = wr_be32 out 24 (u32 (file_offset + chunk_len)) in
    let out = poke out 28 0 in
    let out = wr_be32 out 29 file_offset in let out = wr_be32 out 33 chunk_len in poke out 37 0

unfoldable pub build_secure_header_request : Option (List ℕ) → ℕ → ℕ → ℕ → ℕ → ℕ × Option (List ℕ)
build_secure_header_request none cap absolute_header_offset file_offset chunk_len = (0, none)
build_secure_header_request (some out) cap absolute_header_offset file_offset chunk_len =
    if ltb cap (chunk_len + 60) || ltb max_header_data chunk_len then (0, some out) else (
      chunk_len + 60,
      some (header_request_frame out absolute_header_offset file_offset chunk_len),
    )

-- The writes of `ufp_build_secure_payload_request` behind its guard.
unfoldable pub payload_request_frame : List ℕ → ℕ → ℕ → Bool → List ℕ
payload_request_frame out progress data_len final_packet =
    let out = clear out 0 32 in
    let out = blit out 0 (nokx b'F' b'S') in
    let out = poke out 6 0 in
    let out = poke out 7 sec_msg_payload in
    let out = poke out 8 (if final_packet then 100 else progress) in
    let out = poke out 11 1 in
    let out = poke out 15 subblock_payload_v2 in
    let out = wr_be32 out 16 (u32 (data_len + 12)) in
    let out = wr_be32 out 20 data_len in poke out 24 0

unfoldable pub build_secure_payload_request :
    Option (List ℕ) → ℕ → ℕ → ℕ → Bool → ℕ × Option (List ℕ)
build_secure_payload_request none cap progress data_len final_packet = (0, none)
build_secure_payload_request (some out) cap progress data_len final_packet =
    if ltb cap (data_len + 32) || ltb max_payload_data data_len
    then (0, some out)
    else (data_len + 32, some (payload_request_frame out progress data_len final_packet))

unfoldable pub build_async_start_response : Option (List ℕ) → ℕ → ℕ → ℕ × Option (List ℕ)
build_async_start_response none cap status = (0, none)
build_async_start_response (some out) cap status =
    if ltb cap 9
    then (0, some out)
    else (9, some (wr_be16 (blit out 0 (nokx b'F' b'F' ++ b'S' ∷ [])) 7 status))

-- The writes of `ufp_build_async_write_status` behind its guard.
unfoldable pub async_write_frame : List ℕ → ℕ → ℕ → ℕ → ℕ → ℕ → List ℕ
async_write_frame out count start_sector write_status last_sector ufp_status =
    let out = blit out 0 (nokx b'F' b'F' ++ b'W' ∷ []) in
    let out = wr_be16 out 7 0 in
    let out = wr_be32 out 9 count in
    let out = wr_be32 out 13 start_sector in
    let out = wr_be32 out 17 write_status in
    let out = wr_be32 out 21 last_sector in wr_be16 out 25 ufp_status

unfoldable pub build_async_write_status :
    Option (List ℕ) → ℕ → ℕ → ℕ → ℕ → ℕ → ℕ → ℕ × Option (List ℕ)
build_async_write_status none cap count start_sector write_status last_sector ufp_status = (0, none)
build_async_write_status (some out) cap count start_sector write_status last_sector ufp_status =
    if ltb cap 27
    then (0, some out)
    else (27, some (async_write_frame out count start_sector write_status last_sector ufp_status))

-- The writes of `ufp_build_async_end_response` behind its guard.
unfoldable pub async_end_frame : List ℕ → ℕ → ℕ → ℕ → List ℕ
async_end_frame out write_status last_sector ufp_status =
    let out = blit out 0 (nokx b'F' b'F' ++ b'E' ∷ []) in
    let out = wr_be16 out 7 0 in
    let out = wr_be32 out 9 write_status in
    let out = wr_be32 out 13 last_sector in wr_be32 out 17 ufp_status

unfoldable pub build_async_end_response : Option (List ℕ) → ℕ → ℕ → ℕ → ℕ → ℕ × Option (List ℕ)
build_async_end_response none cap write_status last_sector ufp_status = (0, none)
build_async_end_response (some out) cap write_status last_sector ufp_status =
    if ltb cap 21
    then (0, some out)
    else (21, some (async_end_frame out write_status last_sector ufp_status))

-- The writes of `ufp_build_secure_status_response` behind its guard.
unfoldable pub secure_status_frame : List ℕ → ℕ → ℕ → ℕ → ℕ → ℕ → List ℕ
secure_status_frame out status specifier first_bad_sector last_sector final_state =
    let out = clear out 0 36 in
    let out = blit out 0 (nokx b'F' b'S') in
    let out = wr_be16 out 6 status in
    let out = wr_be32 out 8 specifier in
    let out = poke out 15 1 in
    let out = wr_be32 out 16 14 in
    let out = poke out 23 20 in
    let out = wr_be32 out 24 first_bad_sector in
    let out = wr_be32 out 28 last_sector in poke out 32 final_state

unfoldable pub build_secure_status_response :
    Option (List ℕ) → ℕ → ℕ → ℕ → ℕ → ℕ → ℕ → ℕ × Option (List ℕ)
build_secure_status_response none cap status specifier first_bad_sector last_sector final_state =
    (0, none)
build_secure_status_response (some out) cap status specifier first_bad_sector last_sector
      final_state =
    if ltb cap 36 then (0, some out) else (
      36,
      some (secure_status_frame out status specifier first_bad_sector last_sector final_state),
    )
