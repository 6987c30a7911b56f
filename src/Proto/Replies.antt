-- ===== src/Proto/Replies.antt =====
-- The host's parser on the device's replies.
use ufp_ffu_device_efi.Prelude.{
  ℕ, ◌^◌, ◌<◌, ◌≤◌, ◌≡◌, refl, arith, List, Bool, true, Option, some, length, replicate,
  if◌then◌else◌, false, ◌!=◌, ◌&&◌, ◌≢◌, ◌⊎◌,
}
use ufp_ffu_device_efi.Prelude.Buffer.{blit_front}
use ufp_ffu_device_efi.Bytes.{byte, rd_be16, rd_be32}
use ufp_ffu_device_efi.Bytes.Order.{be16-bytes, be32-bytes, be32-sum}
use ufp_ffu_device_efi.Proto.{Response, has_magic}
use ufp_ffu_device_efi.Proto.Build.{secure_status_frame, build_secure_status_response}
use ufp_ffu_device_efi.Proto.Parse.{parse_secure_payload_response}

-- The fields of a secure status reply, as the host reads them.
record IsStatusReply (p : List ℕ) (status specifier last_sector final_state : ℕ) : Type 0 where
  magic : has_magic p 36 b'F' b'S' ≡ true
  code : rd_be16 p 6 ≡ status
  detail : rd_be32 p 8 ≡ specifier
  subblocks : byte p 15 ≡ 1
  subblock_len : rd_be32 p 16 ≡ 14
  sector : rd_be32 p 28 ≡ last_sector
  final : byte p 32 ≡ final_state

secure_status_frame-fields :
    (out : List ℕ) (status specifier first_bad_sector last_sector final_state : ℕ)
    → 36 ≤ length out
    → status < 2 ^ 16
    → specifier < 2 ^ 32
    → last_sector < 2 ^ 32
    → IsStatusReply
        (secure_status_frame out status specifier first_bad_sector last_sector final_state)
        status
        specifier
        last_sector
        final_state
unfolding secure_status_frame rd_be16 rd_be32 has_magic
secure_status_frame-fields out status specifier first_bad_sector last_sector final_state room hs hp
      hl =
    rw (blit_front out (replicate 36 0) room) (record {
      magic = refl;
      code = be16-bytes status hs;
      detail = be32-bytes specifier hp;
      subblocks = refl;
      subblock_len = be32-sum 0 0 0 14 (omega arith) (omega arith) (omega arith) (omega arith);
      sector = be32-bytes last_sector hl;
      final = refl;
    })

-- The host's verdict on a status reply: the status where it is not 0, else the final state where
-- completion was expected and the final state is not 1, else 0.
abbrev pub verdict : ℕ → ℕ → Bool → ℕ
verdict status final_state expected_final =
    if status != 0 then status else if expected_final && final_state != 1 then final_state else 0

-- What the host learns of a status reply beside the verdict.
abbrev pub learned : ℕ → ℕ → ℕ → ℕ → Response
learned status specifier last_sector final_state = record {
  status = status;
  specifier = specifier;
  last_sector = if status != 0 then 0 else last_sector;
  final_state = if status != 0 then 0 else final_state;
}

parse-IsStatusReply :
    (p : List ℕ) (status specifier last_sector final_state : ℕ) (expected_final : Bool)
    (r : Response)
    → IsStatusReply p status specifier last_sector final_state
    → parse_secure_payload_response p 36 expected_final (some r) ≡ (
      verdict status final_state expected_final,
      some (learned status specifier last_sector final_state),
    )
unfolding parse_secure_payload_response
parse-IsStatusReply p status specifier last_sector final_state expected_final r f = ground arith

-- For every status, specifier, sector and final state that fit their fields, the host's parser
-- reads back what the device's builder put in: the verdict, and in the response record the status
-- and the specifier, with the last sector and the final state where the status is 0.
pub parse-build_secure_status_response :
    (out : List ℕ) (cap status specifier first_bad_sector last_sector final_state : ℕ)
    (expected_final : Bool) (r : Response)
    → cap ≤ length out
    → 36 ≤ cap
    → status < 2 ^ 16
    → specifier < 2 ^ 32
    → last_sector < 2 ^ 32
    → (p : List ℕ) × (build_secure_status_response
          (some out)
          cap
          status
          specifier
          first_bad_sector
          last_sector
          final_state
        ≡ (36, some p))
      × (parse_secure_payload_response p 36 expected_final (some r) ≡ (
        verdict status final_state expected_final,
        some (learned status specifier last_sector final_state),
      ))
parse-build_secure_status_response out cap status specifier first_bad_sector last_sector final_state
      expected_final r cap_le room hs hp hl =
    let p = secure_status_frame out status specifier first_bad_sector last_sector final_state in
    let f =
      secure_status_frame-fields out status specifier first_bad_sector last_sector final_state
        (omega arith) hs hp hl in
    (
      p,
      unfold build_secure_status_response in ground arith,
      parse-IsStatusReply p status specifier last_sector final_state expected_final r f,
    )

-- The parser answers 0 only for a message of the secure-flash form that is at least 36 bytes long,
-- whose status field is 0, whose subblock count is not 0 and whose subblock length is 14; and where
-- completion is expected and the message has a final state, that state is 1 or 0.
pub parse_secure_payload_response-eq-ok :
    (msg : List ℕ) (len : ℕ) (expected_final : Bool) (resp : Option Response)
    → (parse_secure_payload_response msg len expected_final resp).0 ≡ 0
    → (36 ≤ len)
      × (has_magic msg len b'F' b'S' ≡ true)
      × (rd_be16 msg 6 ≡ 0)
      × (byte msg 15 ≢ 0)
      × (rd_be32 msg 16 ≡ 14)
      × ((expected_final ≡ false) ⊎ (byte msg 32 ≡ 1) ⊎ (byte msg 32 ≡ 0))
unfolding parse_secure_payload_response
parse_secure_payload_response-eq-ok msg len expected_final resp h = ground arith
