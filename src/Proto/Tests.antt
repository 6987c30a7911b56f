-- ===== src/Proto/Tests.antt =====
-- Runs of the frame builders and parsers of src/src/ufp_proto.c.
use ufp_ffu_device_efi.Prelude.{
  ℕ, ◌+◌, ◌≤◌, ◌≡◌, ◌≢◌, ◌⊎◌, refl, arith, List, ◌++◌, true, false, some, drop, length, replicate,
}
use ufp_ffu_device_efi.Word.{u32}
use ufp_ffu_device_efi.Bytes.{byte, rd_be16, rd_be32, be16, be32}
use ufp_ffu_device_efi.Proto.{Response, has_magic}
use ufp_ffu_device_efi.Proto.Build.{
  build_secure_header_request, build_secure_payload_request, build_async_start_response,
  build_async_write_status, build_async_end_response, secure_status_frame,
  build_secure_status_response,
}
use ufp_ffu_device_efi.Proto.Parse.{parse_secure_payload_response}
use ufp_ffu_device_efi.Proto.Frames.{
  IsHeaderRequest, IsPayloadRequest, build_secure_header_request-IsHeaderRequest,
  build_secure_payload_request-IsPayloadRequest,
}
use ufp_ffu_device_efi.Proto.Replies.{
  learned, parse-build_secure_status_response, parse_secure_payload_response-eq-ok,
}
use ufp_ffu_device_efi.Proto.Async.{start_layout, write_layout, end_layout, async_layouts}

abbrev buffer : List ℕ
buffer = replicate 64 0xaa

abbrev unread : Response
unread = record { status = 1; specifier = 2; last_sector = 3; final_state = 4 }

-- A reply of the device: sector 7, and all written.
abbrev reply : List ℕ
reply = secure_status_frame buffer 0 0 0 7 1

build_secure_header_request-IsHeaderRequest_example :
    (p : List ℕ) × (build_secure_header_request (some buffer) 64 4096 8 4 ≡ (4 + 60, some p))
    × IsHeaderRequest p 4096 (u32 (8 + 4)) 8 4
    × (drop 60 p ≡ drop 60 buffer)
    × (length p ≡ length buffer)
build_secure_header_request-IsHeaderRequest_example =
    build_secure_header_request-IsHeaderRequest buffer 64 4096 8 4 (omega arith) (omega arith)
      (omega arith) (omega arith) (omega arith)

build_secure_payload_request-IsPayloadRequest_example :
    (p : List ℕ) × (build_secure_payload_request (some buffer) 64 50 16 false ≡ (16 + 32, some p))
    × IsPayloadRequest p 50 16
    × (drop 32 p ≡ drop 32 buffer)
build_secure_payload_request-IsPayloadRequest_example =
    build_secure_payload_request-IsPayloadRequest buffer 64 50 16 false (omega arith) (omega arith)
      (omega arith)

parse-build_secure_status_response_example :
    (p : List ℕ) × (build_secure_status_response (some buffer) 64 0 9 0 7 0 ≡ (36, some p))
    × (parse_secure_payload_response p 36 true (some unread) ≡ (0, some (learned 0 9 7 0)))
parse-build_secure_status_response_example =
    parse-build_secure_status_response buffer 64 0 9 0 7 0 true unread (omega arith) (omega arith)
      (omega arith) (omega arith) (omega arith)

accepted : (parse_secure_payload_response reply 36 true (some unread)).0 ≡ 0
unfolding parse_secure_payload_response secure_status_frame has_magic rd_be16 be16 rd_be32 be32
accepted = refl

parse_secure_payload_response-eq-ok_example :
    (36 ≤ 36)
    × (has_magic reply 36 b'F' b'S' ≡ true)
    × (rd_be16 reply 6 ≡ 0)
    × (byte reply 15 ≢ 0)
    × (rd_be32 reply 16 ≡ 14)
    × ((true ≡ false) ⊎ (byte reply 32 ≡ 1) ⊎ (byte reply 32 ≡ 0))
parse_secure_payload_response-eq-ok_example =
    parse_secure_payload_response-eq-ok reply 36 true (some unread) accepted

async_layouts_example :
    (build_async_start_response (some buffer) 9 3 ≡ (9, some (start_layout 3 ++ drop 9 buffer)))
    × (build_async_write_status (some buffer) 27 3 4 5 6 7
        ≡ (27, some (write_layout 3 4 5 6 7 ++ drop 27 buffer)))
    × (build_async_end_response (some buffer) 21 3 4 5
        ≡ (21, some (end_layout 3 4 5 ++ drop 21 buffer)))
    × (build_async_start_response (some buffer) 8 3 ≡ (0, some buffer))
    × (build_async_write_status (some buffer) 26 3 4 5 6 7 ≡ (0, some buffer))
    × (build_async_end_response (some buffer) 20 3 4 5 ≡ (0, some buffer))
async_layouts_example =
    async_layouts buffer 9 27 21 8 26 20 3 4 5 6 7 (omega arith) (omega arith) (omega arith)
      (omega arith) (omega arith) (omega arith) (omega arith) (omega arith) (omega arith)
