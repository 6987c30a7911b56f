-- ===== src/Secure/Tests.antt =====
-- Runs of the checks of src/src/main.c on secure-flash messages.
use ufp_ffu_device_efi.Prelude.{
  inl, [], ℕ, ◌+◌, ◌≡◌, ◌≤◌, ◌⊎◌, refl, arith, List, ◌∷◌, ◌++◌, true, false, some, drop, replicate,
}
use ufp_ffu_device_efi.Bytes.{byte, rd_be32, be32}
use ufp_ffu_device_efi.Proto.{
  max_header_data, max_payload_data, subblock_header_v1, subblock_header_v2, subblock_payload_v1,
}
use ufp_ffu_device_efi.Proto.Build.{build_secure_header_request, build_secure_payload_request}
use ufp_ffu_device_efi.Secure.{
  reply, pass, SecureMessage, check_secure, HeaderChunk, read_header_v1, check_options,
  limit_header, check_header, check_payload,
}
use ufp_ffu_device_efi.Secure.Assembly.{HeaderBuffer, assemble_header}
use ufp_ffu_device_efi.Secure.Growth.{Holds}
use ufp_ffu_device_efi.Secure.Chunks.{assemble_header-next, assemble_header-first}
use ufp_ffu_device_efi.Secure.Requests.{
  requested_chunk, check_header-build_secure_header_request,
  check_payload-build_secure_payload_request, check_payload-inside, check_header-inside,
}

abbrev buffer : List ℕ
buffer = replicate 64 0xaa

-- A V1 header message with 8 bytes of data.
abbrev header_message : List ℕ
header_message = replicate 19 0 ++ 20 ∷ (replicate 7 0 ++ 8 ∷ replicate 12 0)

abbrev header_chunk : HeaderChunk
header_chunk = record {
  header_v2 = false;
  chunk_len = 8;
  file_offset = 0;
  total_len = 8;
  data_offset = 32;
  options = 0;
  erase_options = 0;
  copy_offset = 0;
}

-- A V1 payload message with 4 bytes of data.
abbrev payload_message : List ℕ
payload_message = replicate 19 0 ++ 12 ∷ 0 ∷ 0 ∷ 0 ∷ 4 ∷ replicate 8 0

abbrev first_form : SecureMessage
first_form = record { protocol = 1; progress = 0; subblock = subblock_payload_v1 }

header_taken : check_header 0 subblock_header_v1 header_message 40 ≡ pass header_chunk
unfolding check_header read_header_v1 limit_header check_options rd_be32 be32
header_taken = refl

payload_taken :
    check_payload first_form payload_message 32 ≡ pass (record { data_len = 4; data_offset = 28 })
unfolding check_payload rd_be32 be32
payload_taken = refl

-- A message that is cut short is refused.
cut_short : check_payload first_form payload_message 31 ≡ reply 16 4
unfolding check_payload rd_be32 be32
cut_short = refl

check_header-build_secure_header_request_example :
    (p : List ℕ) × (build_secure_header_request (some buffer) 64 4096 8 4 ≡ (4 + 60, some p))
    × (check_secure p (4 + 60)
        ≡ pass (record { protocol = 2; progress = byte p 8; subblock = subblock_header_v2 }))
    × (check_header 8 subblock_header_v2 p (4 + 60) ≡ pass (requested_chunk 8 8 4))
    × (drop 60 p ≡ drop 60 buffer)
check_header-build_secure_header_request_example =
    check_header-build_secure_header_request buffer 64 4096 8 4 8 (omega arith) (omega arith)
      (omega arith) (omega arith) (omega arith) (omega arith)

check_payload-build_secure_payload_request_example :
    (p : List ℕ) × (m : SecureMessage) × (build_secure_payload_request (some buffer) 64 50 16 true
      ≡ (16 + 32, some p))
    × (check_secure p (16 + 32) ≡ pass m)
    × (m.progress ≡ 100)
    × (check_payload m p (16 + 32) ≡ pass (record { data_len = 16; data_offset = 32 }))
    × (drop 32 p ≡ drop 32 buffer)
check_payload-build_secure_payload_request_example =
    check_payload-build_secure_payload_request buffer 64 50 16 true (omega arith) (omega arith)
      (omega arith)

check_payload-inside_example : (28 + 4 ≤ 32) × (4 ≤ max_payload_data)
check_payload-inside_example =
    check_payload-inside first_form payload_message 32
      {c = record { data_len = 4; data_offset = 28 }} payload_taken

check_header-inside_example :
    (32 + 8 ≤ 40) × (8 ≤ max_header_data) × ((false ≡ false) ⊎ (0 + 8 ≤ 8))
check_header-inside_example =
    check_header-inside 0 subblock_header_v1 header_message 40 {h = header_chunk} header_taken

-- A buffer with the first 4 bytes of a header of 8, with the chunks of 4 bytes each.
abbrev half_received : HeaderBuffer
half_received = record {
  header = some (1 ∷ 2 ∷ 3 ∷ 4 ∷ 0 ∷ 0 ∷ 0 ∷ 0 ∷ []);
  header_size = 4;
  header_cap = 8;
  header_v2_received = 4;
  flash_ready = false;
}

abbrev chunk_at : ℕ → ℕ → HeaderChunk
chunk_at offset before = record {
  header_v2 = true;
  chunk_len = 4;
  file_offset = offset;
  total_len = 8;
  data_offset = 0;
  options = 0;
  erase_options = 0;
  copy_offset = before;
}

assemble_header-next_example :
    (b' : HeaderBuffer) × (assemble_header
        (λ n. true)
        (chunk_at 4 4)
        (5 ∷ 6 ∷ 7 ∷ 8 ∷ [])
        half_received
      ≡ (pass 8, b'))
    × Holds (1 ∷ 2 ∷ 3 ∷ 4 ∷ 5 ∷ 6 ∷ 7 ∷ 8 ∷ []) b'
    × (b'.header_v2_received ≡ 8)
assemble_header-next_example =
    assemble_header-next (λ n. true) (chunk_at 4 4) (5 ∷ 6 ∷ 7 ∷ 8 ∷ []) (1 ∷ 2 ∷ 3 ∷ 4 ∷ [])
      half_received (λ n. refl)
      (record {
        buf = 1 ∷ 2 ∷ 3 ∷ 4 ∷ 0 ∷ 0 ∷ 0 ∷ 0 ∷ [];
        there = refl;
        sized = refl;
        full = refl;
        inside = omega arith;
        front = refl;
      })
      refl refl (omega arith) refl (omega arith) (omega arith) (omega arith)

assemble_header-first_example :
    (b' : HeaderBuffer) × (assemble_header
        (λ n. true)
        (chunk_at 0 4)
        (5 ∷ 6 ∷ 7 ∷ 8 ∷ [])
        half_received
      ≡ (reply 0 0, b'))
    × Holds (5 ∷ 6 ∷ 7 ∷ 8 ∷ []) b'
    × (b'.header_v2_received ≡ 4)
assemble_header-first_example =
    assemble_header-first (λ n. true) (chunk_at 0 4) (5 ∷ 6 ∷ 7 ∷ 8 ∷ []) half_received (λ n. refl)
      refl (inl refl) refl refl (omega arith) (omega arith) (omega arith)
