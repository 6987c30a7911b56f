-- ===== src/Secure/Requests.antt =====
-- The checks of src/src/main.c on the requests that the host's builders in src/src/ufp_proto.c make,
-- and on any other message.
use ufp_ffu_device_efi.Prelude.{
  ℕ, ◌+◌, ◌^◌, ◌<◌, ◌≤◌, ◌≡◌, refl, arith, List, Bool, true, false, some, ◌==◌, if◌then◌else◌,
  length, drop, ◌⊎◌,
}
use ufp_ffu_device_efi.Word.{u32}
use ufp_ffu_device_efi.Bytes.{byte, rd_be32}
use ufp_ffu_device_efi.Proto.{
  max_header_data, max_payload_data, subblock_header_v2, subblock_payload_v2,
}
use ufp_ffu_device_efi.Proto.Build.{build_secure_header_request, build_secure_payload_request}
use ufp_ffu_device_efi.Proto.Frames.{
  IsHeaderRequest, IsPayloadRequest, build_secure_header_request-IsHeaderRequest,
  build_secure_payload_request-IsPayloadRequest,
}
use ufp_ffu_device_efi.Secure.{
  Checked, reply, pass, ◌>>=◌, SecureMessage, check_secure, HeaderChunk, read_header_v1,
  read_header_v2, check_options, limit_header, check_header, PayloadChunk, check_payload,
}

-- The chunk that the device takes from a header request.
abbrev pub requested_chunk : ℕ → ℕ → ℕ → HeaderChunk
requested_chunk header_v2_received file_offset chunk_len = record {
  header_v2 = true;
  chunk_len = chunk_len;
  file_offset = file_offset;
  total_len = file_offset + chunk_len;
  data_offset = 60;
  options = 0;
  erase_options = 0;
  copy_offset = header_v2_received;
}

module _ (p : List ℕ) (abs file_offset chunk_len : ℕ)
    (f : IsHeaderRequest p abs (u32 (file_offset + chunk_len)) file_offset chunk_len) where
  pub check_secure-header :
      check_secure p (chunk_len + 60)
      ≡ pass (record { protocol = 2; progress = byte p 8; subblock = subblock_header_v2 })
  unfolding check_secure
  check_secure-header = rw (f.protocol, f.subblocks, f.subblock) (ground arith)

  pub check_header-header :
      (header_v2_received : ℕ)
      → chunk_len ≤ max_header_data
      → file_offset + chunk_len < 2 ^ 32
      → header_v2_received ≤ file_offset
      → check_header header_v2_received subblock_header_v2 p (chunk_len + 60)
        ≡ pass (requested_chunk header_v2_received file_offset chunk_len)
  unfolding check_header limit_header read_header_v2 check_options
  check_header-header header_v2_received small fits behind =
      let total : rd_be32 p 24 ≡ file_offset + chunk_len = omega (arith, f.total_len) in
      rw (f.chunk, f.offset, total, f.options, f.erase_options) (ground arith)

-- A header request that the host builds, for a chunk that ends below 2 ^ 32, is accepted by a
-- device that has received no more than what lies before the chunk. The device takes the chunk with
-- the length and the offset that the host gave, from behind the 60 bytes of the frame, where the
-- host's data are.
pub check_header-build_secure_header_request :
    (out : List ℕ) (cap abs file_offset chunk_len header_v2_received : ℕ)
    → cap ≤ length out
    → chunk_len + 60 ≤ cap
    → chunk_len ≤ max_header_data
    → abs < 2 ^ 32
    → file_offset + chunk_len < 2 ^ 32
    → header_v2_received ≤ file_offset
    → (p : List ℕ) × (build_secure_header_request (some out) cap abs file_offset chunk_len
        ≡ (chunk_len + 60, some p))
      × (check_secure p (chunk_len + 60)
          ≡ pass (record { protocol = 2; progress = byte p 8; subblock = subblock_header_v2 }))
      × (check_header header_v2_received subblock_header_v2 p (chunk_len + 60)
          ≡ pass (requested_chunk header_v2_received file_offset chunk_len))
      × (drop 60 p ≡ drop 60 out)
check_header-build_secure_header_request out cap abs file_offset chunk_len header_v2_received cap_le
      room small ha fits behind =
    let (p, built, f, rest, _) =
      build_secure_header_request-IsHeaderRequest out cap abs file_offset chunk_len cap_le room
        small ha (omega arith) in
    (
      p,
      built,
      check_secure-header p abs file_offset chunk_len f,
      check_header-header p abs file_offset chunk_len f header_v2_received small fits behind,
      rest,
    )

module _ (p : List ℕ) (progress data_len : ℕ) (f : IsPayloadRequest p progress data_len) where
  pub check_secure-payload :
      check_secure p (data_len + 32)
      ≡ pass (record { protocol = 4; progress = progress; subblock = subblock_payload_v2 })
  unfolding check_secure
  check_secure-payload = rw (f.protocol, f.subblocks, f.subblock, f.percent) (ground arith)

  pub check_payload-payload :
      data_len ≤ max_payload_data
      → check_payload
          (record { protocol = 4; progress = progress; subblock = subblock_payload_v2 })
          p
          (data_len + 32)
        ≡ pass (record { data_len = data_len; data_offset = 32 })
  unfolding check_payload
  check_payload-payload small =
      let long : rd_be32 p 16 ≡ u32 (data_len + 12) = omega (arith, f.subblock_len) in
      rw (long, f.size, f.options) (ground arith)

-- A payload request that the host builds is accepted by the device, with the progress that the
-- host gave, or 100 for the final packet. The device takes the data with the host's length from
-- behind the 32 bytes of the frame, where the host's data are.
pub check_payload-build_secure_payload_request :
    (out : List ℕ) (cap progress data_len : ℕ) (final_packet : Bool)
    → cap ≤ length out
    → data_len + 32 ≤ cap
    → data_len ≤ max_payload_data
    → (p : List ℕ) × (m : SecureMessage) × (build_secure_payload_request
          (some out)
          cap
          progress
          data_len
          final_packet
        ≡ (data_len + 32, some p))
      × (check_secure p (data_len + 32) ≡ pass m)
      × (m.progress ≡ (if final_packet then 100 else progress))
      × (check_payload m p (data_len + 32)
          ≡ pass (record { data_len = data_len; data_offset = 32 }))
      × (drop 32 p ≡ drop 32 out)
check_payload-build_secure_payload_request out cap progress data_len final_packet cap_le room
      small =
    let percent = if final_packet then 100 else progress in
    let (p, built, f, rest) =
      build_secure_payload_request-IsPayloadRequest out cap progress data_len final_packet cap_le
        room small in
    (
      p,
      record { protocol = 4; progress = percent; subblock = subblock_payload_v2 },
      built,
      check_secure-payload p percent data_len f,
      refl,
      check_payload-payload p percent data_len f small,
      rest,
    )

>>=-eq-pass :
    {A B : Type 0} (m : Checked A) (next : A → Checked B) {b : B}
    → (m >>= next) ≡ pass b
    → (x : A) × (m ≡ pass x) × (next x ≡ pass b)
>>=-eq-pass (reply status specifier) next h = cc
>>=-eq-pass (pass x) next h = (x, refl, h)

-- Whatever the message, the data of a payload that passes the checks lie within the message, and
-- are no longer than a packet holds.
pub check_payload-inside :
    (m : SecureMessage) (msg : List ℕ) (len : ℕ) {c : PayloadChunk}
    → check_payload m msg len ≡ pass c
    → (c.data_offset + c.data_len ≤ len) × (c.data_len ≤ max_payload_data)
unfolding check_payload
check_payload-inside m msg len {c} h = ground arith

limit_header-inside :
    (header_v2_received len : ℕ) (g : HeaderChunk) {h : HeaderChunk}
    → limit_header header_v2_received len g ≡ pass h
    → (h.data_offset + h.chunk_len ≤ len)
      × (h.chunk_len ≤ max_header_data)
      × ((h.header_v2 ≡ false) ⊎ (header_v2_received + h.chunk_len ≤ h.total_len))
unfolding limit_header check_options
limit_header-inside header_v2_received len g {h} e = ground arith

-- Whatever the message, the chunk of a header that passes the checks lies within the message and is
-- no longer than a packet holds; and a chunk of a V2 header, behind what was received before, does
-- not pass the total length that the message gives.
pub check_header-inside :
    (header_v2_received subblock : ℕ) (msg : List ℕ) (len : ℕ) {h : HeaderChunk}
    → check_header header_v2_received subblock msg len ≡ pass h
    → (h.data_offset + h.chunk_len ≤ len)
      × (h.chunk_len ≤ max_header_data)
      × ((h.header_v2 ≡ false) ⊎ (header_v2_received + h.chunk_len ≤ h.total_len))
unfolding check_header
check_header-inside header_v2_received subblock msg len {h} e =
    let (g, _, limited) =
      >>=-eq-pass
        (if subblock == subblock_header_v2
          then read_header_v2 header_v2_received msg len
          else read_header_v1 msg len)
        (limit_header header_v2_received len) e in
    limit_header-inside header_v2_received len g {h = h} limited
