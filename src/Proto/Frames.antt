-- ===== src/Proto/Frames.antt =====
-- What a request built by src/src/ufp_proto.c holds, field by field as a receiver reads it.
use ufp_ffu_device_efi.Prelude.{
  ℕ, ◌+◌, ◌^◌, ◌<◌, ◌≤◌, ◌≡◌, refl, arith, List, Bool, true, some, length, drop, replicate,
  if◌then◌else◌, length-drop,
}
use ufp_ffu_device_efi.Prelude.Buffer.{blit_front}
use ufp_ffu_device_efi.Word.{u32}
use ufp_ffu_device_efi.Bytes.{byte, rd_be16, rd_be32}
use ufp_ffu_device_efi.Bytes.Order.{be32-bytes, be32-sum, be16-sum}
use ufp_ffu_device_efi.Proto.{has_magic, max_header_data, max_payload_data}
use ufp_ffu_device_efi.Proto.Build.{
  header_request_frame, build_secure_header_request, payload_request_frame,
  build_secure_payload_request,
}

-- A header request's fields, as the device reads them.
pub record IsHeaderRequest (p : List ℕ) (abs total file_offset chunk_len : ℕ) : Type 0 where
  pub magic : has_magic p (chunk_len + 60) b'F' b'S' ≡ true
  pub protocol : rd_be16 p 6 ≡ 2
  pub subblocks : byte p 11 ≡ 1
  pub subblock : rd_be32 p 12 ≡ 0x21
  pub subblock_len : rd_be32 p 16 ≡ chunk_len + 40
  pub absolute : rd_be32 p 20 ≡ abs
  pub total_len : rd_be32 p 24 ≡ total
  pub options : byte p 28 ≡ 0
  pub offset : rd_be32 p 29 ≡ file_offset
  pub chunk : rd_be32 p 33 ≡ chunk_len
  pub erase_options : byte p 37 ≡ 0

header_request_frame-fields :
    (out : List ℕ) (abs file_offset chunk_len : ℕ)
    → 60 ≤ length out
    → chunk_len ≤ max_header_data
    → abs < 2 ^ 32
    → file_offset < 2 ^ 32
    → IsHeaderRequest
        (header_request_frame out abs file_offset chunk_len)
        abs
        (u32 (file_offset + chunk_len))
        file_offset
        chunk_len
unfolding header_request_frame rd_be16 rd_be32 has_magic
header_request_frame-fields out abs file_offset chunk_len room small ha hf =
    rw (blit_front out (replicate 60 0) room) (record {
      magic = ground arith;
      protocol = be16-sum 0 2 (omega arith) (omega arith);
      subblocks = refl;
      subblock = be32-sum 0 0 0 33 (omega arith) (omega arith) (omega arith) (omega arith);
      subblock_len = omega (arith, be32-bytes (u32 (chunk_len + 40)) (omega arith));
      absolute = be32-bytes abs ha;
      total_len = be32-bytes _ (omega arith);
      options = refl;
      offset = be32-bytes file_offset hf;
      chunk = be32-bytes chunk_len (omega arith);
      erase_options = refl;
    })

-- The frame is written over the first 60 bytes; the payload behind them and the size stay.
header_request_frame-rest :
    (out : List ℕ) (abs file_offset chunk_len : ℕ)
    → 60 ≤ length out
    → (drop 60 (header_request_frame out abs file_offset chunk_len) ≡ drop 60 out)
      × (length (header_request_frame out abs file_offset chunk_len) ≡ length out)
unfolding header_request_frame
header_request_frame-rest out abs file_offset chunk_len room =
    rw (blit_front out (replicate 60 0) room) (refl, omega (arith, length-drop 60 out))

-- Where the buffer has room for the frame and the chunk, and the chunk is within the limit, the
-- builder returns the length of frame and chunk together. The request then reads back as the
-- header request with the given fields, its total field being the end of the chunk,
-- `file_offset + chunk_len` in 32 bits. What lies behind the 60 bytes of the frame is not touched.
pub build_secure_header_request-IsHeaderRequest :
    (out : List ℕ) (cap abs file_offset chunk_len : ℕ)
    → cap ≤ length out
    → chunk_len + 60 ≤ cap
    → chunk_len ≤ max_header_data
    → abs < 2 ^ 32
    → file_offset < 2 ^ 32
    → (p : List ℕ) × (build_secure_header_request (some out) cap abs file_offset chunk_len
        ≡ (chunk_len + 60, some p))
      × IsHeaderRequest p abs (u32 (file_offset + chunk_len)) file_offset chunk_len
      × (drop 60 p ≡ drop 60 out)
      × (length p ≡ length out)
build_secure_header_request-IsHeaderRequest out cap abs file_offset chunk_len cap_le room small ha
      hf =
    (
      header_request_frame out abs file_offset chunk_len,
      unfold build_secure_header_request in ground arith,
      header_request_frame-fields out abs file_offset chunk_len (omega arith) small ha hf,
      (header_request_frame-rest out abs file_offset chunk_len (omega arith)).0,
      (header_request_frame-rest out abs file_offset chunk_len (omega arith)).1,
    )

-- A payload request's fields, as the device reads them.
pub record IsPayloadRequest (p : List ℕ) (progress data_len : ℕ) : Type 0 where
  pub magic : has_magic p (data_len + 32) b'F' b'S' ≡ true
  pub protocol : rd_be16 p 6 ≡ 4
  pub percent : byte p 8 ≡ progress
  pub subblocks : byte p 11 ≡ 1
  pub subblock : rd_be32 p 12 ≡ 0x1b
  pub subblock_len : rd_be32 p 16 ≡ data_len + 12
  pub size : rd_be32 p 20 ≡ data_len
  pub options : byte p 24 ≡ 0

payload_request_frame-fields :
    (out : List ℕ) (progress data_len : ℕ) (final_packet : Bool)
    → 32 ≤ length out
    → data_len ≤ max_payload_data
    → IsPayloadRequest
        (payload_request_frame out progress data_len final_packet)
        (if final_packet then 100 else progress)
        data_len
      × (drop 32 (payload_request_frame out progress data_len final_packet) ≡ drop 32 out)
unfolding payload_request_frame rd_be16 rd_be32 has_magic
payload_request_frame-fields out progress data_len final_packet room small =
    rw (blit_front out (replicate 32 0) room) (
      record {
        magic = ground arith;
        protocol = be16-sum 0 4 (omega arith) (omega arith);
        percent = refl;
        subblocks = refl;
        subblock = be32-sum 0 0 0 27 (omega arith) (omega arith) (omega arith) (omega arith);
        subblock_len = omega (arith, be32-bytes (u32 (data_len + 12)) (omega arith));
        size = be32-bytes data_len (omega arith);
        options = refl;
      },
      refl,
    )

-- Where the buffer has room for the frame and the data, and the data are within the limit, the
-- builder returns the length of frame and data together, and the request reads back as the V2
-- payload request with the given data length; its progress is 100 for the final packet and the
-- given one otherwise. What lies behind the 32 bytes of the frame is not touched.
pub build_secure_payload_request-IsPayloadRequest :
    (out : List ℕ) (cap progress data_len : ℕ) (final_packet : Bool)
    → cap ≤ length out
    → data_len + 32 ≤ cap
    → data_len ≤ max_payload_data
    → (p : List ℕ) × (build_secure_payload_request (some out) cap progress data_len final_packet
        ≡ (data_len + 32, some p))
      × IsPayloadRequest p (if final_packet then 100 else progress) data_len
      × (drop 32 p ≡ drop 32 out)
build_secure_payload_request-IsPayloadRequest out cap progress data_len final_packet cap_le room
      small =
    let frame =
      payload_request_frame-fields out progress data_len final_packet (omega arith) small in
    (
      payload_request_frame out progress data_len final_packet,
      unfold build_secure_payload_request in ground arith,
      frame.0,
      frame.1,
    )
