-- ===== src/Frames/Fields.antt =====
-- What a host reads in the replies of src/src/main.c.
use ufp_ffu_device_efi.Prelude.{ℕ, ◌^◌, ◌<◌, ◌≡◌, refl, arith, List, ◌++◌, some, drop}
use ufp_ffu_device_efi.Prelude.Buffer.{blit_front, blit-append, slice, length-take_or}
use ufp_ffu_device_efi.Bytes.{rd_be16, rd_be32, be16_bytes, be32_bytes}
use ufp_ffu_device_efi.Bytes.Order.{be16-bytes, be32-bytes}
use ufp_ffu_device_efi.Proto.{Response, blank, has_magic, nokx}
use ufp_ffu_device_efi.Proto.Parse.{parse_switch_response}
use ufp_ffu_device_efi.Frames.{cb_response}

-- The reply is written over the whole buffer.
cb_response-layout :
    (junk : List ℕ) (status specifier : ℕ)
    → cb_response junk status specifier
      ≡ (nokx b'C' b'B' ++ be16_bytes status ++ be32_bytes specifier) ++ drop 12 (slice 0 junk 0 12)
unfolding cb_response
cb_response-layout junk status specifier =
    let buf = slice 0 junk 0 12 in
    rw
      (
        blit-append buf 0 (nokx b'C' b'B') (be16_bytes status),
        blit-append buf 0 (nokx b'C' b'B' ++ be16_bytes status) (be32_bytes specifier),
        blit_front buf (nokx b'C' b'B' ++ be16_bytes status ++ be32_bytes specifier)
            (omega (arith, length-take_or 12 0 junk)),
      )
      refl

-- The host's parser of switch replies reads back the status and the specifier, whatever was in the
-- buffer before.
pub parse_switch_response-cb_response :
    (junk : List ℕ) (status specifier : ℕ) (r : Response)
    → status < 2 ^ 16
    → specifier < 2 ^ 32
    → parse_switch_response (cb_response junk status specifier) 12 (some r)
      ≡ (status, some (record blank { status = status; specifier = specifier }))
unfolding parse_switch_response has_magic rd_be16 rd_be32
parse_switch_response-cb_response junk status specifier r hs hp =
    rw (cb_response-layout junk status specifier)
      (rw (be16-bytes status hs, be32-bytes specifier hp) refl)
