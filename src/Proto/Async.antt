-- ===== src/Proto/Async.antt =====
-- The async replies of src/src/ufp_proto.c as byte layouts.
use ufp_ffu_device_efi.Prelude.{ℕ, ◌≤◌, ◌<◌, ◌≡◌, arith, List, [], ◌∷◌, ◌++◌, some, length, drop}
use ufp_ffu_device_efi.Prelude.Buffer.{blit, blit_front, blit-append}
use ufp_ffu_device_efi.Bytes.{be16_bytes, be32_bytes}
use ufp_ffu_device_efi.Proto.{nokx}
use ufp_ffu_device_efi.Proto.Build.{
  async_write_frame, async_end_frame, build_async_start_response, build_async_write_status,
  build_async_end_response,
}

-- The layouts of the three replies, as the protocol notes list their fields.
abbrev pub start_layout : ℕ → List ℕ
start_layout status = nokx b'F' b'F' ++ b'S' ∷ be16_bytes status

abbrev pub write_layout : ℕ → ℕ → ℕ → ℕ → ℕ → List ℕ
write_layout count start_sector write_status last_sector ufp_status =
    nokx b'F' b'F'
    ++ b'W'
      ∷ (be16_bytes 0
          ++ (be32_bytes count
              ++ (be32_bytes start_sector
                  ++ (be32_bytes write_status
                      ++ (be32_bytes last_sector ++ be16_bytes ufp_status)))))

abbrev pub end_layout : ℕ → ℕ → ℕ → List ℕ
end_layout write_status last_sector ufp_status =
    nokx b'F' b'F'
    ++ b'E'
      ∷ (be16_bytes 0
          ++ (be32_bytes write_status ++ (be32_bytes last_sector ++ be32_bytes ufp_status)))

module _ (out : List ℕ) where
  async_write_frame-layout :
      (count start_sector write_status last_sector ufp_status : ℕ)
      → async_write_frame out count start_sector write_status last_sector ufp_status
        ≡ blit out 0 (write_layout count start_sector write_status last_sector ufp_status)
  unfolding async_write_frame
  async_write_frame-layout count start_sector write_status last_sector ufp_status = rw (
    blit-append out 0 head (be16_bytes 0),
    blit-append out 0 (head ++ be16_bytes 0) (be32_bytes count),
    blit-append out 0 (head ++ (be16_bytes 0 ++ be32_bytes count)) (be32_bytes start_sector),
    blit-append out 0 (head ++ (be16_bytes 0 ++ (be32_bytes count ++ be32_bytes start_sector)))
        (be32_bytes write_status),
    blit-append out 0
        (head
          ++ (be16_bytes 0
              ++ (be32_bytes count ++ (be32_bytes start_sector ++ be32_bytes write_status))))
        (be32_bytes last_sector),
    blit-append out 0
        (head
          ++ (be16_bytes 0
              ++ (be32_bytes count
                  ++ (be32_bytes start_sector
                      ++ (be32_bytes write_status ++ be32_bytes last_sector)))))
        (be16_bytes ufp_status),
  )
    where
      head : List ℕ
      head = nokx b'F' b'F' ++ b'W' ∷ []

  async_end_frame-layout :
      (write_status last_sector ufp_status : ℕ)
      → async_end_frame out write_status last_sector ufp_status
        ≡ blit out 0 (end_layout write_status last_sector ufp_status)
  unfolding async_end_frame
  async_end_frame-layout write_status last_sector ufp_status = rw (
    blit-append out 0 head (be16_bytes 0),
    blit-append out 0 (head ++ be16_bytes 0) (be32_bytes write_status),
    blit-append out 0 (head ++ (be16_bytes 0 ++ be32_bytes write_status)) (be32_bytes last_sector),
    blit-append out 0
        (head ++ (be16_bytes 0 ++ (be32_bytes write_status ++ be32_bytes last_sector)))
        (be32_bytes ufp_status),
  )
    where
      head : List ℕ
      head = nokx b'F' b'F' ++ b'E' ∷ []

-- A capacity that is at least the length of a builder's own reply, 9, 27 or 21 bytes, is enough for
-- it: the builder returns that length, has written exactly the reply's layout to the front of the
-- buffer, and has left the rest alone. On a smaller capacity it returns 0 and writes nothing.
pub async_layouts :
    (out : List ℕ) (start_cap write_cap end_cap : ℕ)
    (short_start short_write short_end a b c d e : ℕ)
    → 9 ≤ start_cap
    → start_cap ≤ length out
    → 27 ≤ write_cap
    → write_cap ≤ length out
    → 21 ≤ end_cap
    → end_cap ≤ length out
    → short_start < 9
    → short_write < 27
    → short_end < 21
    → (build_async_start_response (some out) start_cap a ≡ (9, some (start_layout a ++ drop 9 out)))
      × (build_async_write_status (some out) write_cap a b c d e
          ≡ (27, some (write_layout a b c d e ++ drop 27 out)))
      × (build_async_end_response (some out) end_cap a b c
          ≡ (21, some (end_layout a b c ++ drop 21 out)))
      × (build_async_start_response (some out) short_start a ≡ (0, some out))
      × (build_async_write_status (some out) short_write a b c d e ≡ (0, some out))
      × (build_async_end_response (some out) short_end a b c ≡ (0, some out))
unfolding build_async_start_response build_async_write_status build_async_end_response
async_layouts out start_cap write_cap end_cap short_start short_write short_end a b c d e hs hs' hw
      hw' he he' ks kw ke =
    (
      ground (
        arith,
        blit-append out 0 (nokx b'F' b'F' ++ b'S' ∷ []) (be16_bytes a),
        blit_front out (start_layout a),
      ),
      ground
          (arith, async_write_frame-layout out a b c d e, blit_front out (write_layout a b c d e)),
      ground (arith, async_end_frame-layout out a b c, blit_front out (end_layout a b c)),
      ground arith,
      ground arith,
      ground arith,
    )
