-- ===== src/Bytes/Tests.antt =====
-- Runs of the byte routines of src/src.
use ufp_ffu_device_efi.Prelude.{ℕ, ◌+◌, ◌%◌, ◌<◌, ◌≤◌, ◌≡◌, refl, arith, List, [], ◌∷◌}
use ufp_ffu_device_efi.Prelude.Buffer.{blit, slice}
use ufp_ffu_device_efi.Bytes.{memcpy, memcmp, align_up_u64}
use ufp_ffu_device_efi.Bytes.Align.{align_up_u64_lem}
use ufp_ffu_device_efi.Bytes.Memory.{memcpy-blit}

abbrev buffer : List ℕ
buffer = 1 ∷ 2 ∷ 3 ∷ 4 ∷ 5 ∷ 6 ∷ []

-- -1 as an `int`.
compared : memcmp (1 ∷ 2 ∷ []) (1 ∷ 3 ∷ []) 2 ≡ 0xffff_ffff
unfolding memcmp
compared = refl

aligned : align_up_u64 1000 512 ≡ 1024
unfolding align_up_u64
aligned = refl

align_up_u64_lem_example :
    (align_up_u64 1000 512 % 512 ≡ 0)
    × (1000 ≤ align_up_u64 1000 512)
    × (align_up_u64 1000 512 < 1000 + 512)
align_up_u64_lem_example = align_up_u64_lem 1000 512 (omega arith) (omega arith)

memcpy-blit_example :
    memcpy buffer 1 (9 ∷ 8 ∷ 7 ∷ []) 1 2 ≡ blit buffer 1 (slice 0 (9 ∷ 8 ∷ 7 ∷ []) 1 2)
memcpy-blit_example = memcpy-blit buffer 1 (9 ∷ 8 ∷ 7 ∷ []) 1 2
