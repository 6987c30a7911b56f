-- ===== src/Legacy/Tests.antt =====
-- A legacy flash message of src/src/main.c.
use ufp_ffu_device_efi.Prelude.{
  ℕ, ◌+◌, ◌*◌, ◌≤◌, ◌≡◌, ◌⊎◌, List, [], ◌∷◌, ◌++◌, true, false, replicate,
}
use ufp_ffu_device_efi.Prelude.Buffer.{slice}
use ufp_ffu_device_efi.Word.{u64}
use ufp_ffu_device_efi.Bytes.{rd_be32}
use ufp_ffu_device_efi.Stream.{Media}
use ufp_ffu_device_efi.Legacy.{handle_legacy_flash}
use ufp_ffu_device_efi.Legacy.Writes.{handle_legacy_flash-device}

abbrev log_write : List ℕ → ℕ → ℕ → List ℕ → ℕ × List ℕ
log_write log id lba bytes = (0, lba ∷ log)

abbrev media : Media
media = record {
  media_id = 3;
  media_present = true;
  read_only = false;
  block_size = 4;
  last_block = 99;
}

-- Two blocks of 4 bytes for block 5.
abbrev message : List ℕ
message = replicate 14 0 ++ 5 ∷ 0 ∷ 0 ∷ 0 ∷ 2 ∷ replicate 53 0

handle_legacy_flash-device_example :
    let start = rd_be32 message 11 in
    let count = rd_be32 message 15 in
    let byte_count = u64 (count * 4) in
    let after = (handle_legacy_flash log_write media true message 72 []).1 in
    (after ≡ [])
    ⊎ ((true ≡ true)
        × (after ≡ (log_write [] 3 start (slice 0 message 64 byte_count)).1)
        × (64 + byte_count ≤ 72)
        × ((count ≡ 0) ⊎ (start + count ≤ 99 + 1)))
handle_legacy_flash-device_example = handle_legacy_flash-device log_write media true message 72 []
