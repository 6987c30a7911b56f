-- ===== src/Legacy/Writes.antt =====
-- What a legacy flash message of src/src/main.c can do to the device.
use ufp_ffu_device_efi.Prelude.{ℕ, ◌+◌, ◌*◌, ◌≤◌, ◌≡◌, ◌⊎◌, arith, List, Bool, true}
use ufp_ffu_device_efi.Prelude.Buffer.{slice}
use ufp_ffu_device_efi.Word.{u64}
use ufp_ffu_device_efi.Bytes.{rd_be32}
use ufp_ffu_device_efi.Stream.{Media}
use ufp_ffu_device_efi.Legacy.{legacy_write, handle_legacy_flash}

module _ {D : Type 0} (write_blocks : D → ℕ → ℕ → List ℕ → ℕ × D) where
  legacy_write-device :
      (media : Media) (commit : Bool) (msg : List ℕ) (start count byte_count : ℕ) (d : D)
      → ((legacy_write write_blocks media commit msg start count byte_count d).1 ≡ d)
        ⊎ ((commit ≡ true)
            × ((legacy_write write_blocks media commit msg start count byte_count d).1
                ≡ (write_blocks d media.media_id start (slice 0 msg 64 byte_count)).1))
  unfolding legacy_write
  legacy_write-device media commit msg start count byte_count d = ground arith

  -- A legacy flash message either leaves the device as it is, or the run is to commit and the device
  -- is that after one write: of the bytes behind the 64 bytes of the frame, which are all in the
  -- message, at the start block that the message gives; and the blocks that the message counts do
  -- not go past the device's last block.
  pub handle_legacy_flash-device :
      (media : Media) (commit : Bool) (msg : List ℕ) (len : ℕ) (d : D)
      → let start = rd_be32 msg 11 in
        let count = rd_be32 msg 15 in
        let byte_count = u64 (count * media.block_size) in
        let after = (handle_legacy_flash write_blocks media commit msg len d).1 in
        (after ≡ d)
        ⊎ ((commit ≡ true)
            × (after ≡ (write_blocks d media.media_id start (slice 0 msg 64 byte_count)).1)
            × (64 + byte_count ≤ len)
            × ((count ≡ 0) ⊎ (start + count ≤ media.last_block + 1)))
  unfolding handle_legacy_flash
  handle_legacy_flash-device media commit msg len d = ground (
    arith,
    legacy_write-device media commit msg (rd_be32 msg 11) (rd_be32 msg 15)
        (u64 (rd_be32 msg 15 * media.block_size)) d,
  )
