-- ===== src/Legacy.antt =====
-- `handle_legacy_flash` of src/src/main.c: a write of raw blocks. `msg` is the message and `len` its
-- length; the device is its state `D` with the firmware's WriteBlocks, as for the streaming flasher.
use ufp_ffu_device_efi.Prelude.{
  ℕ, ◌+◌, ◌-◌, ◌*◌, ◌/◌, List, Bool, true, false, ltb, ◌==◌, ◌!=◌, ◌||◌, ◌&&◌, not, if◌then◌else◌,
}
use ufp_ffu_device_efi.Prelude.Buffer.{slice}
use ufp_ffu_device_efi.Word.{u32, u64}
use ufp_ffu_device_efi.Bytes.{byte, rd_be32}
use ufp_ffu_device_efi.Efi.{is_error}
use ufp_ffu_device_efi.Stream.{Media}
use ufp_ffu_device_efi.Secure.{status_from_efi}
use ufp_ffu_device_efi.Frames.{legacy_flash_response}
pub mod Writes
mod Tests

module _ {D : Type 0} (write_blocks : D → ℕ → ℕ → List ℕ → ℕ × D) where
  -- `else if (commit && byte_count) { ... }` and the reply.
  unfoldable pub legacy_write : Media → Bool → List ℕ → ℕ → ℕ → ℕ → D → List ℕ × D
  legacy_write media commit msg start count byte_count d =
      if not (commit && byte_count != 0)
      then (legacy_flash_response 0 count 0, d)
      else let (st, d') = write_blocks d media.media_id start (slice 0 msg 64 byte_count) in
        (
          if is_error st
              then legacy_flash_response (status_from_efi st) count (u32 st)
              else legacy_flash_response 0 count 0,
          d',
        )

  -- The reply that is sent, and the device.
  unfoldable pub handle_legacy_flash : Media → Bool → List ℕ → ℕ → D → List ℕ × D
  handle_legacy_flash media commit msg len d =
      let start = rd_be32 msg 11 in
      let count = rd_be32 msg 15 in
      let byte_count = u64 (count * media.block_size) in
      if ltb len 26
      then (legacy_flash_response 8 0 0, d)
      else if count != 0 && byte_count / count != media.block_size
      then (legacy_flash_response 8 count count, d)
      else if byte msg 25 == 1
      then (legacy_flash_response 0 count 0, d)
      else if ltb len 64 || ltb (len - 64) byte_count
      then (legacy_flash_response 8 count (u32 byte_count), d)
      else if count != 0 && ltb media.last_block (start + count - 1)
      then (legacy_flash_response 8 count count, d)
      else legacy_write media commit msg start count byte_count d
