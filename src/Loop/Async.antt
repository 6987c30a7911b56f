-- ===== src/Loop/Async.antt =====
-- The async flash messages in `usb_secure_flash_loop` of src/src/main.c: a write is answered before it
-- is made, with the outcome of the write before.
use ufp_ffu_device_efi.Prelude.{
  ℕ, ◌+◌, ◌-◌, ◌*◌, ◌/◌, List, Bool, Option, some, ltb, leb, ◌==◌, ◌!=◌, ◌||◌, ◌&&◌, if◌then◌else◌,
}
use ufp_ffu_device_efi.Prelude.Buffer.{slice}
use ufp_ffu_device_efi.Word.{u32, u64}
use ufp_ffu_device_efi.Bytes.{byte, rd_be32}
use ufp_ffu_device_efi.Efi.{is_error}
use ufp_ffu_device_efi.Proto.Build.{
  build_async_start_response, build_async_write_status, build_async_end_response,
}
use ufp_ffu_device_efi.Stream.{Media}
use ufp_ffu_device_efi.Secure.{status_from_efi}
use ufp_ffu_device_efi.Replies.{unknown_response}
use ufp_ffu_device_efi.Loop.{Loop, Handled, answer}
use ufp_ffu_device_efi.Loop.Flash.{sent_of, buffer_of}

-- The three locals of the async writes.
abbrev pub set_async : {D : Type 0} → ℕ → ℕ → ℕ → Loop D → Loop D
set_async write_status last_sector ufp_status l = record l {
  async_write_status = write_status;
  async_last_sector = last_sector;
  async_ufp_status = ufp_status;
}

-- A reply built in `resp` and sent.
abbrev pub built : {D : Type 0} → ℕ × Option (List ℕ) → Loop D → Handled (Loop D)
built r l = answer (sent_of r) (record l { resp = buffer_of l.resp r })

-- A write that is refused, and one that is made or is not to be made.
abbrev refused_write : {D : Type 0} → Loop D → Loop D
refused_write l = set_async 0 l.async_last_sector 8 l

abbrev last_written : ℕ → ℕ → ℕ → ℕ
last_written start count before = if count == 0 then before else u32 (start + count - 1)

unfoldable pub note_write : {D : Type 0} → ℕ → ℕ → ℕ × D → Loop D → Loop D
note_write start count (st, device) l =
    let written = record l { flash = record (l.flash) { device = device } } in
    if is_error st
    then set_async (u32 st) l.async_last_sector (status_from_efi st) written
    else set_async (u32 st) (last_written start count l.async_last_sector) 0 written

-- The first message of a transfer: only version 1 and type 0 are accepted.
unfoldable pub async_start : {D : Type 0} → List ℕ → ℕ → Loop D → Handled (Loop D)
async_start msg len l =
    if ltb len 10 || (byte msg 8 != 1 || byte msg 9 != 0)
    then built (build_async_start_response (some l.resp) 64 8) l
    else built (build_async_start_response (some l.resp) 64 0) (set_async 0 0xffff_ffff 0 l)

unfoldable pub async_end : {D : Type 0} → Loop D → Handled (Loop D)
async_end l =
    built
      (build_async_end_response (some l.resp) 64 l.async_write_status l.async_last_sector
        l.async_ufp_status)
      (set_async 0 0xffff_ffff 0 l)

module _ {D : Type 0} (write_blocks : D → ℕ → ℕ → List ℕ → ℕ × D) (media : Media)
    (commit : Bool) where
  -- The write, after the reply.
  unfoldable pub async_write : List ℕ → ℕ → Loop D → Loop D
  async_write msg len l =
      let start = rd_be32 msg 12 in
      let count = rd_be32 msg 16 in
      let data_len = u64 (count * media.block_size) in
      if byte msg 25 == 1
      then l
      else if count != 0 && data_len / count != media.block_size
      then refused_write l
      else if ltb (len - 64) data_len
      then refused_write l
      else if count != 0 && ltb media.last_block (start + count - 1)
      then refused_write l
      else if commit && data_len != 0
      then note_write start count
          (write_blocks l.flash.device media.media_id start (slice 0 msg 64 data_len)) l
      else set_async 0 (last_written start count l.async_last_sector) 0 l

  unfoldable pub answer_write : List ℕ → ℕ → Loop D → Handled (Loop D)
  answer_write msg len l =
      let reply =
        build_async_write_status (some l.resp) 64 (rd_be32 msg 16) (rd_be32 msg 12)
          l.async_write_status l.async_last_sector l.async_ufp_status in
      built reply (async_write msg len l)

  -- A message that starts with NOKXFF.
  unfoldable pub handle_async : List ℕ → ℕ → Loop D → Handled (Loop D)
  handle_async msg len l =
      if leb 7 len && byte msg 6 == b'S'
      then async_start msg len l
      else if leb 64 len && byte msg 6 == b'W'
      then answer_write msg len l
      else if leb 7 len && byte msg 6 == b'E'
      then async_end l
      else answer unknown_response l
