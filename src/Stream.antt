-- ===== src/Stream.antt =====
-- The streaming flasher of src/src/ffu.c: FFU_STREAM_FLASH and the functions on it, which write the
-- payload of an FFU to a block device while it arrives in packets. The device is its state `D`
-- with the firmware's `WriteBlocks`: the media id, the block address and the bytes to its status
-- and the device afterwards.
use ufp_ffu_device_efi.Prelude.{
  ℕ, zero, suc, ◌+◌, ◌-◌, ◌*◌, ◌/◌, ◌%◌, List, [], ◌∷◌, Bool, true, false, ltb, leb, ◌||◌, ◌&&◌,
  ◌==◌, ◌!=◌, not, if◌then◌else◌, Option, some, none, get_elem?, length, replicate,
}
use ufp_ffu_device_efi.Prelude.Buffer.{blit, slice}
use ufp_ffu_device_efi.Word.{u32, u64, sub32, sub64}
use ufp_ffu_device_efi.Efi.{
  Outcome, ok, err, stuck, ◌>>=◌, ◌>>◌, refuse, Run, ◌&>◌, is_error, efi_invalid_parameter,
  efi_unsupported, efi_bad_buffer_size, efi_out_of_resources,
}
use ufp_ffu_device_efi.Proto.{max_payload_data}
use ufp_ffu_device_efi.Ffu.{WriteEntry, Store, Plan}
use ufp_ffu_device_efi.Ffu.Read.{read_location_mem}
use ufp_ffu_device_efi.Ffu.Parse.{ffu_parse_header_bytes}
pub mod Kept
pub mod Ready
pub mod Feed
pub mod Packets
pub mod Device
pub mod Entries
pub mod Taken
pub mod Early
pub mod Init
pub mod Whole
pub mod DryRun
pub mod Total
pub mod Front
pub mod Sample
mod Tests

-- EFI_BLOCK_IO_MEDIA, as far as the flashers read it.
pub record Media : Type 0 where
  pub media_id : ℕ
  pub media_present : Bool
  pub read_only : Bool
  pub block_size : ℕ
  pub last_block : ℕ

-- FFU_STREAM_FLASH with the device behind `bio`; `entry_data` is the allocated buffer.
pub record StreamFlash (D : Type 0) : Type 0 where
  pub plan : Plan
  pub device : D
  pub header : List ℕ
  pub header_size : ℕ
  pub entry_data : List ℕ
  pub entry_capacity : ℕ
  pub entry_index : ℕ
  pub entry_received : ℕ
  pub media_block : ℕ
  pub media_id : ℕ
  pub dry_run : ℕ
  pub final_state : ℕ
  pub last_sector : ℕ

-- The loop over the entries that finds the largest byte count.
unfoldable pub max_byte_count : List WriteEntry → ℕ → ℕ
max_byte_count [] largest = largest
max_byte_count (e ∷ es) largest =
    max_byte_count es (if ltb largest e.byte_count then e.byte_count else largest)

-- `pool` and `room` say which allocations succeed: those of the parser and that of the entry
-- buffer, of the given size. An error leaves a context that the callers do not use.
unfoldable pub ffu_stream_flash_init :
    {D : Type 0} (pool : ℕ → ℕ → Bool) (room : ℕ → Bool)
    → Option (List ℕ)
    → ℕ
    → Option Media
    → D
    → Bool
    → Outcome (StreamFlash D)
ffu_stream_flash_init pool room none header_size media device commit = err efi_invalid_parameter
ffu_stream_flash_init pool room (some header) header_size none device commit =
    err efi_invalid_parameter
ffu_stream_flash_init pool room (some header) header_size (some media) device commit = do
  refuse (not media.media_present || (media.read_only || media.block_size == 0)) efi_unsupported
  plan ← ffu_parse_header_bytes pool (some header) header_size
  let largest = max_byte_count plan.entries 0
  refuse (largest == 0 || ltb max_payload_data largest) efi_unsupported
  refuse (not (room largest)) efi_out_of_resources
  ok (record {
    plan = plan;
    device = device;
    header = header;
    header_size = header_size;
    entry_data = replicate largest 0;
    entry_capacity = largest;
    entry_index = 0;
    entry_received = 0;
    media_block = media.block_size;
    media_id = media.media_id;
    dry_run = if commit then 0 else 1;
    final_state = 0;
    last_sector = 0xffff_ffff;
  })

-- What is left of the packet, or what the entry needs if that is less.
unfoldable pub round_size : ℕ → ℕ → ℕ
round_size left need = if ltb left need then left else need

module _ {D : Type 0} (write_blocks : D → ℕ → ℕ → List ℕ → ℕ × D) where
  -- `ctx->last_sector = ...` after the write at `lba`.
  unfoldable pub note_sector : WriteEntry → ℕ → StreamFlash D → StreamFlash D
  note_sector entry lba ctx = record ctx {
    last_sector = u32 (sub64 (u64 (lba + entry.byte_count / ctx.media_block)) 1);
  }

  -- The write of a completed entry at a location, unless the run is a dry one.
  unfoldable pub write_at : WriteEntry → ℕ → StreamFlash D → Run (StreamFlash D)
  write_at entry lba ctx =
      if ctx.dry_run != 0
      then (ok tt, note_sector entry lba ctx)
      else let (st, device) =
          write_blocks ctx.device ctx.media_id lba (slice 0 ctx.entry_data 0 entry.byte_count) in
        let written = record ctx { device = device } in
        if is_error st then (err st, written) else (ok tt, note_sector entry lba written)

  -- One round of the location loop, for the location read, in a store of `block_size`.
  unfoldable pub write_location :
      WriteEntry → ℕ → Outcome (ℕ × ℕ) → StreamFlash D → Run (StreamFlash D)
  write_location entry block_size (err st) ctx = (err st, ctx)
  write_location entry block_size stuck ctx = (stuck, ctx)
  write_location entry block_size (ok (method, block)) ctx =
      let target_byte = u64 (block * block_size) in
      if method != 0
      then (err efi_unsupported, ctx)
      else if target_byte % ctx.media_block != 0 || entry.byte_count % ctx.media_block != 0
      then (err efi_unsupported, ctx)
      else write_at entry (target_byte / ctx.media_block) ctx

  -- The rounds from location `l` on, `count` of them.
  unfoldable pub write_locations : WriteEntry → ℕ → ℕ → ℕ → StreamFlash D → Run (StreamFlash D)
  write_locations entry block_size zero l ctx = (ok tt, ctx)
  write_locations entry block_size (suc count) l ctx =
      write_location entry block_size
        (read_location_mem ctx.header ctx.header_size entry.descriptor_offset l) ctx
      &> write_locations entry block_size count (l + 1)

  -- `stuck` stands for the read of a store outside the table, of which C says nothing.
  unfoldable pub stream_write_completed_entry : WriteEntry → StreamFlash D → Run (StreamFlash D)
  stream_write_completed_entry entry ctx = elim (get_elem? ctx.plan.stores entry.store_index) [
    | none ↦ (stuck, ctx)
    | some store ↦ write_locations entry store.block_size entry.location_count 0 ctx
  ]

  -- The write of an entry whose bytes are all there, and the step to the next entry.
  unfoldable pub complete_entry : WriteEntry → StreamFlash D → Run (StreamFlash D)
  complete_entry entry ctx = stream_write_completed_entry entry ctx &> λ done.
      (ok tt, record done { entry_received = 0; entry_index = u32 (done.entry_index + 1) })

  -- `memcpy` of the bytes to the entry buffer, behind those received before.
  unfoldable pub receive : List ℕ → StreamFlash D → StreamFlash D
  receive bytes ctx = record ctx {
    entry_data = blit ctx.entry_data ctx.entry_received bytes;
    entry_received = u32 (ctx.entry_received + length bytes);
  }

  -- The bytes taken in a round, and the write when they complete the entry.
  unfoldable pub accept : WriteEntry → List ℕ → StreamFlash D → Run (StreamFlash D)
  accept entry bytes ctx =
      let received = receive bytes ctx in
      if received.entry_received == entry.byte_count
      then complete_entry entry received
      else (ok tt, received)

  -- The loop of `ffu_stream_flash_payload`, from `pos` on.
  unfoldable pub payload_loop : ℕ → List ℕ → ℕ → ℕ → StreamFlash D → Run (StreamFlash D)
  payload_loop zero data' len pos ctx = (stuck, ctx)
  payload_loop (suc fuel) data' len pos ctx = elim (ltb pos len) [
    | false ↦ (ok tt, ctx)
    | true ↦
        if leb ctx.plan.entry_count ctx.entry_index
        then (err efi_bad_buffer_size, ctx)
        else elim (get_elem? ctx.plan.entries ctx.entry_index) [
          | none ↦ (stuck, ctx)
          | some entry ↦
              let taken = round_size (sub32 len pos) (sub32 entry.byte_count ctx.entry_received) in
              if ltb ctx.entry_capacity (u32 (ctx.entry_received + taken))
              then (err efi_bad_buffer_size, ctx)
              else accept entry (slice 0 data' pos taken) ctx
                &> payload_loop fuel data' len (u32 (pos + taken))
        ]
  ]

  -- The end of `ffu_stream_flash_payload`.
  unfoldable pub note_end : StreamFlash D → StreamFlash D
  note_end ctx =
      if leb ctx.plan.entry_count ctx.entry_index then record ctx { final_state = 1 } else ctx

  -- With data that is not null. A round takes a byte or completes an entry.
  unfoldable pub ffu_stream_flash_payload : List ℕ → StreamFlash D → Run (StreamFlash D)
  ffu_stream_flash_payload data' ctx =
      payload_loop (length data' + ctx.plan.entry_count + 1) data' (length data') 0 ctx &> λ done.
      (ok tt, note_end done)

unfoldable pub ffu_stream_flash_done : {D : Type 0} → StreamFlash D → Bool
ffu_stream_flash_done ctx = leb ctx.plan.entry_count ctx.entry_index && ctx.entry_received == 0
