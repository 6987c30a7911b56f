-- ===== src/FlashFile.antt =====
-- `ffu_flash_to_block_io` of src/src/ffu.c: the payload of an FFU file is read in pieces and written to
-- a block device. The file is its state `F`, the device its state `D` with the firmware's WriteBlocks
-- and FlushBlocks.
use ufp_ffu_device_efi.Prelude.{
  ℕ, zero, suc, ◌+◌, ◌-◌, ◌*◌, ◌/◌, ◌%◌, List, [], ◌∷◌, Bool, true, false, Option, some, none, ltb,
  ◌==◌, ◌!=◌, ◌||◌, ◌&&◌, not, if◌then◌else◌, get_elem?,
}
use ufp_ffu_device_efi.Word.{u32, u64}
use ufp_ffu_device_efi.Bytes.{rd_le32}
use ufp_ffu_device_efi.Efi.{
  Outcome, ok, err, stuck, Run, ◌&>◌, is_error, efi_success, efi_unsupported, efi_bad_buffer_size,
  efi_out_of_resources, efi_invalid_parameter,
}
use ufp_ffu_device_efi.Ffu.{WriteEntry, Store, Plan}
use ufp_ffu_device_efi.Stream.{Media}
use ufp_ffu_device_efi.FfuFile.{Reading, ◌>>=◌, pure, FileIo, file_read_exact}
pub mod Pieces
pub mod Bounds
pub mod Ends
mod Tests

-- The file, the device, and `st` while it is no error.
pub record Flashing (F : Type 0) (D : Type 0) : Type 0 where
  pub file : F
  pub device : D
  pub status : ℕ

-- `return st;`
abbrev pub returned_status : ℕ → Outcome (Unit {0})
returned_status st = if st == efi_success then ok tt else err st

-- `read_location`: the access method and the block of a descriptor's location.
unfoldable pub read_location : {F : Type 0} → FileIo F → ℕ → ℕ → Reading F (ℕ × ℕ)
read_location io descriptor_offset index = do
  loc ← file_read_exact io (u64 (descriptor_offset + 8 + index * 8)) 8
  pure (ok (rd_le32 loc 0, rd_le32 loc 4))

-- What `buffer` is allocated with: 1 MiB or a block, rounded down to whole blocks.
unfoldable pub piece_limit : ℕ → ℕ
piece_limit media_block =
    let size = if ltb (1024 * 1024) media_block then media_block else 1024 * 1024 in
    size - size % media_block

-- `take` for the bytes that remain.
unfoldable pub piece_size : ℕ → ℕ → ℕ
piece_size media_block remaining =
    let limit = piece_limit media_block in
    let taken = if ltb remaining limit then remaining else limit in taken - taken % media_block

module _ {F D : Type 0} (io : FileIo F) (write_blocks : D → ℕ → ℕ → List ℕ → ℕ × D) (media : Media)
    (commit : Bool) where
  -- The piece that was read is written at `lba`.
  unfoldable pub write_piece : ℕ → Outcome (List ℕ) × F → D → Run (Flashing F D)
  write_piece lba (err st, f) d = (err st, record { file = f; device = d; status = st })
  write_piece lba (stuck, f) d = (stuck, record { file = f; device = d; status = 0 })
  write_piece lba (ok bytes, f) d =
      let (st, d') = write_blocks d media.media_id lba bytes in
      (if is_error st then err st else ok tt, record { file = f; device = d'; status = st })

  -- A piece of `size` bytes, `done` bytes behind the start of the entry's payload.
  unfoldable pub flash_piece : WriteEntry → ℕ → ℕ → ℕ → Flashing F D → Run (Flashing F D)
  flash_piece entry lba size done s =
      if commit
      then write_piece (u64 (lba + done / media.block_size))
          (file_read_exact io (u64 (entry.payload_offset + done)) size s.file) s.device
      else (ok tt, s)

  -- `while (remaining)`: a round takes a byte or more, so the bytes that remain are fuel enough.
  unfoldable pub flash_pieces : ℕ → WriteEntry → ℕ → ℕ → ℕ → Flashing F D → Run (Flashing F D)
  flash_pieces zero entry lba remaining done s = if remaining == 0 then (ok tt, s) else (stuck, s)
  flash_pieces (suc fuel) entry lba remaining done s = elim (remaining == 0) [
    | true ↦ (ok tt, s)
    | false ↦
        let taken = piece_size media.block_size remaining in
        if taken == 0
        then (err efi_bad_buffer_size, s)
        else flash_piece entry lba taken done s
          &> flash_pieces fuel entry lba (remaining - taken) (u32 (done + taken))
  ]

  -- A round of the location loop, for the location read, in a store of `block_size`.
  unfoldable pub flash_location : WriteEntry → ℕ → Outcome (ℕ × ℕ) × F → D → Run (Flashing F D)
  flash_location entry block_size (err st, f) d =
      (err st, record { file = f; device = d; status = st })
  flash_location entry block_size (stuck, f) d =
      (stuck, record { file = f; device = d; status = 0 })
  flash_location entry block_size (ok (method, block), f) d =
      let s : Flashing F D = record { file = f; device = d; status = efi_success } in
      let target_byte = u64 (block * block_size) in
      let lba = target_byte / media.block_size in
      if method != 0
      then (err efi_unsupported, s)
      else if target_byte % media.block_size != 0
      then (err efi_unsupported, s)
      else if ltb media.last_block lba
          || ltb (u64 (media.last_block - lba + 1)) (entry.byte_count / media.block_size)
      then (err efi_bad_buffer_size, s)
      else flash_pieces entry.byte_count entry lba entry.byte_count 0 s

  -- The rounds from location `l` on, `count` of them.
  unfoldable pub flash_locations : WriteEntry → ℕ → ℕ → ℕ → Flashing F D → Run (Flashing F D)
  flash_locations entry block_size zero l s = (ok tt, s)
  flash_locations entry block_size (suc count) l s =
      flash_location entry block_size (read_location io entry.descriptor_offset l s.file) s.device
      &> flash_locations entry block_size count (l + 1)

  -- `stuck` stands for the read of a store outside the table.
  unfoldable pub flash_entry : Option Store → WriteEntry → Flashing F D → Run (Flashing F D)
  flash_entry none entry s = (stuck, s)
  flash_entry (some store) entry s =
      if entry.byte_count % media.block_size != 0
      then (err efi_unsupported, s)
      else flash_locations entry store.block_size entry.location_count 0 s

  unfoldable pub flash_entries : List Store → List WriteEntry → Flashing F D → Run (Flashing F D)
  flash_entries stores [] s = (ok tt, s)
  flash_entries stores (entry ∷ entries) s =
      flash_entry (get_elem? stores entry.store_index) entry s &> flash_entries stores entries

  -- `if (commit && bio->FlushBlocks) st = bio->FlushBlocks(bio);` and `return st;`
  unfoldable pub flush : Option (D → ℕ × D) → Flashing F D → Run (Flashing F D)
  flush none s = (returned_status s.status, s)
  flush (some flush_blocks) s =
      if not commit
      then (returned_status s.status, s)
      else let (st, d) = flush_blocks s.device in
        (returned_status st, record s { device = d; status = st })

-- With a view and a plan that are not null. `room` says whether the buffer is allocated.
unfoldable pub ffu_flash_to_block_io :
    {F D : Type 0} (io : FileIo F) (write_blocks : D → ℕ → ℕ → List ℕ → ℕ × D)
    (flush_blocks : Option (D → ℕ × D)) (room : ℕ → Bool)
    → Plan
    → Option Media
    → Bool
    → Flashing F D
    → Run (Flashing F D)
ffu_flash_to_block_io io write_blocks flush_blocks room plan none commit s =
    (err efi_invalid_parameter, s)
ffu_flash_to_block_io io write_blocks flush_blocks room plan (some media) commit s =
    if not media.media_present || (media.read_only || media.block_size == 0)
    then (err efi_unsupported, s)
    else if not (room (piece_limit media.block_size))
    then (err efi_out_of_resources, s)
    else flash_entries io write_blocks media commit plan.stores plan.entries
        (record s { status = efi_success })
      &> flush io write_blocks media commit flush_blocks
