-- ===== src/FfuFile.antt =====
-- `ffu_parse` of src/src/ffu.c, the parser of an FFU file, with the reads of UEFI_FILE_VIEW. The file is
-- its state `F` with the firmware's SetPosition and Read. The reads and the headers before the stores
-- are here, the rest in Stores.
use ufp_ffu_device_efi.Prelude.{
  ℕ, zero, suc, ◌+◌, ◌-◌, ◌*◌, List, ◌++◌, Bool, true, false, ltb, ◌||◌, ◌!=◌, ◌==◌, if◌then◌else◌,
  length,
}
use ufp_ffu_device_efi.Word.{u32, u64}
use ufp_ffu_device_efi.Bytes.{rd_le16, rd_le32, rd_le64, align_up_u64}
use ufp_ffu_device_efi.Efi.{
  Outcome, ok, err, stuck, refuse, is_error, efi_end_of_file, efi_volume_corrupted, efi_unsupported,
}
use ufp_ffu_device_efi.Proto.{max_payload_data}
use ufp_ffu_device_efi.Ffu.{
  Plan, empty_plan, append_store, append_entry, security_header_size, image_header_v1_size,
  image_header_v2_size, store_header_v1_size, store_header_v2_base_size,
}
use ufp_ffu_device_efi.Ffu.Header.{
  take_security, take_image_size, take_image_fields, descriptor_skip,
}
use ufp_ffu_device_efi.Ffu.Stores.{
  Descriptors, StoreHead, StoreScan, OpenStore, first_descriptor, store_of,
}
use ufp_ffu_device_efi.Ffu.Layout.{place_payload}
use ufp_ffu_device_efi.Ffu.Parse.{store_fuel}
pub mod Stores
pub mod Follows
pub mod Agree
mod Tests

-- What a function returns that reads the file: its outcome, and the file afterwards.
abbrev pub Reading : Type 0 → Type 0 → Type 0
Reading F A = F → Outcome A × F

abbrev pub and_with : {F A B : Type 0} → Outcome A × F → (A → Reading F B) → Outcome B × F
and_with (ok x, s) f = f x s
and_with (err st, s) f = (err st, s)
and_with (stuck, s) f = (stuck, s)

infixl 5 ◌>>=◌ ◌>>◌
abbrev pub ◌>>=◌ : {F A B : Type 0} → Reading F A → (A → Reading F B) → Reading F B
◌>>=◌ m f s = and_with (m s) f

abbrev pub ◌>>◌ : {F B : Type 0} → Reading F (Unit {0}) → Reading F B → Reading F B
m >> k = m >>= λ _. k

-- What does not read the file.
abbrev pub pure : {F A : Type 0} → Outcome A → Reading F A
pure o s = (o, s)

-- EFI_FILE_PROTOCOL: SetPosition gives a status; Read of a number of bytes gives a status and the
-- bytes that it got.
pub record FileIo (F : Type 0) : Type 0 where
  pub set_position : F → ℕ → ℕ × F
  pub read : F → ℕ → ℕ × List ℕ × F

-- The end of `file_read_current`.
unfoldable pub got_all : {F : Type 0} → ℕ → ℕ × List ℕ × F → Outcome (List ℕ) × F
got_all size (st, bytes, s) =
    if is_error st
    then (err st, s)
    else if length bytes == size
    then (ok bytes, s)
    else (err efi_end_of_file, s)

module _ {F : Type 0} (io : FileIo F) where
  unfoldable pub file_read_current : ℕ → Reading F (List ℕ)
  file_read_current size s = got_all size (io.read s size)

  unfoldable pub file_seek : ℕ → Reading F (Unit {0})
  file_seek offset s =
      let (st, s') = io.set_position s offset in if is_error st then (err st, s') else (ok tt, s')

  unfoldable pub file_read_exact : ℕ → ℕ → Reading F (List ℕ)
  file_read_exact offset size = file_seek offset >> file_read_current size

  -- The extension of a V2 image header; `img` holds the first 24 bytes.
  unfoldable pub file_image_extension : List ℕ → ℕ → Plan → Reading F (List ℕ)
  file_image_extension img cursor plan =
      if plan.image_header_size == image_header_v2_size
      then (do
        more ← file_read_exact (u64 (cursor + image_header_v1_size)) 4
        pure (ok (img ++ more)))
      else pure (ok img)

  -- `count` more validation descriptors from the cursor on.
  unfoldable pub file_skip_descriptors : ℕ → ℕ → Reading F ℕ
  file_skip_descriptors zero cursor = pure (ok cursor)
  file_skip_descriptors (suc count) cursor = do
    vd ← file_read_exact cursor 28
    file_skip_descriptors count (u64 (cursor + (28 + descriptor_skip vd)))

  unfoldable pub file_security : ℕ → Plan → Reading F (Plan × ℕ)
  file_security size plan = do
    pure (refuse (ltb size security_header_size) efi_volume_corrupted)
    sec ← file_read_exact 0 security_header_size
    plan' ← pure (take_security sec plan)
    pure (
        ok (
          plan',
          align_up_u64
              (u64 (security_header_size + plan'.security_catalog_size + plan'.security_hash_size))
              plan'.chunk_size,
        ))

  unfoldable pub file_image : Plan → ℕ → Reading F (Plan × ℕ)
  file_image plan cursor = do
    img ← file_read_exact cursor image_header_v1_size
    sized ← pure (take_image_size img plan)
    img' ← file_image_extension img cursor sized
    plan' ← pure (take_image_fields img' sized)
    pure (ok (plan', u64 (cursor + u32 (plan'.image_header_size + plan'.manifest_length))))

  -- From the start to the first store header.
  unfoldable pub file_headers : ℕ → Plan → Reading F (Plan × ℕ)
  file_headers size plan = do
    (secured, at) ← file_security size plan
    (plan', cursor) ← file_image secured at
    cursor' ← file_skip_descriptors plan'.validation_descriptor_count cursor
    pure (ok (plan', cursor'))
