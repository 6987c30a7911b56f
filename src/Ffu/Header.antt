-- ===== src/Ffu/Header.antt =====
-- The security header, the image header and the validation descriptors, as
-- `ffu_parse_header_bytes` of src/src/ffu.c reads them.
use Prim.Native.Nat.{bit_and}
use ufp_ffu_device_efi.Prelude.{
  ℕ, zero, suc, ◌+◌, List, ◌++◌, ltb, not, ◌||◌, ◌&&◌, ◌!=◌, ◌==◌, if◌then◌else◌,
}
use ufp_ffu_device_efi.Word.{u32, u64, ◌<<<◌}
use ufp_ffu_device_efi.Bytes.{rd_le32, align_up_u64}
use ufp_ffu_device_efi.Efi.{
  Outcome, ok, ◌>>=◌, ◌>>◌, refuse, efi_end_of_file, efi_volume_corrupted, efi_unsupported,
}
use ufp_ffu_device_efi.Ffu.{Plan, security_header_size, image_header_v1_size, image_header_v2_size}
use ufp_ffu_device_efi.Ffu.Read.{sig_eq, signed_image, image_flash, mem_read_exact}

-- The checks on the security header's bytes, and the fields that it sets.
unfoldable pub take_security : List ℕ → Plan → Outcome Plan
take_security sec plan = do
  refuse (rd_le32 sec 0 != security_header_size || not (sig_eq sec 4 signed_image))
      efi_volume_corrupted
  refuse (rd_le32 sec 20 != 0x800c) efi_unsupported
  let chunk_size = u32 (rd_le32 sec 16 <<< 10)
  let catalog = rd_le32 sec 24
  let hash = rd_le32 sec 28
  refuse (chunk_size == 0 || catalog == 0 || hash == 0 || bit_and hash 31 != 0) efi_volume_corrupted
  ok (record plan {
    chunk_size = chunk_size;
    security_catalog_size = catalog;
    security_hash_size = hash;
  })

-- The size of the image header, and its signature.
unfoldable pub take_image_size : List ℕ → Plan → Outcome Plan
take_image_size img plan = do
  let size = rd_le32 img 0
  refuse
      (size != image_header_v1_size && size != image_header_v2_size
        || not (sig_eq img 4 image_flash))
      efi_volume_corrupted
  ok (record plan { image_header_size = size })

-- The manifest length and the number of validation descriptors.
unfoldable pub take_image_fields : List ℕ → Plan → Outcome Plan
take_image_fields img plan = do
  let manifest = rd_le32 img 16
  refuse (manifest == 0 || rd_le32 img 20 == 0) efi_volume_corrupted
  ok (record plan {
    manifest_length = manifest;
    validation_descriptor_count =
        if plan.image_header_size == image_header_v2_size then rd_le32 img 24 else 0;
  })

-- The sum of the seven sizes of a validation descriptor.
abbrev pub descriptor_skip : List ℕ → ℕ
descriptor_skip vd = u64 (
    rd_le32 vd 0
    + rd_le32 vd 4
    + rd_le32 vd 8
    + rd_le32 vd 12
    + rd_le32 vd 16
    + rd_le32 vd 20
    + rd_le32 vd 24)

module _ (data' : List ℕ) (size : ℕ) where
  -- The extension of a V2 image header; `img` holds the first 24 bytes.
  unfoldable pub read_image_extension : List ℕ → ℕ → Plan → Outcome (List ℕ)
  read_image_extension img cursor plan =
      if plan.image_header_size == image_header_v2_size
      then (do
        more ← mem_read_exact data' size (u64 (cursor + image_header_v1_size)) 4
        ok (img ++ more))
      else ok img

  -- `count` more validation descriptors from the cursor on.
  unfoldable pub skip_descriptors : ℕ → ℕ → Outcome ℕ
  skip_descriptors zero cursor = ok cursor
  skip_descriptors (suc count) cursor = do
    vd ← mem_read_exact data' size cursor 28
    let cursor' = u64 (cursor + (28 + descriptor_skip vd))
    refuse (ltb size cursor') efi_end_of_file
    skip_descriptors count cursor'

  -- The security header; the cursor is where the image header must start.
  unfoldable pub read_security : Plan → Outcome (Plan × ℕ)
  read_security plan = do
    refuse (ltb size security_header_size) efi_end_of_file
    sec ← mem_read_exact data' size 0 security_header_size
    plan' ← take_security sec plan
    ok (
      plan',
      align_up_u64
          (u64 (security_header_size + plan'.security_catalog_size + plan'.security_hash_size))
          plan'.chunk_size,
    )

  -- The image header at the cursor; the new cursor is behind the manifest, whose length is added to
  -- the header's size in 32 bits.
  unfoldable pub read_image : Plan → ℕ → Outcome (Plan × ℕ)
  read_image plan cursor = do
    refuse (ltb size (u64 (cursor + image_header_v1_size))) efi_end_of_file
    img ← mem_read_exact data' size cursor image_header_v1_size
    sized ← take_image_size img plan
    img' ← read_image_extension img cursor sized
    plan' ← take_image_fields img' sized
    let cursor' = u64 (cursor + u32 (plan'.image_header_size + plan'.manifest_length))
    refuse (ltb size cursor') efi_end_of_file
    ok (plan', cursor')

  -- From the start to the first store header.
  unfoldable pub read_headers : Plan → Outcome (Plan × ℕ)
  read_headers plan = do
    (secured, at) ← read_security plan
    (plan', cursor) ← read_image secured at
    cursor' ← skip_descriptors plan'.validation_descriptor_count cursor
    ok (plan', cursor')
