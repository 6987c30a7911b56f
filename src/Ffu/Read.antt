-- ===== src/Ffu/Read.antt =====
-- Reads of src/src/ffu.c from a header in memory.
use ufp_ffu_device_efi.Prelude.{
  ℕ, ◌+◌, ◌-◌, ◌*◌, List, [], ◌∷◌, Bool, true, false, ltb, ◌||◌, ◌==◌, if◌then◌else◌,
}
use ufp_ffu_device_efi.Prelude.Buffer.{slice}
use ufp_ffu_device_efi.Word.{u64}
use ufp_ffu_device_efi.Bytes.{byte, rd_le32}
use ufp_ffu_device_efi.Efi.{Outcome, ok, err, ◌>>=◌, efi_end_of_file}

-- The loop of `sig_eq(p + i, s, len)`; the signature is the list of its bytes.
unfoldable pub sig_eq : List ℕ → ℕ → List ℕ → Bool
sig_eq p i [] = true
sig_eq p i (c ∷ s) = let rest = sig_eq p (i + 1) s in if byte p i == c then rest else false

-- "SignedImage " and "ImageFlash  "
abbrev pub signed_image : List ℕ
signed_image =
    b'S' ∷ b'i' ∷ b'g' ∷ b'n' ∷ b'e' ∷ b'd' ∷ b'I' ∷ b'm' ∷ b'a' ∷ b'g' ∷ b'e' ∷ 0x20 ∷ []

abbrev pub image_flash : List ℕ
image_flash = b'I' ∷ b'm' ∷ b'a' ∷ b'g' ∷ b'e' ∷ b'F' ∷ b'l' ∷ b'a' ∷ b's' ∷ b'h' ∷ 0x20 ∷ 0x20 ∷ []

-- `mem_read_exact` with pointers that are not null: the bytes that it stores in the buffer.
unfoldable pub mem_read_exact : List ℕ → ℕ → ℕ → ℕ → Outcome (List ℕ)
mem_read_exact data' size offset len =
    if ltb size offset || ltb (size - offset) len
    then err efi_end_of_file
    else ok (slice 0 data' offset len)

-- `read_location_mem`: the access method and the block of a descriptor's location.
unfoldable pub read_location_mem : List ℕ → ℕ → ℕ → ℕ → Outcome (ℕ × ℕ)
read_location_mem header header_size descriptor_offset index = do
  loc ← mem_read_exact header header_size (u64 (descriptor_offset + 8 + index * 8)) 8
  ok (rd_le32 loc 0, rd_le32 loc 4)
