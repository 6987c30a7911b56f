-- ===== src/Ffu/Sample.antt =====
-- A small FFU header, as src/src/ffu.c reads it, and its plan.
use ufp_ffu_device_efi.Prelude.{ℕ, ◌∷◌, [], List, Bool, true, some, ◌≡◌, refl, replicate, ◌++◌}
use ufp_ffu_device_efi.Efi.{ok}
use ufp_ffu_device_efi.Bytes.{rd_le32, le32, align_up_u64, rd_le16, le16}
use ufp_ffu_device_efi.Ffu.{Plan, Store, WriteEntry, append_store, append_entry}
use ufp_ffu_device_efi.Ffu.Read.{signed_image, image_flash, sig_eq, mem_read_exact}
use ufp_ffu_device_efi.Ffu.Header.{
  take_security, take_image_size, take_image_fields, read_image_extension, skip_descriptors,
  read_security, read_image, read_headers,
}
use ufp_ffu_device_efi.Ffu.Stores.{
  read_entry, read_entries, read_extension, open_store, read_store, read_stores,
}
use ufp_ffu_device_efi.Ffu.Layout.{place_entry, place_entries, place_stores, place_payload}
use ufp_ffu_device_efi.Ffu.Parse.{ffu_parse_header_bytes}

-- Small words, lowest byte first.
abbrev word : ℕ → List ℕ
word a = a ∷ 0 ∷ 0 ∷ 0 ∷ []

abbrev pub security : List ℕ
security =
    word 32 ++ (signed_image ++ (word 1 ++ (0x0c ∷ 0x80 ∷ 0 ∷ 0 ∷ [] ++ (word 1 ++ word 32))))

abbrev pub image : List ℕ
image = word 24 ++ (image_flash ++ (word 1 ++ word 1))

-- Blocks of 512 bytes and two descriptors.
abbrev pub store_head : List ℕ
store_head =
    word 0
    ++ (word 1
        ++ (word 2 ++ (replicate 192 0 ++ (0 ∷ 2 ∷ 0 ∷ 0 ∷ [] ++ (word 2 ++ replicate 36 0)))))

abbrev pub descriptors : List ℕ
descriptors =
    word 1
    ++ (word 1
        ++ (word 0
            ++ (word 5 ++ (word 2 ++ (word 2 ++ (word 0 ++ (word 8 ++ (word 0 ++ word 20))))))))

-- 2560 bytes: the header that a USB host sends.
abbrev pub header : List ℕ
header =
    security
    ++ (replicate 992 0
        ++ (image ++ (replicate 1000 0 ++ (store_head ++ (descriptors ++ replicate 224 0)))))

abbrev pub always : ℕ → ℕ → Bool
always k n = true

-- What the header describes: 512 bytes for block 5 of the store, and 1024 bytes for the blocks from
-- 8 on and for those from 20 on.
abbrev pub first_entry : WriteEntry
first_entry = record {
  payload_offset = 2560;
  descriptor_offset = 2296;
  byte_count = 512;
  block_count = 1;
  location_count = 1;
  store_index = 0;
}

abbrev pub second_entry : WriteEntry
second_entry = record {
  payload_offset = 3072;
  descriptor_offset = 2312;
  byte_count = 1024;
  block_count = 2;
  location_count = 2;
  store_index = 0;
}

abbrev pub store : Store
store = record {
  header_offset = 2048;
  payload_base = 2560;
  payload_size = 1536;
  descriptor_base = 2296;
  block_size = 512;
  descriptor_count = 2;
  entry_start = 0;
  entry_count = 2;
}

abbrev pub plan : Plan
plan = record {
  file_size = 2560;
  header_size = 2560;
  payload_base = 2560;
  chunk_size = 1024;
  security_catalog_size = 1;
  security_hash_size = 32;
  image_header_size = 24;
  manifest_length = 1;
  validation_descriptor_count = 0;
  store_count = 1;
  entry_count = 2;
  total_payload_bytes = 1536;
  stores = store ∷ [];
  entries = first_entry ∷ second_entry ∷ [];
}

pub parsed : ffu_parse_header_bytes always (some header) 2560 ≡ ok plan
unfolding ffu_parse_header_bytes read_headers read_security read_image read_image_extension
    take_security take_image_size take_image_fields skip_descriptors sig_eq mem_read_exact
    read_stores read_store open_store read_extension read_entries read_entry append_entry
    append_store place_payload place_stores place_entries place_entry rd_le32 le32 align_up_u64
    rd_le16 le16
parsed = refl
