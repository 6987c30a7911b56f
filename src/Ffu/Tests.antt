-- ===== src/Ffu/Tests.antt =====
-- Runs of the FFU parser of src/src/ffu.c.
use ufp_ffu_device_efi.Prelude.{ℕ, false, some, ◌≡◌, refl, ◌⊎◌}
use ufp_ffu_device_efi.Efi.{ok, err, efi_end_of_file, efi_out_of_resources}
use ufp_ffu_device_efi.Bytes.{rd_le32, le32, align_up_u64, rd_le16, le16}
use ufp_ffu_device_efi.Ffu.{Plan, append_store, append_entry}
use ufp_ffu_device_efi.Ffu.Read.{sig_eq, mem_read_exact}
use ufp_ffu_device_efi.Ffu.Header.{
  take_security, take_image_size, take_image_fields, read_image_extension, skip_descriptors,
  read_security, read_image, read_headers,
}
use ufp_ffu_device_efi.Ffu.Stores.{
  read_entry, read_entries, read_extension, open_store, read_store, read_stores,
}
use ufp_ffu_device_efi.Ffu.Layout.{place_entry, place_entries, place_stores, place_payload}
use ufp_ffu_device_efi.Ffu.Parse.{ffu_parse_header_bytes}
use ufp_ffu_device_efi.Ffu.Total.{ffu_parse_header_bytes-ends}
use ufp_ffu_device_efi.Ffu.Sample.{header, always}

cut_short : ffu_parse_header_bytes always (some header) 2300 ≡ err efi_end_of_file
unfolding ffu_parse_header_bytes read_headers read_security read_image read_image_extension
    take_security take_image_size take_image_fields skip_descriptors sig_eq mem_read_exact
    read_stores read_store open_store read_extension read_entries read_entry append_entry
    append_store place_payload place_stores place_entries place_entry rd_le32 le32 align_up_u64
    rd_le16 le16
cut_short = refl

no_memory : ffu_parse_header_bytes (λ k n. false) (some header) 2560 ≡ err efi_out_of_resources
unfolding ffu_parse_header_bytes read_headers read_security read_image read_image_extension
    take_security take_image_size take_image_fields skip_descriptors sig_eq mem_read_exact
    read_stores read_store open_store read_extension read_entries read_entry append_entry
    append_store place_payload place_stores place_entries place_entry rd_le32 le32 align_up_u64
    rd_le16 le16
no_memory = refl

ffu_parse_header_bytes-ends_example :
    ((p : Plan) × (ffu_parse_header_bytes always (some header) 2560 ≡ ok p))
    ⊎ ((st : ℕ) × (ffu_parse_header_bytes always (some header) 2560 ≡ err st))
ffu_parse_header_bytes-ends_example = ffu_parse_header_bytes-ends always header 2560
