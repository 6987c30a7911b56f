-- ===== src/FfuFile/Tests.antt =====
-- A run of `ffu_parse` of src/src/ffu.c on a file.
use ufp_ffu_device_efi.Prelude.{ℕ, ◌+◌, ◌≡◌, refl, arith}
use ufp_ffu_device_efi.Prelude.Buffer.{slice}
use ufp_ffu_device_efi.Efi.{ok}
use ufp_ffu_device_efi.Ffu.Sample.{header, always, plan, parsed}
use ufp_ffu_device_efi.FfuFile.{FileIo}
use ufp_ffu_device_efi.FfuFile.Stores.{ffu_parse}
use ufp_ffu_device_efi.FfuFile.Follows.{PlainFile}
use ufp_ffu_device_efi.FfuFile.Agree.{ffu_parse-ffu_parse_header_bytes}

-- A file is its position.
abbrev header_io : FileIo ℕ
header_io = record {
  set_position = λ s offset. (0, offset);
  read = λ s len. (0, slice 0 header s len, s + len);
}

abbrev header_file : PlainFile header_io header
header_file = record {
  at = λ s p. s ≡ p;
  seeks = λ s p offset at. (refl, refl);
  reads = λ s p len at inside. (s + len, rw at refl, rw at refl);
}

ffu_parse-ffu_parse_header_bytes_example :
    (s' : ℕ) × (ffu_parse header_io always 2560 0 ≡ (ok plan, s')) × ((p : ℕ) × (s' ≡ p))
ffu_parse-ffu_parse_header_bytes_example =
    ffu_parse-ffu_parse_header_bytes header_io header header_file always 2560 (omega arith) 0 0
      {plan = plan} refl parsed
