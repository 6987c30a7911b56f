-- ===== src/FlashFile/Tests.antt =====
-- Runs of `ffu_flash_to_block_io` of src/src/ffu.c: a file of a header and its payload.
use ufp_ffu_device_efi.Prelude.{
  ℕ, ◌+◌, ◌≡◌, ◌≢◌, refl, arith, List, [], ◌++◌, true, false, none, some, leb, if◌then◌else◌,
}
use ufp_ffu_device_efi.Prelude.Buffer.{slice}
use ufp_ffu_device_efi.Efi.{stuck}
use ufp_ffu_device_efi.Ffu.Sample.{header, plan}
use ufp_ffu_device_efi.Stream.Sample.{Log, log_write, media, packets}
use ufp_ffu_device_efi.Stream.Packets.{concat}
use ufp_ffu_device_efi.FfuFile.{FileIo}
use ufp_ffu_device_efi.FlashFile.{Flashing, ffu_flash_to_block_io}
use ufp_ffu_device_efi.FlashFile.Bounds.{ffu_flash_to_block_io-inside}
use ufp_ffu_device_efi.FlashFile.Ends.{ffu_flash_to_block_io-ends, ffu_flash_to_block_io-dry_run}

abbrev file : List ℕ
file = header ++ concat packets

-- A file is its position.
abbrev file_io : FileIo ℕ
file_io = record {
  set_position = λ s offset. (0, offset);
  read = λ s len. (0, slice 0 file s len, s + len);
}

abbrev opened : Flashing ℕ Log
opened = record { file = 0; device = []; status = 0 }

-- A WriteBlocks that loses the device on a write past its end.
abbrev strict_write : Log → ℕ → ℕ → List ℕ → ℕ × Log
strict_write log id lba bytes =
    if leb lba media.last_block then log_write log id lba bytes else (7, [])

ffu_flash_to_block_io-inside_example :
    ffu_flash_to_block_io file_io log_write none (λ n. true) plan (some media) true opened
    ≡ ffu_flash_to_block_io file_io strict_write none (λ n. true) plan (some media) true opened
ffu_flash_to_block_io-inside_example =
    ffu_flash_to_block_io-inside file_io media true log_write strict_write
      (λ d lba bytes inside. ground (arith, inside.inside)) (omega arith) (omega arith) none
      (λ n. true) plan opened (omega arith, (omega arith, tt))

ffu_flash_to_block_io-ends_example :
    (ffu_flash_to_block_io file_io log_write none (λ n. true) plan (some media) true opened).0
    ≢ stuck
ffu_flash_to_block_io-ends_example =
    ffu_flash_to_block_io-ends file_io log_write none (λ n. true) plan media true opened
      (omega arith, (omega arith, tt))

ffu_flash_to_block_io-dry_run_example :
    (ffu_flash_to_block_io file_io log_write none
      (λ n. true)
      plan
      (some media)
      false
      opened).1.device
    ≡ []
ffu_flash_to_block_io-dry_run_example =
    ffu_flash_to_block_io-dry_run file_io log_write none (λ n. true) plan media false opened
      (omega arith, (omega arith, tt)) refl
