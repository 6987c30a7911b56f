-- ===== src/Stream/Sample.antt =====
-- A small header, a device that lists what is written to it, and the runs of the streaming flasher of
-- src/src/ffu.c on them.
use ufp_ffu_device_efi.Prelude.{
  ℕ, ◌≡◌, refl, arith, List, [], ◌∷◌, ◌++◌, true, false, some, replicate,
}
use ufp_ffu_device_efi.Bytes.{rd_le32, le32}
use ufp_ffu_device_efi.Efi.{ok}
use ufp_ffu_device_efi.Ffu.Read.{mem_read_exact, read_location_mem}
use ufp_ffu_device_efi.Ffu.Sample.{header, always, plan, parsed}
use ufp_ffu_device_efi.Stream.{
  Media, StreamFlash, max_byte_count, ffu_stream_flash_init, note_sector, write_at, write_location,
  write_locations, stream_write_completed_entry, complete_entry, receive, accept, round_size,
  payload_loop, note_end, ffu_stream_flash_payload,
}
use ufp_ffu_device_efi.Stream.Packets.{ArePackets, flash_packets}

-- Every write succeeds and is put on the list with its block.
abbrev pub Log : Type 0
Log = List (ℕ × List ℕ)

abbrev pub log_write : Log → ℕ → ℕ → List ℕ → ℕ × Log
log_write log id lba bytes = (0, (lba, bytes) ∷ log)

abbrev pub media : Media
media = record {
  media_id = 3;
  media_present = true;
  read_only = false;
  block_size = 512;
  last_block = 99;
}

abbrev pub start : ℕ → StreamFlash Log
start dry_run = record {
  plan = plan;
  device = [];
  header = header;
  header_size = 2560;
  entry_data = replicate 1024 0;
  entry_capacity = 1024;
  entry_index = 0;
  entry_received = 0;
  media_block = 512;
  media_id = 3;
  dry_run = dry_run;
  final_state = 0;
  last_sector = 0xffff_ffff;
}

pub initialised :
    ffu_stream_flash_init always (λ n. true) (some header) 2560 (some media) [] true ≡ ok (start 0)
unfolding ffu_stream_flash_init max_byte_count
initialised = rw (parsed, ffu_stream_flash_init) refl

-- The payload in three packets: 512 ones and 1024 twos.
abbrev pub first_packet : List ℕ
first_packet = replicate 300 1

abbrev pub other_packets : List (List ℕ)
other_packets = (replicate 212 1 ++ replicate 600 2) ∷ replicate 424 2 ∷ []

abbrev pub packets : List (List ℕ)
packets = first_packet ∷ other_packets

pub packets-ArePackets : ArePackets packets
packets-ArePackets = (omega arith, (omega arith, (omega arith, tt)))

-- The context after the three packets.
abbrev pub finish : StreamFlash Log
finish = record (start 0) {
  device = (20, replicate 1024 2) ∷ (8, replicate 1024 2) ∷ (5, replicate 512 1) ∷ [];
  entry_data = replicate 1024 2;
  entry_index = 2;
  final_state = 1;
  last_sector = 21;
}

pub flashed : flash_packets log_write packets (start 0) ≡ (ok tt, finish)
unfolding ffu_stream_flash_payload payload_loop note_end round_size accept receive complete_entry
    stream_write_completed_entry write_locations write_location write_at note_sector
    read_location_mem mem_read_exact rd_le32 le32
flashed = refl
