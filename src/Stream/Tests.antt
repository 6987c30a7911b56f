-- ===== src/Stream/Tests.antt =====
-- Runs of the streaming flasher of src/src/ffu.c on a small header.
use ufp_ffu_device_efi.Prelude.{ℕ, ◌≡◌, ◌⊎◌, refl, arith, [], true, replicate}
use ufp_ffu_device_efi.Efi.{ok, err}
use ufp_ffu_device_efi.Ffu.Sample.{header, always, plan, first_entry}
use ufp_ffu_device_efi.Stream.{
  stream_write_completed_entry, ffu_stream_flash_payload, ffu_stream_flash_done,
}
use ufp_ffu_device_efi.Stream.Ready.{IsReady}
use ufp_ffu_device_efi.Stream.Feed.{feed_all}
use ufp_ffu_device_efi.Stream.Packets.{concat, observed, flash_packets, flash_packets-feed_all}
use ufp_ffu_device_efi.Stream.Device.{
  on_device, target_of, put_entry, stream_write_completed_entry-put_entry,
}
use ufp_ffu_device_efi.Stream.Entries.{put_entries}
use ufp_ffu_device_efi.Stream.Init.{IsStarted, ffu_stream_flash_init-IsStarted}
use ufp_ffu_device_efi.Stream.Whole.{flash_packets-put_entries, flash_packets-done}
use ufp_ffu_device_efi.Stream.Total.{ffu_stream_flash_payload-ends}
use ufp_ffu_device_efi.Stream.Sample.{
  log_write, media, start, initialised, first_packet, other_packets, packets, packets-ArePackets,
  finish, flashed,
}

ffu_stream_flash_init-IsStarted_example : IsStarted header 2560 media [] true (start 0)
ffu_stream_flash_init-IsStarted_example =
    ffu_stream_flash_init-IsStarted always (λ n. true) header 2560 media [] true {ctx = start 0}
      (omega arith) initialised

start-IsReady : IsReady (start 0)
start-IsReady =
    (ffu_stream_flash_init-IsStarted always (λ n. true) header 2560 media [] true {ctx = start 0}
      (omega arith) initialised).ready

flash_packets-done_example : (ffu_stream_flash_done finish ≡ true) × (finish.final_state ≡ 1)
flash_packets-done_example =
    flash_packets-done log_write always (λ n. true) header 2560 media [] true first_packet
      other_packets {ctx = start 0} {c = finish} (omega arith) initialised packets-ArePackets refl
      flashed

flash_packets-put_entries_example :
    on_device (flash_packets log_write packets (start 0))
    ≡ put_entries log_write (target_of (start 0)) plan.entries (concat packets) []
flash_packets-put_entries_example =
    flash_packets-put_entries log_write always (λ n. true) header 2560 media [] true packets
      {ctx = start 0} (omega arith) initialised packets-ArePackets refl

flash_packets-feed_all_example :
    observed (flash_packets log_write packets (start 0))
    ≡ observed (feed_all log_write (concat packets) (start 0))
flash_packets-feed_all_example =
    flash_packets-feed_all log_write packets (start 0) start-IsReady packets-ArePackets

ffu_stream_flash_payload-ends_example :
    ((ffu_stream_flash_payload log_write first_packet (start 0)).0 ≡ ok tt)
    ⊎ ((st : ℕ) × ((ffu_stream_flash_payload log_write first_packet (start 0)).0 ≡ err st))
ffu_stream_flash_payload-ends_example =
    ffu_stream_flash_payload-ends log_write first_packet (start 0) start-IsReady (omega arith)

stream_write_completed_entry-put_entry_example :
    on_device (stream_write_completed_entry log_write first_entry (start 0))
    ≡ put_entry log_write (target_of (start 0)) first_entry (replicate 512 0) []
stream_write_completed_entry-put_entry_example =
    stream_write_completed_entry-put_entry log_write first_entry (replicate 512 0) (start 0) refl
      refl
