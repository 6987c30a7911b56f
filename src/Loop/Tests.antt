-- ===== src/Loop/Tests.antt =====
-- Runs of the message loop of src/src/main.c: a whole flash of a small image, and a dry run.
use ufp_ffu_device_efi.Prelude.{
  ℕ, ◌+◌, ◌≤◌, ◌≡◌, refl, sym, ap, ◌∙◌, arith, List, [], ◌∷◌, ◌++◌, Bool, true, false, Option, none,
  some, length, replicate, inl,
}
use ufp_ffu_device_efi.Efi.{ok, efi_success}
use ufp_ffu_device_efi.Ffu.Sample.{header, always, plan}
use ufp_ffu_device_efi.Stream.Packets.{concat}
use ufp_ffu_device_efi.Stream.Device.{on_device, target_of}
use ufp_ffu_device_efi.Stream.Entries.{put_entries}
use ufp_ffu_device_efi.Stream.Sample.{
  Log, log_write, media, start, initialised, packets, packets-ArePackets, finish, flashed,
}
use ufp_ffu_device_efi.Stream.Whole.{flash_packets-put_entries}
use ufp_ffu_device_efi.Loop.{Loop, first_loop, stop}
use ufp_ffu_device_efi.Proto.Build.{
  build_secure_payload_request, payload_request_frame, build_secure_status_response,
}
use ufp_ffu_device_efi.Bytes.{rd_be16, be16, rd_be32, be32}
use ufp_ffu_device_efi.Stream.{ffu_stream_flash_done}
use ufp_ffu_device_efi.Secure.{check_secure, check_payload}
use ufp_ffu_device_efi.Prelude.Buffer.{slice}
use ufp_ffu_device_efi.Loop.Flash.{
  handle_secure, handle_checked, take_payload, flash_payload, report_payload, final_state,
  final_status, flushed_device, sent_of, buffer_of,
}
use ufp_ffu_device_efi.Loop.Dispatch.{Machine, Host, message, serve}
use ufp_ffu_device_efi.Loop.Sent.{header_sent, payload_sent}
use ufp_ffu_device_efi.Loop.Session.{Packet, payloads_sent}
use ufp_ffu_device_efi.Loop.Whole.{serve-session}
use ufp_ffu_device_efi.Loop.DryMessages.{DryMachine, serve-dry_run}
use ufp_ffu_device_efi.Loop.Complete.{handle_secure-put_entries}

-- A device that notes the flush as a write of nothing to block 99, and no UEFI variables.
abbrev host : Bool → Host Log (Unit {0})
host commit = record {
  write_blocks = log_write;
  read_blocks = λ log id lba size. (0, replicate 512 0);
  flush_blocks = some (λ log. (99, []) ∷ log);
  media = media;
  runtime = record { get_variable = none; set_variable = none };
  speed = 3;
  max_transfer = 0x100000;
  pool = always;
  room = λ n. true;
  junk = [];
  commit = commit;
}

abbrev idle : Machine Log (Unit {0})
idle = record {
  loop = first_loop [] (replicate 64 0);
  settings = record { ffu_options = replicate 8 0; mode_data = 0 };
  variables = tt;
}

abbrev first : Packet
first = (10, replicate 300 1)

abbrev others : List Packet
others = (50, replicate 212 1 ++ replicate 600 2) ∷ (90, replicate 424 2) ∷ []

written :
    put_entries log_write (target_of (start 0)) plan.entries (concat packets) []
    ≡ (ok tt, finish.device)
written =
    sym (
      flash_packets-put_entries log_write always (λ n. true) header 2560 media [] true packets
        {ctx = start 0} (omega arith) initialised packets-ArePackets refl)
    ∙ ap on_device flashed

serve-session_example :
    (replies : List (List ℕ)) × (m' : Machine Log (Unit {0})) × (serve
        (host true)
        (message (header_sent (replicate 60 0) 0 header)
            ∷ payloads_sent (replicate 32 0) (first ∷ others)
          ++ message (payload_sent (replicate 32 0) 0 [] true) ∷ [])
        idle
      ≡ stop replies efi_success m')
    × (m'.loop.flash.device ≡ (99, []) ∷ finish.device)
    × (length replies ≡ 5)
serve-session_example =
    serve-session (host true) (λ n. refl) (replicate 60 0) (replicate 32 0) header 0 first others
      idle {ctx = start 0} {d = finish.device} refl refl
      (record {
        not_ready = refl;
        no_header = refl;
        no_size = refl;
        no_cap = refl;
        none_received = refl;
        not_dangling = refl;
      })
      (omega arith) (omega arith) (omega arith) initialised
      (
        ((λ e. omega arith), omega arith, omega arith),
        (
          ((λ e. omega arith), omega arith, omega arith),
          (((λ e. omega arith), omega arith, omega arith), tt),
        ),
      )
      refl written

serve-dry_run_example : DryMachine [] (
    serve
      (host false)
      (message (header_sent (replicate 60 0) 0 header)
        ∷ payloads_sent (replicate 32 0) (first ∷ others))
      idle)
serve-dry_run_example =
    serve-dry_run (host false) [] refl
      (message (header_sent (replicate 60 0) 0 header)
        ∷ payloads_sent (replicate 32 0) (first ∷ others))
      idle (refl, inl refl)

-- The loop after the three packets, and the final message, which has no data.
abbrev sent_all : Loop Log
sent_all = record (idle.loop) {
  flash = finish;
  buffer = record (idle.loop.buffer) { flash_ready = true };
}

abbrev final_message : List ℕ
final_message = (payload_sent (replicate 32 0) 0 [] true).bytes

abbrev last_reply : ℕ × Option (List ℕ)
last_reply = build_secure_status_response (some sent_all.resp) 64 0 0 0xffff_ffff 21 1

abbrev ended_loop : Loop Log
ended_loop = record sent_all {
  flash = record finish { device = (99, []) ∷ finish.device };
  resp = buffer_of sent_all.resp last_reply;
}

ended :
    handle_secure log_write
      (some (λ log. (99, []) ∷ log))
      always
      (λ n. true)
      media
      true
      final_message
      32
      sent_all
    ≡ stop (sent_of last_reply ∷ []) efi_success ended_loop
unfolding handle_secure handle_checked check_secure check_payload take_payload flash_payload
    report_payload final_state final_status ffu_stream_flash_done build_secure_payload_request
    payload_request_frame rd_be16 be16 rd_be32 be32
ended = refl

handle_secure-put_entries_example :
    (efi_success ≡ efi_success)
    × (offset n : ℕ) × (offset + n ≤ 32)
    × (d : Log) × (length (concat packets ++ slice 0 final_message offset n) ≡ 1536)
    × (put_entries log_write
          (target_of (start 0))
          plan.entries
          (concat packets ++ slice 0 final_message offset n)
          []
        ≡ (ok tt, d))
    × ((99, []) ∷ finish.device ≡ flushed_device true (some (λ log. (99, []) ∷ log)) d)
handle_secure-put_entries_example =
    handle_secure-put_entries log_write (some (λ log. (99, []) ∷ log)) always (λ n. true) media true
      header 2560 [] packets final_message 32 sent_all {ctx = start 0}
      {replies = sent_of last_reply ∷ []} {st = efi_success} {l' = ended_loop} (omega arith)
      initialised packets-ArePackets flashed ended
