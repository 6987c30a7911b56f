-- ===== src/PacketPlan/Tests.antt =====
-- A run of the packet plan of src/src/ffu.c.
use ufp_ffu_device_efi.Prelude.{◌+◌, ◌-◌, ◌/◌, ◌≡◌, refl, arith, some}
use ufp_ffu_device_efi.Efi.{ok}
use ufp_ffu_device_efi.Proto.{max_header_data, max_payload_data}
use ufp_ffu_device_efi.Ffu.Sample.{plan}
use ufp_ffu_device_efi.Stream.Entries.{total_bytes}
use ufp_ffu_device_efi.PacketPlan.{ffu_packet_dry_run, fill_entries, fill_packets, fill_round}
use ufp_ffu_device_efi.PacketPlan.Counts.{ffu_packet_dry_run_lem}

one_of_each : ffu_packet_dry_run (some plan) ≡ ok (1, 2)
unfolding ffu_packet_dry_run fill_entries fill_packets fill_round
one_of_each = refl

ffu_packet_dry_run_lem_example :
    ffu_packet_dry_run (some plan)
    ≡ ok (
      (plan.header_size + (max_header_data - 1)) / max_header_data,
      (total_bytes plan.entries + (max_payload_data - 1)) / max_payload_data + 1,
    )
ffu_packet_dry_run_lem_example =
    ffu_packet_dry_run_lem plan (omega arith, (omega arith, tt)) (omega arith) (omega arith)
