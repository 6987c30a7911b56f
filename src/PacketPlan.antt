-- ===== src/PacketPlan.antt =====
-- `ffu_packet_dry_run` of src/src/ffu.c: how many packets a host needs for a plan.
use ufp_ffu_device_efi.Prelude.{
  ℕ, zero, suc, ◌+◌, ◌-◌, ◌/◌, List, [], ◌∷◌, Option, none, some, ltb, ◌==◌, if◌then◌else◌,
}
use ufp_ffu_device_efi.Word.{u32, u64, sub32, sub64}
use ufp_ffu_device_efi.Efi.{Outcome, ok, err, stuck, ◌>>=◌, efi_invalid_parameter}
use ufp_ffu_device_efi.Proto.{max_header_data, max_payload_data}
use ufp_ffu_device_efi.Ffu.{WriteEntry, Plan}
pub mod Counts
mod Tests

-- The locals `payload_packets` and `in_packet`.
pub record Filling : Type 0 where
  pub payload_packets : ℕ
  pub in_packet : ℕ

-- A round of `while (left)` that takes `taken` bytes into the packet.
unfoldable pub fill_round : ℕ → Filling → Filling
fill_round taken s =
    let in_packet = u32 (s.in_packet + taken) in
    if in_packet == max_payload_data
    then record { payload_packets = u64 (s.payload_packets + 1); in_packet = 0 }
    else record s { in_packet = in_packet }

-- `while (left)` on fuel.
unfoldable pub fill_packets : ℕ → ℕ → Filling → Outcome Filling
fill_packets zero left s = stuck
fill_packets (suc fuel) left s =
    let room = sub32 max_payload_data s.in_packet in
    let taken = if ltb left room then left else room in
    let rest = fill_packets fuel (sub32 left taken) (fill_round taken s) in
    if left == 0 then ok s else rest

-- The loop over the entries. A round takes a byte at least.
unfoldable pub fill_entries : List WriteEntry → Filling → Outcome Filling
fill_entries [] s = ok s
fill_entries (e ∷ es) s = do s' ← fill_packets (e.byte_count + 1) e.byte_count s; fill_entries es s'

-- The numbers of header and payload packets that are printed.
unfoldable pub ffu_packet_dry_run : Option Plan → Outcome (ℕ × ℕ)
ffu_packet_dry_run none = err efi_invalid_parameter
ffu_packet_dry_run (some plan) = do
  s ← fill_entries plan.entries (record { payload_packets = 0; in_packet = 0 })
  let header_packets = sub64 (u64 (plan.header_size + max_header_data)) 1 / max_header_data
  let filled = if s.in_packet == 0 then s.payload_packets else u64 (s.payload_packets + 1)
  ok (header_packets, u64 (filled + 1))
