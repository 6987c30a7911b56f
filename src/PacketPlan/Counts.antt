-- ===== src/PacketPlan/Counts.antt =====
-- The packet counts of src/src/ffu.c's packet plan, in closed form.
use ufp_ffu_device_efi.Prelude.{
  ℕ, zero, suc, ◌+◌, ◌-◌, ◌*◌, ◌/◌, ◌^◌, ◌<◌, ◌≡◌, refl, arith, List, [], ◌∷◌, false, some, All,
  ltb, ◌==◌, if◌then◌else◌, Bool-cases, inl, inr,
}
use ufp_ffu_device_efi.Word.{sub32}
use ufp_ffu_device_efi.Efi.{ok}
use ufp_ffu_device_efi.Proto.{max_header_data, max_payload_data}
use ufp_ffu_device_efi.Ffu.{WriteEntry, Plan}
use ufp_ffu_device_efi.PacketPlan.{
  Filling, fill_round, fill_packets, fill_entries, ffu_packet_dry_run,
}
use ufp_ffu_device_efi.Stream.Entries.{total_bytes}

-- The bytes that are in packets so far.
abbrev pub filled_bytes : Filling → ℕ
filled_bytes s = s.payload_packets * max_payload_data + s.in_packet

-- A round takes some of what is left, and the packet is less than full after it.
fill_round_lem :
    (left : ℕ) (s : Filling)
    → left < 2 ^ 32
    → s.in_packet < max_payload_data
    → filled_bytes s + left < 2 ^ 64
    → (left == 0) ≡ false
    → let room = sub32 max_payload_data s.in_packet in
      let taken = if ltb left room then left else room in
      ((fill_round taken s).in_packet < max_payload_data)
      × (sub32 left taken < left)
      × (filled_bytes (fill_round taken s) + sub32 left taken ≡ filled_bytes s + left)
unfolding fill_round
fill_round_lem left s small part fits more = ground arith

-- The rounds put all of `left` into packets, and leave the last packet less than full.
fill_packets_lem :
    (fuel left : ℕ) (s : Filling)
    → left < fuel
    → left < 2 ^ 32
    → s.in_packet < max_payload_data
    → filled_bytes s + left < 2 ^ 64
    → (t : Filling) × (fill_packets fuel left s ≡ ok t)
      × (t.in_packet < max_payload_data)
      × (filled_bytes t ≡ filled_bytes s + left)
unfolding fill_packets
fill_packets_lem zero left s enough small part fits = absurd (omega arith)
fill_packets_lem (suc fuel) left s enough small part fits = elim (Bool-cases (left == 0)) [
  | inl done ↦ (s, rw (done, fill_packets) refl, part, ground arith)
  | inr more ↦
      let room = sub32 max_payload_data s.in_packet in
      let taken = if ltb left room then left else room in
      let (counts, less, moved) = fill_round_lem left s small part fits more in
      let (t, ran, last, sum) =
        fill_packets_lem fuel (sub32 left taken) (fill_round taken s) (omega (arith, less))
          (omega (arith, less)) counts (omega (arith, moved)) in
      (t, rw (more, fill_packets) ran, last, omega (arith, sum, moved))
]

fill_entries_lem :
    (es : List WriteEntry) (s : Filling)
    → All (λ (e : WriteEntry). e.byte_count < 2 ^ 32) es
    → s.in_packet < max_payload_data
    → filled_bytes s + total_bytes es < 2 ^ 64
    → (t : Filling) × (fill_entries es s ≡ ok t)
      × (t.in_packet < max_payload_data)
      × (filled_bytes t ≡ filled_bytes s + total_bytes es)
unfolding fill_entries
fill_entries_lem [] s each part fits = (s, refl, part, omega arith)
fill_entries_lem (e ∷ es) s (here, rest) part fits =
    let (s₁, ran, part₁, sum₁) =
      fill_packets_lem (e.byte_count + 1) e.byte_count s (omega arith) here part (omega arith) in
    let (t, ran', part', sum) = fill_entries_lem es s₁ rest part₁ (omega (arith, sum₁)) in
    (t, rw ran ran', part', omega (arith, sum, sum₁))

-- For a plan of entries whose byte counts fit 32 bits and whose sum, with the header, is small
-- against 2 ^ 64, the header packets are the header's size over a packet's data, rounded up, and
-- the payload packets are the sum of the byte counts over a packet's data, rounded up, and the
-- final packet.
pub ffu_packet_dry_run_lem :
    (plan : Plan)
    → All (λ (e : WriteEntry). e.byte_count < 2 ^ 32) plan.entries
    → plan.header_size < 2 ^ 63
    → total_bytes plan.entries < 2 ^ 63
    → ffu_packet_dry_run (some plan)
      ≡ ok (
        (plan.header_size + (max_header_data - 1)) / max_header_data,
        (total_bytes plan.entries + (max_payload_data - 1)) / max_payload_data + 1,
      )
unfolding ffu_packet_dry_run
ffu_packet_dry_run_lem plan each small fits =
    let (t, ran, part, sum) =
      fill_entries_lem plan.entries (record { payload_packets = 0; in_packet = 0 }) each
        (omega arith) (omega arith) in
    rw ran (ground (arith, part, sum))
