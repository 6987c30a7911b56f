-- ===== src/Ffu/Entries.antt =====
-- The descriptor loop: what it appends to the table of entries.
use mathlib.Core.Path.{subst}
use mathlib.Core.List.{append_assoc, append-nil}
use ufp_ffu_device_efi.Prelude.{
  ℕ, zero, suc, ◌+◌, ◌*◌, ◌^◌, ◌<◌, ◌≤◌, ◌≡◌, refl, ap, ◌∙◌, arith, List, [], ◌∷◌, ◌++◌, Bool,
  length, All,
}
use ufp_ffu_device_efi.Prelude.Buffer.{slice}
use ufp_ffu_device_efi.Word.{u32, u64}
use ufp_ffu_device_efi.Efi.{ok, >>=-eq-ok}
use ufp_ffu_device_efi.Proto.{max_payload_data}
use ufp_ffu_device_efi.Bytes.{rd_le32}
use ufp_ffu_device_efi.Bytes.Order.{rd_le32-lt}
use ufp_ffu_device_efi.Ffu.{WriteEntry, Plan, push_entry}
use ufp_ffu_device_efi.Ffu.Read.{mem_read_exact}
use ufp_ffu_device_efi.Ffu.Stores.{Descriptors, read_entry, read_entries}
use ufp_ffu_device_efi.Ffu.Tables.{
  mem_read_exact-eq-ok, plan-append_entry, IsEntry, OffsetsFrom, end_of,
}

product_small : (b n : ℕ) → b ≤ max_payload_data → n < 2 ^ 32 → b * n < 2 ^ 64
product_small b n hb hn = grind arith

product_pos : (b n : ℕ) → 0 < b → 0 < n → 0 < b * n
product_pos zero n hb hn = elim hb [ ]
product_pos (suc b) zero hb hn = elim hn [ ]
product_pos (suc b) (suc n) hb hn = omega arith

-- `seg` was appended to the entries, and nothing else of the plan changed.
abbrev pub append_entries : Plan → List WriteEntry → Plan
append_entries plan seg = record plan {
  entry_count = u32 (plan.entry_count + length seg);
  entries = plan.entries ++ seg;
}

-- What `count` rounds of the descriptor loop did.
pub record Appended (size block_size k count : ℕ) (d d' : Descriptors) : Type 0 where
  pub seg : List WriteEntry
  pub grown : d'.parser.plan ≡ append_entries d.parser.plan seg
  pub counted : length seg ≡ count
  pub each : All (IsEntry size block_size k) seg
  pub offsets : OffsetsFrom d.rel_payload seg
  pub rel : d'.rel_payload ≡ end_of d.rel_payload seg
  pub advanced : d.descriptor_cursor + 16 * count ≤ d'.descriptor_cursor
  pub inside : d'.descriptor_cursor ≤ size

module _ (pool : ℕ → ℕ → Bool) (data' : List ℕ) (size : ℕ) (block_size k : ℕ) where
  -- The entry that a round reads.
  abbrev entry_of : Descriptors → WriteEntry
  entry_of d =
      let wh = slice 0 data' d.descriptor_cursor 8 in
      record {
        payload_offset = d.rel_payload;
        descriptor_offset = d.descriptor_cursor;
        byte_count = block_size * rd_le32 wh 4;
        block_count = rd_le32 wh 4;
        location_count = rd_le32 wh 0;
        store_index = k;
      }

  read_entry-eq-ok :
      (d : Descriptors) {d' : Descriptors}
      → size < 2 ^ 32
      → 0 < block_size
      → block_size ≤ max_payload_data
      → read_entry pool data' size block_size k d ≡ ok d'
      → (d'.parser.plan ≡ (push_entry d.parser (entry_of d)).plan)
        × IsEntry size block_size k (entry_of d)
        × (d'.rel_payload ≡ u64 (d.rel_payload + (entry_of d).byte_count))
        × (d'.descriptor_cursor ≡ d.descriptor_cursor + 8 + (entry_of d).location_count * 8)
  unfolding read_entry mem_read_exact
  read_entry-eq-ok d {d'} small has_block fits h = ground (
    arith,
    mem_read_exact-eq-ok data' size d.descriptor_cursor 8
        {bytes = slice 0 data' d.descriptor_cursor 8},
    plan-append_entry pool d.parser (entry_of d) {s' = d'.parser},
    rd_le32-lt (slice 0 data' d.descriptor_cursor 8) 0,
    rd_le32-lt (slice 0 data' d.descriptor_cursor 8) 4,
    product_small block_size (rd_le32 (slice 0 data' d.descriptor_cursor 8) 4),
    product_pos block_size (rd_le32 (slice 0 data' d.descriptor_cursor 8) 4),
  )

  append-append_entries :
      (plan : Plan) (e : WriteEntry) (seg : List WriteEntry)
      → append_entries (append_entries plan (e ∷ [])) seg ≡ append_entries plan (e ∷ seg)
  append-append_entries plan e seg = ground (arith, append_assoc plan.entries (e ∷ []) seg)

  pub read_entries-Appended :
      (count : ℕ) (d : Descriptors) {d' : Descriptors}
      → size < 2 ^ 32
      → 0 < block_size
      → block_size ≤ max_payload_data
      → d.parser.plan.entry_count < 2 ^ 32
      → d.descriptor_cursor ≤ size
      → read_entries pool data' size count block_size k d ≡ ok d'
      → Appended size block_size k count d d'
  unfolding read_entries
  read_entries-Appended zero d {d'} small has_block fits counts start h = record {
    seg = [];
    grown = ground (arith, append-nil d.parser.plan.entries);
    counted = refl;
    each = tt;
    offsets = tt;
    rel = ground arith;
    advanced = ground arith;
    inside = ground arith;
  }
  read_entries-Appended (suc count) d {d'} small has_block fits counts start h =
      let (d₁, first, rest) = >>=-eq-ok (read_entry pool data' size block_size k d) _ h in
      let (plan, entry, rel, cursor) = read_entry-eq-ok d {d' = d₁} small has_block fits first in
      let ih =
        read_entries-Appended count d₁ {d' = d'} small has_block fits
          (omega (arith, ap (λ (p : Plan). p.entry_count) plan)) (omega (arith, entry.inside))
          rest in
      record {
        seg = entry_of d ∷ ih.seg;
        grown =
            ih.grown
            ∙ ap (λ (p : Plan). append_entries p ih.seg) plan
            ∙ append-append_entries d.parser.plan (entry_of d) ih.seg;
        counted = ap suc ih.counted;
        each = (entry, ih.each);
        offsets = (refl, subst (λ a. OffsetsFrom a ih.seg) rel ih.offsets);
        rel = ih.rel ∙ ap (λ a. end_of a ih.seg) rel;
        advanced = omega (arith, ih.advanced, cursor, entry.has_locations);
        inside = ih.inside;
      }
