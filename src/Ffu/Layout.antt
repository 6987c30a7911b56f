-- ===== src/Ffu/Layout.antt =====
-- Where the payload of each store and of each write descriptor lies in the FFU file: the last
-- loops of `ffu_parse_header_bytes` and `ffu_parse` in src/src/ffu.c.
use ufp_ffu_device_efi.Prelude.{ℕ, zero, suc, ◌+◌, List, [], ◌∷◌, ◌==◌, if◌then◌else◌}
use ufp_ffu_device_efi.Word.{u64}
use ufp_ffu_device_efi.Bytes.{align_up_u64}
use ufp_ffu_device_efi.Ffu.{WriteEntry, Store, Plan}

-- `entry->payload_offset += payload_cursor`
abbrev pub shift_entry : ℕ → WriteEntry → WriteEntry
shift_entry delta e = record e { payload_offset = u64 (e.payload_offset + delta) }

-- One round at `plan->entries[i]`: the table and the sum of the byte counts afterwards.
unfoldable pub place_entry : ℕ → ℕ → List WriteEntry → ℕ → List WriteEntry × ℕ
place_entry delta i [] total = ([], total)
place_entry delta zero (e ∷ es) total = (shift_entry delta e ∷ es, u64 (total + e.byte_count))
place_entry delta (suc i) (e ∷ es) total =
    let (es', total') = place_entry delta i es total in (e ∷ es', total')

-- `count` rounds from index `i` on.
unfoldable pub place_entries : ℕ → ℕ → ℕ → List WriteEntry → ℕ → List WriteEntry × ℕ
place_entries zero delta i es total = (es, total)
place_entries (suc count) delta i es total =
    let (es', total') = place_entry delta i es total in place_entries count delta (i + 1) es' total'

-- What the layout loop has computed: the stores placed so far, the entries, the first payload
-- base, the sum of the byte counts and the cursor.
pub record Placed : Type 0 where
  pub stores : List Store
  pub entries : List WriteEntry
  pub payload_base : ℕ
  pub total : ℕ
  pub cursor : ℕ

-- The stores still to be placed, from the cursor on.
unfoldable pub place_stores : List Store → List WriteEntry → ℕ → ℕ → ℕ → Placed
place_stores [] es payload_base total cursor = record {
  stores = [];
  entries = es;
  payload_base = payload_base;
  total = total;
  cursor = cursor;
}
place_stores (store ∷ rest) es payload_base total cursor =
    let base = align_up_u64 cursor store.block_size in
    let (es', total') = place_entries store.entry_count base store.entry_start es total in
    let first = if payload_base == 0 then base else payload_base in
    let placed = place_stores rest es' first total' (u64 (base + store.payload_size)) in
    record placed { stores = record store { payload_base = base } ∷ placed.stores }

unfoldable pub place_payload : Plan → ℕ → Plan
place_payload plan cursor =
    let placed =
      place_stores plan.stores plan.entries plan.payload_base plan.total_payload_bytes cursor in
    record plan {
      stores = placed.stores;
      entries = placed.entries;
      payload_base = placed.payload_base;
      header_size = placed.payload_base;
      total_payload_bytes = placed.total;
    }
