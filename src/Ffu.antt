-- ===== src/Ffu.antt =====
-- src/include/ffu.h and the plan tables of src/src/ffu.c: what an FFU header describes.
use ufp_ffu_device_efi.Prelude.{ℕ, ◌+◌, ◌*◌, List, [], ◌∷◌, ◌++◌, Bool, ltb, ◌==◌, if◌then◌else◌}
use ufp_ffu_device_efi.Word.{u32, u64}
use ufp_ffu_device_efi.Efi.{Outcome, ok, err, efi_out_of_resources}
pub mod Read
pub mod Header
pub mod Stores
pub mod Layout
pub mod Parse
pub mod Tables
pub mod Entries
pub mod Scan
pub mod Order
pub mod Placed
pub mod Headers
pub mod Plans
pub mod Total
pub mod Front
pub mod Sample
mod Tests

abbrev pub security_header_size : ℕ
security_header_size = 32

abbrev pub image_header_v1_size : ℕ
image_header_v1_size = 24

abbrev pub image_header_v2_size : ℕ
image_header_v2_size = 28

abbrev pub store_header_v1_size : ℕ
store_header_v1_size = 248

abbrev pub store_header_v2_base_size : ℕ
store_header_v2_base_size = 262

-- FFU_WRITE_ENTRY
pub record WriteEntry : Type 0 where
  pub payload_offset : ℕ
  pub descriptor_offset : ℕ
  pub byte_count : ℕ
  pub block_count : ℕ
  pub location_count : ℕ
  pub store_index : ℕ

-- FFU_STORE
pub record Store : Type 0 where
  pub header_offset : ℕ
  pub payload_base : ℕ
  pub payload_size : ℕ
  pub descriptor_base : ℕ
  pub block_size : ℕ
  pub descriptor_count : ℕ
  pub entry_start : ℕ
  pub entry_count : ℕ

-- FFU_PLAN. The tables are lists of the elements below the counts.
pub record Plan : Type 0 where
  pub file_size : ℕ
  pub header_size : ℕ
  pub payload_base : ℕ
  pub chunk_size : ℕ
  pub security_catalog_size : ℕ
  pub security_hash_size : ℕ
  pub image_header_size : ℕ
  pub manifest_length : ℕ
  pub validation_descriptor_count : ℕ
  pub store_count : ℕ
  pub entry_count : ℕ
  pub total_payload_bytes : ℕ
  pub stores : List Store
  pub entries : List WriteEntry

-- `memset(plan, 0, sizeof(*plan))`
abbrev pub empty_plan : Plan
empty_plan = record {
  file_size = 0;
  header_size = 0;
  payload_base = 0;
  chunk_size = 0;
  security_catalog_size = 0;
  security_hash_size = 0;
  image_header_size = 0;
  manifest_length = 0;
  validation_descriptor_count = 0;
  store_count = 0;
  entry_count = 0;
  total_payload_bytes = 0;
  stores = [];
  entries = [];
}

-- The plan under construction with the locals `store_cap` and `entry_cap`, and the number of
-- allocations made so far.
pub record Parser : Type 0 where
  pub plan : Plan
  pub store_cap : ℕ
  pub entry_cap : ℕ
  pub allocs : ℕ

-- `plan->stores[plan->store_count++] = *store`
abbrev pub push_store : Parser → Store → Parser
push_store s store = record s {
  plan = record (s.plan) {
    store_count = u32 (s.plan.store_count + 1);
    stores = s.plan.stores ++ store ∷ [];
  };
}

-- `plan->entries[plan->entry_count++] = *entry`
abbrev pub push_entry : Parser → WriteEntry → Parser
push_entry s entry = record s {
  plan = record (s.plan) {
    entry_count = u32 (s.plan.entry_count + 1);
    entries = s.plan.entries ++ entry ∷ [];
  };
}

-- `pool k n` says whether the k-th allocation of a run, of n bytes, succeeds.
module _ (pool : ℕ → ℕ → Bool) where
  -- sizeof(FFU_STORE) is 48.
  unfoldable pub append_store : Parser → Store → Outcome Parser
  append_store s store =
      if ltb s.plan.store_count s.store_cap
      then ok (push_store s store)
      else let new_cap = if s.store_cap == 0 then 2 else u32 (s.store_cap * 2) in
        if pool s.allocs (u64 (new_cap * 48))
        then ok (push_store (record s { store_cap = new_cap; allocs = s.allocs + 1 }) store)
        else err efi_out_of_resources

  -- sizeof(FFU_WRITE_ENTRY) is 32.
  unfoldable pub append_entry : Parser → WriteEntry → Outcome Parser
  append_entry s entry =
      if ltb s.plan.entry_count s.entry_cap
      then ok (push_entry s entry)
      else let new_cap = if s.entry_cap == 0 then 64 else u32 (s.entry_cap * 2) in
        if pool s.allocs (u64 (new_cap * 32))
        then ok (push_entry (record s { entry_cap = new_cap; allocs = s.allocs + 1 }) entry)
        else err efi_out_of_resources
