-- ===== src/Ffu/Parse.antt =====
-- `ffu_parse_header_bytes` of src/src/ffu.c.
use ufp_ffu_device_efi.Prelude.{ℕ, List, Option, none, some, Bool, ltb, ◌||◌, ◌==◌}
use ufp_ffu_device_efi.Efi.{
  Outcome, ok, err, ◌>>=◌, ◌>>◌, refuse, efi_end_of_file, efi_invalid_parameter,
}
use ufp_ffu_device_efi.Ffu.{Plan, empty_plan}
use ufp_ffu_device_efi.Ffu.Header.{read_headers}
use ufp_ffu_device_efi.Ffu.Stores.{read_stores}
use ufp_ffu_device_efi.Ffu.Layout.{place_payload}

-- A round of the store loop adds a store, and a store count is below 2 ^ 16: this many rounds are
-- enough.
abbrev pub store_fuel : ℕ
store_fuel = 0x1_0001

module _ (pool : ℕ → ℕ → Bool) where
  -- A parse that fails leaves a plan that the callers free: only its status counts.
  unfoldable pub ffu_parse_header_bytes : Option (List ℕ) → ℕ → Outcome Plan
  ffu_parse_header_bytes none size = err efi_invalid_parameter
  ffu_parse_header_bytes (some data') size = do
    (plan, cursor) ← read_headers data' size (record empty_plan { file_size = size })
    scan ← read_stores pool data' size store_fuel (record {
      parser = record { plan = plan; store_cap = 0; entry_cap = 0; allocs = 0 };
      cursor = cursor;
      desired = 1;
    })
    let plan' = place_payload scan.parser.plan scan.cursor
    refuse (plan'.header_size == 0 || ltb size plan'.header_size) efi_end_of_file
    ok plan'
