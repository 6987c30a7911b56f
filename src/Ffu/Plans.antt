-- ===== src/Ffu/Plans.antt =====
-- What an accepted FFU header describes: the plan that `ffu_parse_header_bytes` returns.
use mathlib.Core.Path.{subst}
use ufp_ffu_device_efi.Prelude.{
  ℕ, ◌*◌, ◌^◌, ◌<◌, ◌≤◌, ◌≡◌, ◌≢◌, ◌⊎◌, refl, ap, sym, ◌∙◌, arith, List, [], ◌∷◌, Bool, ltb, ◌||◌,
  ◌==◌, some, length, All,
}
use ufp_ffu_device_efi.Bytes.Align.{align_up_u64_lem}
use ufp_ffu_device_efi.Efi.{ok, ◌>>◌, refuse, >>=-eq-ok, efi_end_of_file}
use ufp_ffu_device_efi.Ffu.{WriteEntry, Store, Plan, empty_plan}
use ufp_ffu_device_efi.Ffu.Header.{read_headers}
use ufp_ffu_device_efi.Ffu.Headers.{IsHeader, IsFresh, read_headers-eq-ok}
use ufp_ffu_device_efi.Ffu.Stores.{StoreScan, read_stores}
use ufp_ffu_device_efi.Ffu.Scan.{IsScan, clear_tables, read_stores-IsScan}
use ufp_ffu_device_efi.Ffu.Tables.{Describes, end_of}
use ufp_ffu_device_efi.Ffu.Layout.{Placed, place_stores, place_payload}
use ufp_ffu_device_efi.Ffu.Placed.{Chained, IsPlaced, place_stores-IsPlaced, place_stores-first}
use ufp_ffu_device_efi.Ffu.Order.{Follow, Oversized, Chained-Follow}
use ufp_ffu_device_efi.Ffu.Parse.{store_fuel, ffu_parse_header_bytes}

pub record IsPlan (size : ℕ) (p : Plan) : Type 0 where
  pub header : IsHeader p
  pub sized : p.file_size ≡ size
  pub has_store : 0 < p.store_count
  pub stores_counted : p.store_count ≡ length p.stores
  pub entries_counted : p.entry_count ≡ length p.entries
  pub entries_few : 16 * p.entry_count ≤ size
  pub described : Describes size 0 0 p.stores p.entries
  pub read_to : ℕ
  pub chained : Chained read_to p.stores
  pub in_order : Follow read_to p.stores ⊎ Oversized p.stores
  pub behind : read_to ≤ p.header_size
  pub header_based : p.header_size ≡ p.payload_base
  pub header_inside : p.header_size ≤ size
  pub summed : p.total_payload_bytes ≡ end_of 0 p.entries

-- The scan that the parser starts the store loop with.
abbrev start : Plan → ℕ → StoreScan
start plan cursor = record {
  parser = record { plan = plan; store_cap = 0; entry_cap = 0; allocs = 0 };
  cursor = cursor;
  desired = 1;
}

start-IsScan :
    (size : ℕ) (plan : Plan) (cursor : ℕ)
    → IsFresh size plan
    → IsHeader plan
    → cursor ≤ size
    → IsScan (clear_tables plan) size (start plan cursor)
start-IsScan size plan cursor (_, _, _, stores, entries, no_stores, no_entries) header inside =
    record {
      headers = refl;
      described = subst (λ ts. Describes size 0 0 ts plan.entries) (sym no_stores) no_entries;
      unplaced = subst (All (λ (t : Store). t.payload_base ≡ 0)) (sym no_stores) tt;
      stores_counted = omega (arith, ap length no_stores);
      entries_counted = omega (arith, ap length no_entries);
      room = omega (arith, ap length no_entries);
      inside = inside;
      has_chunk = header.has_chunk;
      chunk_fits = header.chunk_fits;
      desired_some = omega arith;
      desired_fits = omega arith;
    }

-- The first payload does not start before the cursor that the stores are placed from.
first_behind :
    (size : ℕ) (ts : List Store) (es : List WriteEntry) (total cursor : ℕ)
    → size < 2 ^ 32
    → cursor ≤ size
    → 0 < length ts
    → Describes size 0 0 ts es
    → cursor ≤ (place_stores ts es 0 total cursor).payload_base
first_behind size [] es total cursor small inside some' d = absurd (omega arith)
first_behind size (t ∷ ts) es total cursor small inside some' d = ground (
  arith,
  align_up_u64_lem cursor t.block_size d.2.has_block (omega (arith, d.2.block_fits)),
  place_stores-first t ts es total cursor,
)

module _ (size : ℕ) (origin : Plan) (s : StoreScan) where
  placed-IsPlan :
      size < 2 ^ 32
      → IsScan (clear_tables origin) size s
      → IsFresh size origin
      → IsHeader origin
      → s.desired ≤ s.parser.plan.store_count
      → (place_payload s.parser.plan s.cursor).header_size ≢ 0
      → (place_payload s.parser.plan s.cursor).header_size ≤ size
      → IsPlan size (place_payload s.parser.plan s.cursor)
  unfolding place_payload
  placed-IsPlan small scan fresh header enough some' fits = record {
    header = omega (arith, header, chunk, catalog, hash, image, manifest);
    sized = ap (λ (q : Plan). q.file_size) scan.headers ∙ fresh.0;
    has_store = omega (arith, scan.desired_some);
    stores_counted = scan.stores_counted ∙ sym placed.same_stores;
    entries_counted =
        omega (arith, scan.entries_counted, ap length placed.entries, placed.same_length);
    entries_few = omega (arith, scan.entries_counted, scan.room, scan.inside);
    described = subst (Describes size 0 0 p.stores) (sym placed.entries) placed.described;
    read_to = s.cursor;
    chained = placed.chained;
    in_order =
        Chained-Follow size 0 0 s.cursor p.stores placed.moved small (omega (arith, scan.inside))
          placed.described placed.chained;
    behind =
        subst
          (λ b.
            s.cursor
            ≤ (place_stores plan.stores plan.entries b plan.total_payload_bytes
                s.cursor).payload_base)
          (sym no_base)
          (first_behind size plan.stores plan.entries plan.total_payload_bytes s.cursor small
            scan.inside (omega (arith, scan.desired_some, scan.stores_counted)) scan.described);
    header_based = refl;
    header_inside = fits;
    summed =
        placed.summed
        ∙ ap (λ a. end_of a placed.moved) no_total
        ∙ ap (end_of 0) (sym placed.entries);
  }
    where
      plan : Plan
      plan = s.parser.plan

      p : Placed
      p = place_stores plan.stores plan.entries plan.payload_base plan.total_payload_bytes s.cursor

      placed : IsPlaced size 0 0 plan.stores [] plan.entries plan.total_payload_bytes s.cursor p
      placed =
          place_stores-IsPlaced size 0 0 plan.stores [] plan.entries plan.payload_base
            plan.total_payload_bytes s.cursor refl (omega (arith, scan.inside)) scan.unplaced
            scan.described

      no_base : plan.payload_base ≡ 0
      no_base = ap (λ (q : Plan). q.payload_base) scan.headers ∙ fresh.1

      no_total : plan.total_payload_bytes ≡ 0
      no_total = ap (λ (q : Plan). q.total_payload_bytes) scan.headers ∙ fresh.2

      chunk : plan.chunk_size ≡ origin.chunk_size
      chunk = ap (λ (q : Plan). q.chunk_size) scan.headers

      catalog : plan.security_catalog_size ≡ origin.security_catalog_size
      catalog = ap (λ (q : Plan). q.security_catalog_size) scan.headers

      hash : plan.security_hash_size ≡ origin.security_hash_size
      hash = ap (λ (q : Plan). q.security_hash_size) scan.headers

      image : plan.image_header_size ≡ origin.image_header_size
      image = ap (λ (q : Plan). q.image_header_size) scan.headers

      manifest : plan.manifest_length ≡ origin.manifest_length
      manifest = ap (λ (q : Plan). q.manifest_length) scan.headers

checked :
    (size : ℕ) (q p : Plan)
    → (refuse (q.header_size == 0 || ltb size q.header_size) efi_end_of_file >> ok q) ≡ ok p
    → (q ≡ p) × (q.header_size ≢ 0) × (q.header_size ≤ size)
checked size q p h = ground arith

module _ (pool : ℕ → ℕ → Bool) where
  pub ffu_parse_header_bytes-IsPlan :
      (data' : List ℕ) (size : ℕ) {p : Plan}
      → size < 2 ^ 32
      → ffu_parse_header_bytes pool (some data') size ≡ ok p
      → IsPlan size p
  unfolding ffu_parse_header_bytes
  ffu_parse_header_bytes-IsPlan data' size {p} small h =
      let ((plan, cursor), e1, h1) =
        >>=-eq-ok (read_headers data' size (record empty_plan { file_size = size })) _ h in
      let (scan, e2, h2) =
        >>=-eq-ok (read_stores pool data' size store_fuel (start plan cursor)) _ h1 in
      let (fresh, header, inside) =
        read_headers-eq-ok size data' (record empty_plan { file_size = size }) {p' = plan}
          {cursor = cursor} e1 (refl, refl, refl, refl, refl, refl, refl) in
      let (inv, enough) =
        read_stores-IsScan pool data' size (clear_tables plan) store_fuel (start plan cursor)
          {s' = scan} small (start-IsScan size plan cursor fresh header inside) e2 in
      let (same, some', fits) = checked size (place_payload scan.parser.plan scan.cursor) p h2 in
      subst (IsPlan size) same
        (placed-IsPlan size plan scan small inv fresh header enough some' fits)
