-- ===== src/Ffu/Total.antt =====
-- The parser ends on every input: no loop of it runs out of its fuel.
use ufp_ffu_device_efi.Prelude.{
  ℕ, zero, suc, ◌+◌, ◌^◌, ◌<◌, ◌≡◌, ◌≢◌, ◌⊎◌, inl, inr, refl, ap, arith, List, ◌++◌, Bool, true,
  false, ltb, ◌||◌, ◌==◌, some, Bool-cases, ltb→lt,
}
use ufp_ffu_device_efi.Prelude.Buffer.{slice}
use ufp_ffu_device_efi.Word.{u64}
use ufp_ffu_device_efi.Bytes.{align_up_u64}
use ufp_ffu_device_efi.Bytes.Order.{rd_le16-lt}
use ufp_ffu_device_efi.Efi.{
  Outcome, ok, err, stuck, efi_end_of_file, ◌>>=◌, ◌>>◌, refuse, >>=-eq-ok, outcome_cases,
}
use ufp_ffu_device_efi.Ffu.{Store, Plan, Parser, append_store, append_entry, empty_plan}
use ufp_ffu_device_efi.Ffu.Read.{mem_read_exact}
use ufp_ffu_device_efi.Ffu.Header.{
  take_security, take_image_size, take_image_fields, read_image_extension, skip_descriptors,
  descriptor_skip, read_security, read_image, read_headers,
}
use ufp_ffu_device_efi.Ffu.Stores.{
  Descriptors, StoreScan, OpenStore, read_entry, read_entries, read_extension, open_store,
  read_store, read_stores, first_descriptor, store_of,
}
use ufp_ffu_device_efi.Ffu.Tables.{plan-append_store}
use ufp_ffu_device_efi.Ffu.Layout.{place_payload}
use ufp_ffu_device_efi.Ffu.Parse.{store_fuel, ffu_parse_header_bytes}

>>=-ne-stuck :
    {A B : Type 0} (m : Outcome A) (f : A → Outcome B)
    → m ≢ stuck
    → ((a : A) → m ≡ ok a → f a ≢ stuck)
    → (m >>= f) ≢ stuck
>>=-ne-stuck (ok a) f h k = k a refl
>>=-ne-stuck (err e) f h k = λ p. cc
>>=-ne-stuck stuck f h k = λ p. h refl

ok-ne-stuck : {A : Type 0} (a : A) → ok a ≢ stuck
ok-ne-stuck a = λ p. cc

refuse-ne-stuck : (b : Bool) (st : ℕ) → refuse b st ≢ stuck
refuse-ne-stuck true st = λ p. cc
refuse-ne-stuck false st = λ p. cc

module _ (data' : List ℕ) (size : ℕ) where
  mem_read_exact-ne-stuck : (offset len : ℕ) → mem_read_exact data' size offset len ≢ stuck
  unfolding mem_read_exact
  mem_read_exact-ne-stuck offset len = ground arith

  skip_descriptors-ne-stuck : (count cursor : ℕ) → skip_descriptors data' size count cursor ≢ stuck
  unfolding skip_descriptors
  skip_descriptors-ne-stuck zero cursor = λ p. cc
  skip_descriptors-ne-stuck (suc count) cursor =
      >>=-ne-stuck _ _ (mem_read_exact-ne-stuck cursor 28) λ vd _.
        >>=-ne-stuck _ _ (refuse-ne-stuck (ltb size (u64 (cursor + (28 + descriptor_skip vd)))) _)
          λ _ _. skip_descriptors-ne-stuck count _

  read_security-ne-stuck : (p : Plan) → read_security data' size p ≢ stuck
  unfolding read_security take_security mem_read_exact
  read_security-ne-stuck p = ground arith

  read_image-ne-stuck : (p : Plan) (at : ℕ) → read_image data' size p at ≢ stuck
  unfolding read_image take_image_size take_image_fields read_image_extension mem_read_exact
  read_image-ne-stuck p at = ground arith

  read_headers-ne-stuck : (p : Plan) → read_headers data' size p ≢ stuck
  unfolding read_headers
  read_headers-ne-stuck p = >>=-ne-stuck _ _ (read_security-ne-stuck p) λ secured _.
      >>=-ne-stuck _ _ (read_image-ne-stuck secured.0 secured.1) λ imaged _.
        >>=-ne-stuck _ _ (skip_descriptors-ne-stuck imaged.0.validation_descriptor_count imaged.1)
          λ cursor _ p. cc

module _ (pool : ℕ → ℕ → Bool) (data' : List ℕ) (size : ℕ) where
  read_entry-ne-stuck : (bs k : ℕ) (d : Descriptors) → read_entry pool data' size bs k d ≢ stuck
  unfolding read_entry append_entry mem_read_exact
  read_entry-ne-stuck bs k d = ground arith

  read_entries-ne-stuck :
      (count bs k : ℕ) (d : Descriptors) → read_entries pool data' size count bs k d ≢ stuck
  unfolding read_entries
  read_entries-ne-stuck zero bs k d = λ p. cc
  read_entries-ne-stuck (suc count) bs k d =
      >>=-ne-stuck _ _ (read_entry-ne-stuck bs k d) λ d' _. read_entries-ne-stuck count bs k d'

  open_store-ne-stuck : (s : StoreScan) → open_store pool data' size s ≢ stuck
  unfolding open_store read_extension mem_read_exact
  open_store-ne-stuck s = ground arith

  append_store-ne-stuck : (p : Parser) (t : Store) → append_store pool p t ≢ stuck
  unfolding append_store
  append_store-ne-stuck p t = ground arith

  read_store-ne-stuck : (s : StoreScan) → read_store pool data' size s ≢ stuck
  unfolding read_store
  read_store-ne-stuck s = >>=-ne-stuck _ _ (open_store-ne-stuck s) λ o _.
      >>=-ne-stuck _ _
        (read_entries-ne-stuck o.desc_count o.block_size s.parser.plan.store_count
          (first_descriptor s o))
        λ d _. >>=-ne-stuck _ _ (append_store-ne-stuck d.parser (store_of s o d)) λ p _ q. cc

  -- The descriptor loop does not count stores.
  store_count-read_entry :
      (bs k : ℕ) (d : Descriptors) {d' : Descriptors}
      → read_entry pool data' size bs k d ≡ ok d'
      → d'.parser.plan.store_count ≡ d.parser.plan.store_count
  unfolding read_entry append_entry mem_read_exact
  store_count-read_entry bs k d h = ground arith

  store_count-read_entries :
      (count bs k : ℕ) (d : Descriptors) {d' : Descriptors}
      → read_entries pool data' size count bs k d ≡ ok d'
      → d'.parser.plan.store_count ≡ d.parser.plan.store_count
  unfolding read_entries
  store_count-read_entries zero bs k d h = ground arith
  store_count-read_entries (suc count) bs k d {d'} h =
      let (d₁, e, r) = >>=-eq-ok (read_entry pool data' size bs k d) _ h in
      omega (
        arith,
        store_count-read_entry bs k d {d' = d₁} e,
        store_count-read_entries count bs k d₁ {d' = d'} r,
      )

  desired-open_store :
      (s : StoreScan) {o : OpenStore}
      → s.desired < 2 ^ 16
      → open_store pool data' size s ≡ ok o
      → o.head.desired < 2 ^ 16
  unfolding open_store read_extension mem_read_exact
  desired-open_store s {o} fits h = ground (
    arith,
    rd_le16-lt
        (slice 0 data' (align_up_u64 s.cursor s.parser.plan.chunk_size) 248
          ++ slice 0 data' (u64 (align_up_u64 s.cursor s.parser.plan.chunk_size + 248)) 14)
        248,
  )

  -- A round adds one store, and fewer than 2 ^ 16 are desired after it.
  read_store-counts :
      (s : StoreScan) {s' : StoreScan}
      → s.desired < 2 ^ 16
      → s.parser.plan.store_count < s.desired
      → read_store pool data' size s ≡ ok s'
      → (s'.parser.plan.store_count ≡ s.parser.plan.store_count + 1) × (s'.desired < 2 ^ 16)
  unfolding read_store
  read_store-counts s {s'} fits more h =
      let (o, e1, h1) = >>=-eq-ok (open_store pool data' size s) _ h in
      let (d, e2, h2) =
        >>=-eq-ok
          (read_entries pool data' size o.desc_count o.block_size s.parser.plan.store_count
            (first_descriptor s o))
          _ h1 in
      let (p, e3, h3) = >>=-eq-ok (append_store pool d.parser (store_of s o d)) _ h2 in
      ground (
        arith,
        ap (λ (q : Plan). q.store_count) (plan-append_store pool d.parser (store_of s o d) e3),
        store_count-read_entries o.desc_count o.block_size s.parser.plan.store_count
            (first_descriptor s o) {d' = d} e2,
        desired-open_store s {o = o} fits e1,
        h3,
      )

  read_stores-ne-stuck :
      (fuel : ℕ) (s : StoreScan)
      → s.desired < 2 ^ 16
      → 2 ^ 16 < fuel + s.parser.plan.store_count + 1
      → 0 < fuel
      → read_stores pool data' size fuel s ≢ stuck
  unfolding read_stores
  read_stores-ne-stuck zero s fits enough some' = absurd (omega arith)
  read_stores-ne-stuck (suc fuel) s fits enough some' =
      elim (Bool-cases (ltb s.parser.plan.store_count s.desired)) [
        | inl more ↦
            rw (more, read_stores)
              (>>=-ne-stuck _ _ (read_store-ne-stuck s) λ s₁ e.
                let counts = read_store-counts s {s' = s₁} fits (ltb→lt _ _ more) e in
                read_stores-ne-stuck fuel s₁ counts.1 (omega (arith, counts))
                  (omega (arith, counts, ltb→lt _ _ more)))
        | inr done ↦ rw (done, read_stores) (λ p. cc)
      ]

  checked-ne-stuck :
      (q : Plan)
      → (refuse (q.header_size == 0 || ltb size q.header_size) efi_end_of_file >> ok q) ≢ stuck
  checked-ne-stuck q =
      >>=-ne-stuck (refuse (q.header_size == 0 || ltb size q.header_size) efi_end_of_file)
        (λ _. ok q) (refuse-ne-stuck _ _) λ _ _. ok-ne-stuck q

  ffu_parse_header_bytes-ne-stuck : ffu_parse_header_bytes pool (some data') size ≢ stuck
  unfolding ffu_parse_header_bytes
  ffu_parse_header_bytes-ne-stuck =
      >>=-ne-stuck _ _ (read_headers-ne-stuck data' size (record empty_plan { file_size = size }))
        λ r _.
          >>=-ne-stuck _ _
            (read_stores-ne-stuck store_fuel _ (omega arith) (omega arith) (omega arith))
            λ scan _. checked-ne-stuck (place_payload scan.parser.plan scan.cursor)

-- Whatever the bytes, the given size and the outcomes of the allocations, the parser ends: it
-- returns a plan or an error status.
pub ffu_parse_header_bytes-ends :
    (pool : ℕ → ℕ → Bool) (data' : List ℕ) (size : ℕ)
    → ((p : Plan) × (ffu_parse_header_bytes pool (some data') size ≡ ok p))
      ⊎ ((st : ℕ) × (ffu_parse_header_bytes pool (some data') size ≡ err st))
ffu_parse_header_bytes-ends pool data' size =
    outcome_cases _ (ffu_parse_header_bytes-ne-stuck pool data' size)
