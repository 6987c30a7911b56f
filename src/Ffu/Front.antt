-- ===== src/Ffu/Front.antt =====
-- The parser of src/src/ffu.c reads no more of a header in memory than its given size: what lies
-- behind the header in its buffer does not matter.
use ufp_ffu_device_efi.Prelude.{
  ℕ, zero, suc, ◌+◌, ◌-◌, ◌≤◌, ◌≡◌, refl, sym, ap, ◌∙◌, arith, List, [], ◌∷◌, Bool, some, ltb, ◌||◌,
  take, inl, inr, Bool-cases,
}
use ufp_ffu_device_efi.Prelude.Buffer.{slice, take_or}
use ufp_ffu_device_efi.Ffu.{Plan}
use ufp_ffu_device_efi.Ffu.Read.{mem_read_exact, read_location_mem}
use ufp_ffu_device_efi.Ffu.Header.{
  read_image_extension, skip_descriptors, read_security, read_image, read_headers,
}
use ufp_ffu_device_efi.Ffu.Stores.{
  Descriptors, StoreScan, read_entry, read_entries, read_extension, open_store, read_store,
  read_stores,
}
use ufp_ffu_device_efi.Ffu.Parse.{ffu_parse_header_bytes}

take_or-take :
    {A : Type 0} (k n : ℕ) (d : A) (xs : List A) → k ≤ n → take_or k d (take n xs) ≡ take_or k d xs
take_or-take zero n d xs h = refl
take_or-take (suc k) zero d xs h = absurd (omega arith)
take_or-take (suc k) (suc n) d [] h = refl
take_or-take (suc k) (suc n) d (x ∷ xs) h = ap (◌∷◌ x) (take_or-take k n d xs (omega arith))

slice-take :
    {A : Type 0} (n off k : ℕ) (d : A) (xs : List A)
    → off + k ≤ n
    → slice d (take n xs) off k ≡ slice d xs off k
slice-take n zero k d xs h = take_or-take k n d xs (omega arith)
slice-take zero (suc off) k d xs h = absurd (omega arith)
slice-take (suc n) (suc off) k d [] h = refl
slice-take (suc n) (suc off) k d (x ∷ xs) h = slice-take n off k d xs (omega arith)

-- A buffer with the header's bytes at its front.
module _ (buf bytes : List ℕ) (size : ℕ) (front : take size buf ≡ bytes) where
  pub mem_read_exact-front :
      (offset len : ℕ) → mem_read_exact buf size offset len ≡ mem_read_exact bytes size offset len
  unfolding mem_read_exact
  mem_read_exact-front offset len = elim (Bool-cases (ltb size offset || ltb (size - offset) len)) [
    | inl past ↦ rw past refl
    | inr inside ↦
        let same : slice 0 buf offset len ≡ slice 0 bytes offset len =
          sym (slice-take size offset len 0 buf (ground arith))
          ∙ ap (λ xs. slice 0 xs offset len) front in
        rw (inside, same) refl
  ]

  pub read_location_mem-front :
      (descriptor_offset index : ℕ)
      → read_location_mem buf size descriptor_offset index
        ≡ read_location_mem bytes size descriptor_offset index
  unfolding read_location_mem
  read_location_mem-front descriptor_offset index = simp mem_read_exact-front

  read_image_extension-front :
      (img : List ℕ) (cursor : ℕ) (plan : Plan)
      → read_image_extension buf size img cursor plan
        ≡ read_image_extension bytes size img cursor plan
  unfolding read_image_extension
  read_image_extension-front img cursor plan = simp mem_read_exact-front

  skip_descriptors-front :
      (count cursor : ℕ)
      → skip_descriptors buf size count cursor ≡ skip_descriptors bytes size count cursor
  unfolding skip_descriptors
  skip_descriptors-front zero cursor = refl
  skip_descriptors-front (suc count) cursor =
      simp (mem_read_exact-front, skip_descriptors-front count)

  read_security-front : (plan : Plan) → read_security buf size plan ≡ read_security bytes size plan
  unfolding read_security
  read_security-front plan = simp mem_read_exact-front

  read_image-front :
      (plan : Plan) (cursor : ℕ)
      → read_image buf size plan cursor ≡ read_image bytes size plan cursor
  unfolding read_image
  read_image-front plan cursor = simp (mem_read_exact-front, read_image_extension-front)

  read_headers-front : (plan : Plan) → read_headers buf size plan ≡ read_headers bytes size plan
  unfolding read_headers
  read_headers-front plan = simp (read_security-front, read_image-front, skip_descriptors-front)

  module _ (pool : ℕ → ℕ → Bool) where
    read_extension-front :
        (sh : List ℕ) (cursor desired : ℕ)
        → read_extension pool buf size sh cursor desired
          ≡ read_extension pool bytes size sh cursor desired
    unfolding read_extension
    read_extension-front sh cursor desired = simp mem_read_exact-front

    read_entry-front :
        (block_size store_index : ℕ) (d : Descriptors)
        → read_entry pool buf size block_size store_index d
          ≡ read_entry pool bytes size block_size store_index d
    unfolding read_entry
    read_entry-front block_size store_index d = simp mem_read_exact-front

    read_entries-front :
        (count block_size store_index : ℕ) (d : Descriptors)
        → read_entries pool buf size count block_size store_index d
          ≡ read_entries pool bytes size count block_size store_index d
    unfolding read_entries
    read_entries-front zero block_size store_index d = refl
    read_entries-front (suc count) block_size store_index d =
        simp (read_entry-front, read_entries-front count)

    open_store-front : (s : StoreScan) → open_store pool buf size s ≡ open_store pool bytes size s
    unfolding open_store
    open_store-front s = simp (mem_read_exact-front, read_extension-front)

    read_store-front : (s : StoreScan) → read_store pool buf size s ≡ read_store pool bytes size s
    unfolding read_store
    read_store-front s = simp (open_store-front, read_entries-front)

    read_stores-front :
        (fuel : ℕ) (s : StoreScan)
        → read_stores pool buf size fuel s ≡ read_stores pool bytes size fuel s
    unfolding read_stores
    read_stores-front zero s = refl
    read_stores-front (suc fuel) s = elim (Bool-cases (ltb s.parser.plan.store_count s.desired)) [
      | inl more ↦ rw (more, read_stores) (simp (read_store-front, read_stores-front fuel))
      | inr done ↦ rw (done, read_stores) refl
    ]

    -- The parser comes to the same on the buffer and on the header alone.
    pub ffu_parse_header_bytes-front :
        ffu_parse_header_bytes pool (some buf) size ≡ ffu_parse_header_bytes pool (some bytes) size
    unfolding ffu_parse_header_bytes
    ffu_parse_header_bytes-front = simp (read_headers-front, read_stores-front)
