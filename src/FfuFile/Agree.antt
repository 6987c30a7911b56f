-- ===== src/FfuFile/Agree.antt =====
-- The two parsers of src/src/ffu.c on the same bytes: the stores, and the whole.
use ufp_ffu_device_efi.Prelude.{
  ℕ, zero, suc, ◌+◌, ◌-◌, ◌*◌, ◌≤◌, ◌≡◌, List, ◌++◌, Bool, some, ltb, ◌||◌, ◌==◌, ◌!=◌, length,
  Bool-cases, inl, inr,
}
use ufp_ffu_device_efi.Word.{u32, u64}
use ufp_ffu_device_efi.Bytes.{rd_le16, rd_le32, align_up_u64}
use ufp_ffu_device_efi.Efi.{ok, stuck, efi_end_of_file, efi_volume_corrupted, efi_unsupported}
use ufp_ffu_device_efi.Proto.{max_payload_data}
use ufp_ffu_device_efi.Ffu.{
  Plan, empty_plan, append_store, append_entry, store_header_v1_size, store_header_v2_base_size,
}
use ufp_ffu_device_efi.Ffu.Stores.{
  Descriptors, StoreScan, first_descriptor, store_of, read_entry, read_entries, read_extension,
  open_store, read_store, read_stores,
}
use ufp_ffu_device_efi.Ffu.Layout.{place_payload}
use ufp_ffu_device_efi.Ffu.Parse.{store_fuel, ffu_parse_header_bytes}
use ufp_ffu_device_efi.FfuFile.{FileIo}
use ufp_ffu_device_efi.FfuFile.Stores.{
  file_store_extension, file_open_store, file_entry, file_entries, file_store, file_stores,
  ffu_parse,
}
use ufp_ffu_device_efi.FfuFile.Follows.{
  PlainFile, Follows, Follows->>=, Follows-pure, Follows-refuse, Follows-unchecked, Follows-if,
  read-Follows, headers-Follows,
}

module _ {F : Type 0} (io : FileIo F) (bytes : List ℕ) (file : PlainFile io bytes)
    (pool : ℕ → ℕ → Bool) (size : ℕ) (inside : size ≤ length bytes) where
  entry-Follows :
      (block_size store_index : ℕ) (d : Descriptors)
      → Follows io bytes file
          (read_entry pool bytes size block_size store_index d)
          (file_entry io pool block_size store_index d)
  unfolding read_entry file_entry
  entry-Follows block_size store_index d =
      Follows->>= io bytes file _ _ _ _
        (read-Follows io bytes file size inside d.descriptor_cursor 8)
        (λ wh.
          let loc_count = rd_le32 wh 0 in
          let block_count = rd_le32 wh 4 in
          let byte_count = u64 (block_size * block_count) in
          Follows->>= io bytes file _ _ _ _
            (Follows-refuse io bytes file (loc_count == 0 || block_count == 0) efi_volume_corrupted
              efi_volume_corrupted)
            (λ _.
              Follows-unchecked io bytes file
                (ltb size (u64 (d.descriptor_cursor + 8 + loc_count * 8))) efi_end_of_file _ _
                (Follows->>= io bytes file _ _ _ _
                  (Follows-refuse io bytes file (ltb 0xffff_ffff byte_count) efi_unsupported
                    efi_unsupported)
                  (λ _.
                    Follows->>= io bytes file _ _ _ _
                      (Follows-pure io bytes file (
                        append_entry pool d.parser (record {
                          payload_offset = d.rel_payload;
                          descriptor_offset = d.descriptor_cursor;
                          byte_count = u32 byte_count;
                          block_count = block_count;
                          location_count = loc_count;
                          store_index = store_index;
                        })))
                      (λ parser. Follows-pure io bytes file _)))))

  entries-Follows :
      (count block_size store_index : ℕ) (d : Descriptors)
      → Follows io bytes file
          (read_entries pool bytes size count block_size store_index d)
          (file_entries io pool count block_size store_index d)
  unfolding read_entries file_entries
  entries-Follows zero block_size store_index d = Follows-pure io bytes file (ok d)
  entries-Follows (suc count) block_size store_index d =
      Follows->>= io bytes file _ _ _ _ (entry-Follows block_size store_index d)
        (λ d'. entries-Follows count block_size store_index d')

  extension-Follows :
      (sh : List ℕ) (cursor desired : ℕ)
      → Follows io bytes file
          (read_extension pool bytes size sh cursor desired)
          (file_store_extension io sh cursor desired)
  unfolding read_extension file_store_extension
  extension-Follows sh cursor desired =
      let more_size = store_header_v2_base_size - store_header_v1_size in
      Follows-if io bytes file (rd_le16 sh 4 == 2)
        (Follows->>= io bytes file _ _ _ _ (read-Follows io bytes file size inside cursor more_size)
          (λ more.
            let all = sh ++ more in
            let length' = rd_le16 all 260 in
            Follows->>= io bytes file _ _ _ _
              (Follows-refuse io bytes file (rd_le16 all 248 == 0 || length' == 0)
                efi_volume_corrupted efi_volume_corrupted)
              (λ _.
                Follows-unchecked io bytes file
                  (ltb size (u64 (u64 (cursor + more_size) + length' * 2))) efi_end_of_file _ _
                  (Follows-pure io bytes file _))))
        (Follows-pure io bytes file _)

  open_store-Follows :
      (s : StoreScan) → Follows io bytes file (open_store pool bytes size s) (file_open_store io s)
  unfolding open_store file_open_store
  open_store-Follows s =
      let offset = align_up_u64 s.cursor s.parser.plan.chunk_size in
      Follows->>= io bytes file _ _ _ _
        (read-Follows io bytes file size inside offset store_header_v1_size)
        (λ sh.
          Follows->>= io bytes file _ _ _ _
            (extension-Follows sh (u64 (offset + store_header_v1_size)) s.desired)
            (λ head.
              Follows->>= io bytes file _ _ _ _
                (Follows-refuse io bytes file
                  (rd_le32 head.bytes 0 != 0
                    || rd_le16 head.bytes 8 != 2
                    || rd_le16 head.bytes 10 != 0)
                  efi_volume_corrupted efi_volume_corrupted)
                (λ _.
                  Follows->>= io bytes file _ _ _ _
                    (Follows-refuse io bytes file
                      (rd_le32 head.bytes 204 == 0
                        || ltb max_payload_data (rd_le32 head.bytes 204)
                        || rd_le32 head.bytes 208 == 0)
                      efi_volume_corrupted efi_volume_corrupted)
                    (λ _. Follows-pure io bytes file _))))

  store-Follows :
      (s : StoreScan) → Follows io bytes file (read_store pool bytes size s) (file_store io pool s)
  unfolding read_store file_store
  store-Follows s = Follows->>= io bytes file _ _ _ _ (open_store-Follows s) (λ o.
      Follows->>= io bytes file _ _ _ _
        (entries-Follows o.desc_count o.block_size s.parser.plan.store_count (first_descriptor s o))
        (λ d.
          Follows->>= io bytes file _ _ _ _
            (Follows-pure io bytes file (append_store pool d.parser (store_of s o d)))
            (λ parser. Follows-pure io bytes file _)))

  stores-Follows :
      (fuel : ℕ) (s : StoreScan)
      → Follows io bytes file (read_stores pool bytes size fuel s) (file_stores io pool fuel s)
  unfolding read_stores file_stores
  stores-Follows zero s = Follows-pure io bytes file stuck
  stores-Follows (suc fuel) s = elim (Bool-cases (ltb s.parser.plan.store_count s.desired)) [
    | inl more ↦
        rw (more, read_stores, file_stores)
          (Follows->>= io bytes file _ _ _ _ (store-Follows s) (λ s'. stores-Follows fuel s'))
    | inr done ↦ rw (done, read_stores, file_stores) (Follows-pure io bytes file (ok s))
  ]

  -- On an open file that behaves as its protocol says, and that is at least as long as the size
  -- given: when the header parser accepts that much of its bytes, the file parser does too, with the
  -- same plan, and the file is left open.
  pub ffu_parse-ffu_parse_header_bytes :
      (s : F) (p : ℕ) {plan : Plan}
      → file.at s p
      → ffu_parse_header_bytes pool (some bytes) size ≡ ok plan
      → (s' : F) × (ffu_parse io pool size s ≡ (ok plan, s')) × ((p' : ℕ) × file.at s' p')
  unfolding ffu_parse ffu_parse_header_bytes
  ffu_parse-ffu_parse_header_bytes s p {plan} at accepted =
      Follows->>= io bytes file _ _ _ _
        (headers-Follows io bytes file size inside (record empty_plan { file_size = size }))
        (λ (plan, cursor).
          Follows->>= io bytes file _ _ _ _
            (stores-Follows store_fuel (record {
              parser = record { plan = plan; store_cap = 0; entry_cap = 0; allocs = 0 };
              cursor = cursor;
              desired = 1;
            }))
            (λ scan.
              let plan' = place_payload scan.parser.plan scan.cursor in
              Follows->>= io bytes file _ _ _ _
                (Follows-refuse io bytes file (plan'.header_size == 0 || ltb size plan'.header_size)
                  efi_end_of_file efi_volume_corrupted)
                (λ _. Follows-pure io bytes file (ok plan'))))
        plan s accepted (p, at)
