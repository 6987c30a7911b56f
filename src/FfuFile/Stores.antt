-- ===== src/FfuFile/Stores.antt =====
-- The store loop of `ffu_parse` in src/src/ffu.c, and the whole of it.
use ufp_ffu_device_efi.Prelude.{
  ℕ, zero, suc, ◌+◌, ◌-◌, ◌*◌, List, ◌++◌, Bool, true, false, ltb, ◌||◌, ◌!=◌, ◌==◌, if◌then◌else◌,
}
use ufp_ffu_device_efi.Word.{u32, u64}
use ufp_ffu_device_efi.Bytes.{rd_le16, rd_le32, rd_le64, align_up_u64}
use ufp_ffu_device_efi.Efi.{ok, stuck, refuse, efi_volume_corrupted, efi_unsupported}
use ufp_ffu_device_efi.Proto.{max_payload_data}
use ufp_ffu_device_efi.Ffu.{
  Plan, empty_plan, append_store, append_entry, store_header_v1_size, store_header_v2_base_size,
}
use ufp_ffu_device_efi.Ffu.Stores.{
  Descriptors, StoreHead, StoreScan, OpenStore, first_descriptor, store_of,
}
use ufp_ffu_device_efi.Ffu.Layout.{place_payload}
use ufp_ffu_device_efi.Ffu.Parse.{store_fuel}
use ufp_ffu_device_efi.FfuFile.{Reading, ◌>>=◌, ◌>>◌, pure, FileIo, file_read_exact, file_headers}

module _ {F : Type 0} (io : FileIo F) where
  -- The extension of a V2 store header; `sh` holds the first 248 bytes.
  unfoldable pub file_store_extension : List ℕ → ℕ → ℕ → Reading F StoreHead
  file_store_extension sh cursor desired =
      if rd_le16 sh 4 == 2
      then (do
        let more_size = store_header_v2_base_size - store_header_v1_size
        more ← file_read_exact io cursor more_size
        let bytes = sh ++ more
        let device_path_len = rd_le16 bytes 260
        pure (refuse (rd_le16 bytes 248 == 0 || device_path_len == 0) efi_volume_corrupted)
        pure (
            ok (record {
              bytes = bytes;
              cursor = u64 (u64 (cursor + more_size) + device_path_len * 2);
              desired = rd_le16 bytes 248;
              payload_size = rd_le64 bytes 252;
            })))
      else pure (ok (record { bytes = sh; cursor = cursor; desired = desired; payload_size = 0 }))

  -- The first part of a round of the store loop.
  unfoldable pub file_open_store : StoreScan → Reading F OpenStore
  file_open_store s = do
    let header_offset = align_up_u64 s.cursor s.parser.plan.chunk_size
    sh ← file_read_exact io header_offset store_header_v1_size
    head ← file_store_extension sh (u64 (header_offset + store_header_v1_size)) s.desired
    pure (
        refuse
          (rd_le32 head.bytes 0 != 0 || rd_le16 head.bytes 8 != 2 || rd_le16 head.bytes 10 != 0)
          efi_volume_corrupted)
    let block_size = rd_le32 head.bytes 204
    let desc_count = rd_le32 head.bytes 208
    pure (
        refuse (block_size == 0 || ltb max_payload_data block_size || desc_count == 0)
          efi_volume_corrupted)
    pure (
        ok (record {
          header_offset = header_offset;
          head = head;
          block_size = block_size;
          desc_count = desc_count;
        }))

  module _ (pool : ℕ → ℕ → Bool) where
    -- A round of the descriptor loop.
    unfoldable pub file_entry : ℕ → ℕ → Descriptors → Reading F Descriptors
    file_entry block_size store_index d = do
      wh ← file_read_exact io d.descriptor_cursor 8
      let loc_count = rd_le32 wh 0
      let block_count = rd_le32 wh 4
      pure (refuse (loc_count == 0 || block_count == 0) efi_volume_corrupted)
      let byte_count = u64 (block_size * block_count)
      pure (refuse (ltb 0xffff_ffff byte_count) efi_unsupported)
      parser ← pure (
          append_entry pool d.parser (record {
            payload_offset = d.rel_payload;
            descriptor_offset = d.descriptor_cursor;
            byte_count = u32 byte_count;
            block_count = block_count;
            location_count = loc_count;
            store_index = store_index;
          }))
      pure (
          ok (record {
            parser = parser;
            rel_payload = u64 (d.rel_payload + byte_count);
            descriptor_cursor = u64 (d.descriptor_cursor + (8 + loc_count * 8));
          }))

    -- `count` more rounds.
    unfoldable pub file_entries : ℕ → ℕ → ℕ → Descriptors → Reading F Descriptors
    file_entries zero block_size store_index d = pure (ok d)
    file_entries (suc count) block_size store_index d = do
      d' ← file_entry block_size store_index d
      file_entries count block_size store_index d'

    -- A round of the store loop.
    unfoldable pub file_store : StoreScan → Reading F StoreScan
    file_store s = do
      o ← file_open_store s
      d ← file_entries o.desc_count o.block_size s.parser.plan.store_count (first_descriptor s o)
      parser ← pure (append_store pool d.parser (store_of s o d))
      pure (ok (record { parser = parser; cursor = d.descriptor_cursor; desired = o.head.desired }))

    -- `while (plan->store_count < desired_store_count)` on fuel.
    unfoldable pub file_stores : ℕ → StoreScan → Reading F StoreScan
    file_stores zero s = pure stuck
    file_stores (suc fuel) s = elim (ltb s.parser.plan.store_count s.desired) [
      | true ↦ file_store s >>= λ s'. file_stores fuel s'
      | false ↦ pure (ok s)
    ]

    -- On a view that is not null, of a file of `size` bytes.
    unfoldable pub ffu_parse : ℕ → Reading F Plan
    ffu_parse size = do
      (plan, cursor) ← file_headers io size (record empty_plan { file_size = size })
      scan ← file_stores store_fuel (record {
        parser = record { plan = plan; store_cap = 0; entry_cap = 0; allocs = 0 };
        cursor = cursor;
        desired = 1;
      })
      let plan' = place_payload scan.parser.plan scan.cursor
      pure (refuse (plan'.header_size == 0 || ltb size plan'.header_size) efi_volume_corrupted)
      pure (ok plan')
