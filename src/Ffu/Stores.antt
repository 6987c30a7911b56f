-- ===== src/Ffu/Stores.antt =====
-- The store headers and their write descriptors, as `ffu_parse_header_bytes` of src/src/ffu.c
-- reads them.
use ufp_ffu_device_efi.Prelude.{
  ℕ, zero, suc, ◌+◌, ◌-◌, ◌*◌, List, ◌++◌, Bool, true, false, ltb, ◌||◌, ◌!=◌, ◌==◌, if◌then◌else◌,
}
use ufp_ffu_device_efi.Word.{u32, u64}
use ufp_ffu_device_efi.Bytes.{rd_le16, rd_le32, rd_le64, align_up_u64}
use ufp_ffu_device_efi.Efi.{
  Outcome, ok, stuck, ◌>>=◌, ◌>>◌, refuse, efi_end_of_file, efi_volume_corrupted, efi_unsupported,
}
use ufp_ffu_device_efi.Proto.{max_payload_data}
use ufp_ffu_device_efi.Ffu.{
  Store, Parser, append_store, append_entry, store_header_v1_size, store_header_v2_base_size,
}
use ufp_ffu_device_efi.Ffu.Read.{mem_read_exact}

-- What the locals of the descriptor loop hold between two rounds.
pub record Descriptors : Type 0 where
  pub parser : Parser
  pub rel_payload : ℕ
  pub descriptor_cursor : ℕ

-- What a store header's extension sets.
pub record StoreHead : Type 0 where
  pub bytes : List ℕ
  pub cursor : ℕ
  pub desired : ℕ
  pub payload_size : ℕ

-- What the locals of the store loop hold between two rounds.
pub record StoreScan : Type 0 where
  pub parser : Parser
  pub cursor : ℕ
  pub desired : ℕ

-- What the first part of a round of the store loop sets.
pub record OpenStore : Type 0 where
  pub header_offset : ℕ
  pub head : StoreHead
  pub block_size : ℕ
  pub desc_count : ℕ

-- The descriptor loop's locals before its first round.
abbrev pub first_descriptor : StoreScan → OpenStore → Descriptors
first_descriptor s o = record {
  parser = s.parser;
  rel_payload = 0;
  descriptor_cursor = o.head.cursor;
}

-- The store that a round appends.
abbrev pub store_of : StoreScan → OpenStore → Descriptors → Store
store_of s o d = record {
  header_offset = o.header_offset;
  payload_base = 0;
  payload_size = if o.head.payload_size == 0 then d.rel_payload else o.head.payload_size;
  descriptor_base = o.head.cursor;
  block_size = o.block_size;
  descriptor_count = o.desc_count;
  entry_start = s.parser.plan.entry_count;
  entry_count = o.desc_count;
}

module _ (pool : ℕ → ℕ → Bool) (data' : List ℕ) (size : ℕ) where
  -- A round of the descriptor loop.
  unfoldable pub read_entry : ℕ → ℕ → Descriptors → Outcome Descriptors
  read_entry block_size store_index d = do
    wh ← mem_read_exact data' size d.descriptor_cursor 8
    let loc_count = rd_le32 wh 0
    let block_count = rd_le32 wh 4
    refuse (loc_count == 0 || block_count == 0) efi_volume_corrupted
    refuse (ltb size (u64 (d.descriptor_cursor + 8 + loc_count * 8))) efi_end_of_file
    let byte_count = u64 (block_size * block_count)
    refuse (ltb 0xffff_ffff byte_count) efi_unsupported
    parser ← append_entry pool d.parser (record {
      payload_offset = d.rel_payload;
      descriptor_offset = d.descriptor_cursor;
      byte_count = u32 byte_count;
      block_count = block_count;
      location_count = loc_count;
      store_index = store_index;
    })
    ok (record {
      parser = parser;
      rel_payload = u64 (d.rel_payload + byte_count);
      descriptor_cursor = u64 (d.descriptor_cursor + (8 + loc_count * 8));
    })

  -- `count` more rounds.
  unfoldable pub read_entries : ℕ → ℕ → ℕ → Descriptors → Outcome Descriptors
  read_entries zero block_size store_index d = ok d
  read_entries (suc count) block_size store_index d = do
    d' ← read_entry block_size store_index d
    read_entries count block_size store_index d'

  -- The extension of a V2 store header; `sh` holds the first 248 bytes and the cursor is behind
  -- them.
  unfoldable pub read_extension : List ℕ → ℕ → ℕ → Outcome StoreHead
  read_extension sh cursor desired =
      if rd_le16 sh 4 == 2
      then (do
        let more_size = store_header_v2_base_size - store_header_v1_size
        more ← mem_read_exact data' size cursor more_size
        let bytes = sh ++ more
        let device_path_len = rd_le16 bytes 260
        refuse (rd_le16 bytes 248 == 0 || device_path_len == 0) efi_volume_corrupted
        let cursor' = u64 (u64 (cursor + more_size) + device_path_len * 2)
        refuse (ltb size cursor') efi_end_of_file
        ok (record {
          bytes = bytes;
          cursor = cursor';
          desired = rd_le16 bytes 248;
          payload_size = rd_le64 bytes 252;
        }))
      else ok (record { bytes = sh; cursor = cursor; desired = desired; payload_size = 0 })

  -- The first part of a round of the store loop: the store's header and the checks on it.
  unfoldable pub open_store : StoreScan → Outcome OpenStore
  open_store s = do
    let header_offset = align_up_u64 s.cursor s.parser.plan.chunk_size
    sh ← mem_read_exact data' size header_offset store_header_v1_size
    head ← read_extension sh (u64 (header_offset + store_header_v1_size)) s.desired
    refuse (rd_le32 head.bytes 0 != 0 || rd_le16 head.bytes 8 != 2 || rd_le16 head.bytes 10 != 0)
        efi_volume_corrupted
    let block_size = rd_le32 head.bytes 204
    let desc_count = rd_le32 head.bytes 208
    refuse (block_size == 0 || ltb max_payload_data block_size || desc_count == 0)
        efi_volume_corrupted
    ok (record {
      header_offset = header_offset;
      head = head;
      block_size = block_size;
      desc_count = desc_count;
    })

  -- A round of the store loop.
  unfoldable pub read_store : StoreScan → Outcome StoreScan
  read_store s = do
    o ← open_store s
    d ← read_entries o.desc_count o.block_size s.parser.plan.store_count (first_descriptor s o)
    parser ← append_store pool d.parser (store_of s o d)
    ok (record { parser = parser; cursor = d.descriptor_cursor; desired = o.head.desired })

  -- `while (plan->store_count < desired_store_count)` on fuel.
  unfoldable pub read_stores : ℕ → StoreScan → Outcome StoreScan
  read_stores zero s = stuck
  read_stores (suc fuel) s = elim (ltb s.parser.plan.store_count s.desired) [
    | true ↦ read_store s >>= λ s'. read_stores fuel s'
    | false ↦ ok s
  ]
