-- ===== src/Stream/Kept.antt =====
-- What the writes of src/src/ffu.c's streaming flasher leave alone.
use ufp_ffu_device_efi.Prelude.{
  ℕ, zero, suc, ◌+◌, ◌/◌, ◌*◌, ◌≡◌, refl, arith, List, get_elem?, Option-cases, inl, inr,
}
use ufp_ffu_device_efi.Word.{u64}
use ufp_ffu_device_efi.Efi.{Outcome, ok, err, stuck, Run, ◌&>◌}
use ufp_ffu_device_efi.Ffu.{WriteEntry}
use ufp_ffu_device_efi.Ffu.Read.{read_location_mem}
use ufp_ffu_device_efi.Stream.{
  StreamFlash, note_sector, write_at, write_location, write_locations, stream_write_completed_entry,
}

-- The second context is the first but for the device and the last sector.
abbrev pub Kept : {D : Type 0} → StreamFlash D → StreamFlash D → Type 0
Kept ctx c = c ≡ record ctx { device = c.device; last_sector = c.last_sector }

Kept-trans : {D : Type 0} (a b c : StreamFlash D) → Kept a b → Kept b c → Kept a c
Kept-trans a b c h k = cc

module _ {D : Type 0} (write_blocks : D → ℕ → ℕ → List ℕ → ℕ × D) where
  Kept-&> :
      (ctx : StreamFlash D) (r : Run (StreamFlash D)) (f : StreamFlash D → Run (StreamFlash D))
      → Kept ctx r.1
      → ((c : StreamFlash D) → Kept c (f c).1)
      → Kept ctx (r &> f).1
  Kept-&> ctx (ok tt, c) f h k = Kept-trans ctx c (f c).1 h (k c)
  Kept-&> ctx (err st, c) f h k = h
  Kept-&> ctx (stuck, c) f h k = h

  write_at-Kept :
      (e : WriteEntry) (lba : ℕ) (ctx : StreamFlash D)
      → Kept ctx (write_at write_blocks e lba ctx).1
  unfolding write_at note_sector
  write_at-Kept e lba ctx = ground arith

  pub write_location-Kept :
      (e : WriteEntry) (bs : ℕ) (loc : Outcome (ℕ × ℕ)) (ctx : StreamFlash D)
      → Kept ctx (write_location write_blocks e bs loc ctx).1
  unfolding write_location
  write_location-Kept e bs (err st) ctx = refl
  write_location-Kept e bs stuck ctx = refl
  write_location-Kept e bs (ok (method, block)) ctx =
      ground (arith, write_at-Kept e (u64 (block * bs) / ctx.media_block) ctx)

  write_locations-Kept :
      (e : WriteEntry) (bs count l : ℕ) (ctx : StreamFlash D)
      → Kept ctx (write_locations write_blocks e bs count l ctx).1
  unfolding write_locations
  write_locations-Kept e bs zero l ctx = refl
  write_locations-Kept e bs (suc count) l ctx =
      Kept-&> ctx
        (write_location write_blocks e bs
          (read_location_mem ctx.header ctx.header_size e.descriptor_offset l) ctx)
        (write_locations write_blocks e bs count (l + 1))
        (write_location-Kept e bs
          (read_location_mem ctx.header ctx.header_size e.descriptor_offset l) ctx)
        (write_locations-Kept e bs count (l + 1))

  -- The write of an entry changes the device and the last sector, on every path.
  pub stream_write_completed_entry-Kept :
      (e : WriteEntry) (ctx : StreamFlash D)
      → Kept ctx (stream_write_completed_entry write_blocks e ctx).1
  unfolding stream_write_completed_entry
  stream_write_completed_entry-Kept e ctx =
      elim (Option-cases (get_elem? ctx.plan.stores e.store_index)) [
        | inl missing ↦ rw (missing, stream_write_completed_entry) refl
        | inr (store, found) ↦
            rw (found, stream_write_completed_entry)
              (write_locations-Kept e store.block_size e.location_count 0 ctx)
      ]
