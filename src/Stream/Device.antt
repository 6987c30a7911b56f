-- ===== src/Stream/Device.antt =====
-- What the streaming flasher of src/src/ffu.c does to the device: the blocks of an entry are
-- written at each of its locations in turn, from the bytes of its payload.
use mathlib.Core.Path.{subst}
use ufp_ffu_device_efi.Prelude.{
  ℕ, zero, suc, ◌+◌, ◌*◌, ◌/◌, ◌%◌, ◌≡◌, refl, sym, ap, ◌∙◌, arith, List, ◌||◌, ◌!=◌, if◌then◌else◌,
  Option, some, none, get_elem?, length, Option-cases, inl, inr,
}
use ufp_ffu_device_efi.Prelude.Buffer.{slice}
use ufp_ffu_device_efi.Word.{u64}
use ufp_ffu_device_efi.Efi.{Outcome, ok, err, stuck, Run, ◌&>◌, is_error, efi_unsupported}
use ufp_ffu_device_efi.Ffu.{WriteEntry, Store}
use ufp_ffu_device_efi.Ffu.Read.{read_location_mem}
use ufp_ffu_device_efi.Stream.{
  StreamFlash, note_sector, write_at, write_location, write_locations, stream_write_completed_entry,
}
use ufp_ffu_device_efi.Stream.Kept.{Kept, write_location-Kept}

-- What does not change while a plan is flashed.
pub record Target : Type 0 where
  pub header : List ℕ
  pub header_size : ℕ
  pub stores : List Store
  pub media_block : ℕ
  pub media_id : ℕ
  pub dry_run : ℕ

abbrev pub target_of : {D : Type 0} → StreamFlash D → Target
target_of ctx = record {
  header = ctx.header;
  header_size = ctx.header_size;
  stores = ctx.plan.stores;
  media_block = ctx.media_block;
  media_id = ctx.media_id;
  dry_run = ctx.dry_run;
}

-- The status of a run and the device.
abbrev pub on_device : {D : Type 0} → Run (StreamFlash D) → Run D
on_device (o, c) = (o, c.device)

module _ {D : Type 0} (write_blocks : D → ℕ → ℕ → List ℕ → ℕ × D) where
  unfoldable pub put : Target → ℕ → List ℕ → D → Run D
  put t lba chunk d =
      if t.dry_run != 0
      then (ok tt, d)
      else let (st, d') = write_blocks d t.media_id lba chunk in
        if is_error st then (err st, d') else (ok tt, d')

  -- At a location: the access method has to be 0, and blocks of the device have to fit.
  unfoldable pub put_location : Target → ℕ → List ℕ → Outcome (ℕ × ℕ) → D → Run D
  put_location t block_size chunk (err st) d = (err st, d)
  put_location t block_size chunk stuck d = (stuck, d)
  put_location t block_size chunk (ok (method, block)) d =
      let at = u64 (block * block_size) in
      if method != 0 || (at % t.media_block != 0 || length chunk % t.media_block != 0)
      then (err efi_unsupported, d)
      else put t (at / t.media_block) chunk d

  unfoldable pub put_locations : Target → WriteEntry → ℕ → List ℕ → ℕ → ℕ → D → Run D
  put_locations t e block_size chunk zero l d = (ok tt, d)
  put_locations t e block_size chunk (suc count) l d =
      put_location t block_size chunk
        (read_location_mem t.header t.header_size e.descriptor_offset l) d
      &> put_locations t e block_size chunk count (l + 1)

  abbrev pub put_in : Target → Option Store → WriteEntry → List ℕ → D → Run D
  put_in t none e chunk d = (stuck, d)
  put_in t (some store) e chunk d = put_locations t e store.block_size chunk e.location_count 0 d

  -- An entry with its payload.
  unfoldable pub put_entry : Target → WriteEntry → List ℕ → D → Run D
  put_entry t e chunk d = put_in t (get_elem? t.stores e.store_index) e chunk d

  pub on_device-&> :
      (r : Run (StreamFlash D)) (f : StreamFlash D → Run (StreamFlash D)) (g : D → Run D)
      → ((c : StreamFlash D) → r ≡ (ok tt, c) → on_device (f c) ≡ g c.device)
      → on_device (r &> f) ≡ (on_device r &> g)
  on_device-&> (ok tt, c) f g h = h c refl
  on_device-&> (err st, c) f g h = refl
  on_device-&> (stuck, c) f g h = refl

  -- The bytes of the entry are at the front of the buffer.
  abbrev HasChunk : StreamFlash D → WriteEntry → List ℕ → Type 0
  HasChunk ctx e chunk =
      (slice 0 ctx.entry_data 0 e.byte_count ≡ chunk) × (length chunk ≡ e.byte_count)

  on_device-write_at :
      (e : WriteEntry) (lba : ℕ) (ctx : StreamFlash D)
      → on_device (write_at write_blocks e lba ctx)
        ≡ put (target_of ctx) lba (slice 0 ctx.entry_data 0 e.byte_count) ctx.device
  unfolding write_at note_sector put
  on_device-write_at e lba ctx = ground arith

  on_device-write_location :
      (e : WriteEntry) (block_size : ℕ) (chunk : List ℕ) (loc : Outcome (ℕ × ℕ))
      (ctx : StreamFlash D)
      → HasChunk ctx e chunk
      → on_device (write_location write_blocks e block_size loc ctx)
        ≡ put_location (target_of ctx) block_size chunk loc ctx.device
  unfolding write_location put_location
  on_device-write_location e block_size chunk (err st) ctx h = refl
  on_device-write_location e block_size chunk stuck ctx h = refl
  on_device-write_location e block_size chunk (ok (method, block)) ctx (front, long) =
      let at = on_device-write_at e (u64 (block * block_size) / ctx.media_block) ctx in
      rw long (ground (arith, rw front at at))

  on_device-write_locations :
      (e : WriteEntry) (block_size : ℕ) (chunk : List ℕ) (count l : ℕ) (ctx : StreamFlash D)
      → HasChunk ctx e chunk
      → on_device (write_locations write_blocks e block_size count l ctx)
        ≡ put_locations (target_of ctx) e block_size chunk count l ctx.device
  unfolding write_locations put_locations
  on_device-write_locations e block_size chunk zero l ctx h = refl
  on_device-write_locations e block_size chunk (suc count) l ctx h =
      let r =
        write_location write_blocks e block_size
          (read_location_mem ctx.header ctx.header_size e.descriptor_offset l) ctx in
      on_device-&> r (write_locations write_blocks e block_size count (l + 1))
        (put_locations (target_of ctx) e block_size chunk count (l + 1))
        (λ c ran.
          let kept : Kept ctx c = subst (Kept ctx) (ap (λ (r : Run (StreamFlash D)). r.1) ran) (
            write_location-Kept write_blocks e block_size
              (read_location_mem ctx.header ctx.header_size e.descriptor_offset l) ctx) in
          on_device-write_locations e block_size chunk count (l + 1) c (
            subst (λ xs. (slice 0 xs 0 e.byte_count ≡ chunk) × (length chunk ≡ e.byte_count))
              (sym (ap (λ (c : StreamFlash D). c.entry_data) kept)) h)
          ∙ ap (λ t. put_locations t e block_size chunk count (l + 1) c.device) (ap target_of kept))
      ∙ ap (λ (r : Run D). r &> put_locations (target_of ctx) e block_size chunk count (l + 1))
          (on_device-write_location e block_size chunk
            (read_location_mem ctx.header ctx.header_size e.descriptor_offset l) ctx h)

  -- When the entry's bytes are at the front of the entry buffer, the write of a completed entry
  -- puts them on the device at each of the entry's locations in turn, up to the first error.
  pub stream_write_completed_entry-put_entry :
      (e : WriteEntry) (chunk : List ℕ) (ctx : StreamFlash D)
      → slice 0 ctx.entry_data 0 e.byte_count ≡ chunk
      → length chunk ≡ e.byte_count
      → on_device (stream_write_completed_entry write_blocks e ctx)
        ≡ put_entry (target_of ctx) e chunk ctx.device
  unfolding stream_write_completed_entry put_entry
  stream_write_completed_entry-put_entry e chunk ctx front long =
      elim (Option-cases (get_elem? ctx.plan.stores e.store_index)) [
        | inl missing ↦ rw (missing, stream_write_completed_entry, put_entry) refl
        | inr (store, found) ↦
            rw (found, stream_write_completed_entry, put_entry)
              (on_device-write_locations e store.block_size chunk e.location_count 0 ctx
                (front, long))
      ]
