-- ===== src/Stream/DryRun.antt =====
-- A dry run of the streaming flasher of src/src/ffu.c.
use ufp_ffu_device_efi.Prelude.{
  ℕ, zero, suc, ◌+◌, ◌≡◌, ◌≢◌, refl, ◌∙◌, arith, List, ◌==◌, get_elem?, length, Option-cases,
  Bool-cases, inl, inr, ltb, leb,
}
use ufp_ffu_device_efi.Prelude.Buffer.{slice}
use ufp_ffu_device_efi.Word.{u32, sub32}
use ufp_ffu_device_efi.Efi.{Outcome, ok, err, stuck, Run, ◌&>◌}
use ufp_ffu_device_efi.Ffu.{WriteEntry}
use ufp_ffu_device_efi.Ffu.Read.{read_location_mem}
use ufp_ffu_device_efi.Stream.{
  StreamFlash, note_sector, write_at, write_location, write_locations, stream_write_completed_entry,
  complete_entry, receive, accept, round_size, payload_loop, note_end, ffu_stream_flash_payload,
}

-- The device is the same and the run still a dry one.
abbrev pub Calm : {D : Type 0} → StreamFlash D → StreamFlash D → Type 0
Calm ctx c = (c.device ≡ ctx.device) × (c.dry_run ≢ 0)

module _ {D : Type 0} (write_blocks : D → ℕ → ℕ → List ℕ → ℕ × D) where
  Calm-&> :
      (ctx : StreamFlash D) (r : Run (StreamFlash D)) (f : StreamFlash D → Run (StreamFlash D))
      → Calm ctx r.1
      → ((c : StreamFlash D) → c.dry_run ≢ 0 → Calm c (f c).1)
      → Calm ctx (r &> f).1
  Calm-&> ctx (ok tt, c) f h k = let (same, dry) = k c h.1 in (same ∙ h.0, dry)
  Calm-&> ctx (err st, c) f h k = h
  Calm-&> ctx (stuck, c) f h k = h

  write_location-Calm :
      (e : WriteEntry) (bs : ℕ) (loc : Outcome (ℕ × ℕ)) (ctx : StreamFlash D)
      → ctx.dry_run ≢ 0
      → Calm ctx (write_location write_blocks e bs loc ctx).1
  unfolding write_location write_at note_sector
  write_location-Calm e bs (err st) ctx dry = (refl, dry)
  write_location-Calm e bs stuck ctx dry = (refl, dry)
  write_location-Calm e bs (ok (method, block)) ctx dry = ground arith

  write_locations-Calm :
      (e : WriteEntry) (bs count l : ℕ) (ctx : StreamFlash D)
      → ctx.dry_run ≢ 0
      → Calm ctx (write_locations write_blocks e bs count l ctx).1
  unfolding write_locations
  write_locations-Calm e bs zero l ctx dry = (refl, dry)
  write_locations-Calm e bs (suc count) l ctx dry =
      let loc = read_location_mem ctx.header ctx.header_size e.descriptor_offset l in
      Calm-&> ctx (write_location write_blocks e bs loc ctx)
        (write_locations write_blocks e bs count (l + 1)) (write_location-Calm e bs loc ctx dry)
        (write_locations-Calm e bs count (l + 1))

  stream_write_completed_entry-Calm :
      (e : WriteEntry) (ctx : StreamFlash D)
      → ctx.dry_run ≢ 0
      → Calm ctx (stream_write_completed_entry write_blocks e ctx).1
  unfolding stream_write_completed_entry
  stream_write_completed_entry-Calm e ctx dry =
      elim (Option-cases (get_elem? ctx.plan.stores e.store_index)) [
        | inl missing ↦ rw (missing, stream_write_completed_entry) (refl, dry)
        | inr (store, found) ↦
            rw (found, stream_write_completed_entry)
              (write_locations-Calm e store.block_size e.location_count 0 ctx dry)
      ]

  accept-Calm :
      (e : WriteEntry) (bytes : List ℕ) (ctx : StreamFlash D)
      → ctx.dry_run ≢ 0
      → Calm ctx (accept write_blocks e bytes ctx).1
  unfolding accept receive complete_entry
  accept-Calm e bytes ctx dry =
      let received = receive write_blocks bytes ctx in
      elim (Bool-cases (u32 (ctx.entry_received + length bytes) == e.byte_count)) [
        | inl whole ↦
            rw (whole, accept)
              (Calm-&> ctx (stream_write_completed_entry write_blocks e received) _
                (stream_write_completed_entry-Calm e received dry) (λ c h. (refl, h)))
        | inr part ↦ rw (part, accept) (refl, dry)
      ]

  payload_loop-Calm :
      (fuel : ℕ) (data' : List ℕ) (len pos : ℕ) (ctx : StreamFlash D)
      → ctx.dry_run ≢ 0
      → Calm ctx (payload_loop write_blocks fuel data' len pos ctx).1
  unfolding payload_loop
  payload_loop-Calm zero data' len pos ctx dry = (refl, dry)
  payload_loop-Calm (suc fuel) data' len pos ctx dry = elim (Bool-cases (ltb pos len)) [
    | inr done ↦ rw (done, payload_loop) (refl, dry)
    | inl more ↦ elim (Bool-cases (leb ctx.plan.entry_count ctx.entry_index)) [
      | inl past ↦ rw (more, past, payload_loop) (refl, dry)
      | inr below ↦ elim (Option-cases (get_elem? ctx.plan.entries ctx.entry_index)) [
        | inl missing ↦ rw (more, below, missing, payload_loop) (refl, dry)
        | inr (e, found) ↦
            let n = round_size (sub32 len pos) (sub32 e.byte_count ctx.entry_received) in
            elim (Bool-cases (ltb ctx.entry_capacity (u32 (ctx.entry_received + n)))) [
              | inl full ↦ rw (more, below, found, full, payload_loop) (refl, dry)
              | inr fits ↦
                  rw (more, below, found, fits, payload_loop)
                    (Calm-&> ctx (accept write_blocks e (slice 0 data' pos n) ctx)
                      (payload_loop write_blocks fuel data' len (u32 (pos + n)))
                      (accept-Calm e (slice 0 data' pos n) ctx dry)
                      (payload_loop-Calm fuel data' len (u32 (pos + n))))
            ]
      ]
    ]
  ]

  -- A packet of a dry run leaves the device alone, and the run a dry one.
  pub ffu_stream_flash_payload-Calm :
      (data' : List ℕ) (ctx : StreamFlash D)
      → ctx.dry_run ≢ 0
      → Calm ctx (ffu_stream_flash_payload write_blocks data' ctx).1
  unfolding ffu_stream_flash_payload note_end
  ffu_stream_flash_payload-Calm data' ctx dry =
      Calm-&> ctx
        (payload_loop write_blocks (length data' + ctx.plan.entry_count + 1) data' (length data') 0
          ctx)
        _
        (payload_loop-Calm (length data' + ctx.plan.entry_count + 1) data' (length data') 0 ctx dry)
        (λ c h. ground arith)
