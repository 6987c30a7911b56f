-- ===== src/Stream/Total.antt =====
-- The streaming flasher of src/src/ffu.c ends on every packet, within its tables.
use mathlib.Core.Path.{subst}
use ufp_ffu_device_efi.Prelude.{
  ℕ, zero, suc, ◌+◌, ◌^◌, ◌<◌, ◌≡◌, ◌≢◌, refl, sym, arith, List, [], ◌∷◌, ◌==◌, get_elem?, length,
  Option-cases, Bool-cases, inl, inr, ◌⊎◌,
}
use ufp_ffu_device_efi.Word.{u32}
use ufp_ffu_device_efi.Efi.{Outcome, ok, err, stuck, Run, ◌&>◌, outcome_cases}
use ufp_ffu_device_efi.Ffu.{WriteEntry}
use ufp_ffu_device_efi.Ffu.Read.{read_location_mem, mem_read_exact}
use ufp_ffu_device_efi.Stream.{
  StreamFlash, write_at, write_location, write_locations, stream_write_completed_entry,
  complete_entry, receive, accept, ffu_stream_flash_payload,
}
use ufp_ffu_device_efi.Stream.Ready.{
  IsFlashable, IsReady, Partial, get_elem?-none, get_elem?-some, accept-IsReady,
}
use ufp_ffu_device_efi.Stream.Feed.{feed_all}
use ufp_ffu_device_efi.Stream.Packets.{ffu_stream_flash_payload-feed_all}

module _ {D : Type 0} (write_blocks : D → ℕ → ℕ → List ℕ → ℕ × D) where
  &>-ne-stuck :
      (r : Run (StreamFlash D)) (f : StreamFlash D → Run (StreamFlash D))
      → r.0 ≢ stuck
      → ((c : StreamFlash D) → r ≡ (ok tt, c) → (f c).0 ≢ stuck)
      → (r &> f).0 ≢ stuck
  &>-ne-stuck (ok tt, c) f h k = k c refl
  &>-ne-stuck (err st, c) f h k = h
  &>-ne-stuck (stuck, c) f h k = h

  read_location_mem-ne-stuck :
      (header : List ℕ) (size offset l : ℕ) → read_location_mem header size offset l ≢ stuck
  unfolding read_location_mem mem_read_exact
  read_location_mem-ne-stuck header size offset l = ground arith

  write_location-ne-stuck :
      (e : WriteEntry) (bs : ℕ) (loc : Outcome (ℕ × ℕ)) (ctx : StreamFlash D)
      → loc ≢ stuck
      → (write_location write_blocks e bs loc ctx).0 ≢ stuck
  unfolding write_location write_at
  write_location-ne-stuck e bs (err st) ctx h = λ p. cc
  write_location-ne-stuck e bs stuck ctx h = λ p. h refl
  write_location-ne-stuck e bs (ok (method, block)) ctx h = ground arith

  write_locations-ne-stuck :
      (e : WriteEntry) (bs count l : ℕ) (ctx : StreamFlash D)
      → (write_locations write_blocks e bs count l ctx).0 ≢ stuck
  unfolding write_locations
  write_locations-ne-stuck e bs zero l ctx = λ p. cc
  write_locations-ne-stuck e bs (suc count) l ctx =
      let loc = read_location_mem ctx.header ctx.header_size e.descriptor_offset l in
      &>-ne-stuck (write_location write_blocks e bs loc ctx)
        (write_locations write_blocks e bs count (l + 1))
        (write_location-ne-stuck e bs loc ctx
          (read_location_mem-ne-stuck ctx.header ctx.header_size e.descriptor_offset l))
        (λ c _. write_locations-ne-stuck e bs count (l + 1) c)

  stream_write_completed_entry-ne-stuck :
      (e : WriteEntry) (ctx : StreamFlash D)
      → e.store_index < length ctx.plan.stores
      → (stream_write_completed_entry write_blocks e ctx).0 ≢ stuck
  unfolding stream_write_completed_entry
  stream_write_completed_entry-ne-stuck e ctx inside =
      elim (Option-cases (get_elem? ctx.plan.stores e.store_index)) [
        | inl missing ↦ absurd (omega (arith, get_elem?-none ctx.plan.stores e.store_index missing))
        | inr (store, found) ↦
            rw (found, stream_write_completed_entry)
              (write_locations-ne-stuck e store.block_size e.location_count 0 ctx)
      ]

  accept-ne-stuck :
      (e : WriteEntry) (bytes : List ℕ) (ctx : StreamFlash D)
      → e.store_index < length ctx.plan.stores
      → (accept write_blocks e bytes ctx).0 ≢ stuck
  unfolding accept receive complete_entry
  accept-ne-stuck e bytes ctx inside =
      let received = receive write_blocks bytes ctx in
      elim (Bool-cases (u32 (ctx.entry_received + length bytes) == e.byte_count)) [
        | inl whole ↦
            rw (whole, accept)
              (&>-ne-stuck (stream_write_completed_entry write_blocks e received) _
                (stream_write_completed_entry-ne-stuck e received inside) (λ c _ p. cc))
        | inr part ↦ rw (part, accept) (λ p. cc)
      ]

  feed_all-ne-stuck :
      (bytes : List ℕ) (ctx : StreamFlash D)
      → IsReady ctx
      → (feed_all write_blocks bytes ctx).0 ≢ stuck
  unfolding feed_all
  feed_all-ne-stuck [] ctx ready = λ p. cc
  feed_all-ne-stuck (b ∷ bs) ctx ready =
      elim (Option-cases (get_elem? ctx.plan.entries ctx.entry_index)) [
        | inl missing ↦ rw (missing, feed_all) (λ p. cc)
        | inr (e, found) ↦
            let here =
              get_elem?-some (IsFlashable ctx.entry_capacity (length ctx.plan.stores))
                ctx.plan.entries ctx.entry_index {a = e} ready.each found in
            let part : ctx.entry_received < e.byte_count =
              subst (λ o. Partial o ctx.entry_received) found ready.received in
            rw (found, feed_all)
              (&>-ne-stuck (accept write_blocks e (b ∷ []) ctx) (feed_all write_blocks bs)
                (accept-ne-stuck e (b ∷ []) ctx here.1.has_store)
                (λ c ran.
                  feed_all-ne-stuck bs c
                    (accept-IsReady write_blocks e (b ∷ []) ctx {c = c} ready found (omega arith)
                      ran).0))
      ]

  -- On a ready context, every packet of fewer than 2 ^ 32 bytes is handled to its end: the call
  -- returns EFI_SUCCESS or an error status, and no store outside the table is read.
  pub ffu_stream_flash_payload-ends :
      (data' : List ℕ) (ctx : StreamFlash D)
      → IsReady ctx
      → length data' < 2 ^ 32
      → ((ffu_stream_flash_payload write_blocks data' ctx).0 ≡ ok tt)
        ⊎ ((st : ℕ) × ((ffu_stream_flash_payload write_blocks data' ctx).0 ≡ err st))
  ffu_stream_flash_payload-ends data' ctx ready small =
      let fed = feed_all write_blocks data' ctx in
      let runs : (ffu_stream_flash_payload write_blocks data' ctx).0 ≢ stuck =
        subst (λ (r : Run (StreamFlash D)). r.0 ≢ stuck)
          (sym (ffu_stream_flash_payload-feed_all write_blocks data' ctx ready small))
          (&>-ne-stuck fed _ (feed_all-ne-stuck data' ctx ready) (λ c _ p. cc)) in
      elim (outcome_cases (ffu_stream_flash_payload write_blocks data' ctx).0 runs) [
        | inl (tt, e) ↦ inl e
        | inr f ↦ inr f
      ]
