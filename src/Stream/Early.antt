-- ===== src/Stream/Early.antt =====
-- When the streaming flasher of src/src/ffu.c says that it is done: not before the last byte of the
-- payload is there.
use mathlib.Core.Path.{subst}
use ufp_ffu_device_efi.Prelude.{
  ℕ, ◌^◌, ◌<◌, ◌≡◌, ◌⊎◌, refl, sym, ap, ◌∙◌, arith, List, [], ◌∷◌, Bool, true, false, some, length,
  drop-all, length-append, inl, inr,
}
use ufp_ffu_device_efi.Efi.{ok, err, Run, &>-eq-ok, efi_bad_buffer_size}
use ufp_ffu_device_efi.Stream.{
  Media, StreamFlash, note_end, ffu_stream_flash_init, ffu_stream_flash_payload,
  ffu_stream_flash_done,
}
use ufp_ffu_device_efi.Stream.Ready.{IsReady}
use ufp_ffu_device_efi.Stream.Feed.{feed_all}
use ufp_ffu_device_efi.Stream.Packets.{
  concat, ArePackets, flash_packets, ffu_stream_flash_payload-feed_all, feed_all-IsReady,
  note_end-IsReady,
}
use ufp_ffu_device_efi.Stream.Taken.{
  left, Took, Took-trans, &>-eq-err, feed_all-Took, feed_all-failing, note_end-Took,
}
use ufp_ffu_device_efi.Stream.Entries.{total_bytes, put_entries}
use ufp_ffu_device_efi.Stream.Device.{target_of, on_device}
use ufp_ffu_device_efi.Stream.Init.{ffu_stream_flash_init-IsStarted}
use ufp_ffu_device_efi.Stream.Whole.{flash_packets-put_entries}

module _ {D : Type 0} (write_blocks : D → ℕ → ℕ → List ℕ → ℕ × D) where
  -- A packet that is taken.
  pub ffu_stream_flash_payload-Took :
      (p : List ℕ) (ctx : StreamFlash D) {c : StreamFlash D}
      → IsReady ctx
      → length p < 2 ^ 32
      → ffu_stream_flash_payload write_blocks p ctx ≡ (ok tt, c)
      → IsReady c × Took (length p) ctx c
  ffu_stream_flash_payload-Took p ctx {c} ready small h =
      let (d, ran, ended) =
        &>-eq-ok (feed_all write_blocks p ctx) (λ c. (ok tt, note_end write_blocks c))
          (sym (ffu_stream_flash_payload-feed_all write_blocks p ctx ready small) ∙ h) in
      subst (λ (c : StreamFlash D). IsReady c × Took (length p) ctx c)
        (ap (λ (r : Run (StreamFlash D)). r.1) ended)
        (
          note_end-IsReady write_blocks d (feed_all-IsReady write_blocks p ctx {c = d} ready ran).0,
          note_end-Took write_blocks (length p) ctx d
              (feed_all-Took write_blocks p ctx {c = d} ready ran),
        )

  -- A packet that is refused.
  pub ffu_stream_flash_payload-failing :
      (p : List ℕ) (ctx : StreamFlash D) {st : ℕ} {c : StreamFlash D}
      → IsReady ctx
      → length p < 2 ^ 32
      → ffu_stream_flash_payload write_blocks p ctx ≡ (err st, c)
      → (st ≡ efi_bad_buffer_size) ⊎ (ffu_stream_flash_done c ≡ false)
  ffu_stream_flash_payload-failing p ctx {st} {c} ready small h =
      elim (&>-eq-err (feed_all write_blocks p ctx) (λ c. (ok tt, note_end write_blocks c))
        (sym (ffu_stream_flash_payload-feed_all write_blocks p ctx ready small) ∙ h)) [
          | inl refused ↦ feed_all-failing write_blocks p ctx {st = st} {c = c} ready refused
          | inr (d, _, went) ↦ absurd (other went)
        ]
    where
      other : {s : StreamFlash D} → Path (Run (StreamFlash D)) (ok tt, s) (err st, c) → ⊥
      other p = cc

  -- The packets that were taken.
  pub flash_packets-Took :
      (ps : List (List ℕ)) (ctx : StreamFlash D) {c : StreamFlash D}
      → IsReady ctx
      → ArePackets ps
      → flash_packets write_blocks ps ctx ≡ (ok tt, c)
      → IsReady c × Took (length (concat ps)) ctx c
  flash_packets-Took [] ctx {c} ready packets h =
      subst (λ (c : StreamFlash D). IsReady c × Took 0 ctx c)
        (ap (λ (r : Run (StreamFlash D)). r.1) h) (ready, (refl, omega arith))
  flash_packets-Took (p ∷ ps) ctx {c} ready packets h =
      let (c₁, ran, rest) =
        &>-eq-ok (ffu_stream_flash_payload write_blocks p ctx) (flash_packets write_blocks ps) h in
      let (ready₁, took₁) = ffu_stream_flash_payload-Took p ctx {c = c₁} ready packets.0 ran in
      let (ready', took') = flash_packets-Took ps c₁ {c = c} ready₁ packets.1 rest in
      (
        ready',
        subst (λ n. Took n ctx c) (sym (length-append p (concat ps)))
            (Took-trans (length p) (length (concat ps)) ctx c₁ c took₁ took'),
      )

-- When the flasher is done, no byte is left.
pub ffu_stream_flash_done-left :
    {D : Type 0} (c : StreamFlash D)
    → IsReady c
    → ffu_stream_flash_done c ≡ true
    → (left c ≡ 0) × (c.entry_received ≡ 0)
unfolding ffu_stream_flash_done
ffu_stream_flash_done-left c ready done = (
  ap total_bytes (drop-all c.entry_index c.plan.entries (ground (arith, ready.counted, done))),
  ground (arith, done),
)

module _ {D : Type 0} (write_blocks : D → ℕ → ℕ → List ℕ → ℕ × D) (pool : ℕ → ℕ → Bool)
    (room : ℕ → Bool) (header : List ℕ) (size : ℕ) (media : Media) (device : D)
    (commit : Bool) where
  -- When a header of fewer than 2 ^ 32 bytes is accepted, then packets whose lengths are below
  -- 2 ^ 32, and the flasher is then done, all of the payload came, and every entry is written.
  pub ffu_stream_flash_done-put_entries :
      (ps : List (List ℕ)) {ctx c : StreamFlash D}
      → size < 2 ^ 32
      → ffu_stream_flash_init pool room (some header) size (some media) device commit ≡ ok ctx
      → ArePackets ps
      → flash_packets write_blocks ps ctx ≡ (ok tt, c)
      → ffu_stream_flash_done c ≡ true
      → (length (concat ps) ≡ ctx.plan.total_payload_bytes)
        × (put_entries write_blocks (target_of ctx) ctx.plan.entries (concat ps) device
            ≡ (ok tt, c.device))
  ffu_stream_flash_done-put_entries ps {ctx} {c} small init packets ran done =
      let s =
        ffu_stream_flash_init-IsStarted pool room header size media device commit small init in
      let (ready, (_, took)) = flash_packets-Took write_blocks ps ctx {c = c} s.ready packets ran in
      let (none_left, none_begun) = ffu_stream_flash_done-left c ready done in
      let whole : left ctx ≡ ctx.plan.total_payload_bytes = rw s.first (sym s.total) in
      let length' : length (concat ps) ≡ ctx.plan.total_payload_bytes =
        omega (arith, took, none_left, none_begun, s.empty, whole) in
      (
        length',
        sym (
              flash_packets-put_entries write_blocks pool room header size media device commit ps
                {ctx = ctx} small init packets length')
            ∙ ap on_device ran,
      )
