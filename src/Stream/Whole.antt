-- ===== src/Stream/Whole.antt =====
-- A whole payload in packets on the streaming flasher of src/src/ffu.c.
use mathlib.Core.Path.{subst}
use ufp_ffu_device_efi.Prelude.{
  ℕ, ◌+◌, ◌^◌, ◌<◌, ◌≤◌, ◌≡◌, refl, sym, ap, ◌∙◌, arith, List, [], ◌∷◌, Bool, true, some, length,
}
use ufp_ffu_device_efi.Efi.{Outcome, ok, Run, &>-eq-ok}
use ufp_ffu_device_efi.Stream.{
  Media, StreamFlash, payload_loop, note_end, ffu_stream_flash_init, ffu_stream_flash_payload,
  ffu_stream_flash_done,
}
use ufp_ffu_device_efi.Stream.Feed.{feed_all}
use ufp_ffu_device_efi.Stream.Packets.{
  concat, ArePackets, observed, flash_packets, flash_packets-feed_all,
}
use ufp_ffu_device_efi.Stream.Device.{target_of, on_device}
use ufp_ffu_device_efi.Stream.Entries.{put_entries, feed_all-put_entries, feed_all-finishes}
use ufp_ffu_device_efi.Stream.Init.{ffu_stream_flash_init-IsStarted}

module _ {D : Type 0} (write_blocks : D → ℕ → ℕ → List ℕ → ℕ × D) where
  device-observed :
      (r s : Run (StreamFlash D)) → observed r ≡ observed s → on_device r ≡ on_device s
  device-observed r s h = ap on_device h

  note_end-noted :
      (ctx : StreamFlash D)
      → (note_end write_blocks ctx).plan.entry_count ≤ (note_end write_blocks ctx).entry_index
      → (note_end write_blocks ctx).final_state ≡ 1
  unfolding note_end
  note_end-noted ctx past = ground arith

  noted :
      (p : List ℕ) (ps : List (List ℕ)) (ctx : StreamFlash D) {c : StreamFlash D}
      → flash_packets write_blocks (p ∷ ps) ctx ≡ (ok tt, c)
      → c.plan.entry_count ≤ c.entry_index
      → c.final_state ≡ 1
  unfolding ffu_stream_flash_payload note_end
  noted p [] ctx {c} h past =
      let (c₁, ran, rest) = &>-eq-ok (ffu_stream_flash_payload write_blocks p ctx) _ h in
      let (d, looped, ended) =
        &>-eq-ok
          (payload_loop write_blocks (length p + ctx.plan.entry_count + 1) p (length p) 0 ctx) _
          ran in
      let e : note_end write_blocks d ≡ c =
        ap (λ (r : Run (StreamFlash D)). r.1) ended ∙ ap (λ (r : Run (StreamFlash D)). r.1) rest in
      subst (λ (c : StreamFlash D). c.plan.entry_count ≤ c.entry_index → c.final_state ≡ 1) e
        (note_end-noted d) past
  noted p (q ∷ ps) ctx {c} h past =
      let (c₁, ran, rest) =
        &>-eq-ok (ffu_stream_flash_payload write_blocks p ctx) (flash_packets write_blocks (q ∷ ps))
          h in
      noted q ps c₁ {c = c} rest past

  module _ (pool : ℕ → ℕ → Bool) (room : ℕ → Bool) (header : List ℕ) (size : ℕ) (media : Media)
      (device : D) (commit : Bool) where
    -- When a header of fewer than 2 ^ 32 bytes is accepted and then packets arrive whose lengths
    -- are below 2 ^ 32 and come to the plan's total, the status and the device are those of
    -- writing the plan's entries in turn, each with its own part of the payload and at each of its
    -- locations, up to the first error.
    pub flash_packets-put_entries :
        (ps : List (List ℕ)) {ctx : StreamFlash D}
        → size < 2 ^ 32
        → ffu_stream_flash_init pool room (some header) size (some media) device commit ≡ ok ctx
        → ArePackets ps
        → length (concat ps) ≡ ctx.plan.total_payload_bytes
        → on_device (flash_packets write_blocks ps ctx)
          ≡ put_entries write_blocks (target_of ctx) ctx.plan.entries (concat ps) device
    flash_packets-put_entries ps {ctx} small init packets whole =
        let s =
          ffu_stream_flash_init-IsStarted pool room header size media device commit small init in
        device-observed (flash_packets write_blocks ps ctx) (feed_all write_blocks (concat ps) ctx)
          (flash_packets-feed_all write_blocks ps ctx s.ready packets)
        ∙ feed_all-put_entries write_blocks ctx.plan.entries (concat ps) ctx s.ready s.empty
            (omega (arith, s.few)) (rw s.first refl) (whole ∙ s.total)
        ∙ ap (put_entries write_blocks (target_of ctx) ctx.plan.entries (concat ps)) s.same_device

    -- When a header of fewer than 2 ^ 32 bytes is accepted, and then packets are all accepted, at
    -- least one, whose lengths are below 2 ^ 32 and come to the plan's total, the flasher is done:
    -- every entry is written, none is begun, and the final state, which completes the reply, is
    -- noted.
    pub flash_packets-done :
        (p : List ℕ) (ps : List (List ℕ)) {ctx c : StreamFlash D}
        → size < 2 ^ 32
        → ffu_stream_flash_init pool room (some header) size (some media) device commit ≡ ok ctx
        → ArePackets (p ∷ ps)
        → length (concat (p ∷ ps)) ≡ ctx.plan.total_payload_bytes
        → flash_packets write_blocks (p ∷ ps) ctx ≡ (ok tt, c)
        → (ffu_stream_flash_done c ≡ true) × (c.final_state ≡ 1)
    unfolding ffu_stream_flash_done
    flash_packets-done p ps {ctx} {c} small init packets whole ran =
        let s =
          ffu_stream_flash_init-IsStarted pool room header size media device commit small init in
        let fed = feed_all write_blocks (concat (p ∷ ps)) ctx in
        let same : observed fed ≡ (ok tt, record c { final_state = 0 }) =
          sym (flash_packets-feed_all write_blocks (p ∷ ps) ctx s.ready packets)
          ∙ ap observed ran in
        let succeeded : fed ≡ (ok tt, fed.1) =
          ap (λ (o : Outcome (Unit {0})). (o, fed.1))
            (ap (λ (r : Run (StreamFlash D)). r.0) same) in
        let state : record (fed.1) { final_state = 0 } ≡ record c { final_state = 0 } =
          ap (λ (r : Run (StreamFlash D)). r.1) same in
        let (index, empty) =
          feed_all-finishes write_blocks ctx.plan.entries (concat (p ∷ ps)) ctx {c = fed.1} s.ready
            s.empty (rw s.first refl) (whole ∙ s.total) succeeded in
        let at_end : c.entry_index ≡ c.plan.entry_count =
          sym (ap (λ (c : StreamFlash D). c.entry_index) state)
          ∙ index
          ∙ ap (λ (c : StreamFlash D). c.plan.entry_count) state in
        let none_begun : c.entry_received ≡ 0 =
          sym (ap (λ (c : StreamFlash D). c.entry_received) state) ∙ empty in
        (ground (arith, at_end, none_begun), noted p ps ctx {c = c} ran (omega (arith, at_end)))
