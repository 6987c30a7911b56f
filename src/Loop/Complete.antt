-- ===== src/Loop/Complete.antt =====
-- What is written when a secure-flash message ends the message loop of src/src/main.c.
use mathlib.Core.Path.{subst}
use mathlib.Core.List.{append_assoc, append-nil}
use ufp_ffu_device_efi.Prelude.{
  ℕ, ◌+◌, drop, ◌^◌, ◌<◌, ◌≤◌, ◌≡◌, inl, inr, refl, sym, ap, ◌∙◌, arith, List, [], ◌∷◌, ◌++◌, Bool,
  true, Option, some, not, ◌==◌, length, if_both,
}
use ufp_ffu_device_efi.Prelude.Buffer.{slice, length-take_or}
use ufp_ffu_device_efi.Efi.{
  ok, err, stuck, Run, ◌&>◌, &>-assoc, &>-cong, efi_success, efi_bad_buffer_size,
}
use ufp_ffu_device_efi.Proto.{max_payload_data}
use ufp_ffu_device_efi.Stream.{
  Media, StreamFlash, ffu_stream_flash_init, ffu_stream_flash_payload, ffu_stream_flash_done,
}
use ufp_ffu_device_efi.Stream.Ready.{IsReady}
use ufp_ffu_device_efi.Stream.Packets.{concat, ArePackets, flash_packets}
use ufp_ffu_device_efi.Stream.Device.{target_of}
use ufp_ffu_device_efi.Stream.Entries.{put_entries}
use ufp_ffu_device_efi.Stream.Init.{ffu_stream_flash_init-IsStarted}
use ufp_ffu_device_efi.Stream.Early.{
  flash_packets-Took, ffu_stream_flash_payload-failing, ffu_stream_flash_done-put_entries,
}
use ufp_ffu_device_efi.Secure.{PayloadChunk, status_from_efi}
use ufp_ffu_device_efi.Loop.{Loop, stop}
use ufp_ffu_device_efi.Loop.Flash.{payload_result, flash_payload, flushed_device, handle_secure}
use ufp_ffu_device_efi.Loop.Ends.{Stops, Takes, handle_secure-Stops}

concat-append : (ps qs : List (List ℕ)) → concat (ps ++ qs) ≡ concat ps ++ concat qs
concat-append [] qs = refl
concat-append (p ∷ ps) qs =
    ap (λ bs. p ++ bs) (concat-append ps qs) ∙ sym (append_assoc p (concat ps) (concat qs))

ArePackets-append :
    (ps : List (List ℕ)) (q : List ℕ)
    → ArePackets ps
    → length q < 2 ^ 32
    → ArePackets (ps ++ q ∷ [])
ArePackets-append [] q packets small = (small, tt)
ArePackets-append (p ∷ ps) q packets small = (packets.0, ArePackets-append ps q packets.1 small)

-- The status of a payload that is behind the last entry is not 0.
behind_end : status_from_efi efi_bad_buffer_size ≡ 0 → ⊥
unfolding status_from_efi
behind_end h = omega arith

module _ {D : Type 0} (write_blocks : D → ℕ → ℕ → List ℕ → ℕ × D) where
  flash_packets-append :
      (ps qs : List (List ℕ)) (ctx : StreamFlash D)
      → flash_packets write_blocks (ps ++ qs) ctx
        ≡ (flash_packets write_blocks ps ctx &> flash_packets write_blocks qs)
  flash_packets-append [] qs ctx = refl
  flash_packets-append (p ∷ ps) qs ctx =
      &>-cong (ffu_stream_flash_payload write_blocks p ctx) (flash_packets write_blocks (ps ++ qs))
        (λ c. flash_packets write_blocks ps c &> flash_packets write_blocks qs)
        (λ c _. flash_packets-append ps qs c)
      ∙ sym (
          &>-assoc (ffu_stream_flash_payload write_blocks p ctx) (flash_packets write_blocks ps)
            (flash_packets write_blocks qs))

  module _ (msg : List ℕ) (len : ℕ) (pk : List (List ℕ)) (ctx : StreamFlash D) where
    -- The flasher after these packets and, maybe, one that is a part of the message; it is done.
    abbrev Written : StreamFlash D → Type 0
    Written f =
        (offset n : ℕ) × (offset + n ≤ len)
        × (ps : List (List ℕ)) × ArePackets ps
        × (concat ps ≡ concat pk ++ slice 0 msg offset n)
        × (flash_packets write_blocks ps ctx ≡ (ok tt, f))
        × (ffu_stream_flash_done f ≡ true)

    module _ (l : Loop D) (ready : IsReady ctx) (packets : ArePackets pk)
        (ran : flash_packets write_blocks pk ctx ≡ (ok tt, l.flash)) where
      payload_result-Takes :
          (offset n : ℕ) (r : Run (StreamFlash D))
          → offset + n ≤ len
          → n ≤ max_payload_data
          → ffu_stream_flash_payload write_blocks (slice 0 msg offset n) l.flash ≡ r
          → Takes Written (payload_result r)
      payload_result-Takes offset n (ok u, flash) inside small e = λ _ done.
          let bytes = slice 0 msg offset n in
          let short : length bytes < 2 ^ 32 = omega (arith, length-take_or n 0 (drop offset msg)) in
          (
            offset,
            n,
            inside,
            pk ++ bytes ∷ [],
            ArePackets-append pk bytes packets short,
            concat-append pk (bytes ∷ []) ∙ ap (λ bs. concat pk ++ bs) (append-nil bytes),
            flash_packets-append pk (bytes ∷ []) ctx
                ∙ ap (λ (r : Run (StreamFlash D)). r &> flash_packets write_blocks (bytes ∷ [])) ran
                ∙ ap (λ (r : Run (StreamFlash D)). r &> λ c. (ok tt, c)) e,
            done,
          )
      payload_result-Takes offset n (err st, flash) inside small e = λ none done.
          let bytes = slice 0 msg offset n in
          let short : length bytes < 2 ^ 32 = omega (arith, length-take_or n 0 (drop offset msg)) in
          elim (ffu_stream_flash_payload-failing write_blocks bytes l.flash {st = st} {c = flash}
            (flash_packets-Took write_blocks pk ctx {c = l.flash} ready packets ran).0 short e) [
              | inl past ↦ absurd (behind_end (ap status_from_efi (sym past) ∙ none))
              | inr not_done ↦ absurd cc
            ]
      payload_result-Takes offset n (stuck, flash) inside small e = tt

module _ {D : Type 0} (write_blocks : D → ℕ → ℕ → List ℕ → ℕ × D) (flush_blocks : Option (D → D))
    (pool : ℕ → ℕ → Bool) (room : ℕ → Bool) (media : Media) (commit : Bool) where
  flash_payload-Takes :
      (msg : List ℕ) (len : ℕ) (pk : List (List ℕ)) (ctx : StreamFlash D) (l : Loop D)
      → IsReady ctx
      → ArePackets pk
      → flash_packets write_blocks pk ctx ≡ (ok tt, l.flash)
      → (c : PayloadChunk) → (c.data_offset + c.data_len ≤ len) × (c.data_len ≤ max_payload_data)
      → Takes
          (Written write_blocks msg len pk ctx)
          (flash_payload write_blocks flush_blocks pool room media commit c msg l)
  unfolding flash_payload
  flash_payload-Takes msg len pk ctx l ready packets ran c (inside, small) =
      let Sound = Takes (Written write_blocks msg len pk ctx) in
      if_both Sound (not l.buffer.flash_ready) (λ _ zero_status. absurd (omega arith))
        (λ _.
          if_both Sound (c.data_len == 0)
            (λ _ _ done. (0, 0, omega arith, pk, packets, sym (append-nil (concat pk)), ran, done))
            (λ _.
              if_both Sound l.dangling (λ _. tt)
                (λ _.
                  payload_result-Takes write_blocks msg len pk ctx l ready packets ran c.data_offset
                    c.data_len
                    (ffu_stream_flash_payload write_blocks (slice 0 msg c.data_offset c.data_len)
                      l.flash)
                    inside small refl)))

  -- When a header of fewer than 2 ^ 32 bytes was accepted, and the flasher of the loop is what is
  -- left after packets of fewer than 2 ^ 32 bytes that were all accepted, a secure-flash message
  -- ends the loop only with EFI_SUCCESS and only when the payload is whole: the packets and a part
  -- of the message within its length, which may be empty, come to the plan's total, writing the
  -- plan's entries in turn, each with its own part of these bytes, succeeds, and the device is the
  -- one that this leaves, flushed if the run commits.
  pub handle_secure-put_entries :
      (header : List ℕ) (size : ℕ) (device : D) (pk : List (List ℕ)) (msg : List ℕ) (len : ℕ)
      (l : Loop D) {ctx : StreamFlash D} {replies : List (List ℕ)} {st : ℕ} {l' : Loop D}
      → size < 2 ^ 32
      → ffu_stream_flash_init pool room (some header) size (some media) device commit ≡ ok ctx
      → ArePackets pk
      → flash_packets write_blocks pk ctx ≡ (ok tt, l.flash)
      → handle_secure write_blocks flush_blocks pool room media commit msg len l
        ≡ stop replies st l'
      → (st ≡ efi_success)
        × (offset n : ℕ) × (offset + n ≤ len)
        × (d : D) × (length (concat pk ++ slice 0 msg offset n) ≡ ctx.plan.total_payload_bytes)
        × (put_entries write_blocks
              (target_of ctx)
              ctx.plan.entries
              (concat pk ++ slice 0 msg offset n)
              device
            ≡ (ok tt, d))
        × (l'.flash.device ≡ flushed_device commit flush_blocks d)
  handle_secure-put_entries header size device pk msg len l {ctx} {replies} {st} {l'} small init
        packets ran stops =
      let s =
        ffu_stream_flash_init-IsStarted pool room header size media device commit small init in
      let P = Written write_blocks msg len pk ctx in
      let (success, f, (offset, n, inside, ps, are, same, written, done), flushed') =
        subst (Stops commit flush_blocks P) stops (
          handle_secure-Stops write_blocks flush_blocks pool room media commit P msg len l
            (flash_payload-Takes msg len pk ctx l s.ready packets ran)) in
      let (whole, put) =
        ffu_stream_flash_done-put_entries write_blocks pool room header size media device commit ps
          {ctx = ctx} {c = f} small init are written done in
      (
        success,
        offset,
        n,
        inside,
        f.device,
        ap length (sym same) ∙ whole,
        ap (λ bs. put_entries write_blocks (target_of ctx) ctx.plan.entries bs device) (sym same)
            ∙ put,
        flushed',
      )
