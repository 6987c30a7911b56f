-- ===== src/Stream/Packets.antt =====
-- `ffu_stream_flash_payload` of src/src/ffu.c, called with one packet after the other.
use mathlib.Core.Path.{subst}
use ufp_ffu_device_efi.Prelude.{
  ℕ, ◌+◌, ◌^◌, ◌<◌, ◌≡◌, refl, sym, ap, ◌∙◌, arith, List, [], ◌∷◌, ◌++◌, true, false, if◌then◌else◌,
  get_elem?, length, All, Option-cases, inl, inr, leb,
}
use ufp_ffu_device_efi.Efi.{ok, err, stuck, Run, ◌&>◌, &>-eq-ok, &>-assoc}
use ufp_ffu_device_efi.Stream.{StreamFlash, accept, ffu_stream_flash_payload, note_end}
use ufp_ffu_device_efi.Stream.Ready.{
  IsFlashable, IsReady, Partial, get_elem?-none, get_elem?-some, accept-IsReady,
}
use ufp_ffu_device_efi.Stream.Feed.{feed_all, feed_all-append, payload_loop-feed_all}

-- The bytes of the packets.
abbrev pub concat : List (List ℕ) → List ℕ
concat [] = []
concat (p ∷ ps) = p ++ concat ps

-- A packet's length is a `uint32_t`.
abbrev pub ArePackets : List (List ℕ) → Type 0
ArePackets = All (λ (p : List ℕ). length p < 2 ^ 32)

-- What a run comes to, but for the final state.
abbrev pub observed : {D : Type 0} → Run (StreamFlash D) → Run (StreamFlash D)
observed (o, c) = (o, record c { final_state = 0 })

module _ {D : Type 0} (write_blocks : D → ℕ → ℕ → List ℕ → ℕ × D) where
  -- The packets up to the first error.
  abbrev pub flash_packets : List (List ℕ) → StreamFlash D → Run (StreamFlash D)
  flash_packets [] ctx = (ok tt, ctx)
  flash_packets (p ∷ ps) ctx = ffu_stream_flash_payload write_blocks p ctx &> flash_packets ps

  -- On a ready context, a packet of fewer than 2 ^ 32 bytes comes to the same as its bytes one by
  -- one, each stored behind the others and each entry written when its last byte is there, up to
  -- the first error; and the final state is noted when all went well.
  pub ffu_stream_flash_payload-feed_all :
      (data' : List ℕ) (ctx : StreamFlash D)
      → IsReady ctx
      → length data' < 2 ^ 32
      → ffu_stream_flash_payload write_blocks data' ctx
        ≡ (feed_all write_blocks data' ctx &> λ c. (ok tt, note_end write_blocks c))
  unfolding ffu_stream_flash_payload
  ffu_stream_flash_payload-feed_all data' ctx ready small =
      ap (λ (r : Run (StreamFlash D)). r &> λ c. (ok tt, note_end write_blocks c))
        (payload_loop-feed_all write_blocks (length data' + ctx.plan.entry_count + 1) data' 0 ctx
          ready small (omega arith) (omega arith))

  pub feed_all-IsReady :
      (bytes : List ℕ) (ctx : StreamFlash D) {c : StreamFlash D}
      → IsReady ctx
      → feed_all write_blocks bytes ctx ≡ (ok tt, c)
      → IsReady c × (c.plan ≡ ctx.plan)
  unfolding feed_all
  feed_all-IsReady [] ctx {c} ready h =
      subst (λ (c : StreamFlash D). IsReady c × (c.plan ≡ ctx.plan))
        (ap (λ (r : Run (StreamFlash D)). r.1) h) (ready, refl)
  feed_all-IsReady (b ∷ bs) ctx {c} ready h =
      elim (Option-cases (get_elem? ctx.plan.entries ctx.entry_index)) [
        | inl missing ↦ absurd (past (rw (missing, feed_all) at h))
        | inr (e, found) ↦
            let (c₁, ran, rest) =
              &>-eq-ok (accept write_blocks e (b ∷ []) ctx) (feed_all write_blocks bs)
                (rw (found, feed_all) at h) in
            let part : ctx.entry_received < e.byte_count =
              subst (λ o. Partial o ctx.entry_received) found ready.received in
            let (ready₁, plan₁, _, _) =
              accept-IsReady write_blocks e (b ∷ []) ctx {c = c₁} ready found (omega arith) ran in
            let (is_ready, plan) = feed_all-IsReady bs c₁ {c = c} ready₁ rest in
            (is_ready, plan ∙ plan₁)
      ]
    where
      past : {st : ℕ} {d : StreamFlash D} → Path (Run (StreamFlash D)) (err st, d) (ok tt, c) → ⊥
      past p = cc

  pub note_end-IsReady : (ctx : StreamFlash D) → IsReady ctx → IsReady (note_end write_blocks ctx)
  unfolding note_end
  note_end-IsReady ctx ready =
      elim (leb ctx.plan.entry_count ctx.entry_index)
        as (λ b. IsReady (if b then record ctx { final_state = 1 } else ctx)) [
          | true ↦ record {
            counted = ready.counted;
            few = ready.few;
            capacity = ready.capacity;
            capacity_fits = ready.capacity_fits;
            each = ready.each;
            started = ready.started;
            received = ready.received;
          }
          | false ↦ ready
        ]

  -- The final state is only noted when no byte has its place any more.
  feed_all-note_end :
      (bytes : List ℕ) (ctx : StreamFlash D)
      → IsReady ctx
      → observed (feed_all write_blocks bytes (note_end write_blocks ctx))
        ≡ observed (feed_all write_blocks bytes ctx)
  unfolding note_end feed_all
  feed_all-note_end [] ctx ready = ground arith
  feed_all-note_end (b ∷ bs) ctx ready =
      elim (Option-cases (get_elem? ctx.plan.entries ctx.entry_index)) [
        | inl missing ↦
            let at_end : leb ctx.plan.entry_count ctx.entry_index ≡ true =
              ground
                (arith, get_elem?-none ctx.plan.entries ctx.entry_index missing, ready.counted) in
            rw (at_end, missing, note_end, feed_all) refl
        | inr (e, found) ↦
            let here =
              get_elem?-some (IsFlashable ctx.entry_capacity (length ctx.plan.stores))
                ctx.plan.entries ctx.entry_index {a = e} ready.each found in
            let inside : leb ctx.plan.entry_count ctx.entry_index ≡ false =
              ground (arith, here.0, ready.counted) in
            rw (inside, note_end) refl
      ]

  observed-cong :
      (r : Run (StreamFlash D)) (f g : StreamFlash D → Run (StreamFlash D))
      → ((c : StreamFlash D) → r ≡ (ok tt, c) → observed (f c) ≡ observed (g c))
      → observed (r &> f) ≡ observed (r &> g)
  observed-cong (ok tt, c) f g h = h c refl
  observed-cong (err st, c) f g h = refl
  observed-cong (stuck, c) f g h = refl

  -- On a ready context, packets of fewer than 2 ^ 32 bytes come to the same as the bytes of all of
  -- them one by one, in the status and in every part of the context but the final state: it does
  -- not matter where the packets begin and end.
  pub flash_packets-feed_all :
      (ps : List (List ℕ)) (ctx : StreamFlash D)
      → IsReady ctx
      → ArePackets ps
      → observed (flash_packets ps ctx) ≡ observed (feed_all write_blocks (concat ps) ctx)
  unfolding feed_all
  flash_packets-feed_all [] ctx ready small = refl
  flash_packets-feed_all (p ∷ ps) ctx ready small =
      let fed = feed_all write_blocks p ctx in
      ap observed (
        ap (λ (r : Run (StreamFlash D)). r &> flash_packets ps)
          (ffu_stream_flash_payload-feed_all p ctx ready small.0)
        ∙ &>-assoc fed (λ c. (ok tt, note_end write_blocks c)) (flash_packets ps))
      ∙ observed-cong fed (λ c. flash_packets ps (note_end write_blocks c))
          (feed_all write_blocks (concat ps))
          (λ c ran.
            let is_ready = (feed_all-IsReady p ctx {c = c} ready ran).0 in
            flash_packets-feed_all ps (note_end write_blocks c) (note_end-IsReady c is_ready)
              small.1
            ∙ feed_all-note_end (concat ps) c is_ready)
      ∙ ap observed (sym (feed_all-append write_blocks p (concat ps) ctx))
