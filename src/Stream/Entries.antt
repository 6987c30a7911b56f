-- ===== src/Stream/Entries.antt =====
-- The streaming flasher of src/src/ffu.c on a whole payload: entry by entry.
use mathlib.Core.Path.{subst}
use ufp_ffu_device_efi.Prelude.{
  ℕ, zero, suc, ◌+◌, ◌^◌, ◌<◌, ◌≤◌, ◌≡◌, refl, sym, ap, ◌∙◌, arith, List, [], ◌∷◌, true, ◌==◌, some,
  get_elem?, length, take, drop, length-take, length-drop, take-append-drop,
}
use ufp_ffu_device_efi.Prelude.Buffer.{blit, slice, take_or-eq-take, take-blit, length-blit}
use ufp_ffu_device_efi.Word.{u32}
use ufp_ffu_device_efi.Efi.{ok, Run, ◌&>◌, &>-eq-ok}
use ufp_ffu_device_efi.Ffu.{WriteEntry, Plan}
use ufp_ffu_device_efi.Stream.{
  StreamFlash, stream_write_completed_entry, complete_entry, receive, accept,
}
use ufp_ffu_device_efi.Stream.Ready.{
  IsFlashable, IsReady, get_elem?-some, accept-IsReady, complete_entry-eq-ok,
}
use ufp_ffu_device_efi.Stream.Feed.{
  feed_all, feed_all-append, feed_all-accept_at_once, current-small,
}
use ufp_ffu_device_efi.Stream.Device.{
  Target, target_of, on_device, on_device-&>, put_entry, stream_write_completed_entry-put_entry,
}

abbrev pub total_bytes : List WriteEntry → ℕ
total_bytes [] = 0
total_bytes (e ∷ es) = e.byte_count + total_bytes es

get_elem?-drop :
    {A : Type 0} (xs : List A) (i : ℕ) {x : A} {rest : List A}
    → drop i xs ≡ x ∷ rest
    → (get_elem? xs i ≡ some x) × (drop (i + 1) xs ≡ rest)
get_elem?-drop [] zero h = cc
get_elem?-drop [] (suc i) h = cc
get_elem?-drop (y ∷ xs) zero h = (cc, cc)
get_elem?-drop (y ∷ xs) (suc i) {x} {rest} h =
    let (found, behind) = get_elem?-drop xs i {x = x} {rest = rest} h in
    let e : suc i + 1 ≡ suc (i + 1) = omega arith in (found, rw e behind)

module _ {D : Type 0} (write_blocks : D → ℕ → ℕ → List ℕ → ℕ × D) where
  -- The entries in turn, each with its part of the payload, up to the first error.
  abbrev pub put_entries : Target → List WriteEntry → List ℕ → D → Run D
  put_entries t [] payload d = (ok tt, d)
  put_entries t (e ∷ es) payload d =
      put_entry write_blocks t e (take e.byte_count payload) d
      &> put_entries t es (drop e.byte_count payload)

  on_device-complete_entry :
      (e : WriteEntry) (ctx : StreamFlash D)
      → on_device (complete_entry write_blocks e ctx)
        ≡ on_device (stream_write_completed_entry write_blocks e ctx)
  unfolding complete_entry
  on_device-complete_entry e ctx = ground arith

  module _ (ctx : StreamFlash D) (ready : IsReady ctx) (e : WriteEntry) (chunk : List ℕ)
      (found : get_elem? ctx.plan.entries ctx.entry_index ≡ some e) (empty : ctx.entry_received ≡ 0)
      (long : length chunk ≡ e.byte_count) where
    received_front : slice 0 (blit ctx.entry_data ctx.entry_received chunk) 0 e.byte_count ≡ chunk
    received_front =
        let here =
          get_elem?-some (IsFlashable ctx.entry_capacity (length ctx.plan.stores)) ctx.plan.entries
            ctx.entry_index {a = e} ready.each found in
        let fits : length chunk ≤ length ctx.entry_data =
          omega (arith, here.1.fits, ready.capacity) in
        let zero_on : 0 + length chunk ≡ length chunk = omega arith in
        rw (empty, sym long)
          (take_or-eq-take (length chunk) 0 (blit ctx.entry_data 0 chunk)
              (omega (arith, length-blit ctx.entry_data 0 chunk))
            ∙ rw zero_on at (take-blit ctx.entry_data 0 chunk (omega arith)))

    accept-put_entry :
        on_device (accept write_blocks e chunk ctx)
        ≡ put_entry write_blocks (target_of ctx) e chunk ctx.device
    unfolding accept receive
    accept-put_entry =
        let few : e.byte_count < 2 ^ 32 = current-small write_blocks ctx ready e found in
        let whole : (u32 (ctx.entry_received + length chunk) == e.byte_count) ≡ true =
          ground arith in
        rw (whole, accept)
          (on_device-complete_entry e (receive write_blocks chunk ctx)
            ∙ stream_write_completed_entry-put_entry write_blocks e chunk
                (receive write_blocks chunk ctx) received_front long)

    accept-target :
        (c : StreamFlash D)
        → ctx.entry_index + 1 < 2 ^ 32
        → accept write_blocks e chunk ctx ≡ (ok tt, c)
        → target_of c ≡ target_of ctx
    unfolding accept receive
    accept-target c more h =
        let few : e.byte_count < 2 ^ 32 = current-small write_blocks ctx ready e found in
        let whole : (u32 (ctx.entry_received + length chunk) == e.byte_count) ≡ true =
          ground arith in
        ap target_of (
          complete_entry-eq-ok write_blocks e (receive write_blocks chunk ctx) {c = c} more
            (rw (whole, accept) at h))

  -- From an entry's start on, the bytes of the entries that are left are written entry by entry.
  pub feed_all-put_entries :
      (es : List WriteEntry) (payload : List ℕ) (ctx : StreamFlash D)
      → IsReady ctx
      → ctx.entry_received ≡ 0
      → ctx.plan.entry_count + 1 < 2 ^ 32
      → drop ctx.entry_index ctx.plan.entries ≡ es
      → length payload ≡ total_bytes es
      → on_device (feed_all write_blocks payload ctx)
        ≡ put_entries (target_of ctx) es payload ctx.device
  unfolding feed_all
  feed_all-put_entries [] [] ctx ready empty few left long = refl
  feed_all-put_entries [] (b ∷ bs) ctx ready empty few left long = absurd (omega arith)
  feed_all-put_entries (e ∷ es) payload ctx ready empty few left long =
      let (found, behind) =
        get_elem?-drop ctx.plan.entries ctx.entry_index {x = e} {rest = es} left in
      let here =
        get_elem?-some (IsFlashable ctx.entry_capacity (length ctx.plan.stores)) ctx.plan.entries
          ctx.entry_index {a = e} ready.each found in
      let chunk = take e.byte_count payload in
      let size : length chunk ≡ e.byte_count = omega (arith, length-take e.byte_count payload) in
      let fed = accept write_blocks e chunk ctx in
      ap on_device (
        ap (λ xs. feed_all write_blocks xs ctx) (sym (take-append-drop e.byte_count payload))
        ∙ feed_all-append write_blocks chunk (drop e.byte_count payload) ctx
        ∙ ap (λ (r : Run (StreamFlash D)). r &> feed_all write_blocks (drop e.byte_count payload))
            (feed_all-accept_at_once write_blocks e chunk ctx
              (current-small write_blocks ctx ready e found) found (omega (arith, here.1.has_bytes))
              (omega arith)))
      ∙ on_device-&> write_blocks fed (feed_all write_blocks (drop e.byte_count payload))
          (put_entries (target_of ctx) es (drop e.byte_count payload))
          (λ c ran.
            let (is_ready, plan, _, next) =
              accept-IsReady write_blocks e chunk ctx {c = c} ready found (omega arith) ran in
            let (index, none_received) = next (omega arith) in
            let target =
              accept-target ctx ready e chunk found empty size c
                (omega (arith, here.0, ready.counted)) ran in
            feed_all-put_entries es (drop e.byte_count payload) c is_ready none_received
              (omega (arith, ap (λ (p : Plan). p.entry_count) plan))
              (ap (λ n. drop n c.plan.entries) index
                ∙ ap (λ (p : Plan). drop (ctx.entry_index + 1) p.entries) plan
                ∙ behind)
              (omega (arith, length-drop e.byte_count payload))
            ∙ ap (λ t. put_entries t es (drop e.byte_count payload) c.device) target)
      ∙ ap (λ (r : Run D). r &> put_entries (target_of ctx) es (drop e.byte_count payload))
          (accept-put_entry ctx ready e chunk found empty size)

  -- When that succeeds, every entry is written and none is begun.
  pub feed_all-finishes :
      (es : List WriteEntry) (payload : List ℕ) (ctx : StreamFlash D) {c : StreamFlash D}
      → IsReady ctx
      → ctx.entry_received ≡ 0
      → drop ctx.entry_index ctx.plan.entries ≡ es
      → length payload ≡ total_bytes es
      → feed_all write_blocks payload ctx ≡ (ok tt, c)
      → (c.entry_index ≡ c.plan.entry_count) × (c.entry_received ≡ 0)
  unfolding feed_all
  feed_all-finishes [] [] ctx {c} ready empty left long h =
      subst (λ (c : StreamFlash D). (c.entry_index ≡ c.plan.entry_count) × (c.entry_received ≡ 0))
        (ap (λ (r : Run (StreamFlash D)). r.1) h)
        (
          omega (
            arith,
            ap length left,
            length-drop ctx.entry_index ctx.plan.entries,
            ready.counted,
            ready.started,
          ),
          empty,
        )
  feed_all-finishes [] (b ∷ bs) ctx {c} ready empty left long h = absurd (omega arith)
  feed_all-finishes (e ∷ es) payload ctx {c} ready empty left long h =
      let (found, behind) =
        get_elem?-drop ctx.plan.entries ctx.entry_index {x = e} {rest = es} left in
      let here =
        get_elem?-some (IsFlashable ctx.entry_capacity (length ctx.plan.stores)) ctx.plan.entries
          ctx.entry_index {a = e} ready.each found in
      let chunk = take e.byte_count payload in
      let size : length chunk ≡ e.byte_count = omega (arith, length-take e.byte_count payload) in
      let (c₁, ran, rest) =
        &>-eq-ok (feed_all write_blocks chunk ctx)
          (feed_all write_blocks (drop e.byte_count payload))
          (sym (feed_all-append write_blocks chunk (drop e.byte_count payload) ctx)
            ∙ ap (λ xs. feed_all write_blocks xs ctx) (take-append-drop e.byte_count payload)
            ∙ h) in
      let taken =
        sym (
          feed_all-accept_at_once write_blocks e chunk ctx
            (current-small write_blocks ctx ready e found) found (omega (arith, here.1.has_bytes))
            (omega arith))
        ∙ ran in
      let (is_ready, plan, _, next) =
        accept-IsReady write_blocks e chunk ctx {c = c₁} ready found (omega arith) taken in
      let (index, none_received) = next (omega arith) in
      feed_all-finishes es (drop e.byte_count payload) c₁ {c = c} is_ready none_received
        (ap (λ n. drop n c₁.plan.entries) index
          ∙ ap (λ (p : Plan). drop (ctx.entry_index + 1) p.entries) plan
          ∙ behind)
        (omega (arith, length-drop e.byte_count payload)) rest
