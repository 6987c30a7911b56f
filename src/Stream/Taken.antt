-- ===== src/Stream/Taken.antt =====
-- How many bytes the streaming flasher of src/src/ffu.c has taken.
use mathlib.Core.Path.{subst}
use ufp_ffu_device_efi.Prelude.{
  ℕ, zero, suc, ◌+◌, ◌<◌, ◌≡◌, ◌⊎◌, refl, sym, ap, ◌∙◌, arith, List, [], ◌∷◌, false, some, ◌==◌,
  leb, get_elem?, length, drop, Bool-cases, Option-cases, if_both, ==→eq, inl, inr,
}
use ufp_ffu_device_efi.Word.{u32}
use ufp_ffu_device_efi.Efi.{ok, err, stuck, Run, ◌&>◌, &>-eq-ok, efi_bad_buffer_size}
use ufp_ffu_device_efi.Ffu.{WriteEntry}
use ufp_ffu_device_efi.Stream.{
  StreamFlash, stream_write_completed_entry, complete_entry, receive, accept, note_end,
  ffu_stream_flash_done,
}
use ufp_ffu_device_efi.Stream.Kept.{Kept, stream_write_completed_entry-Kept}
use ufp_ffu_device_efi.Stream.Ready.{
  IsFlashable, IsReady, Partial, get_elem?-some, accept-IsReady, complete_entry-eq-ok,
}
use ufp_ffu_device_efi.Stream.Feed.{feed_all, current-small}
use ufp_ffu_device_efi.Stream.Entries.{total_bytes}

-- The bytes of the entries from the current one on.
abbrev pub left : {D : Type 0} → StreamFlash D → ℕ
left ctx = total_bytes (drop ctx.entry_index ctx.plan.entries)

-- Between two contexts of one plan so many bytes were taken.
abbrev pub Took : {D : Type 0} → ℕ → StreamFlash D → StreamFlash D → Type 0
Took n ctx c = (c.plan ≡ ctx.plan) × (left ctx + c.entry_received ≡ left c + ctx.entry_received + n)

pub Took-trans :
    {D : Type 0} (m n : ℕ) (a b c : StreamFlash D) → Took m a b → Took n b c → Took (m + n) a c
Took-trans m n a b c (same, h) (same', k) = (same' ∙ same, omega arith)

Took-one : {D : Type 0} (n : ℕ) (a b c : StreamFlash D) → Took 1 a b → Took n b c → Took (suc n) a c
Took-one n a b c (same, h) (same', k) = (same' ∙ same, omega arith)

total_bytes-drop :
    (xs : List WriteEntry) (i : ℕ) {e : WriteEntry}
    → get_elem? xs i ≡ some e
    → total_bytes (drop i xs) ≡ e.byte_count + total_bytes (drop (i + 1) xs)
total_bytes-drop [] i {e} h = cc
total_bytes-drop (x ∷ xs) zero {e} h = let same : x ≡ e = cc in rw same refl
total_bytes-drop (x ∷ xs) (suc i) {e} h =
    let next : suc i + 1 ≡ suc (i + 1) = omega arith in rw next (total_bytes-drop xs i {e = e} h)

pub &>-eq-err :
    {S : Type 0} (r : Run S) (f : S → Run S) {st : ℕ} {c : S}
    → (r &> f) ≡ (err st, c)
    → (r ≡ (err st, c)) ⊎ ((s : S) × (r ≡ (ok tt, s)) × (f s ≡ (err st, c)))
&>-eq-err (ok tt, s) f h = inr (s, refl, h)
&>-eq-err (err st, s) f h = inl h
&>-eq-err (stuck, s) f h = inl h

module _ {D : Type 0} (write_blocks : D → ℕ → ℕ → List ℕ → ℕ × D) where
  module _ (e : WriteEntry) (b : ℕ) (ctx : StreamFlash D) (ready : IsReady ctx)
      (found : get_elem? ctx.plan.entries ctx.entry_index ≡ some e) where
    accept-Took :
        {c : StreamFlash D} → accept write_blocks e (b ∷ []) ctx ≡ (ok tt, c) → Took 1 ctx c
    unfolding accept receive
    accept-Took {c} h =
        let few = current-small write_blocks ctx ready e found in
        let here =
          get_elem?-some (IsFlashable ctx.entry_capacity (length ctx.plan.stores)) ctx.plan.entries
            ctx.entry_index {a = e} ready.each found in
        let part : ctx.entry_received < e.byte_count =
          subst (λ o. Partial o ctx.entry_received) found ready.received in
        let small : u32 (ctx.entry_received + 1) ≡ ctx.entry_received + 1 = omega arith in
        let behind = total_bytes-drop ctx.plan.entries ctx.entry_index {e = e} found in
        elim (Bool-cases (u32 (ctx.entry_received + 1) == e.byte_count)) [
          | inl whole ↦
              subst (Took 1 ctx)
                (sym (
                  complete_entry-eq-ok write_blocks e (receive write_blocks (b ∷ []) ctx) {c = c}
                    (omega (arith, here.0, ready.counted, ready.few)) (rw (whole, accept) at h)))
                (
                  refl,
                  omega (arith, behind, ==→eq (u32 (ctx.entry_received + 1)) e.byte_count whole),
                )
          | inr more ↦
              subst (Took 1 ctx) (ap (λ (r : Run (StreamFlash D)). r.1) (rw (more, accept) at h))
                (refl, rw small (omega arith))
        ]

    accept-failing :
        {st : ℕ} {c : StreamFlash D}
        → accept write_blocks e (b ∷ []) ctx ≡ (err st, c)
        → ffu_stream_flash_done c ≡ false
    unfolding accept receive complete_entry ffu_stream_flash_done
    accept-failing {st} {c} h = elim (Bool-cases (u32 (ctx.entry_received + 1) == e.byte_count)) [
      | inl whole ↦
          elim (&>-eq-err (stream_write_completed_entry write_blocks e received) _
            (rw (whole, accept) at h)) [
              | inl refused ↦ kept (
                  subst (Kept received) (ap (λ (r : Run (StreamFlash D)). r.1) refused)
                    (stream_write_completed_entry-Kept write_blocks e received))
              | inr (s, _, went) ↦ absurd (other went)
            ]
      | inr more ↦ absurd (other (rw (more, accept) at h))
    ]
      where
        received : StreamFlash D
        received = receive write_blocks (b ∷ []) ctx

        other : {s c : StreamFlash D} → Path (Run (StreamFlash D)) (ok tt, s) (err st, c) → ⊥
        other p = cc

        kept : Kept received c → ffu_stream_flash_done c ≡ false
        kept k =
            let here =
              get_elem?-some (IsFlashable ctx.entry_capacity (length ctx.plan.stores))
                ctx.plan.entries ctx.entry_index {a = e} ready.each found in
            let index : c.entry_index ≡ ctx.entry_index =
              ap (λ (c : StreamFlash D). c.entry_index) k in
            let count : c.plan.entry_count ≡ ctx.plan.entry_count =
              ap (λ (c : StreamFlash D). c.plan.entry_count) k in
            ground (arith, here.0, ready.counted, index, count)

  pub feed_all-Took :
      (bs : List ℕ) (ctx : StreamFlash D) {c : StreamFlash D}
      → IsReady ctx
      → feed_all write_blocks bs ctx ≡ (ok tt, c)
      → Took (length bs) ctx c
  unfolding feed_all
  feed_all-Took [] ctx {c} ready h =
      subst (Took 0 ctx) (ap (λ (r : Run (StreamFlash D)). r.1) h) (refl, omega arith)
  feed_all-Took (b ∷ bs) ctx {c} ready h =
      elim (Option-cases (get_elem? ctx.plan.entries ctx.entry_index)) [
        | inl missing ↦ absurd (past (rw (missing, feed_all) at h))
        | inr (e, found) ↦
            let (c₁, ran, rest) =
              &>-eq-ok (accept write_blocks e (b ∷ []) ctx) (feed_all write_blocks bs)
                (rw (found, feed_all) at h) in
            let part : ctx.entry_received < e.byte_count =
              subst (λ o. Partial o ctx.entry_received) found ready.received in
            let ready₁ =
              (accept-IsReady write_blocks e (b ∷ []) ctx {c = c₁} ready found (omega arith)
                ran).0 in
            Took-one (length bs) ctx c₁ c (accept-Took e b ctx ready found {c = c₁} ran)
              (feed_all-Took bs c₁ {c = c} ready₁ rest)
      ]
    where
      past : {st : ℕ} {d : StreamFlash D} → Path (Run (StreamFlash D)) (err st, d) (ok tt, c) → ⊥
      past p = cc

  -- A failing run either came to bytes behind the last entry, or did not write an entry.
  pub feed_all-failing :
      (bs : List ℕ) (ctx : StreamFlash D) {st : ℕ} {c : StreamFlash D}
      → IsReady ctx
      → feed_all write_blocks bs ctx ≡ (err st, c)
      → (st ≡ efi_bad_buffer_size) ⊎ (ffu_stream_flash_done c ≡ false)
  unfolding feed_all
  feed_all-failing [] ctx {st} {c} ready h = absurd cc
  feed_all-failing (b ∷ bs) ctx {st} {c} ready h =
      elim (Option-cases (get_elem? ctx.plan.entries ctx.entry_index)) [
        | inl missing ↦ inl (past (rw (missing, feed_all) at h))
        | inr (e, found) ↦
            elim (&>-eq-err (accept write_blocks e (b ∷ []) ctx) (feed_all write_blocks bs)
              (rw (found, feed_all) at h)) [
                | inl refused ↦ inr (accept-failing e b ctx ready found {st = st} {c = c} refused)
                | inr (c₁, ran, rest) ↦
                    let part : ctx.entry_received < e.byte_count =
                      subst (λ o. Partial o ctx.entry_received) found ready.received in
                    feed_all-failing bs c₁ {st = st} {c = c}
                      (accept-IsReady write_blocks e (b ∷ []) ctx {c = c₁} ready found (omega arith)
                        ran).0
                      rest
              ]
      ]
    where
      past :
          {d : StreamFlash D}
          → Path (Run (StreamFlash D)) (err efi_bad_buffer_size, d) (err st, c)
          → st ≡ efi_bad_buffer_size
      past p = cc

  pub note_end-Took :
      (n : ℕ) (ctx c : StreamFlash D) → Took n ctx c → Took n ctx (note_end write_blocks c)
  unfolding note_end
  note_end-Took n ctx c h =
      if_both (Took n ctx) (leb c.plan.entry_count c.entry_index) (λ _. h) (λ _. h)
