-- ===== src/Stream/Ready.antt =====
-- The state of src/src/ffu.c's streaming flasher between the rounds of its payload loop.
use mathlib.Core.Path.{subst}
use ufp_ffu_device_efi.Prelude.{
  ℕ, zero, suc, ◌+◌, ◌^◌, ◌<◌, ◌≤◌, ◌≡◌, refl, sym, ap, ◌∙◌, arith, List, [], ◌∷◌, false, ◌==◌,
  Option, some, none, get_elem?, length, All, Bool-cases, inl, inr,
}
use ufp_ffu_device_efi.Prelude.Buffer.{blit, length-blit}
use ufp_ffu_device_efi.Word.{u32}
use ufp_ffu_device_efi.Efi.{ok, Run, &>-eq-ok}
use ufp_ffu_device_efi.Proto.{max_payload_data}
use ufp_ffu_device_efi.Ffu.{WriteEntry}
use ufp_ffu_device_efi.Stream.{
  StreamFlash, stream_write_completed_entry, complete_entry, receive, accept,
}
use ufp_ffu_device_efi.Stream.Kept.{Kept, stream_write_completed_entry-Kept}

-- An entry that the buffer has room for, of a store of the table.
pub record IsFlashable (capacity stores : ℕ) (e : WriteEntry) : Type 0 where
  pub has_bytes : 0 < e.byte_count
  pub fits : e.byte_count ≤ capacity
  pub has_store : e.store_index < stores

-- The entry that is being received, if there is one, is not complete.
abbrev pub Partial : Option WriteEntry → ℕ → Type 0
Partial none received = received ≡ 0
Partial (some e) received = received < e.byte_count

pub record IsReady {D : Type 0} (ctx : StreamFlash D) : Type 0 where
  pub counted : ctx.plan.entry_count ≡ length ctx.plan.entries
  pub few : ctx.plan.entry_count < 2 ^ 32
  pub capacity : ctx.entry_capacity ≡ length ctx.entry_data
  pub capacity_fits : ctx.entry_capacity ≤ max_payload_data
  pub each : All (IsFlashable ctx.entry_capacity (length ctx.plan.stores)) ctx.plan.entries
  pub started : ctx.entry_index ≤ ctx.plan.entry_count
  pub received : Partial (get_elem? ctx.plan.entries ctx.entry_index) ctx.entry_received

pub get_elem?-none : {A : Type 0} (xs : List A) (i : ℕ) → get_elem? xs i ≡ none → length xs ≤ i
get_elem?-none [] i h = omega arith
get_elem?-none (x ∷ xs) zero h = cc
get_elem?-none (x ∷ xs) (suc i) h = omega (arith, get_elem?-none xs i h)

pub get_elem?-some :
    {A : Type 0} (P : A → Type 0) (xs : List A) (i : ℕ) {a : A}
    → All P xs
    → get_elem? xs i ≡ some a
    → (i < length xs) × P a
get_elem?-some P [] i {a} each h = cc
get_elem?-some P (x ∷ xs) zero {a} each h = let e : x ≡ a = cc in (omega arith, subst P e each.0)
get_elem?-some P (x ∷ xs) (suc i) {a} each h =
    let (below, holds) = get_elem?-some P xs i {a = a} each.1 h in (omega (arith, below), holds)

-- A fresh entry is not complete.
Partial-fresh :
    (capacity stores : ℕ) (es : List WriteEntry) (i : ℕ)
    → All (IsFlashable capacity stores) es
    → Partial (get_elem? es i) 0
Partial-fresh capacity stores [] i each = refl
Partial-fresh capacity stores (e ∷ es) zero each = each.0.has_bytes
Partial-fresh capacity stores (e ∷ es) (suc i) each = Partial-fresh capacity stores es i each.1

module _ {D : Type 0} (write_blocks : D → ℕ → ℕ → List ℕ → ℕ × D) where
  -- A completed entry: the next one is the current one.
  pub complete_entry-eq-ok :
      (e : WriteEntry) (ctx : StreamFlash D) {c : StreamFlash D}
      → ctx.entry_index + 1 < 2 ^ 32
      → complete_entry write_blocks e ctx ≡ (ok tt, c)
      → c ≡ record ctx {
        device = c.device;
        last_sector = c.last_sector;
        entry_received = 0;
        entry_index = ctx.entry_index + 1;
      }
  unfolding complete_entry
  complete_entry-eq-ok e ctx {c} few h =
      let (done, ran, stepped) = &>-eq-ok (stream_write_completed_entry write_blocks e ctx) _ h in
      let kept : Kept ctx done =
        subst (Kept ctx) (ap (λ (r : Run (StreamFlash D)). r.1) ran)
          (stream_write_completed_entry-Kept write_blocks e ctx) in
      let next : c ≡ record done { entry_received = 0; entry_index = u32 (done.entry_index + 1) } =
        sym (ap (λ (r : Run (StreamFlash D)). r.1) stepped) in
      let index : u32 (ctx.entry_index + 1) ≡ ctx.entry_index + 1 = omega arith in
      rw index at (next_of done c kept next)
    where
      next_of :
          (done c : StreamFlash D)
          → Kept ctx done
          → c ≡ record done { entry_received = 0; entry_index = u32 (done.entry_index + 1) }
          → c ≡ record ctx {
            device = c.device;
            last_sector = c.last_sector;
            entry_received = 0;
            entry_index = u32 (ctx.entry_index + 1);
          }
      next_of done c kept next = cc

  pub complete_entry-IsReady :
      (e : WriteEntry) (ctx : StreamFlash D) {c : StreamFlash D}
      → ctx.plan.entry_count ≡ length ctx.plan.entries
      → ctx.plan.entry_count < 2 ^ 32
      → ctx.entry_capacity ≡ length ctx.entry_data
      → ctx.entry_capacity ≤ max_payload_data
      → All (IsFlashable ctx.entry_capacity (length ctx.plan.stores)) ctx.plan.entries
      → ctx.entry_index < ctx.plan.entry_count
      → complete_entry write_blocks e ctx ≡ (ok tt, c)
      → IsReady c
        × (c.plan ≡ ctx.plan)
        × (c.entry_index ≡ ctx.entry_index + 1)
        × (c.entry_received ≡ 0)
  complete_entry-IsReady e ctx {c} counted few capacity fits each more h =
      subst
        (λ (c : StreamFlash D).
          IsReady c
          × (c.plan ≡ ctx.plan)
          × (c.entry_index ≡ ctx.entry_index + 1)
          × (c.entry_received ≡ 0))
        (sym (complete_entry-eq-ok e ctx {c = c} (omega arith) h))
        (
          record {
            counted = counted;
            few = few;
            capacity = capacity;
            capacity_fits = fits;
            each = each;
            started = omega arith;
            received =
                Partial-fresh ctx.entry_capacity (length ctx.plan.stores) ctx.plan.entries
                  (ctx.entry_index + 1) each;
          },
          refl,
          refl,
          refl,
        )

  -- What a round that succeeds does: it stays ready, and comes nearer to the end.
  pub accept-IsReady :
      (e : WriteEntry) (bytes : List ℕ) (ctx : StreamFlash D) {c : StreamFlash D}
      → IsReady ctx
      → get_elem? ctx.plan.entries ctx.entry_index ≡ some e
      → ctx.entry_received + length bytes ≤ e.byte_count
      → accept write_blocks e bytes ctx ≡ (ok tt, c)
      → IsReady c
        × (c.plan ≡ ctx.plan)
        × (ctx.entry_index ≤ c.entry_index)
        × ((ctx.entry_received + length bytes ≡ e.byte_count)
            → (c.entry_index ≡ ctx.entry_index + 1) × (c.entry_received ≡ 0))
  unfolding accept receive
  accept-IsReady e bytes ctx {c} ready found inside h =
      elim (Bool-cases (u32 (ctx.entry_received + length bytes) == e.byte_count)) [
        | inl whole ↦
            let (is_ready, plan, index, none_received) =
              complete_entry-IsReady e
                (record ctx {
                  entry_data = blit ctx.entry_data ctx.entry_received bytes;
                  entry_received = u32 (ctx.entry_received + length bytes);
                })
                {c = c} ready.counted ready.few kept_capacity ready.capacity_fits ready.each
                (omega (arith, here.0, ready.counted)) (rw (whole, accept) at h) in
            (is_ready, plan, omega (arith, index), λ _. (index, none_received))
        | inr part ↦
            subst
              (λ (c : StreamFlash D).
                IsReady c
                × (c.plan ≡ ctx.plan)
                × (ctx.entry_index ≤ c.entry_index)
                × ((ctx.entry_received + length bytes ≡ e.byte_count)
                    → (c.entry_index ≡ ctx.entry_index + 1) × (c.entry_received ≡ 0)))
              (ap (λ (r : Run (StreamFlash D)). r.1) (rw (part, accept) at h))
              (received_part part, refl, omega arith, λ p. absurd (omega (arith, still part)))
      ]
    where
      here :
          (ctx.entry_index < length ctx.plan.entries)
          × IsFlashable ctx.entry_capacity (length ctx.plan.stores) e
      here =
          get_elem?-some (IsFlashable ctx.entry_capacity (length ctx.plan.stores)) ctx.plan.entries
            ctx.entry_index {a = e} ready.each found

      still :
          (u32 (ctx.entry_received + length bytes) == e.byte_count) ≡ false
          → ctx.entry_received + length bytes < e.byte_count
      still part = ground (arith, here.1.fits, ready.capacity_fits)

      kept_capacity : ctx.entry_capacity ≡ length (blit ctx.entry_data ctx.entry_received bytes)
      kept_capacity = ready.capacity ∙ sym (length-blit ctx.entry_data ctx.entry_received bytes)

      received_part :
          (u32 (ctx.entry_received + length bytes) == e.byte_count) ≡ false
          → IsReady (record ctx {
            entry_data = blit ctx.entry_data ctx.entry_received bytes;
            entry_received = u32 (ctx.entry_received + length bytes);
          })
      received_part part = record {
        counted = ready.counted;
        few = ready.few;
        capacity = kept_capacity;
        capacity_fits = ready.capacity_fits;
        each = ready.each;
        started = ready.started;
        received =
            subst (λ o. Partial o (u32 (ctx.entry_received + length bytes))) (sym found)
              (omega (arith, still part));
      }
