-- ===== src/Ffu/Order.antt =====
-- How the payloads that the parser of src/src/ffu.c places lie one behind the other, in plain
-- arithmetic: the sizes that the stores declare are 64-bit numbers that nothing checks.
use mathlib.Core.Path.{subst}
use ufp_ffu_device_efi.Prelude.{
  ℕ, suc, ◌+◌, ◌%◌, ◌^◌, ◌<◌, ◌≤◌, ◌≡◌, ◌⊎◌, inl, inr, arith, List, [], ◌∷◌, ltb, drop, Bool-cases,
  ltb→lt, ltb→ge,
}
use ufp_ffu_device_efi.Word.{u64}
use ufp_ffu_device_efi.Bytes.Align.{align_up_u64_lem}
use ufp_ffu_device_efi.Ffu.{WriteEntry, Store}
use ufp_ffu_device_efi.Ffu.Tables.{Describes}
use ufp_ffu_device_efi.Ffu.Placed.{Chained}

-- Each payload starts at the first multiple of its block size that is not before the end of the
-- payload before it, which is its start and its declared size.
abbrev pub Follow : ℕ → List Store → Type 0
Follow end' [] = Unit {0}
Follow end' (t ∷ ts) =
    (t.payload_base % t.block_size ≡ 0)
    × (end' ≤ t.payload_base)
    × (t.payload_base < end' + t.block_size)
    × Follow (t.payload_base + t.payload_size) ts

-- Some payload's declared size takes its end to within 2 ^ 32 bytes of 2 ^ 64, or past it.
abbrev pub Oversized : List Store → Type 0
Oversized [] = ⊥
Oversized (t ∷ ts) = (2 ^ 64 ≤ t.payload_base + t.payload_size + 2 ^ 32) ⊎ Oversized ts

module _ (size : ℕ) where
  pub Chained-Follow :
      (k i cursor : ℕ) (ts : List Store) (es : List WriteEntry)
      → size < 2 ^ 32
      → cursor + 2 ^ 32 < 2 ^ 64
      → Describes size k i ts es
      → Chained cursor ts
      → Follow cursor ts ⊎ Oversized ts
  Chained-Follow k i cursor [] es small low d chained = inl tt
  Chained-Follow k i cursor (t ∷ ts) es small low d (base, chained) =
      elim (Bool-cases (ltb (t.payload_base + t.payload_size + 2 ^ 32) (2 ^ 64))) [
        | inr past ↦ inr (inl (ltb→ge (t.payload_base + t.payload_size + 2 ^ 32) (2 ^ 64) past))
        | inl fits ↦
            let below = ltb→lt (t.payload_base + t.payload_size + 2 ^ 32) (2 ^ 64) fits in
            let whole : u64 (t.payload_base + t.payload_size) ≡ t.payload_base + t.payload_size =
              omega arith in
            elim (Chained-Follow (suc k) (i + t.entry_count) (t.payload_base + t.payload_size) ts
              (drop t.entry_count es) small below d.5 (subst (λ c. Chained c ts) whole chained)) [
                | inl follows ↦ inl (start.0, start.1, start.2, follows)
                | inr past ↦ inr (inr past)
              ]
      ]
    where
      start :
          (t.payload_base % t.block_size ≡ 0)
          × (cursor ≤ t.payload_base)
          × (t.payload_base < cursor + t.block_size)
      start =
          rw base
            (align_up_u64_lem cursor t.block_size d.2.has_block (omega (arith, d.2.block_fits)))
