-- ===== src/Ffu/Tables.antt =====
-- The tables of a plan: what the growing of them keeps, and what their elements satisfy.
use mathlib.Core.Path.{subst}
use ufp_ffu_device_efi.Prelude.{
  ℕ, suc, ◌+◌, ◌*◌, ◌^◌, ◌<◌, ◌≤◌, ◌≡◌, arith, List, [], ◌∷◌, ◌++◌, Bool, length, All, take, drop,
  sym, take-append_le, drop-append_le, length-append, length-drop, take-all, drop-all, ap,
}
use ufp_ffu_device_efi.Prelude.Buffer.{slice}
use ufp_ffu_device_efi.Word.{u64}
use ufp_ffu_device_efi.Efi.{ok}
use ufp_ffu_device_efi.Proto.{max_payload_data}
use ufp_ffu_device_efi.Ffu.{
  WriteEntry, Store, Parser, push_store, push_entry, append_store, append_entry,
}
use ufp_ffu_device_efi.Ffu.Read.{mem_read_exact}

-- A read that succeeds lies within the given size, and stores that slice.
pub mem_read_exact-eq-ok :
    (data' : List ℕ) (size offset len : ℕ) {bytes : List ℕ}
    → mem_read_exact data' size offset len ≡ ok bytes
    → (offset + len ≤ size) × (bytes ≡ slice 0 data' offset len)
unfolding mem_read_exact
mem_read_exact-eq-ok data' size offset len h = ground arith

pub mem_read_exact-inside :
    (data' : List ℕ) (size offset len : ℕ)
    → offset + len ≤ size
    → mem_read_exact data' size offset len ≡ ok (slice 0 data' offset len)
unfolding mem_read_exact
mem_read_exact-inside data' size offset len h = ground arith

-- Growing a table changes nothing of the plan but the appended element.
pub plan-append_entry :
    (pool : ℕ → ℕ → Bool) (s : Parser) (e : WriteEntry) {s' : Parser}
    → append_entry pool s e ≡ ok s'
    → s'.plan ≡ (push_entry s e).plan
unfolding append_entry
plan-append_entry pool s e h = ground arith

pub plan-append_store :
    (pool : ℕ → ℕ → Bool) (s : Parser) (t : Store) {s' : Parser}
    → append_store pool s t ≡ ok s'
    → s'.plan ≡ (push_store s t).plan
unfolding append_store
plan-append_store pool s t h = ground arith

-- A write descriptor of the k-th store, of blocks of `block_size` bytes, in a header of `size`
-- bytes: it has blocks and locations, its byte count is exact and fits 32 bits, and all its
-- locations lie inside the header.
pub record IsEntry (size block_size k : ℕ) (e : WriteEntry) : Type 0 where
  pub of_store : e.store_index ≡ k
  pub bytes : e.byte_count ≡ block_size * e.block_count
  pub fits : e.byte_count < 2 ^ 32
  pub has_bytes : 0 < e.byte_count
  pub has_locations : 0 < e.location_count
  pub inside : e.descriptor_offset + 8 + e.location_count * 8 ≤ size

pub record IsStore (size : ℕ) (t : Store) : Type 0 where
  pub has_block : 0 < t.block_size
  pub block_fits : t.block_size ≤ max_payload_data
  pub has_entries : 0 < t.entry_count
  pub counted : t.descriptor_count ≡ t.entry_count
  pub head_inside : t.header_offset + 248 ≤ t.descriptor_base
  pub base_inside : t.descriptor_base ≤ size

-- Entries whose offsets follow one another from `a` on, and where the next would start.
abbrev pub OffsetsFrom : ℕ → List WriteEntry → Type 0
OffsetsFrom a [] = Unit {0}
OffsetsFrom a (e ∷ es) = (e.payload_offset ≡ a) × OffsetsFrom (u64 (a + e.byte_count)) es

abbrev pub end_of : ℕ → List WriteEntry → ℕ
end_of a [] = a
end_of a (e ∷ es) = end_of (u64 (a + e.byte_count)) es

-- The stores from the k-th on and the entries from index `i` on: the stores take consecutive
-- ranges of the entries, and together all of them, and the payloads of a store's entries follow one
-- another from the base of its payload on.
abbrev pub Describes : ℕ → ℕ → ℕ → List Store → List WriteEntry → Type 0
Describes size k i [] es = es ≡ []
Describes size k i (t ∷ ts) es =
    (t.entry_start ≡ i)
    × (t.entry_count ≤ length es)
    × IsStore size t
    × All (IsEntry size t.block_size k) (take t.entry_count es)
    × OffsetsFrom t.payload_base (take t.entry_count es)
    × Describes size (suc k) (i + t.entry_count) ts (drop t.entry_count es)

module _ (size : ℕ) (t : Store) (seg : List WriteEntry) where
  Describes-one :
      (k i : ℕ)
      → t.entry_start ≡ i
      → t.entry_count ≡ length seg
      → IsStore size t
      → All (IsEntry size t.block_size k) seg
      → OffsetsFrom t.payload_base seg
      → Describes size k i (t ∷ []) seg
  Describes-one k i start counted store each offsets = (
    start,
    omega arith,
    store,
    subst (All (IsEntry size t.block_size k)) (sym whole) each,
    subst (OffsetsFrom t.payload_base) (sym whole) offsets,
    drop-all t.entry_count seg (omega arith),
  )
    where
      whole : take t.entry_count seg ≡ seg
      whole = take-all t.entry_count seg (omega arith)

  -- A store behind the others, with the entries behind theirs.
  pub Describes-snoc :
      (k i : ℕ) (ts : List Store) (es : List WriteEntry)
      → Describes size k i ts es
      → t.entry_start ≡ i + length es
      → t.entry_count ≡ length seg
      → IsStore size t
      → All (IsEntry size t.block_size (k + length ts)) seg
      → OffsetsFrom t.payload_base seg
      → Describes size k i (ts ++ t ∷ []) (es ++ seg)
  Describes-snoc k i [] es d start counted store each offsets =
      subst (λ e. Describes size k i (t ∷ []) (e ++ seg)) (sym d)
        (Describes-one k i (omega (arith, ap length d)) counted store
          (subst (λ m. All (IsEntry size t.block_size m) seg) (omega arith) each) offsets)
  Describes-snoc k i (u ∷ ts) es (u_start, u_count, u_store, u_each, u_offsets, rest) start counted
        store each offsets =
      (
        u_start,
        omega (arith, length-append es seg),
        u_store,
        subst (All (IsEntry size u.block_size k)) (sym front) u_each,
        subst (OffsetsFrom u.payload_base) (sym front) u_offsets,
        subst (Describes size (suc k) (i + u.entry_count) (ts ++ t ∷ [])) (sym back) (
            Describes-snoc (suc k) (i + u.entry_count) ts (drop u.entry_count es) rest
              (omega (arith, length-drop u.entry_count es)) counted store
              (subst (λ m. All (IsEntry size t.block_size m) seg) (omega arith) each) offsets),
      )
    where
      front : take u.entry_count (es ++ seg) ≡ take u.entry_count es
      front = take-append_le u.entry_count es seg u_count

      back : drop u.entry_count (es ++ seg) ≡ drop u.entry_count es ++ seg
      back = drop-append_le u.entry_count es seg u_count
