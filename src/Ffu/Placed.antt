-- ===== src/Ffu/Placed.antt =====
-- The layout loops: they move each store's entries to the store's payload, and touch nothing else.
use mathlib.Core.Path.{subst}
use mathlib.Core.List.{append_assoc}
use ufp_ffu_device_efi.Prelude.{
  ℕ, suc, ◌+◌, ◌^◌, ◌<◌, ◌≤◌, ◌≡◌, ◌≢◌, refl, ap, sym, ◌∙◌, arith, List, [], ◌∷◌, ◌++◌, map, length,
  All, take, drop, ◌==◌, if◌then◌else◌, length-append, length-take, length-drop, take-append-drop,
  take-append_exact, drop-append_exact, length-map,
}
use ufp_ffu_device_efi.Word.{u64}
use ufp_ffu_device_efi.Bytes.{align_up_u64}
use ufp_ffu_device_efi.Bytes.Align.{align_up_u64-lt}
use ufp_ffu_device_efi.Ffu.{WriteEntry, Store}
use ufp_ffu_device_efi.Ffu.Layout.{shift_entry, place_entry, place_entries, Placed, place_stores}
use ufp_ffu_device_efi.Ffu.Tables.{IsEntry, OffsetsFrom, end_of, Describes}

place_entry-at :
    (delta : ℕ) (pre : List WriteEntry) (e : WriteEntry) (post : List WriteEntry) (total : ℕ)
    → place_entry delta (length pre) (pre ++ e ∷ post) total
      ≡ (pre ++ shift_entry delta e ∷ post, u64 (total + e.byte_count))
unfolding place_entry
place_entry-at delta [] e post total = refl
place_entry-at delta (x ∷ pre) e post total = rw (place_entry-at delta pre e post total)

-- The rounds of one store shift exactly its range of the entries.
place_entries-at :
    (delta : ℕ) (pre seg post : List WriteEntry) (total : ℕ)
    → place_entries (length seg) delta (length pre) (pre ++ (seg ++ post)) total
      ≡ (pre ++ (map (shift_entry delta) seg ++ post), end_of total seg)
unfolding place_entries
place_entries-at delta pre [] post total = refl
place_entries-at delta pre (e ∷ seg) post total =
    let e' : List WriteEntry = shift_entry delta e ∷ [] in
    let ih = place_entries-at delta (pre ++ e') seg post (u64 (total + e.byte_count)) in
    let len : length (pre ++ e') ≡ length pre + 1 = omega (arith, length-append pre e') in
    rw (place_entry-at delta pre e (seg ++ post) total, place_entries)
      (rw
        (
          len,
          append_assoc pre e' (seg ++ post),
          append_assoc pre e' (map (shift_entry delta) seg ++ post),
        )
        at ih)

shift-OffsetsFrom :
    (delta a b : ℕ) (seg : List WriteEntry)
    → b ≡ u64 (a + delta)
    → OffsetsFrom a seg
    → OffsetsFrom b (map (shift_entry delta) seg)
shift-OffsetsFrom delta a b [] e h = tt
shift-OffsetsFrom delta a b (x ∷ seg) e (here, rest) = (
  omega arith,
  shift-OffsetsFrom delta (u64 (a + x.byte_count)) (u64 (b + x.byte_count)) seg (omega arith) rest,
)

shift-IsEntry :
    (size bs k delta : ℕ) (seg : List WriteEntry)
    → All (IsEntry size bs k) seg
    → All (IsEntry size bs k) (map (shift_entry delta) seg)
shift-IsEntry size bs k delta [] h = tt
shift-IsEntry size bs k delta (x ∷ seg) (here, rest) =
    (omega (arith, here), shift-IsEntry size bs k delta seg rest)

-- Each store's payload starts at the least multiple of its block size behind the payload before
-- it; the first lies behind the cursor.
abbrev pub Chained : ℕ → List Store → Type 0
Chained cursor [] = Unit {0}
Chained cursor (t ∷ ts) =
    (t.payload_base ≡ align_up_u64 cursor t.block_size)
    × Chained (u64 (t.payload_base + t.payload_size)) ts

-- What placing the stores `ts` does, whose entries are `es`, behind those of earlier stores.
pub record IsPlaced (size k i : ℕ) (ts : List Store) (pre es : List WriteEntry) (total cursor : ℕ)
    (p : Placed) : Type 0 where
  pub moved : List WriteEntry
  pub entries : p.entries ≡ pre ++ moved
  pub same_length : length moved ≡ length es
  pub same_stores : length p.stores ≡ length ts
  pub described : Describes size k i p.stores moved
  pub chained : Chained cursor p.stores
  pub summed : p.total ≡ end_of total moved

end_of-append : (a : ℕ) (xs ys : List WriteEntry) → end_of a (xs ++ ys) ≡ end_of (end_of a xs) ys
end_of-append a [] ys = refl
end_of-append a (x ∷ xs) ys = end_of-append (u64 (a + x.byte_count)) xs ys

end_of-shift :
    (delta a : ℕ) (xs : List WriteEntry) → end_of a (map (shift_entry delta) xs) ≡ end_of a xs
end_of-shift delta a [] = refl
end_of-shift delta a (x ∷ xs) = end_of-shift delta (u64 (a + x.byte_count)) xs

-- The entries of the first store of a list, where they go, and what they are there.
abbrev own : Store → List WriteEntry → List WriteEntry
own t es = take t.entry_count es

abbrev base_of : ℕ → Store → ℕ
base_of cursor t = align_up_u64 cursor t.block_size

abbrev shifted : ℕ → Store → List WriteEntry → List WriteEntry
shifted cursor t es = map (shift_entry (base_of cursor t)) (own t es)

-- One store in front of the stores that are placed behind it.
module _ (size k i : ℕ) (t : Store) (ts : List Store) (pre es : List WriteEntry)
    (total cursor : ℕ) where
  length-own : t.entry_count ≤ length es → length (own t es) ≡ t.entry_count
  length-own h = omega (arith, length-take t.entry_count es)

  -- What the rounds of the first store leave.
  first_store :
      length pre ≡ i
      → t.entry_start ≡ i
      → t.entry_count ≤ length es
      → place_entries t.entry_count (base_of cursor t) t.entry_start (pre ++ es) total
        ≡ ((pre ++ (shifted cursor t es)) ++ drop t.entry_count es, end_of total (own t es))
  first_store at start counted =
      rw
        (
          length-own counted,
          at ∙ sym start,
          take-append-drop t.entry_count es,
          sym (
              append_assoc pre (map (shift_entry (base_of cursor t)) (own t es))
                (drop t.entry_count es)),
        )
        at (place_entries-at (base_of cursor t) pre (own t es) (drop t.entry_count es) total)

  cons-IsPlaced :
      (p : Placed)
      → cursor < 2 ^ 64
      → t.payload_base ≡ 0
      → Describes size k i (t ∷ ts) es
      → IsPlaced size
          (suc k)
          (i + t.entry_count)
          ts
          (pre ++ (shifted cursor t es))
          (drop t.entry_count es)
          (end_of total (own t es))
          (u64 ((base_of cursor t) + t.payload_size))
          p
      → IsPlaced size k i
          (t ∷ ts)
          pre
          es
          total
          cursor
          (record p { stores = record t { payload_base = (base_of cursor t) } ∷ p.stores })
  cons-IsPlaced p fits zero_base (start, counted, store, each, offsets, rest) ih = record {
    moved = (shifted cursor t es) ++ ih.moved;
    entries = ih.entries ∙ append_assoc pre (shifted cursor t es) ih.moved;
    same_length = omega (
      arith,
      ih.same_length,
      length-append (shifted cursor t es) ih.moved,
      length-map (shift_entry (base_of cursor t)) (own t es),
      length-own counted,
      length-drop t.entry_count es,
    );
    same_stores = ap suc ih.same_stores;
    described = (
      start,
      omega (
        arith,
        length-append (shifted cursor t es) ih.moved,
        length-map (shift_entry (base_of cursor t)) (own t es),
        length-own counted,
      ),
      omega (arith, store),
      subst (All (IsEntry size t.block_size k)) (sym front)
          (shift-IsEntry size t.block_size k (base_of cursor t) (own t es) each),
      subst (OffsetsFrom (base_of cursor t)) (sym front) (
          shift-OffsetsFrom (base_of cursor t) t.payload_base (base_of cursor t) (own t es)
            (omega (arith, align_up_u64-lt cursor t.block_size fits)) offsets),
      subst (Describes size (suc k) (i + t.entry_count) p.stores) (sym back) ih.described,
    );
    chained = (refl, ih.chained);
    summed =
        ih.summed
        ∙ ap (λ a. end_of a ih.moved) (sym (end_of-shift (base_of cursor t) total (own t es)))
        ∙ sym (end_of-append total (shifted cursor t es) ih.moved);
  }
    where
      exact : t.entry_count ≡ length (shifted cursor t es)
      exact =
          omega (arith, length-map (shift_entry (base_of cursor t)) (own t es), length-own counted)

      front : take t.entry_count ((shifted cursor t es) ++ ih.moved) ≡ (shifted cursor t es)
      front = take-append_exact t.entry_count (shifted cursor t es) ih.moved exact

      back : drop t.entry_count ((shifted cursor t es) ++ ih.moved) ≡ ih.moved
      back = drop-append_exact t.entry_count (shifted cursor t es) ih.moved exact

pub place_stores-IsPlaced :
    (size k i : ℕ) (ts : List Store) (pre es : List WriteEntry) (base total cursor : ℕ)
    → length pre ≡ i
    → cursor < 2 ^ 64
    → All (λ (t : Store). t.payload_base ≡ 0) ts
    → Describes size k i ts es
    → IsPlaced size k i ts pre es total cursor (place_stores ts (pre ++ es) base total cursor)
unfolding place_stores
place_stores-IsPlaced size k i [] pre es base total cursor at fits zeros d = record {
  moved = [];
  entries = ap (◌++◌ pre) d;
  same_length = omega (arith, ap length d);
  same_stores = refl;
  described = refl;
  chained = tt;
  summed = refl;
}
place_stores-IsPlaced size k i (t ∷ ts) pre es base total cursor at fits (zero_base, zeros)
      (start, counted, store, each, offsets, rest) =
    subst (λ (q : List WriteEntry × ℕ). IsPlaced size k i (t ∷ ts) pre es total cursor (behind q))
      (sym (first_store size k i t ts pre es total cursor at start counted))
      (cons-IsPlaced size k i t ts pre es total cursor
        (place_stores ts ((pre ++ shifted cursor t es) ++ drop t.entry_count es)
          (if base == 0 then base_of cursor t else base) (end_of total (own t es))
          (u64 (base_of cursor t + t.payload_size)))
        fits zero_base (start, counted, store, each, offsets, rest)
        (place_stores-IsPlaced size (suc k) (i + t.entry_count) ts (pre ++ shifted cursor t es)
          (drop t.entry_count es) (if base == 0 then base_of cursor t else base)
          (end_of total (own t es)) (u64 (base_of cursor t + t.payload_size))
          (omega (
            arith,
            length-append pre (shifted cursor t es),
            length-map (shift_entry (base_of cursor t)) (own t es),
            length-take t.entry_count es,
          ))
          (omega arith) zeros rest))
  where
    behind : List WriteEntry × ℕ → Placed
    behind (es', total') =
        let at = align_up_u64 cursor t.block_size in
        let placed =
          place_stores ts es' (if base == 0 then at else base) total' (u64 (at + t.payload_size)) in
        record placed { stores = record t { payload_base = at } ∷ placed.stores }

-- The payload base of the plan is that of the first store, unless that is 0.
place_stores-base :
    (ts : List Store) (es : List WriteEntry) (base total cursor : ℕ)
    → base ≢ 0
    → (place_stores ts es base total cursor).payload_base ≡ base
unfolding place_stores
place_stores-base [] es base total cursor h = refl
place_stores-base (t ∷ ts) es base total cursor h =
    rw (kept base h) (place_stores-base ts _ base _ _ h)
  where
    kept : (b : ℕ) → b ≢ 0 → (if b == 0 then align_up_u64 cursor t.block_size else b) ≡ b
    kept b n = ground arith

pub place_stores-first :
    (t : Store) (ts : List Store) (es : List WriteEntry) (total cursor : ℕ)
    → align_up_u64 cursor t.block_size ≢ 0
    → (place_stores (t ∷ ts) es 0 total cursor).payload_base ≡ align_up_u64 cursor t.block_size
unfolding place_stores
place_stores-first t ts es total cursor h =
    place_stores-base ts _ (align_up_u64 cursor t.block_size) _ _ h
