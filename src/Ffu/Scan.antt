-- ===== src/Ffu/Scan.antt =====
-- The store loop: what it keeps of the plan under construction.
use mathlib.Core.Path.{subst}
use ufp_ffu_device_efi.Prelude.{
  ℕ, zero, suc, ◌+◌, ◌*◌, ◌^◌, ◌<◌, ◌≤◌, ◌≡◌, refl, ap, sym, ◌∙◌, arith, List, [], ◌∷◌, ◌++◌, Bool,
  ltb, length, All, All-append, length-append, Bool-cases, inl, inr, ltb→lt, ltb→ge,
}
use ufp_ffu_device_efi.Prelude.Buffer.{slice}
use ufp_ffu_device_efi.Word.{u32, u64}
use ufp_ffu_device_efi.Efi.{ok, ◌>>=◌, >>=-eq-ok}
use ufp_ffu_device_efi.Proto.{max_payload_data}
use ufp_ffu_device_efi.Bytes.{align_up_u64}
use ufp_ffu_device_efi.Bytes.Order.{rd_le16-lt}
use ufp_ffu_device_efi.Bytes.Align.{align_up_u64_lem}
use ufp_ffu_device_efi.Ffu.{Store, Plan, push_store, append_store}
use ufp_ffu_device_efi.Ffu.Read.{mem_read_exact}
use ufp_ffu_device_efi.Ffu.Stores.{
  Descriptors, StoreHead, StoreScan, OpenStore, first_descriptor, store_of, open_store,
  read_extension, read_entries, read_store, read_stores,
}
use ufp_ffu_device_efi.Ffu.Tables.{plan-append_store, IsEntry, Describes, Describes-snoc}
use ufp_ffu_device_efi.Ffu.Entries.{Appended, append_entries, read_entries-Appended}

-- What the store loop leaves of a plan: all but its tables.
abbrev pub clear_tables : Plan → Plan
clear_tables p = record p { store_count = 0; entry_count = 0; stores = []; entries = [] }

-- Between two rounds of the store loop, over the headers that `origin` holds.
pub record IsScan (origin : Plan) (size : ℕ) (s : StoreScan) : Type 0 where
  pub headers : clear_tables s.parser.plan ≡ origin
  pub described : Describes size 0 0 s.parser.plan.stores s.parser.plan.entries
  pub unplaced : All (λ (t : Store). t.payload_base ≡ 0) s.parser.plan.stores
  pub stores_counted : s.parser.plan.store_count ≡ length s.parser.plan.stores
  pub entries_counted : s.parser.plan.entry_count ≡ length s.parser.plan.entries
  pub room : 16 * length s.parser.plan.entries ≤ s.cursor
  pub inside : s.cursor ≤ size
  pub has_chunk : 0 < s.parser.plan.chunk_size
  pub chunk_fits : s.parser.plan.chunk_size < 2 ^ 32
  pub desired_some : 0 < s.desired
  pub desired_fits : s.desired < 2 ^ 16

module _ (pool : ℕ → ℕ → Bool) (data' : List ℕ) (size : ℕ) (origin : Plan) where
  read_extension-eq-ok :
      (sh : List ℕ) (cursor desired : ℕ) {head : StoreHead}
      → size < 2 ^ 32
      → cursor ≤ size
      → 0 < desired
      → desired < 2 ^ 16
      → read_extension pool data' size sh cursor desired ≡ ok head
      → (cursor ≤ head.cursor) × (head.cursor ≤ size) × (0 < head.desired) × (head.desired < 2 ^ 16)
  unfolding read_extension mem_read_exact
  read_extension-eq-ok sh cursor desired {head} small inside some fits h = ground (
    arith,
    rd_le16-lt (sh ++ slice 0 data' cursor 14) 248,
    rd_le16-lt (sh ++ slice 0 data' cursor 14) 260,
  )

  -- A store header that passes its checks.
  record IsOpen (s : StoreScan) (o : OpenStore) : Type 0 where
    behind : s.cursor ≤ o.header_offset
    head_inside : o.header_offset + 248 ≤ o.head.cursor
    inside : o.head.cursor ≤ size
    desired_some : 0 < o.head.desired
    desired_fits : o.head.desired < 2 ^ 16
    has_block : 0 < o.block_size
    block_fits : o.block_size ≤ max_payload_data
    has_entries : 0 < o.desc_count

  open_store-IsOpen :
      (s : StoreScan) {o : OpenStore}
      → size < 2 ^ 32
      → IsScan origin size s
      → open_store pool data' size s ≡ ok o
      → IsOpen s o
  unfolding open_store mem_read_exact
  open_store-IsOpen s {o} small inv h = ground (
    arith,
    align_up_u64_lem s.cursor s.parser.plan.chunk_size,
    read_extension-eq-ok (slice 0 data' (align_up_u64 s.cursor s.parser.plan.chunk_size) 248)
        (u64 (align_up_u64 s.cursor s.parser.plan.chunk_size + 248)) s.desired {head = o.head},
  )

  abbrev push_store_plan : Plan → Store → Plan
  push_store_plan p t = record p {
    store_count = u32 (p.store_count + 1);
    stores = p.stores ++ t ∷ [];
  }

  -- What a round that succeeds appends, in terms of the plan before and after.
  grown_plan :
      (s : StoreScan) (o : OpenStore) (d : Descriptors) {s' : StoreScan}
      → (append_store pool d.parser (store_of s o d) >>= λ parser.
          ok (record { parser = parser; cursor = d.descriptor_cursor; desired = o.head.desired }))
        ≡ ok s'
      → (s'.parser.plan ≡ (push_store d.parser (store_of s o d)).plan)
        × (s'.cursor ≡ d.descriptor_cursor)
        × (s'.desired ≡ o.head.desired)
  grown_plan s o d {s'} h =
      let (p, e, r) = >>=-eq-ok (append_store pool d.parser (store_of s o d)) _ h in
      ground (arith, plan-append_store pool d.parser (store_of s o d) e)

  module _ (s : StoreScan) (o : OpenStore) (d : Descriptors) (s' : StoreScan) where
    push_store-IsScan :
        size < 2 ^ 32
        → s.parser.plan.store_count < s.desired
        → IsScan origin size s
        → IsOpen s o
        → Appended size o.block_size s.parser.plan.store_count o.desc_count (first_descriptor s o) d
        → s'.parser.plan ≡ (push_store d.parser (store_of s o d)).plan
        → s'.cursor ≡ d.descriptor_cursor
        → s'.desired ≡ o.head.desired
        → IsScan origin size s' × (s'.parser.plan.store_count ≡ s.parser.plan.store_count + 1)
    push_store-IsScan small more inv open' app plan cursor desired = (
      record {
        described =
            subst (λ (p : Plan). Describes size 0 0 p.stores p.entries) (sym whole) described;
        unplaced =
            subst (λ (p : Plan). All (λ (u : Store). u.payload_base ≡ 0) p.stores) (sym whole)
              (All-append (λ (u : Store). u.payload_base ≡ 0) s.parser.plan.stores (t ∷ [])
                inv.unplaced (refl, tt));
        stores_counted = omega (
          arith,
          ap (λ (p : Plan). p.store_count) whole,
          ap (λ (p : Plan). length p.stores) whole,
          inv.stores_counted,
          inv.desired_fits,
          length-append s.parser.plan.stores (t ∷ []),
        );
        entries_counted = omega (
          arith,
          ap (λ (p : Plan). p.entry_count) whole,
          entries_length,
          inv.entries_counted,
          inv.room,
          bounds,
          open'.inside,
        );
        room = omega (arith, entries_length, inv.room, bounds, open'.behind, open'.head_inside);
        inside = omega (arith, app.inside);
        has_chunk = omega (arith, inv.has_chunk, chunk);
        chunk_fits = omega (arith, inv.chunk_fits, chunk);
        desired_some = omega (arith, open'.desired_some);
        desired_fits = omega (arith, open'.desired_fits);
        headers = ap clear_tables whole ∙ inv.headers;
      },
      omega (arith, ap (λ (p : Plan). p.store_count) whole, inv.desired_fits),
    )
      where
        t : Store
        t = store_of s o d

        whole : s'.parser.plan ≡ push_store_plan (append_entries s.parser.plan app.seg) t
        whole = plan ∙ ap (λ (p : Plan). push_store_plan p t) app.grown

        chunk : s'.parser.plan.chunk_size ≡ s.parser.plan.chunk_size
        chunk = ap (λ (p : Plan). p.chunk_size) whole

        entries_length : length s'.parser.plan.entries ≡ length s.parser.plan.entries + o.desc_count
        entries_length =
            ap (λ (p : Plan). length p.entries) whole
            ∙ omega (arith, length-append s.parser.plan.entries app.seg, app.counted)

        bounds : (o.head.cursor + 16 * o.desc_count ≤ s'.cursor) × (s'.cursor ≤ size)
        bounds = omega (arith, app.advanced, app.inside, cursor)

        described :
            Describes size 0 0 (s.parser.plan.stores ++ t ∷ []) (s.parser.plan.entries ++ app.seg)
        described =
            Describes-snoc size t app.seg 0 0 s.parser.plan.stores s.parser.plan.entries
              inv.described (omega (arith, inv.entries_counted)) (sym app.counted)
              (omega (
                arith, open'.has_block, open'.block_fits, open'.has_entries, open'.head_inside,
                open'.inside,
              ))
              (subst (λ k. All (IsEntry size o.block_size k) app.seg)
                (omega (arith, inv.stores_counted)) app.each)
              app.offsets

  -- A round keeps the invariant and adds one store.
  read_store-IsScan :
      (s : StoreScan) {s' : StoreScan}
      → size < 2 ^ 32
      → s.parser.plan.store_count < s.desired
      → IsScan origin size s
      → read_store pool data' size s ≡ ok s'
      → IsScan origin size s' × (s'.parser.plan.store_count ≡ s.parser.plan.store_count + 1)
  unfolding read_store
  read_store-IsScan s {s'} small more inv h =
      let (o, e1, h1) = >>=-eq-ok (open_store pool data' size s) _ h in
      let (d, e2, h2) =
        >>=-eq-ok
          (read_entries pool data' size o.desc_count o.block_size s.parser.plan.store_count
            (first_descriptor s o))
          _ h1 in
      let open' = open_store-IsOpen s small inv e1 in
      let (plan, cursor, desired) = grown_plan s o d {s' = s'} h2 in
      push_store-IsScan s o d s' small more inv open'
        (read_entries-Appended pool data' size o.block_size s.parser.plan.store_count o.desc_count
          (first_descriptor s o) small open'.has_block open'.block_fits
          (omega (arith, inv.entries_counted, inv.room, inv.inside)) open'.inside e2)
        plan cursor desired

  -- The loop keeps the invariant, and ends with as many stores as are desired.
  pub read_stores-IsScan :
      (fuel : ℕ) (s : StoreScan) {s' : StoreScan}
      → size < 2 ^ 32
      → IsScan origin size s
      → read_stores pool data' size fuel s ≡ ok s'
      → IsScan origin size s' × (s'.desired ≤ s'.parser.plan.store_count)
  unfolding read_stores
  read_stores-IsScan zero s small inv h = cc
  read_stores-IsScan (suc fuel) s {s'} small inv h =
      elim (Bool-cases (ltb s.parser.plan.store_count s.desired)) [
        | inl more ↦
            let (s₁, e, h₁) =
              >>=-eq-ok (read_store pool data' size s) (λ s₁. read_stores pool data' size fuel s₁)
                (rw (more, read_stores) at h) in
            read_stores-IsScan fuel s₁ {s' = s'} small
              (read_store-IsScan s {s' = s₁} small (ltb→lt _ _ more) inv e).0 h₁
        | inr done ↦
            let same : s ≡ s' = cc (rw (done, read_stores) at h) in
            subst (λ x. IsScan origin size x × (x.desired ≤ x.parser.plan.store_count)) same
              (inv, ltb→ge _ _ done)
      ]
