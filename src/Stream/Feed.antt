-- ===== src/Stream/Feed.antt =====
-- `ffu_stream_flash_payload` of src/src/ffu.c against a byte-wise description of it.
use mathlib.Core.Path.{subst}
use ufp_ffu_device_efi.Prelude.{
  ℕ, zero, suc, ◌+◌, ◌-◌, ◌^◌, ◌<◌, ◌≤◌, ◌≡◌, refl, sym, ap, ◌∙◌, arith, List, [], ◌∷◌, ◌++◌, true,
  false, Option, some, none, get_elem?, length, Option-cases, Bool-cases, inl, inr, ◌⊎◌, ltb, leb,
  take, drop, drop-drop, drop-all, length-take, length-drop, length-append, take-append-drop,
  ltb→lt, ltb→ge,
}
use ufp_ffu_device_efi.Prelude.Buffer.{blit-append, take_or, take_or-eq-take}
use ufp_ffu_device_efi.Word.{u32, sub32}
use ufp_ffu_device_efi.Efi.{ok, err, Run, ◌&>◌, &>-ok, &>-assoc, &>-cong, efi_bad_buffer_size}
use ufp_ffu_device_efi.Ffu.{WriteEntry, Plan}
use ufp_ffu_device_efi.Stream.{StreamFlash, round_size, receive, accept, payload_loop}
use ufp_ffu_device_efi.Stream.Ready.{
  IsFlashable, IsReady, Partial, get_elem?-none, get_elem?-some, accept-IsReady,
}

module _ {D : Type 0} (write_blocks : D → ℕ → ℕ → List ℕ → ℕ × D) where
  -- A byte for the entry, if there still is one.
  abbrev pub feed_to : Option WriteEntry → ℕ → StreamFlash D → Run (StreamFlash D)
  feed_to none b ctx = (err efi_bad_buffer_size, ctx)
  feed_to (some entry) b ctx = accept write_blocks entry (b ∷ []) ctx

  -- The bytes one after the other, up to the first error.
  unfoldable pub feed_all : List ℕ → StreamFlash D → Run (StreamFlash D)
  feed_all [] ctx = (ok tt, ctx)
  feed_all (b ∷ bs) ctx = feed_to (get_elem? ctx.plan.entries ctx.entry_index) b ctx &> feed_all bs

  pub feed_all-append :
      (a b : List ℕ) (ctx : StreamFlash D) → feed_all (a ++ b) ctx ≡ (feed_all a ctx &> feed_all b)
  unfolding feed_all
  feed_all-append [] b ctx = refl
  feed_all-append (x ∷ a) b ctx =
      &>-cong (feed_to (get_elem? ctx.plan.entries ctx.entry_index) x ctx) (feed_all (a ++ b))
        (λ c. feed_all a c &> feed_all b) (λ c _. feed_all-append a b c)
      ∙ sym (
          &>-assoc (feed_to (get_elem? ctx.plan.entries ctx.entry_index) x ctx) (feed_all a)
            (feed_all b))

  receive-append :
      (a b : List ℕ) (ctx : StreamFlash D)
      → ctx.entry_received + length (a ++ b) < 2 ^ 32
      → receive write_blocks b (receive write_blocks a ctx) ≡ receive write_blocks (a ++ b) ctx
  unfolding receive
  receive-append a b ctx small =
      let small' : ctx.entry_received + length a + length b < 2 ^ 32 =
        omega (arith, small, length-append a b) in
      let front : u32 (ctx.entry_received + length a) ≡ ctx.entry_received + length a =
        omega arith in
      let whole : u32 (ctx.entry_received + length a + length b)
          ≡ u32 (ctx.entry_received + length (a ++ b)) =
        omega (arith, length-append a b) in
      rw (front, whole, blit-append ctx.entry_data ctx.entry_received a b)

  -- A round that does not complete its entry only stores the bytes.
  accept-part :
      (e : WriteEntry) (bytes : List ℕ) (ctx : StreamFlash D)
      → e.byte_count < 2 ^ 32
      → ctx.entry_received + length bytes < e.byte_count
      → accept write_blocks e bytes ctx ≡ (ok tt, receive write_blocks bytes ctx)
  unfolding accept receive
  accept-part e bytes ctx small room = ground arith

  accept-append :
      (e : WriteEntry) (a b : List ℕ) (ctx : StreamFlash D)
      → ctx.entry_received + length (a ++ b) < 2 ^ 32
      → accept write_blocks e b (receive write_blocks a ctx) ≡ accept write_blocks e (a ++ b) ctx
  unfolding accept
  accept-append e a b ctx small = rw (receive-append a b ctx small)

  found-receive :
      (e : WriteEntry) (a : List ℕ) (ctx : StreamFlash D)
      → get_elem? ctx.plan.entries ctx.entry_index ≡ some e
      → let c = receive write_blocks a ctx in get_elem? c.plan.entries c.entry_index ≡ some e
  unfolding receive
  found-receive e a ctx found = found

  received-receive :
      (a : List ℕ) (ctx : StreamFlash D)
      → ctx.entry_received + length a < 2 ^ 32
      → (receive write_blocks a ctx).entry_received ≡ ctx.entry_received + length a
  unfolding receive
  received-receive a ctx small = omega arith

  -- Bytes that the entry has room for come to the same as one round that takes them all.
  pub feed_all-accept :
      (e : WriteEntry) (b : ℕ) (bs : List ℕ) (ctx : StreamFlash D)
      → e.byte_count < 2 ^ 32
      → get_elem? ctx.plan.entries ctx.entry_index ≡ some e
      → ctx.entry_received + length (b ∷ bs) ≤ e.byte_count
      → feed_all (b ∷ bs) ctx ≡ accept write_blocks e (b ∷ bs) ctx
  unfolding feed_all
  feed_all-accept e b [] ctx small found room =
      rw found (&>-ok (accept write_blocks e (b ∷ []) ctx))
  feed_all-accept e b (x ∷ bs) ctx small found room =
      rw (found, accept-part e (b ∷ []) ctx small (omega arith))
        (feed_all-accept e x bs (receive write_blocks (b ∷ []) ctx) small
            (found-receive e (b ∷ []) ctx found)
            (omega (arith, received-receive (b ∷ []) ctx (omega arith)))
          ∙ accept-append e (b ∷ []) (x ∷ bs) ctx (omega arith))

  pub feed_all-accept_at_once :
      (e : WriteEntry) (bytes : List ℕ) (ctx : StreamFlash D)
      → e.byte_count < 2 ^ 32
      → get_elem? ctx.plan.entries ctx.entry_index ≡ some e
      → 0 < length bytes
      → ctx.entry_received + length bytes ≤ e.byte_count
      → feed_all bytes ctx ≡ accept write_blocks e bytes ctx
  feed_all-accept_at_once e [] ctx small found some' room = absurd (omega arith)
  feed_all-accept_at_once e (b ∷ bs) ctx small found some' room =
      feed_all-accept e b bs ctx small found room

  -- A round that takes `taken` bytes of what is left, where they fit.
  round-feed_all :
      (e : WriteEntry) (taken : ℕ) (rest : List ℕ) (ctx : StreamFlash D)
      (next : StreamFlash D → Run (StreamFlash D))
      → e.byte_count < 2 ^ 32
      → get_elem? ctx.plan.entries ctx.entry_index ≡ some e
      → 0 < taken
      → taken ≤ length rest
      → ctx.entry_received + taken ≤ e.byte_count
      → ((c : StreamFlash D)
          → accept write_blocks e (take taken rest) ctx ≡ (ok tt, c)
          → next c ≡ feed_all (drop taken rest) c)
      → (accept write_blocks e (take_or taken 0 rest) ctx &> next) ≡ feed_all rest ctx
  round-feed_all e taken rest ctx next small found some' inside room follows =
      let len : length (take taken rest) ≡ taken = omega (arith, length-take taken rest) in
      rw (take_or-eq-take taken 0 rest inside) (
        &>-cong (accept write_blocks e (take taken rest) ctx) next (feed_all (drop taken rest))
          follows
        ∙ ap (λ (r : Run (StreamFlash D)). r &> feed_all (drop taken rest))
            (sym (
              feed_all-accept_at_once e (take taken rest) ctx small found (omega arith)
                (omega arith)))
        ∙ sym (feed_all-append (take taken rest) (drop taken rest) ctx)
        ∙ ap (λ xs. feed_all xs ctx) (take-append-drop taken rest))

  -- A byte more than the entries take.
  pub feed_all-past :
      (bytes : List ℕ) (ctx : StreamFlash D)
      → get_elem? ctx.plan.entries ctx.entry_index ≡ none
      → 0 < length bytes
      → (err efi_bad_buffer_size, ctx) ≡ feed_all bytes ctx
  unfolding feed_all
  feed_all-past [] ctx missing some' = absurd (omega arith)
  feed_all-past (b ∷ bs) ctx missing some' = rw (missing, feed_all) refl

  module _ (ctx : StreamFlash D) (ready : IsReady ctx) (e : WriteEntry)
      (found : get_elem? ctx.plan.entries ctx.entry_index ≡ some e) where
    current :
        (ctx.entry_index < length ctx.plan.entries)
        × IsFlashable ctx.entry_capacity (length ctx.plan.stores) e
    current =
        get_elem?-some (IsFlashable ctx.entry_capacity (length ctx.plan.stores)) ctx.plan.entries
          ctx.entry_index {a = e} ready.each found

    current-below : leb ctx.plan.entry_count ctx.entry_index ≡ false
    current-below = ground (arith, current, ready.counted)

    pub current-small : e.byte_count < 2 ^ 32
    current-small = omega (arith, current.1.fits, ready.capacity_fits)

    current-part : ctx.entry_received < e.byte_count
    current-part = subst (λ o. Partial o ctx.entry_received) found ready.received

    -- A round takes bytes that are there and that the entry has room for, and either all that are
    -- there or all that the entry needs.
    current-size :
        (len pos : ℕ)
        → len < 2 ^ 32
        → pos < len
        → let n = round_size (sub32 len pos) (sub32 e.byte_count ctx.entry_received) in
          (0 < n)
          × (n ≤ len - pos)
          × (ctx.entry_received + n ≤ e.byte_count)
          × (ltb ctx.entry_capacity (u32 (ctx.entry_received + n)) ≡ false)
          × ((n ≡ len - pos) ⊎ (ctx.entry_received + n ≡ e.byte_count))
    unfolding round_size
    current-size len pos small more =
        let fits : e.byte_count ≤ ctx.entry_capacity = current.1.fits in
        let part = current-part in let few = current-small in ground (arith, fits, part, few)

  -- The loop takes what a byte-wise run takes.
  pub payload_loop-feed_all :
      (fuel : ℕ) (data' : List ℕ) (pos : ℕ) (ctx : StreamFlash D)
      → IsReady ctx
      → length data' < 2 ^ 32
      → pos ≤ length data'
      → length data' - pos + (ctx.plan.entry_count - ctx.entry_index) < fuel
      → payload_loop write_blocks fuel data' (length data') pos ctx ≡ feed_all (drop pos data') ctx
  unfolding payload_loop feed_all
  payload_loop-feed_all zero data' pos ctx ready small inside enough = absurd (omega arith)
  payload_loop-feed_all (suc fuel) data' pos ctx ready small inside enough =
      elim (Bool-cases (ltb pos (length data'))) [
        | inr done ↦
            rw (done, drop-all pos data' (ltb→ge pos (length data') done), payload_loop, feed_all)
              refl
        | inl more ↦ elim (Option-cases (get_elem? ctx.plan.entries ctx.entry_index)) [
          | inl missing ↦
              rw (more, current-none missing, payload_loop)
                (feed_all-past (drop pos data') ctx missing
                  (omega (arith, length-drop pos data', ltb→lt pos (length data') more)))
          | inr (e, found) ↦
              let n =
                round_size (sub32 (length data') pos) (sub32 e.byte_count ctx.entry_received) in
              let (some', left, room, fits, end') =
                current-size ctx ready e found (length data') pos small
                  (ltb→lt pos (length data') more) in
              rw (more, current-below ctx ready e found, found, fits, payload_loop)
                (round-feed_all e n (drop pos data') ctx
                  (payload_loop write_blocks fuel data' (length data') (u32 (pos + n)))
                  (current-small ctx ready e found) found some'
                  (omega (arith, length-drop pos data')) room
                  λ c ran.
                    let len : length (take n (drop pos data')) ≡ n =
                      omega (arith, length-take n (drop pos data'), length-drop pos data') in
                    let (is_ready, plan, later, next) =
                      accept-IsReady write_blocks e (take n (drop pos data')) ctx {c = c} ready
                        found (omega arith) ran in
                    let at : u32 (pos + n) ≡ pos + n = omega (arith, left, small, inside) in
                    let count : c.plan.entry_count ≡ ctx.plan.entry_count =
                      ap (λ (p : Plan). p.entry_count) plan in
                    rw (at, drop-drop pos n data')
                      (payload_loop-feed_all fuel data' (pos + n) c is_ready small
                        (omega (arith, left))
                        (omega (
                          arith,
                          some',
                          left,
                          later,
                          next,
                          end',
                          count,
                          len,
                          enough,
                          current ctx ready e found,
                          ready.counted,
                        ))))
        ]
      ]
    where
      current-none :
          get_elem? ctx.plan.entries ctx.entry_index ≡ none
          → leb ctx.plan.entry_count ctx.entry_index ≡ true
      current-none missing =
          ground (arith, get_elem?-none ctx.plan.entries ctx.entry_index missing, ready.counted)
