-- ===== src/Stream/Init.antt =====
-- `ffu_stream_flash_init` of src/src/ffu.c: the context it sets up is ready for the first packet.
use mathlib.Core.Path.{subst}
use ufp_ffu_device_efi.Prelude.{
  ℕ, suc, ◌+◌, ◌*◌, ◌^◌, ◌<◌, ◌≤◌, ◌≡◌, refl, sym, ◌∙◌, arith, List, [], ◌∷◌, Bool, true, false,
  ◌==◌, ◌||◌, not, if◌then◌else◌, some, ltb, get_elem?, length, All, take, drop, take-append-drop,
  All-append, replicate, length-replicate,
}
use ufp_ffu_device_efi.Word.{u64}
use ufp_ffu_device_efi.Efi.{
  ok, ◌>>◌, refuse, >>=-eq-ok, refuse-eq-ok, efi_unsupported, efi_out_of_resources,
}
use ufp_ffu_device_efi.Proto.{max_payload_data}
use ufp_ffu_device_efi.Ffu.{WriteEntry, Store, Plan}
use ufp_ffu_device_efi.Ffu.Tables.{IsEntry, end_of, Describes}
use ufp_ffu_device_efi.Ffu.Parse.{ffu_parse_header_bytes}
use ufp_ffu_device_efi.Ffu.Plans.{IsPlan, ffu_parse_header_bytes-IsPlan}
use ufp_ffu_device_efi.Stream.{Media, StreamFlash, max_byte_count, ffu_stream_flash_init}
use ufp_ffu_device_efi.Stream.Ready.{IsFlashable, IsReady, Partial}
use ufp_ffu_device_efi.Stream.Entries.{total_bytes}

max_byte_count-ge : (es : List WriteEntry) (m : ℕ) → m ≤ max_byte_count es m
unfolding max_byte_count
max_byte_count-ge [] m = omega arith
max_byte_count-ge (e ∷ es) m =
    ground (arith, max_byte_count-ge es m, max_byte_count-ge es e.byte_count)

-- An entry of a plan, of one of the first `stores` stores.
abbrev IsListed : ℕ → WriteEntry → Type 0
IsListed stores e = (0 < e.byte_count) × (e.byte_count < 2 ^ 32) × (e.store_index < stores)

IsListed-IsFlashable :
    (stores capacity m : ℕ) (es : List WriteEntry)
    → max_byte_count es m ≤ capacity
    → All (IsListed stores) es
    → All (IsFlashable capacity stores) es
unfolding max_byte_count
IsListed-IsFlashable stores capacity m [] fits each = tt
IsListed-IsFlashable stores capacity m (e ∷ es) fits (here, rest) = (
  record {
    has_bytes = here.0;
    fits = omega (
      arith,
      fits,
      max_byte_count-ge es (if ltb m e.byte_count then e.byte_count else m),
      larger m e.byte_count,
    );
    has_store = here.2;
  },
  IsListed-IsFlashable stores capacity (if ltb m e.byte_count then e.byte_count else m) es fits
      rest,
)
  where
    larger : (a b : ℕ) → b ≤ (if ltb a b then b else a)
    larger a b = ground arith

listed :
    (size block_size k stores : ℕ) (es : List WriteEntry)
    → k < stores
    → All (IsEntry size block_size k) es
    → All (IsListed stores) es
listed size block_size k stores [] below each = tt
listed size block_size k stores (e ∷ es) below (here, rest) = (
  (here.has_bytes, here.fits, omega (arith, here.of_store)),
  listed size block_size k stores es below rest,
)

-- Every entry of a described plan belongs to a store of the table.
Describes-IsListed :
    (size k i : ℕ) (ts : List Store) (es : List WriteEntry)
    → Describes size k i ts es
    → All (IsListed (k + length ts)) es
Describes-IsListed size k i [] es d = subst (All (IsListed (k + 0))) (sym d) tt
Describes-IsListed size k i (t ∷ ts) es (_, _, _, each, _, rest) =
    subst (All (IsListed (k + length (t ∷ ts)))) (take-append-drop t.entry_count es) (
      All-append (IsListed (k + length (t ∷ ts))) (take t.entry_count es) (drop t.entry_count es)
        (listed size t.block_size k (k + length (t ∷ ts)) (take t.entry_count es) (omega arith)
          each)
        (subst (λ n. All (IsListed n) (drop t.entry_count es)) (omega arith)
          (Describes-IsListed size (suc k) (i + t.entry_count) ts (drop t.entry_count es) rest)))

total_bytes-bound :
    (stores : ℕ) (es : List WriteEntry)
    → All (IsListed stores) es
    → total_bytes es ≤ length es * 2 ^ 32
total_bytes-bound stores [] each = omega arith
total_bytes-bound stores (e ∷ es) (here, rest) =
    omega (arith, here, total_bytes-bound stores es rest)

end_of-total_bytes :
    (a : ℕ) (es : List WriteEntry) → a + total_bytes es < 2 ^ 64 → end_of a es ≡ a + total_bytes es
end_of-total_bytes a [] small = omega arith
end_of-total_bytes a (e ∷ es) small =
    let here : u64 (a + e.byte_count) ≡ a + e.byte_count = omega arith in
    rw here (end_of-total_bytes (a + e.byte_count) es (omega arith) ∙ omega arith)

-- A context that the flasher starts with.
pub record IsStarted {D : Type 0} (header : List ℕ) (size : ℕ) (media : Media) (device : D)
    (commit : Bool) (ctx : StreamFlash D) : Type 0 where
  pub planned : IsPlan size ctx.plan
  pub ready : IsReady ctx
  pub first : ctx.entry_index ≡ 0
  pub empty : ctx.entry_received ≡ 0
  pub unfinished : ctx.final_state ≡ 0
  pub total : ctx.plan.total_payload_bytes ≡ total_bytes ctx.plan.entries
  pub few : ctx.plan.entry_count < 2 ^ 28
  pub writable : (media.media_present ≡ true) × (media.read_only ≡ false)
  pub block : (ctx.media_block ≡ media.block_size) × (0 < ctx.media_block)
  pub same_id : ctx.media_id ≡ media.media_id
  pub same_header : (ctx.header ≡ header) × (ctx.header_size ≡ size)
  pub same_device : ctx.device ≡ device
  pub committed : ctx.dry_run ≡ (if commit then 0 else 1)

module _ {D : Type 0} (pool : ℕ → ℕ → Bool) (room : ℕ → Bool) (header : List ℕ) (size : ℕ)
    (media : Media) (device : D) (commit : Bool) where
  abbrev started : Plan → StreamFlash D
  started plan = record {
    plan = plan;
    device = device;
    header = header;
    header_size = size;
    entry_data = replicate (max_byte_count plan.entries 0) 0;
    entry_capacity = max_byte_count plan.entries 0;
    entry_index = 0;
    entry_received = 0;
    media_block = media.block_size;
    media_id = media.media_id;
    dry_run = if commit then 0 else 1;
    final_state = 0;
    last_sector = 0xffff_ffff;
  }

  fresh_part :
      (capacity stores : ℕ) (es : List WriteEntry)
      → All (IsFlashable capacity stores) es
      → Partial (get_elem? es 0) 0
  fresh_part capacity stores [] each = refl
  fresh_part capacity stores (e ∷ es) each = each.0.has_bytes

  started-IsStarted :
      (plan : Plan)
      → size < 2 ^ 32
      → IsPlan size plan
      → (not media.media_present || (media.read_only || media.block_size == 0)) ≡ false
      → (max_byte_count plan.entries 0 == 0 || ltb max_payload_data (max_byte_count plan.entries 0))
        ≡ false
      → IsStarted header size media device commit (started plan)
  started-IsStarted plan small planned open' fits =
      let each = Describes-IsListed size 0 0 plan.stores plan.entries planned.described in
      let flashable : All (IsFlashable (max_byte_count plan.entries 0) (length plan.stores))
          plan.entries =
        IsListed-IsFlashable (length plan.stores) (max_byte_count plan.entries 0) 0 plan.entries
          (omega arith) (subst (λ n. All (IsListed n) plan.entries) (omega arith) each) in
      record {
        planned = planned;
        ready = record {
          counted = planned.entries_counted;
          few = omega (arith, planned.entries_few);
          capacity = sym (length-replicate (max_byte_count plan.entries 0) 0);
          capacity_fits = ground arith;
          each = flashable;
          started = omega arith;
          received =
              fresh_part (max_byte_count plan.entries 0) (length plan.stores) plan.entries
                flashable;
        };
        first = refl;
        empty = refl;
        unfinished = refl;
        total =
            planned.summed
            ∙ end_of-total_bytes 0 plan.entries (
                omega (
                  arith,
                  total_bytes-bound (0 + length plan.stores) plan.entries each,
                  planned.entries_few,
                  planned.entries_counted,
                ))
            ∙ omega arith;
        few = omega (arith, planned.entries_few);
        writable = ground arith;
        block = (refl, ground arith);
        same_id = refl;
        same_header = (refl, refl);
        same_device = refl;
        committed = refl;
      }

  started-eq :
      (plan : Plan) (room : Bool) {ctx : StreamFlash D}
      → (refuse (not room) efi_out_of_resources >> ok (started plan)) ≡ ok ctx
      → started plan ≡ ctx
  started-eq plan true h = cc
  started-eq plan false h = cc

  -- When a header of fewer than 2 ^ 32 bytes is accepted, the context has the header's consistent
  -- plan and is at the start of the first entry; the entry buffer has room for every entry, the
  -- device is writable and untouched, the total is the sum of the entries' bytes, and the run is a
  -- dry one exactly when it is not to commit.
  pub ffu_stream_flash_init-IsStarted :
      {ctx : StreamFlash D}
      → size < 2 ^ 32
      → ffu_stream_flash_init pool room (some header) size (some media) device commit ≡ ok ctx
      → IsStarted header size media device commit ctx
  unfolding ffu_stream_flash_init
  ffu_stream_flash_init-IsStarted {ctx} small h =
      let (_, e1, h1) =
        >>=-eq-ok
          (refuse (not media.media_present || (media.read_only || media.block_size == 0))
            efi_unsupported)
          _ h in
      let (plan, e2, h2) = >>=-eq-ok (ffu_parse_header_bytes pool (some header) size) _ h1 in
      let (_, e3, h3) =
        >>=-eq-ok
          (refuse
            (max_byte_count plan.entries 0 == 0
              || ltb max_payload_data (max_byte_count plan.entries 0))
            efi_unsupported)
          _ h2 in
      let same : started plan ≡ ctx = started-eq plan (room (max_byte_count plan.entries 0)) h3 in
      subst (IsStarted header size media device commit) same (
        started-IsStarted plan small (ffu_parse_header_bytes-IsPlan pool header size small e2)
          (refuse-eq-ok _ _ e1) (refuse-eq-ok _ _ e3))
