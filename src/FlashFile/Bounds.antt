-- ===== src/FlashFile/Bounds.antt =====
-- What `ffu_flash_to_block_io` of src/src/ffu.c writes: whole blocks that lie on the device.
use native.Mathlib.Nat.{div-add-mod', mul-div_cancel, add-mul, mul-le-mul_right}
use ufp_ffu_device_efi.Prelude.{
  ℕ, zero, suc, ◌+◌, ◌-◌, ◌*◌, ◌/◌, ◌%◌, ◌^◌, ◌<◌, ◌≤◌, ◌≡◌, ◌≢◌, refl, ap, ◌∙◌, arith, List, [],
  ◌∷◌, Bool, false, Option, some, none, ltb, ◌==◌, ◌!=◌, ◌||◌, not, if◌then◌else◌, get_elem?,
  length, All, Bool-cases, inl, inr,
}
use ufp_ffu_device_efi.Word.{u32, u64}
use ufp_ffu_device_efi.Efi.{
  Outcome, ok, err, stuck, ◌&>◌, &>-cong, is_error, efi_success, efi_unsupported,
  efi_out_of_resources,
}
use ufp_ffu_device_efi.Ffu.{WriteEntry, Store, Plan}
use ufp_ffu_device_efi.Stream.{Media}
use ufp_ffu_device_efi.FfuFile.{FileIo, file_read_exact}
use ufp_ffu_device_efi.FlashFile.Pieces.{piece_size-blocks, file_read_exact-length}
use ufp_ffu_device_efi.FlashFile.{
  Flashing, read_location, piece_limit, piece_size, write_piece, flash_piece, flash_pieces,
  flash_location, flash_locations, flash_entry, flash_entries, flush, ffu_flash_to_block_io,
}

-- Whole blocks, from a block of the device on, that lie on the device.
pub record IsInside (media : Media) (lba : ℕ) (bytes : List ℕ) : Type 0 where
  pub blocks : ℕ
  pub whole : length bytes ≡ blocks * media.block_size
  pub some' : 0 < blocks
  pub inside : lba + blocks ≤ media.last_block + 1

module _ {F D : Type 0} (io : FileIo F) (media : Media) (commit : Bool)
    (w w' : D → ℕ → ℕ → List ℕ → ℕ × D)
    (agree : (d : D) (lba : ℕ) (bytes : List ℕ)
      → IsInside media lba bytes
      → w d media.media_id lba bytes ≡ w' d media.media_id lba bytes)
    (pos : 0 < media.block_size) (small : media.last_block + 1 < 2 ^ 64) where
  write_piece-inside :
      (lba t : ℕ) (o : Outcome (List ℕ)) (f : F) (d : D)
      → ((bytes : List ℕ) → o ≡ ok bytes → length bytes ≡ t * media.block_size)
      → 0 < t
      → lba + t ≤ media.last_block + 1
      → write_piece io w media commit lba (o, f) d ≡ write_piece io w' media commit lba (o, f) d
  unfolding write_piece
  write_piece-inside lba t (err st) f d long some' inside = refl
  write_piece-inside lba t stuck f d long some' inside = refl
  write_piece-inside lba t (ok bytes) f d long some' inside =
      ap
        (λ (r : ℕ × D). (
          if is_error r.0 then err r.0 else ok tt,
          record { file = f; device = r.1; status = r.0 },
        ))
        (agree d lba bytes
          (record { blocks = t; whole = long bytes refl; some' = some'; inside = inside }))

  flash_piece-inside :
      (e : WriteEntry) (lba t q size done : ℕ) (s : Flashing F D)
      → size ≡ t * media.block_size
      → done ≡ q * media.block_size
      → 0 < t
      → lba + q + t ≤ media.last_block + 1
      → flash_piece io w media commit e lba size done s
        ≡ flash_piece io w' media commit e lba size done s
  unfolding flash_piece
  flash_piece-inside e lba t q size done s whole before some' inside =
      let quotient : done / media.block_size ≡ q = rw before (mul-div_cancel q pos) in
      let at : u64 (lba + done / media.block_size) ≡ lba + q = omega (arith, quotient) in
      let offset = u64 (e.payload_offset + done) in
      let read = file_read_exact io offset size s.file in
      let written =
        write_piece-inside (lba + q) t read.0 read.1 s.device
          (λ bytes h. file_read_exact-length io offset size s.file {bytes = bytes} h ∙ whole) some'
          inside in
      ap (λ x. if commit then x else (ok tt, s)) (rw at written)

  flash_pieces-inside :
      (fuel : ℕ) (e : WriteEntry) (lba r q remaining done : ℕ) (s : Flashing F D)
      → remaining ≡ r * media.block_size
      → done ≡ q * media.block_size
      → lba + q + r ≤ media.last_block + 1
      → done + remaining < 2 ^ 32
      → flash_pieces io w media commit fuel e lba remaining done s
        ≡ flash_pieces io w' media commit fuel e lba remaining done s
  unfolding flash_pieces
  flash_pieces-inside zero e lba r q remaining done s whole before inside fits = refl
  flash_pieces-inside (suc fuel) e lba r q remaining done s whole before inside fits =
      elim (Bool-cases (remaining == 0)) [
        | inl none_left ↦ rw (none_left, flash_pieces) refl
        | inr some_left ↦
            let mb = media.block_size in
            let more : 0 < r = blocks_left r remaining whole (ground arith) in
            let (t, piece, positive, within) = piece_size-blocks mb r pos more in
            let taken = piece_size mb remaining in
            let blocks : taken ≡ t * mb = ap (piece_size mb) whole ∙ piece in
            let some_taken : (taken == 0) ≡ false =
              ground (arith, mul-le-mul_right {m = 1} {n = t} mb) in
            let left : remaining - taken ≡ (r - t) * mb =
              omega (arith, blocks, whole, split r t within) in
            let after : u32 (done + taken) ≡ (q + t) * mb =
              omega (
                arith,
                add-mul q t mb,
                blocks,
                before,
                mul-le-mul_right {m = t} {n = r} mb within,
              ) in
            rw (some_left, some_taken, flash_pieces)
              (ap
                  (λ x.
                    x
                    &> flash_pieces io w media commit fuel e lba (remaining - taken)
                        (u32 (done + taken)))
                  (flash_piece-inside e lba t q taken done s blocks before positive (omega arith))
                ∙ &>-cong (flash_piece io w' media commit e lba taken done s)
                    (flash_pieces io w media commit fuel e lba (remaining - taken)
                      (u32 (done + taken)))
                    (flash_pieces io w' media commit fuel e lba (remaining - taken)
                      (u32 (done + taken)))
                    (λ c ran.
                      flash_pieces-inside fuel e lba (r - t) (q + t) (remaining - taken)
                        (u32 (done + taken)) c left after (omega arith)
                        (omega (arith, mul-le-mul_right {m = t} {n = r} mb within))))
      ]
    where
      blocks_left : (r n : ℕ) → n ≡ r * media.block_size → n ≢ 0 → 0 < r
      blocks_left zero n e h = absurd (h (omega (arith, e)))
      blocks_left (suc r) n e h = omega arith

      split :
          (r t : ℕ)
          → t ≤ r
          → r * media.block_size ≡ (r - t) * media.block_size + t * media.block_size
      split r t h =
          ap (λ k. k * media.block_size) (omega arith) ∙ add-mul (r - t) t media.block_size

  flash_location-inside :
      (e : WriteEntry) (block_size : ℕ) (o : Outcome (ℕ × ℕ)) (f : F) (d : D)
      → e.byte_count % media.block_size ≡ 0
      → e.byte_count < 2 ^ 32
      → flash_location io w media commit e block_size (o, f) d
        ≡ flash_location io w' media commit e block_size (o, f) d
  unfolding flash_location
  flash_location-inside e block_size (err st) f d whole fits = refl
  flash_location-inside e block_size stuck f d whole fits = refl
  flash_location-inside e block_size (ok (method, block)) f d whole fits =
      let lba = u64 (block * block_size) / media.block_size in
      let n = e.byte_count / media.block_size in
      elim (Bool-cases (ltb media.last_block lba || ltb (u64 (media.last_block - lba + 1)) n)) [
        | inl past ↦ rw past refl
        | inr within ↦
            let pieces =
              flash_pieces-inside e.byte_count e lba n 0 e.byte_count 0
                (record { file = f; device = d; status = efi_success })
                (omega (arith, whole, div-add-mod' e.byte_count media.block_size)) (omega arith)
                (ground arith) (omega arith) in
            rw within (
              ap
                (λ x.
                  if method != 0
                  then (err efi_unsupported, record { file = f; device = d; status = efi_success })
                  else if u64 (block * block_size) % media.block_size != 0
                  then (err efi_unsupported, record { file = f; device = d; status = efi_success })
                  else x)
                pieces)
      ]

  flash_locations-inside :
      (e : WriteEntry) (block_size count l : ℕ) (s : Flashing F D)
      → e.byte_count % media.block_size ≡ 0
      → e.byte_count < 2 ^ 32
      → flash_locations io w media commit e block_size count l s
        ≡ flash_locations io w' media commit e block_size count l s
  unfolding flash_locations
  flash_locations-inside e block_size zero l s whole fits = refl
  flash_locations-inside e block_size (suc count) l s whole fits =
      let (o, f) = read_location io e.descriptor_offset l s.file in
      ap (λ x. x &> flash_locations io w media commit e block_size count (l + 1))
        (flash_location-inside e block_size o f s.device whole fits)
      ∙ &>-cong (flash_location io w' media commit e block_size (o, f) s.device)
          (flash_locations io w media commit e block_size count (l + 1))
          (flash_locations io w' media commit e block_size count (l + 1))
          (λ c ran. flash_locations-inside e block_size count (l + 1) c whole fits)

  flash_entry-inside :
      (o : Option Store) (e : WriteEntry) (s : Flashing F D)
      → e.byte_count < 2 ^ 32
      → flash_entry io w media commit o e s ≡ flash_entry io w' media commit o e s
  unfolding flash_entry
  flash_entry-inside none e s fits = refl
  flash_entry-inside (some store) e s fits =
      elim (Bool-cases (e.byte_count % media.block_size != 0)) [
        | inl part ↦ rw part refl
        | inr whole ↦
            rw whole
              (flash_locations-inside e store.block_size e.location_count 0 s (ground arith) fits)
      ]

  flash_entries-inside :
      (stores : List Store) (es : List WriteEntry) (s : Flashing F D)
      → All (λ (e : WriteEntry). e.byte_count < 2 ^ 32) es
      → flash_entries io w media commit stores es s ≡ flash_entries io w' media commit stores es s
  unfolding flash_entries
  flash_entries-inside stores [] s fits = refl
  flash_entries-inside stores (e ∷ es) s fits =
      let o = get_elem? stores e.store_index in
      ap (λ x. x &> flash_entries io w media commit stores es) (flash_entry-inside o e s fits.0)
      ∙ &>-cong (flash_entry io w' media commit o e s) (flash_entries io w media commit stores es)
          (flash_entries io w' media commit stores es)
          (λ c ran. flash_entries-inside stores es c fits.1)

  flush-same :
      (flush_blocks : Option (D → ℕ × D)) (s : Flashing F D)
      → flush io w media commit flush_blocks s ≡ flush io w' media commit flush_blocks s
  unfolding flush
  flush-same none s = refl
  flush-same (some flush_blocks) s = refl

  -- On a medium whose blocks have a size and whose block count fits 64 bits, and for entries whose
  -- byte counts fit 32 bits, the run is the same, in the status, the file and the device, for any
  -- two WriteBlocks that agree on writes of whole blocks inside the medium, one at least: no other
  -- write is made.
  pub ffu_flash_to_block_io-inside :
      (flush_blocks : Option (D → ℕ × D)) (room : ℕ → Bool) (plan : Plan) (s : Flashing F D)
      → All (λ (e : WriteEntry). e.byte_count < 2 ^ 32) plan.entries
      → ffu_flash_to_block_io io w flush_blocks room plan (some media) commit s
        ≡ ffu_flash_to_block_io io w' flush_blocks room plan (some media) commit s
  unfolding ffu_flash_to_block_io
  ffu_flash_to_block_io-inside flush_blocks room plan s fits =
      let at = record s { status = efi_success } in
      let ran = flash_entries-inside plan.stores plan.entries at fits in
      ap
        (λ x.
          if not media.media_present || (media.read_only || media.block_size == 0)
          then (err efi_unsupported, s)
          else if not (room (piece_limit media.block_size))
          then (err efi_out_of_resources, s)
          else x)
        (ap (λ x. x &> flush io w media commit flush_blocks) ran
          ∙ &>-cong (flash_entries io w' media commit plan.stores plan.entries at)
              (flush io w media commit flush_blocks) (flush io w' media commit flush_blocks)
              (λ c ran. flush-same flush_blocks c))
