-- ===== src/FlashFile/Ends.antt =====
-- The loops of `ffu_flash_to_block_io` of src/src/ffu.c end, and a dry run of it leaves the device alone.
use ufp_ffu_device_efi.Prelude.{
  ℕ, zero, suc, ◌+◌, ◌-◌, ◌*◌, ◌/◌, ◌%◌, ◌<◌, ◌≤◌, ◌≡◌, ◌≢◌, refl, arith, List, [], ◌∷◌, Bool,
  false, Option, some, none, ltb, ◌==◌, ◌!=◌, ◌||◌, not, get_elem?, length, All, Bool-cases,
  if_both, inl, inr,
}
use ufp_ffu_device_efi.Word.{u32, u64}
use ufp_ffu_device_efi.Efi.{Outcome, ok, err, stuck, Run, ◌&>◌, efi_success}
use ufp_ffu_device_efi.Ffu.{WriteEntry, Store, Plan}
use ufp_ffu_device_efi.Stream.{Media}
use ufp_ffu_device_efi.Stream.Ready.{get_elem?-none}
use ufp_ffu_device_efi.FfuFile.{FileIo, got_all, file_seek, file_read_current, file_read_exact}
use ufp_ffu_device_efi.FlashFile.{
  Flashing, returned_status, read_location, piece_limit, piece_size, write_piece, flash_piece,
  flash_pieces, flash_location, flash_locations, flash_entry, flash_entries, flush,
  ffu_flash_to_block_io,
}

-- It ended, and on a dry run the device is `d`.
abbrev Settled : {F D : Type 0} → Bool → D → Run (Flashing F D) → Type 0
Settled commit d r = (r.0 ≢ stuck) × (commit ≡ false → r.1.device ≡ d)

Settled-&> :
    {F D : Type 0} (commit : Bool) (d : D) (r : Run (Flashing F D))
    (f : Flashing F D → Run (Flashing F D))
    → Settled commit d r
    → ((s : Flashing F D) → (commit ≡ false → s.device ≡ d) → Settled commit d (f s))
    → Settled commit d (r &> f)
Settled-&> commit d (ok u, s) f h k = k s h.1
Settled-&> commit d (err st, s) f h k = h
Settled-&> commit d (stuck, s) f h k = h

returned_status-ends : (st : ℕ) → returned_status st ≢ stuck
returned_status-ends st h = ground arith

file_read_exact-ends :
    {F : Type 0} (io : FileIo F) (offset size : ℕ) (f : F)
    → (file_read_exact io offset size f).0 ≢ stuck
unfolding file_read_exact file_seek file_read_current got_all
file_read_exact-ends io offset size f h = ground arith

read_location-ends :
    {F : Type 0} (io : FileIo F) (offset index : ℕ) (f : F)
    → (read_location io offset index f).0 ≢ stuck
unfolding read_location
read_location-ends io offset index f h =
    ground (arith, file_read_exact-ends io (u64 (offset + 8 + index * 8)) 8 f)

module _ {F D : Type 0} (io : FileIo F) (write_blocks : D → ℕ → ℕ → List ℕ → ℕ × D) (media : Media)
    (commit : Bool) (d : D) where
  write_piece-ends :
      (lba : ℕ) (o : Outcome (List ℕ)) (f : F) (d' : D)
      → o ≢ stuck
      → (write_piece io write_blocks media commit lba (o, f) d').0 ≢ stuck
  unfolding write_piece
  write_piece-ends lba (ok bytes) f d' ended h = ground arith
  write_piece-ends lba (err st) f d' ended h = cc
  write_piece-ends lba stuck f d' ended h = ended refl

  flash_piece-Settled :
      (e : WriteEntry) (lba size done : ℕ) (s : Flashing F D)
      → (commit ≡ false → s.device ≡ d)
      → Settled commit d (flash_piece io write_blocks media commit e lba size done s)
  unfolding flash_piece
  flash_piece-Settled e lba size done s same =
      let offset = u64 (e.payload_offset + done) in
      let read = file_read_exact io offset size s.file in
      if_both (Settled commit d) commit
        (λ committed. (
          write_piece-ends (u64 (lba + done / media.block_size)) read.0 read.1 s.device
              (file_read_exact-ends io offset size s.file),
          λ dry. cc,
        ))
        (λ dry. ((λ h. cc), same))

  flash_pieces-Settled :
      (fuel : ℕ) (e : WriteEntry) (lba remaining done : ℕ) (s : Flashing F D)
      → remaining ≤ fuel
      → (commit ≡ false → s.device ≡ d)
      → Settled commit d (flash_pieces io write_blocks media commit fuel e lba remaining done s)
  unfolding flash_pieces
  flash_pieces-Settled zero e lba remaining done s fuel same =
      if_both (Settled commit d) (remaining == 0) (λ _. ((λ h. cc), same))
        (λ some_left. absurd (some_left-false some_left))
    where
      some_left-false : (remaining == 0) ≡ false → ⊥
      some_left-false h = ground arith
  flash_pieces-Settled (suc fuel) e lba remaining done s enough same =
      elim (Bool-cases (remaining == 0)) [
        | inl none_left ↦ rw (none_left, flash_pieces) ((λ h. cc), same)
        | inr some_left ↦
            let taken = piece_size media.block_size remaining in
            elim (Bool-cases (taken == 0)) [
              | inl none_taken ↦ rw (some_left, none_taken, flash_pieces) ((λ h. cc), same)
              | inr some_taken ↦
                  rw (some_left, some_taken, flash_pieces)
                    (Settled-&> commit d
                      (flash_piece io write_blocks media commit e lba taken done s)
                      (flash_pieces io write_blocks media commit fuel e lba (remaining - taken)
                        (u32 (done + taken)))
                      (flash_piece-Settled e lba taken done s same)
                      (λ s' same'.
                        flash_pieces-Settled fuel e lba (remaining - taken) (u32 (done + taken)) s'
                          (ground arith) same'))
            ]
      ]

  flash_location-Settled :
      (e : WriteEntry) (block_size : ℕ) (o : Outcome (ℕ × ℕ)) (f : F) (d' : D)
      → o ≢ stuck
      → (commit ≡ false → d' ≡ d)
      → Settled commit d (flash_location io write_blocks media commit e block_size (o, f) d')
  unfolding flash_location
  flash_location-Settled e block_size (err st) f d' ended same = ((λ h. cc), same)
  flash_location-Settled e block_size stuck f d' ended same = absurd (ended refl)
  flash_location-Settled e block_size (ok (method, block)) f d' ended same =
      let lba = u64 (block * block_size) / media.block_size in
      if_both (Settled commit d) (method != 0) (λ _. ((λ h. cc), same))
        (λ _.
          if_both (Settled commit d) (u64 (block * block_size) % media.block_size != 0)
            (λ _. ((λ h. cc), same))
            (λ _.
              if_both (Settled commit d)
                (ltb media.last_block lba
                  || ltb (u64 (media.last_block - lba + 1)) (e.byte_count / media.block_size))
                (λ _. ((λ h. cc), same))
                (λ _.
                  flash_pieces-Settled e.byte_count e lba e.byte_count 0
                    (record { file = f; device = d'; status = efi_success }) (omega arith) same)))

  flash_locations-Settled :
      (e : WriteEntry) (block_size count l : ℕ) (s : Flashing F D)
      → (commit ≡ false → s.device ≡ d)
      → Settled commit d (flash_locations io write_blocks media commit e block_size count l s)
  unfolding flash_locations
  flash_locations-Settled e block_size zero l s same = ((λ h. cc), same)
  flash_locations-Settled e block_size (suc count) l s same =
      let (o, f) = read_location io e.descriptor_offset l s.file in
      Settled-&> commit d (flash_location io write_blocks media commit e block_size (o, f) s.device)
        (flash_locations io write_blocks media commit e block_size count (l + 1))
        (flash_location-Settled e block_size o f s.device
          (read_location-ends io e.descriptor_offset l s.file) same)
        (λ s' same'. flash_locations-Settled e block_size count (l + 1) s' same')

  flash_entry-Settled :
      (o : Option Store) (e : WriteEntry) (s : Flashing F D)
      → o ≢ none
      → (commit ≡ false → s.device ≡ d)
      → Settled commit d (flash_entry io write_blocks media commit o e s)
  unfolding flash_entry
  flash_entry-Settled none e s there same = absurd (there refl)
  flash_entry-Settled (some store) e s there same =
      if_both (Settled commit d) (e.byte_count % media.block_size != 0) (λ _. ((λ h. cc), same))
        (λ _. flash_locations-Settled e store.block_size e.location_count 0 s same)

  flash_entries-Settled :
      (stores : List Store) (es : List WriteEntry) (s : Flashing F D)
      → All (λ (e : WriteEntry). e.store_index < length stores) es
      → (commit ≡ false → s.device ≡ d)
      → Settled commit d (flash_entries io write_blocks media commit stores es s)
  unfolding flash_entries
  flash_entries-Settled stores [] s listed same = ((λ h. cc), same)
  flash_entries-Settled stores (e ∷ es) s listed same =
      let o = get_elem? stores e.store_index in
      Settled-&> commit d (flash_entry io write_blocks media commit o e s)
        (flash_entries io write_blocks media commit stores es)
        (flash_entry-Settled o e s
          (λ missing. absurd (omega (arith, get_elem?-none stores e.store_index missing, listed.0)))
          same)
        (λ s' same'. flash_entries-Settled stores es s' listed.1 same')

  flush-Settled :
      (flush_blocks : Option (D → ℕ × D)) (s : Flashing F D)
      → (commit ≡ false → s.device ≡ d)
      → Settled commit d (flush io write_blocks media commit flush_blocks s)
  unfolding flush
  flush-Settled none s same = (returned_status-ends s.status, same)
  flush-Settled (some flush_blocks) s same =
      if_both (Settled commit d) (not commit) (λ dry. (returned_status-ends s.status, same))
        (λ committed.
          (returned_status-ends (flush_blocks s.device).0, λ dry. absurd (both committed dry)))
    where
      both : not commit ≡ false → commit ≡ false → ⊥
      both h k = ground arith

  ffu_flash_to_block_io-Settled :
      (flush_blocks : Option (D → ℕ × D)) (room : ℕ → Bool) (plan : Plan) (s : Flashing F D)
      → All (λ (e : WriteEntry). e.store_index < length plan.stores) plan.entries
      → s.device ≡ d
      → Settled commit d
          (ffu_flash_to_block_io io write_blocks flush_blocks room plan (some media) commit s)
  unfolding ffu_flash_to_block_io
  ffu_flash_to_block_io-Settled flush_blocks room plan s listed same =
      let still = λ (dry : commit ≡ false). same in
      if_both (Settled commit d)
        (not media.media_present || (media.read_only || media.block_size == 0))
        (λ _. ((λ h. cc), still))
        (λ _.
          if_both (Settled commit d) (not (room (piece_limit media.block_size)))
            (λ _. ((λ h. cc), still))
            (λ _.
              Settled-&> commit d
                (flash_entries io write_blocks media commit plan.stores plan.entries
                  (record s { status = efi_success }))
                (flush io write_blocks media commit flush_blocks)
                (flash_entries-Settled plan.stores plan.entries (record s { status = efi_success })
                  listed still)
                (λ s' same'. flush-Settled flush_blocks s' same')))

module _ {F D : Type 0} (io : FileIo F) (write_blocks : D → ℕ → ℕ → List ℕ → ℕ × D)
    (flush_blocks : Option (D → ℕ × D)) (room : ℕ → Bool) (plan : Plan) (media : Media)
    (commit : Bool) (s : Flashing F D)
    (listed : All (λ (e : WriteEntry). e.store_index < length plan.stores) plan.entries) where
  -- For a plan whose entries belong to its stores, the run ends, whatever the file, the device and
  -- the locations: the call returns EFI_SUCCESS or an error status.
  pub ffu_flash_to_block_io-ends :
      (ffu_flash_to_block_io io write_blocks flush_blocks room plan (some media) commit s).0 ≢ stuck
  ffu_flash_to_block_io-ends =
      (ffu_flash_to_block_io-Settled io write_blocks media commit s.device flush_blocks room plan s
        listed refl).0

  -- For a plan whose entries belong to its stores, a run that is not to commit leaves the device as
  -- it is, whatever the file and the outcome.
  pub ffu_flash_to_block_io-dry_run :
      commit ≡ false
      → (ffu_flash_to_block_io io write_blocks flush_blocks room plan
          (some media)
          commit
          s).1.device
        ≡ s.device
  ffu_flash_to_block_io-dry_run dry =
      (ffu_flash_to_block_io-Settled io write_blocks media commit s.device flush_blocks room plan s
          listed refl).1
        dry
