-- ===== src/FfuFile/Follows.antt =====
-- The two parsers of src/src/ffu.c, of a header in memory and of a file, on the same bytes: what the one
-- accepts, the other does too. The headers before the stores are here.
use ufp_ffu_device_efi.Prelude.{
  ℕ, zero, suc, ◌+◌, ◌-◌, ◌≤◌, ◌≡◌, refl, ap, ◌∙◌, arith, List, Bool, true, false, ltb, ◌||◌, ◌==◌,
  if◌then◌else◌, length, ◌++◌, Bool-cases, inl, inr,
}
use ufp_ffu_device_efi.Prelude.Buffer.{slice, length-take_or}
use ufp_ffu_device_efi.Efi.{
  Outcome, ok, err, stuck, refuse, is_error, efi_end_of_file, efi_volume_corrupted,
}
use ufp_ffu_device_efi.Efi
use ufp_ffu_device_efi.Word.{u32, u64}
use ufp_ffu_device_efi.Ffu.{Plan, security_header_size, image_header_v1_size, image_header_v2_size}
use ufp_ffu_device_efi.Ffu.Read.{mem_read_exact}
use ufp_ffu_device_efi.Ffu.Header.{
  take_security, take_image_size, take_image_fields, descriptor_skip, read_image_extension,
  skip_descriptors, read_security, read_image, read_headers,
}
use ufp_ffu_device_efi.FfuFile.{
  Reading, and_with, ◌>>=◌, pure, FileIo, got_all, file_seek, file_read_current, file_read_exact,
  file_image_extension, file_skip_descriptors, file_security, file_image, file_headers,
}

-- A file that behaves as its protocol says: `at s p` says that it is open, at position `p`; a seek
-- moves the position, and a read inside the file gives its bytes and moves on.
pub record PlainFile {F : Type 0} (io : FileIo F) (bytes : List ℕ) : Type 1 where
  pub at : F → ℕ → Type 0
  pub seeks :
      (s : F) (p offset : ℕ)
      → at s p
      → ((io.set_position s offset).0 ≡ 0) × at (io.set_position s offset).1 offset
  pub reads :
      (s : F) (p len : ℕ)
      → at s p
      → p + len ≤ length bytes
      → (s' : F) × (io.read s len ≡ (0, slice 0 bytes p len, s')) × at s' (p + len)

module _ {F : Type 0} (io : FileIo F) (bytes : List ℕ) (file : PlainFile io bytes) where
  -- The file is open, somewhere.
  abbrev pub Open : F → Type 0
  Open s = (p : ℕ) × file.at s p

  -- What the one accepts, the other does too, with the same result.
  abbrev pub Follows : {A : Type 0} → Outcome A → Reading F A → Type 0
  Follows {A} o m = (a : A) (s : F) → o ≡ ok a → Open s → (s' : F) × (m s ≡ (ok a, s')) × Open s'

  pub Follows->>= :
      {A B : Type 0} (o : Outcome A) (m : Reading F A) (f : A → Outcome B) (g : A → Reading F B)
      → Follows o m
      → ((x : A) → Follows (f x) (g x))
      → Follows (Efi.◌>>=◌ o f) (m >>= g)
  Follows->>= (ok x) m f g h k b s e open' =
      let (s₁, ran, open₁) = h x s refl open' in
      let (s₂, rest, open₂) = k x b s₁ e open₁ in (s₂, ap (λ r. and_with r g) ran ∙ rest, open₂)
  Follows->>= (err st) m f g h k b s e open' = cc
  Follows->>= stuck m f g h k b s e open' = cc

  pub Follows-pure : {A : Type 0} (o : Outcome A) → Follows o (pure o)
  Follows-pure o a s e open' = (s, ap (λ (o : Outcome _). (o, s)) e, open')

  -- A check that both make, perhaps with different statuses, and one that the file's parser leaves
  -- out.
  pub Follows-refuse : (b : Bool) (st st' : ℕ) → Follows (refuse b st) (pure (refuse b st'))
  Follows-refuse true st st' a s e open' = cc
  Follows-refuse false st st' a s e open' = (s, ap (λ (o : Outcome _). (o, s)) e, open')

  pub Follows-unchecked :
      {A : Type 0} (b : Bool) (st : ℕ) (o : Outcome A) (m : Reading F A)
      → Follows o m
      → Follows (Efi.◌>>◌ (refuse b st) o) m
  Follows-unchecked true st o m h a s e open' = cc
  Follows-unchecked false st o m h a s e open' = h a s e open'

  pub Follows-if :
      {A : Type 0} (b : Bool) {o o' : Outcome A} {m m' : Reading F A}
      → Follows o m
      → Follows o' m'
      → Follows (if b then o else o') (if b then m else m')
  Follows-if true h h' = h
  Follows-if false h h' = h'

  module _ (size : ℕ) (inside : size ≤ length bytes) where
    pub read-Follows :
        (offset len : ℕ)
        → Follows (mem_read_exact bytes size offset len) (file_read_exact io offset len)
    unfolding mem_read_exact file_read_exact file_seek file_read_current got_all
    read-Follows offset len a s e (p, open') =
        elim (Bool-cases (ltb size offset || ltb (size - offset) len)) [
          | inl past ↦ cc (rw past at e)
          | inr within ↦
              let (zero', at₁) = file.seeks s p offset open' in
              let s₁ = (io.set_position s offset).1 in
              let (s', got, at₂) = file.reads s₁ offset len at₁ (ground arith) in
              let same : slice 0 bytes offset len ≡ a = cc (rw within at e) in
              let full : length (slice 0 bytes offset len) ≡ len = length-take_or len 0 _ in
              let self : (len == len) ≡ true = ground arith in
              (s', rw (zero', got, full, same, self) refl, (offset + len, at₂))
        ]

    image_extension-Follows :
        (img : List ℕ) (cursor : ℕ) (plan : Plan)
        → Follows
            (read_image_extension bytes size img cursor plan)
            (file_image_extension io img cursor plan)
    unfolding read_image_extension file_image_extension
    image_extension-Follows img cursor plan =
        Follows-if (plan.image_header_size == image_header_v2_size)
          (Follows->>= _ _ _ _ (read-Follows _ 4) (λ more. Follows-pure (ok (img ++ more))))
          (Follows-pure (ok img))

    skip_descriptors-Follows :
        (count cursor : ℕ)
        → Follows (skip_descriptors bytes size count cursor) (file_skip_descriptors io count cursor)
    unfolding skip_descriptors file_skip_descriptors
    skip_descriptors-Follows zero cursor = Follows-pure _
    skip_descriptors-Follows (suc count) cursor =
        Follows->>= _ _ _ _ (read-Follows cursor 28) (λ vd.
          let cursor' = u64 (cursor + (28 + descriptor_skip vd)) in
          Follows-unchecked (ltb size cursor') efi_end_of_file _ _
            (skip_descriptors-Follows count cursor'))

    security-Follows :
        (plan : Plan) → Follows (read_security bytes size plan) (file_security io size plan)
    unfolding read_security file_security
    security-Follows plan =
        Follows->>= _ _ _ _
          (Follows-refuse (ltb size security_header_size) efi_end_of_file efi_volume_corrupted)
          (λ u. Follows->>= _ _ _ _ (read-Follows 0 security_header_size) (λ sec.
            Follows->>= _ _ _ _ (Follows-pure (take_security sec plan)) (λ plan'. Follows-pure _)))

    image-Follows :
        (plan : Plan) (cursor : ℕ)
        → Follows (read_image bytes size plan cursor) (file_image io plan cursor)
    unfolding read_image file_image
    image-Follows plan cursor =
        Follows-unchecked (ltb size (u64 (cursor + image_header_v1_size))) efi_end_of_file _ _ (
          Follows->>= _ _ _ _ (read-Follows cursor image_header_v1_size) (λ img.
            Follows->>= _ _ _ _ (Follows-pure (take_image_size img plan)) (λ sized.
              Follows->>= _ _ _ _ (image_extension-Follows img cursor sized) (λ img'.
                Follows->>= _ _ _ _ (Follows-pure (take_image_fields img' sized)) (λ plan'.
                  let cursor' =
                    u64 (cursor + u32 (plan'.image_header_size + plan'.manifest_length)) in
                  Follows-unchecked (ltb size cursor') efi_end_of_file _ _
                    (Follows-pure (ok (plan', cursor'))))))))

    pub headers-Follows :
        (plan : Plan) → Follows (read_headers bytes size plan) (file_headers io size plan)
    unfolding read_headers file_headers
    headers-Follows plan = Follows->>= _ _ _ _ (security-Follows plan) (λ (secured, at).
        Follows->>= _ _ _ _ (image-Follows secured at) (λ (plan', cursor).
          Follows->>= _ _ _ _ (skip_descriptors-Follows plan'.validation_descriptor_count cursor)
            (λ cursor'. Follows-pure _)))
