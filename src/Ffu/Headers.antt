-- ===== src/Ffu/Headers.antt =====
-- What the parser has checked once it reaches the first store header.
use mathlib.Core.Path.{subst}
use ufp_ffu_device_efi.Prelude.{
  ℕ, zero, suc, ◌+◌, ◌%◌, ◌^◌, ◌<◌, ◌≤◌, ◌≡◌, ◌⊎◌, arith, List, [], ltb,
}
use ufp_ffu_device_efi.Word.{u32, u64}
use ufp_ffu_device_efi.Word.Bits.{bit_and_mask}
use ufp_ffu_device_efi.Efi.{Outcome, ok, ◌>>◌, refuse, >>=-eq-ok, efi_end_of_file}
use ufp_ffu_device_efi.Bytes.{rd_le32}
use ufp_ffu_device_efi.Bytes.Order.{rd_le32-lt}
use ufp_ffu_device_efi.Ffu.{Plan}
use ufp_ffu_device_efi.Ffu.Read.{mem_read_exact}
use ufp_ffu_device_efi.Ffu.Header.{
  take_security, take_image_size, take_image_fields, read_image_extension, skip_descriptors,
  read_security, read_image, read_headers, descriptor_skip,
}

-- The fields of the security header and of the image header that a plan holds.
pub record IsHeader (p : Plan) : Type 0 where
  pub has_chunk : 0 < p.chunk_size
  pub chunk_fits : p.chunk_size < 2 ^ 32
  pub has_catalog : 0 < p.security_catalog_size
  pub has_hash : 0 < p.security_hash_size
  pub hash_aligned : p.security_hash_size % 32 ≡ 0
  pub image_size : (p.image_header_size ≡ 24) ⊎ (p.image_header_size ≡ 28)
  pub has_manifest : 0 < p.manifest_length

-- What a plan holds before the store loop.
abbrev pub IsFresh : ℕ → Plan → Type 0
IsFresh size p =
    (p.file_size ≡ size)
    × (p.payload_base ≡ 0)
    × (p.total_payload_bytes ≡ 0)
    × (p.store_count ≡ 0)
    × (p.entry_count ≡ 0)
    × (p.stores ≡ [])
    × (p.entries ≡ [])

abbrev pub SecurityOk : Plan → Type 0
SecurityOk p =
    (0 < p.chunk_size)
    × (p.chunk_size < 2 ^ 32)
    × (0 < p.security_catalog_size)
    × (0 < p.security_hash_size)
    × (p.security_hash_size % 32 ≡ 0)

module _ (size : ℕ) where
  take_security-eq-ok :
      (sec : List ℕ) (p : Plan) {p' : Plan}
      → take_security sec p ≡ ok p'
      → IsFresh size p
      → IsFresh size p' × SecurityOk p'
  unfolding take_security
  take_security-eq-ok sec p {p'} h fresh =
      ground (arith, bit_and_mask 5 (rd_le32 sec 28), rd_le32-lt sec 28, rd_le32-lt sec 24)

  take_image_size-eq-ok :
      (img : List ℕ) (p : Plan) {p' : Plan}
      → take_image_size img p ≡ ok p'
      → IsFresh size p
      → SecurityOk p
      → IsFresh size p'
        × SecurityOk p'
        × ((p'.image_header_size ≡ 24) ⊎ (p'.image_header_size ≡ 28))
  unfolding take_image_size
  take_image_size-eq-ok img p {p'} h fresh sec = ground arith

  take_image_fields-eq-ok :
      (img : List ℕ) (p : Plan) {p' : Plan}
      → take_image_fields img p ≡ ok p'
      → IsFresh size p
      → SecurityOk p
      → (p.image_header_size ≡ 24) ⊎ (p.image_header_size ≡ 28)
      → IsFresh size p' × IsHeader p'
  unfolding take_image_fields
  take_image_fields-eq-ok img p {p'} h fresh sec image = ground (arith)

  skip_descriptors-le :
      (data' : List ℕ) (count cursor : ℕ) {cursor' : ℕ}
      → skip_descriptors data' size count cursor ≡ ok cursor'
      → cursor ≤ size
      → cursor' ≤ size
  unfolding skip_descriptors
  skip_descriptors-le data' zero cursor h inside = ground arith
  skip_descriptors-le data' (suc count) cursor {cursor'} h inside =
      let (vd, e, h1) = >>=-eq-ok (mem_read_exact data' size cursor 28) _ h in
      let next = u64 (cursor + (28 + descriptor_skip vd)) in
      ground (arith, skip_descriptors-le data' count next {cursor' = cursor'})

  read_headers_end :
      (p : Plan) (c : ℕ) (p' : Plan) (c' : ℕ)
      → ◌≡◌ {A = Outcome (Plan × ℕ)} (ok (p, c)) (ok (p', c'))
      → IsFresh size p
      → IsHeader p
      → c ≤ size
      → IsFresh size p' × IsHeader p' × (c' ≤ size)
  read_headers_end p c p' c' h fresh header inside = ground arith

  read_image_end :
      (p : Plan) (c : ℕ) (p' : Plan) (c' : ℕ)
      → ◌≡◌ {A = Outcome (Plan × ℕ)}
          (refuse (ltb size c) efi_end_of_file >> ok (p, c))
          (ok (p', c'))
      → IsFresh size p
      → IsHeader p
      → IsFresh size p' × IsHeader p' × (c' ≤ size)
  read_image_end p c p' c' h fresh header = ground arith

  read_security-eq-ok :
      (data' : List ℕ) (p : Plan) {p' : Plan} {at : ℕ}
      → read_security data' size p ≡ ok (p', at)
      → IsFresh size p
      → IsFresh size p' × SecurityOk p'
  unfolding read_security
  read_security-eq-ok data' p {p'} {at} h fresh =
      let (_, _, h1) = >>=-eq-ok (refuse (ltb size 32) _) _ h in
      let (sec, _, h2) = >>=-eq-ok (mem_read_exact data' size 0 32) _ h1 in
      let (p1, e1, h3) = >>=-eq-ok (take_security sec p) _ h2 in
      let same : p1 ≡ p' = ground (arith, h3) in
      subst (λ q. IsFresh size q × SecurityOk q) same (take_security-eq-ok sec p e1 fresh)

  read_image-eq-ok :
      (data' : List ℕ) (p : Plan) (at : ℕ) {p' : Plan} {cursor : ℕ}
      → read_image data' size p at ≡ ok (p', cursor)
      → IsFresh size p
      → SecurityOk p
      → IsFresh size p' × IsHeader p' × (cursor ≤ size)
  unfolding read_image
  read_image-eq-ok data' p at {p'} {cursor} h fresh sec =
      let (_, _, h1) = >>=-eq-ok (refuse (ltb size (u64 (at + 24))) _) _ h in
      let (img, _, h2) = >>=-eq-ok (mem_read_exact data' size at 24) _ h1 in
      let (p1, e1, h3) = >>=-eq-ok (take_image_size img p) _ h2 in
      let (img', _, h4) = >>=-eq-ok (read_image_extension data' size img at p1) _ h3 in
      let (p2, e2, h5) = >>=-eq-ok (take_image_fields img' p1) _ h4 in
      let (fresh1, sec1, image1) = take_image_size-eq-ok img p {p' = p1} e1 fresh sec in
      let (fresh2, header2) = take_image_fields-eq-ok img' p1 {p' = p2} e2 fresh1 sec1 image1 in
      read_image_end p2 (u64 (at + u32 (p2.image_header_size + p2.manifest_length))) p' cursor h5
        fresh2 header2

  pub read_headers-eq-ok :
      (data' : List ℕ) (p : Plan) {p' : Plan} {cursor : ℕ}
      → read_headers data' size p ≡ ok (p', cursor)
      → IsFresh size p
      → IsFresh size p' × IsHeader p' × (cursor ≤ size)
  unfolding read_headers
  read_headers-eq-ok data' p {p'} {cursor} h fresh =
      let ((p1, at), e1, h1) = >>=-eq-ok (read_security data' size p) _ h in
      let ((p2, c), e2, h2) = >>=-eq-ok (read_image data' size p1 at) _ h1 in
      let (c', e3, h3) =
        >>=-eq-ok (skip_descriptors data' size p2.validation_descriptor_count c) _ h2 in
      let (fresh1, sec1) = read_security-eq-ok data' p {p' = p1} {at = at} e1 fresh in
      let (fresh2, header2, inside) =
        read_image-eq-ok data' p1 at {p' = p2} {cursor = c} e2 fresh1 sec1 in
      let last =
        skip_descriptors-le data' p2.validation_descriptor_count c {cursor' = c'} e3 inside in
      read_headers_end p2 c' p' cursor h3 fresh2 header2 last
