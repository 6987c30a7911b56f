-- ===== src/FlashFile/Pieces.antt =====
-- The pieces in which `ffu_flash_to_block_io` of src/src/ffu.c reads an entry's payload.
use native.Mathlib.Nat.{div-add-mod', mul-mod_left, le_of_mul-le-mul_right, mod-lt}
use ufp_ffu_device_efi.Prelude.{
  ℕ, zero, suc, ◌+◌, ◌*◌, ◌/◌, ◌%◌, ◌<◌, ◌≤◌, ◌≡◌, arith, List, ltb, if◌then◌else◌, length,
  Bool-cases, inl, inr,
}
use ufp_ffu_device_efi.Efi.{ok}
use ufp_ffu_device_efi.FfuFile.{FileIo, got_all, file_seek, file_read_current, file_read_exact}
use ufp_ffu_device_efi.FlashFile.{piece_limit, piece_size}

piece_limit-blocks : (mb : ℕ) → 0 < mb → (k : ℕ) × (piece_limit mb ≡ k * mb) × (0 < k)
unfolding piece_limit
piece_limit-blocks mb pos =
    let size = if ltb (1024 * 1024) mb then mb else 1024 * 1024 in
    let whole = div-add-mod' size mb in
    let large : mb ≤ size = ground arith in
    (size / mb, omega (arith, whole), positive size whole large)
  where
    positive : (size : ℕ) → size / mb * mb + size % mb ≡ size → mb ≤ size → 0 < size / mb
    positive size whole large = go (size / mb) whole
      where
        go : (k : ℕ) → k * mb + size % mb ≡ size → 0 < k
        go zero e = absurd (omega (arith, mod-lt size pos))
        go (suc k) e = omega arith

-- A piece of an entry is whole blocks, at least one, and no more than remain.
pub piece_size-blocks :
    (mb r : ℕ) → 0 < mb → 0 < r → (t : ℕ) × (piece_size mb (r * mb) ≡ t * mb) × (0 < t) × (t ≤ r)
unfolding piece_size
piece_size-blocks mb r pos some' =
    let (k, limit, positive) = piece_limit-blocks mb pos in
    elim (Bool-cases (ltb (r * mb) (piece_limit mb))) [
      | inl less ↦ (r, rw (less, mul-mod_left r mb) (omega arith), some', omega arith)
      | inr more ↦ (
        k,
        rw (more, limit, mul-mod_left k mb) (omega arith),
        positive,
        le_of_mul-le-mul_right (ground (arith, limit)) pos,
      )
    ]

-- A read gives as many bytes as asked for.
pub file_read_exact-length :
    {F : Type 0} (io : FileIo F) (offset size : ℕ) (f : F) {bytes : List ℕ}
    → (file_read_exact io offset size f).0 ≡ ok bytes
    → length bytes ≡ size
unfolding file_read_exact file_seek file_read_current got_all
file_read_exact-length io offset size f {bytes} h = ground arith
