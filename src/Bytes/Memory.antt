-- ===== src/Bytes/Memory.antt =====
-- `memcpy` and `memset` against the copy of a slice.
use ufp_ffu_device_efi.Prelude.{
  ℕ, zero, suc, ◌+◌, ◌≡◌, refl, ap, List, [], ◌∷◌, drop, replicate, arith,
}
use ufp_ffu_device_efi.Prelude.Buffer.{blit, take_or, slice}
use ufp_ffu_device_efi.Word.{u8}
use ufp_ffu_device_efi.Bytes.{byte, poke, memcpy, memset}

-- The first byte of a copy is one store.
blit-cons :
    (xs : List ℕ) (i v : ℕ) (src : List ℕ) → blit xs i (v ∷ src) ≡ blit (poke xs i v) (i + 1) src
blit-cons [] i v src = refl
blit-cons (x ∷ xs) zero v src = refl
blit-cons (x ∷ xs) (suc i) v src =
    let e : suc i + 1 ≡ suc (i + 1) = omega arith in rw e (ap (◌∷◌ x) (blit-cons xs i v src))

blit-nil : (xs : List ℕ) (i : ℕ) → blit xs i [] ≡ xs
blit-nil [] i = refl
blit-nil (x ∷ xs) zero = refl
blit-nil (x ∷ xs) (suc i) = ap (◌∷◌ x) (blit-nil xs i)

slice-suc : (src : List ℕ) (s n : ℕ) → slice 0 src s (suc n) ≡ byte src s ∷ slice 0 src (s + 1) n
slice-suc [] zero n = ap (λ l. 0 ∷ take_or n 0 l) (drop-nil (0 + 1))
  where
    drop-nil : (k : ℕ) → [] ≡ drop {A = ℕ} k []
    drop-nil zero = refl
    drop-nil (suc k) = refl
slice-suc [] (suc s) n = let e : suc s + 1 ≡ suc (s + 1) = omega arith in rw e refl
slice-suc (x ∷ src) zero n = refl
slice-suc (x ∷ src) (suc s) n =
    let e : suc s + 1 ≡ suc (s + 1) = omega arith in rw e (slice-suc src s n)

-- Between two buffers `memcpy` copies the slice of the source to the place in the destination,
-- and touches nothing else.
pub memcpy-blit :
    (dst : List ℕ) (d : ℕ) (src : List ℕ) (s len : ℕ)
    → memcpy dst d src s len ≡ blit dst d (slice 0 src s len)
unfolding memcpy
memcpy-blit dst d src s zero = rw blit-nil
memcpy-blit dst d src s (suc len) =
    rw (slice-suc src s len, blit-cons dst d (byte src s) (slice 0 src (s + 1) len))
      (memcpy-blit (poke dst d (byte src s)) (d + 1) src (s + 1) len)

-- `memset` stores the byte of the value `len` times.
pub memset-blit :
    (dst : List ℕ) (d value len : ℕ)
    → memset dst d value len ≡ blit dst d (replicate len (u8 value))
unfolding memset
memset-blit dst d value zero = rw blit-nil
memset-blit dst d value (suc len) =
    rw (blit-cons dst d (u8 value) (replicate len (u8 value)))
      (memset-blit (poke dst d (u8 value)) (d + 1) value len)
