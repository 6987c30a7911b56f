-- ===== src/Prelude/Buffer.antt =====
-- A C buffer as the list of its elements: `blit` is `memcpy` into it, `slice` is `memcpy` out of
-- it. What lies outside the list is read as the default and is never written.
use Prim.Native.Nat.{ℕ, zero, suc, ◌+◌, ◌<◌, ◌≤◌}
use mathlib.Core.Path.{◌≡◌, refl, ap}
use mathlib.Core.List.{List, [], ◌∷◌, ◌++◌}
use native.Mathlib.Omega.{arith}
use ufp_ffu_device_efi.Prelude.Lists.{length, get_or, drop, take, All}

module _ {ℓ} {A : Type ℓ} where
  abbrev pub blit : List A → ℕ → List A → List A
  blit [] i src = []
  blit (x ∷ xs) zero [] = x ∷ xs
  blit (x ∷ xs) zero (s ∷ src) = s ∷ blit xs zero src
  blit (x ∷ xs) (suc i) src = x ∷ blit xs i src

  abbrev pub take_or : ℕ → A → List A → List A
  take_or zero d xs = []
  take_or (suc n) d [] = d ∷ take_or n d []
  take_or (suc n) d (x ∷ xs) = x ∷ take_or n d xs

  abbrev pub slice : A → List A → ℕ → ℕ → List A
  slice d xs off n = take_or n d (drop off xs)

module _ {ℓ} {A : Type ℓ} where
  pub length-blit : (xs : List A) (i : ℕ) (src : List A) → length (blit xs i src) ≡ length xs
  length-blit [] i src = refl
  length-blit (x ∷ xs) zero [] = refl
  length-blit (x ∷ xs) zero (s ∷ src) = ap suc (length-blit xs zero src)
  length-blit (x ∷ xs) (suc i) src = ap suc (length-blit xs i src)

  -- A copy to the front of the buffer replaces that many elements.
  pub blit_front :
      (xs src : List A) → length src ≤ length xs → blit xs 0 src ≡ src ++ drop (length src) xs
  blit_front [] [] h = refl
  blit_front [] (s ∷ src) h = absurd (omega arith)
  blit_front (x ∷ xs) [] h = refl
  blit_front (x ∷ xs) (s ∷ src) h = ap (◌∷◌ s) (blit_front xs src (omega arith))

  -- Two copies, the second just behind the first, are one.
  pub blit-append :
      (xs : List A) (i : ℕ) (a b : List A)
      → blit (blit xs i a) (i + length a) b ≡ blit xs i (a ++ b)
  blit-append [] zero a b = refl
  blit-append [] (suc i) a b = refl
  blit-append (x ∷ xs) zero [] b = refl
  blit-append (x ∷ xs) zero (s ∷ a) b =
      let e : 0 + length (s ∷ a) ≡ suc (0 + length a) = omega arith in
      rw e (ap (◌∷◌ s) (blit-append xs zero a b))
  blit-append (x ∷ xs) (suc i) a b =
      let e : suc i + length a ≡ suc (i + length a) = omega arith in
      rw e (ap (◌∷◌ x) (blit-append xs i a b))

  -- A copy behind what was copied before extends it.
  pub take-blit :
      (xs : List A) (i : ℕ) (src : List A)
      → i + length src ≤ length xs
      → take (i + length src) (blit xs i src) ≡ take i xs ++ src
  take-blit [] zero [] h = refl
  take-blit [] zero (s ∷ src) h = absurd (omega arith)
  take-blit [] (suc i) src h = absurd (omega arith)
  take-blit (x ∷ xs) zero [] h = refl
  take-blit (x ∷ xs) zero (s ∷ src) h =
      let e : 0 + length (s ∷ src) ≡ suc (0 + length src) = omega arith in
      rw e (ap (◌∷◌ s) (take-blit xs zero src (omega arith)))
  take-blit (x ∷ xs) (suc i) src h =
      let e : suc i + length src ≡ suc (i + length src) = omega arith in
      rw e (ap (◌∷◌ x) (take-blit xs i src (omega arith)))

  -- Inside the copied range the buffer holds the source; outside it is as it was.
  pub get_or-blit :
      (xs : List A) (i : ℕ) (src : List A) (j : ℕ) (d : A)
      → i + length src ≤ length xs
      → j < length src
      → get_or (blit xs i src) (i + j) d ≡ get_or src j d
  get_or-blit xs i [] j d h k = absurd (omega arith)
  get_or-blit [] i (s ∷ src) j d h k = absurd (omega arith)
  get_or-blit (x ∷ xs) zero (s ∷ src) zero d h k = refl
  get_or-blit (x ∷ xs) zero (s ∷ src) (suc j) d h k =
      let e : 0 + suc j ≡ suc (0 + j) = omega arith in
      rw e (get_or-blit xs zero src j d (omega arith) (omega arith))
  get_or-blit (x ∷ xs) (suc i) (s ∷ src) j d h k =
      let e : suc i + j ≡ suc (i + j) = omega arith in
      rw e (get_or-blit xs i (s ∷ src) j d (omega arith) k)

  pub get_or-blit_below :
      (xs : List A) (i : ℕ) (src : List A) (j : ℕ) (d : A)
      → j < i
      → get_or (blit xs i src) j d ≡ get_or xs j d
  get_or-blit_below [] i src j d h = refl
  get_or-blit_below (x ∷ xs) zero src j d h = absurd (omega arith)
  get_or-blit_below (x ∷ xs) (suc i) src zero d h = refl
  get_or-blit_below (x ∷ xs) (suc i) src (suc j) d h = get_or-blit_below xs i src j d (omega arith)

  pub get_or-blit_above :
      (xs : List A) (i : ℕ) (src : List A) (j : ℕ) (d : A)
      → i + length src ≤ j
      → get_or (blit xs i src) j d ≡ get_or xs j d
  get_or-blit_above [] i src j d h = refl
  get_or-blit_above (x ∷ xs) zero [] j d h = refl
  get_or-blit_above (x ∷ xs) zero (s ∷ src) zero d h = absurd (omega arith)
  get_or-blit_above (x ∷ xs) zero (s ∷ src) (suc j) d h =
      get_or-blit_above xs zero src j d (omega arith)
  get_or-blit_above (x ∷ xs) (suc i) src zero d h = absurd (omega arith)
  get_or-blit_above (x ∷ xs) (suc i) src (suc j) d h = get_or-blit_above xs i src j d (omega arith)

  pub length-take_or : (n : ℕ) (d : A) (xs : List A) → length (take_or n d xs) ≡ n
  length-take_or zero d xs = refl
  length-take_or (suc n) d [] = ap suc (length-take_or n d [])
  length-take_or (suc n) d (x ∷ xs) = ap suc (length-take_or n d xs)

  pub All-take_or {κ} :
      (P : A → Type κ) (n : ℕ) (d : A) (xs : List A) → P d → All P xs → All P (take_or n d xs)
  All-take_or P zero d xs hd h = tt
  All-take_or P (suc n) d [] hd h = (hd, All-take_or P n d [] hd tt)
  All-take_or P (suc n) d (x ∷ xs) hd h = (h.0, All-take_or P n d xs hd h.1)

  pub take_or-eq-take : (n : ℕ) (d : A) (xs : List A) → n ≤ length xs → take_or n d xs ≡ take n xs
  take_or-eq-take zero d xs h = refl
  take_or-eq-take (suc n) d [] h = absurd (omega arith)
  take_or-eq-take (suc n) d (x ∷ xs) h = ap (◌∷◌ x) (take_or-eq-take n d xs (omega arith))
