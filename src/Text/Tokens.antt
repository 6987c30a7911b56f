-- ===== src/Text/Tokens.antt =====
-- The token tests of src/src/main.c against equality and prefixes.
use mathlib.Core.Path.{subst}
use ufp_ffu_device_efi.Prelude.{
  ℕ, ◌≡◌, ◌↔◌, refl, sym, arith, List, [], ◌∷◌, ◌++◌, true, false, ◌==◌, Bool-cases, inl, inr,
  ==→eq,
}
use ufp_ffu_device_efi.Text.{token_eq_ascii, token_starts_ascii}

same_char : (c : ℕ) → (c == c) ≡ true
same_char c = ground arith

token_eq_ascii_sound : (t s : List ℕ) → token_eq_ascii t s ≡ true → t ≡ s
unfolding token_eq_ascii
token_eq_ascii_sound [] [] h = refl
token_eq_ascii_sound (c ∷ t) [] h = cc
token_eq_ascii_sound [] (d ∷ s) h = cc
token_eq_ascii_sound (c ∷ t) (d ∷ s) h = elim (Bool-cases (c == d)) [
  | inl same ↦
      let e : c ≡ d = ==→eq c d same in
      let rest : t ≡ s = token_eq_ascii_sound t s (rw (same, token_eq_ascii) at h) in cc
  | inr other ↦ absurd (differs (rw (other, token_eq_ascii) at h))
]
  where
    differs : false ≡ true → ⊥
    differs p = cc

token_eq_ascii_refl : (t : List ℕ) → token_eq_ascii t t ≡ true
unfolding token_eq_ascii
token_eq_ascii_refl [] = refl
token_eq_ascii_refl (c ∷ t) = rw (same_char c, token_eq_ascii) (token_eq_ascii_refl t)

token_starts_ascii_sound :
    (t s : List ℕ) → token_starts_ascii t s ≡ true → (rest : List ℕ) × (t ≡ s ++ rest)
unfolding token_starts_ascii
token_starts_ascii_sound t [] h = (t, refl)
token_starts_ascii_sound [] (d ∷ s) h = cc
token_starts_ascii_sound (c ∷ t) (d ∷ s) h = elim (Bool-cases (c == d)) [
  | inl same ↦
      let e : c ≡ d = ==→eq c d same in
      let (rest, behind) = token_starts_ascii_sound t s (rw (same, token_starts_ascii) at h) in
      (rest, cc)
  | inr other ↦ absurd (differs (rw (other, token_starts_ascii) at h))
]
  where
    differs : false ≡ true → ⊥
    differs p = cc

token_starts_ascii-append : (s rest : List ℕ) → token_starts_ascii (s ++ rest) s ≡ true
unfolding token_starts_ascii
token_starts_ascii-append [] rest = refl
token_starts_ascii-append (c ∷ s) rest =
    rw (same_char c, token_starts_ascii) (token_starts_ascii-append s rest)

-- The test says whether the token is the string and something behind it.
pub token_starts_ascii_lem :
    (t s : List ℕ) → (token_starts_ascii t s ≡ true) ↔ ((rest : List ℕ) × (t ≡ s ++ rest))
token_starts_ascii_lem t s = (
  token_starts_ascii_sound t s,
  λ (rest, e).
      subst (λ t. token_starts_ascii t s ≡ true) (sym e) (token_starts_ascii-append s rest),
)
