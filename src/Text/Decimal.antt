-- ===== src/Text/Decimal.antt =====
-- Decimal numbers printed and read back.
use native.Mathlib.Nat.{pow-suc}
use ufp_ffu_device_efi.Prelude.{
  ℕ, zero, suc, ◌+◌, ◌-◌, ◌*◌, ◌/◌, ◌%◌, ◌^◌, ◌<◌, ◌≡◌, refl, sym, ◌∙◌, ap, arith, List, [], ◌∷◌,
  false, some, ltb, ◌==◌, ◌||◌, Bool-cases, inl, inr,
}
use ufp_ffu_device_efi.Word.{u32}
use ufp_ffu_device_efi.Text.{put_digits, con_put_dec, parse_digits, parse_uint_token}

parse_digits-digit :
    (d : ℕ) (t : List ℕ) (value : ℕ)
    → d < 10
    → value * 10 + d < 2 ^ 32
    → parse_digits ((b'0' + d) ∷ t) value ≡ parse_digits t (value * 10 + d)
unfolding parse_digits
parse_digits-digit d t value small fits =
    let e : u32 (u32 (value * 10) + (b'0' + d - b'0')) ≡ value * 10 + d = omega arith in
    let digit : (ltb (b'0' + d) b'0' || ltb b'9' (b'0' + d)) ≡ false = ground arith in
    rw (digit, e, parse_digits) refl

parse-put_digits :
    (pos value : ℕ) (buf : List ℕ)
    → value < 10 ^ pos
    → value < 2 ^ 32
    → parse_digits (put_digits pos value buf) 0 ≡ parse_digits buf value
unfolding put_digits
parse-put_digits zero value buf fits small = let e : value ≡ 0 = omega arith in rw e refl
parse-put_digits (suc pos) value buf fits small = elim (Bool-cases (value == 0)) [
  | inl none_left ↦
      let e : value ≡ 0 = ground arith in rw (none_left, put_digits) (ap (parse_digits buf) (sym e))
  | inr more ↦
      rw (more, put_digits)
        (parse-put_digits pos (value / 10) ((b'0' + value % 10) ∷ buf)
            (omega (arith, pow-suc 10 pos)) (omega arith)
          ∙ parse_digits-digit (value % 10) buf (value / 10) (omega arith) (omega arith)
          ∙ ap (parse_digits buf) (omega arith))
]

put_digits-some :
    (pos value : ℕ) (c : ℕ) (buf : List ℕ)
    → parse_uint_token (put_digits pos value (c ∷ buf))
      ≡ parse_digits (put_digits pos value (c ∷ buf)) 0
unfolding put_digits parse_uint_token
put_digits-some zero value c buf = refl
put_digits-some (suc pos) value c buf = elim (Bool-cases (value == 0)) [
  | inl none_left ↦ rw (none_left, put_digits) refl
  | inr more ↦
      rw (more, put_digits) (put_digits-some pos (value / 10) (b'0' + value % 10) (c ∷ buf))
]

put_digits-nonzero :
    (pos value : ℕ) (buf : List ℕ)
    → (value == 0) ≡ false
    → put_digits (suc pos) value buf ≡ put_digits pos (value / 10) ((b'0' + value % 10) ∷ buf)
unfolding put_digits
put_digits-nonzero pos value buf more = rw (more, put_digits) refl

-- Every number of 32 bits is read back as itself from its printed form.
pub parse_uint_token-con_put_dec :
    (value : ℕ) → value < 2 ^ 32 → parse_uint_token (con_put_dec value) ≡ some value
unfolding con_put_dec parse_digits
parse_uint_token-con_put_dec value small = elim (Bool-cases (value == 0)) [
  | inl is_zero ↦
      let e : value ≡ 0 = ground arith in
      rw (is_zero, con_put_dec) (unfold parse_uint_token in ap some (sym e))
  | inr more ↦
      rw (more, con_put_dec)
        (ap parse_uint_token (put_digits-nonzero 30 value [] more)
          ∙ put_digits-some 30 (value / 10) (b'0' + value % 10) []
          ∙ ap (λ t. parse_digits t 0) (sym (put_digits-nonzero 30 value [] more))
          ∙ parse-put_digits 31 value [] (omega arith) small)
]
