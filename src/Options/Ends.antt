-- ===== src/Options/Ends.antt =====
-- `parse_options` of src/src/main.c comes to its end on every line.
use ufp_ffu_device_efi.Prelude.{
  ℕ, zero, suc, ◌+◌, ◌≤◌, ◌<◌, ◌≡◌, ◌≢◌, refl, sym, ap, ◌∙◌, arith, List, [], ◌∷◌, Bool, true,
  false, Option, some, none, ◌==◌, ◌&&◌, length, drop, if_both, Bool-cases, inl, inr,
}
use ufp_ffu_device_efi.Efi.{Outcome, ok, err, stuck, ◌>>=◌, ◌>>◌, refuse, efi_invalid_parameter}
use ufp_ffu_device_efi.Text.{ch_is_space, parse_uint_token, token_eq_ascii}
use ufp_ffu_device_efi.Options.{
  Options, no_options, Scan, set_option, set_target_or_path, number_or_refuse, take_token,
  token_is_efi_name, target_word, skip_spaces, is_in_token, span_token, skip_quote, next_token,
  take_next, scan_tokens, parse_options,
}

>>=-ends :
    {A B : Type 0} (m : Outcome A) (f : A → Outcome B)
    → m ≢ stuck
    → ((a : A) → f a ≢ stuck)
    → (m >>= f) ≢ stuck
>>=-ends (ok a) f m-ends f-ends = f-ends a
>>=-ends (err st) f m-ends f-ends = λ h. cc
>>=-ends stuck f m-ends f-ends = absurd (m-ends refl)

number_or_refuse-ends : (n : Option ℕ) (o : Options) → number_or_refuse n o ≢ stuck
number_or_refuse-ends none o h = cc
number_or_refuse-ends (some n) o h = cc

abbrev Ends : {A : Type 0} → Outcome A → Type 0
Ends m = m ≢ stuck

set_option-ends : (tok : List ℕ) (o : Options) → set_option tok o ≢ stuck
unfolding set_option set_target_or_path
set_option-ends tok o =
    let n = number_or_refuse-ends (parse_uint_token (drop 9 tok)) o in ground arith

take_token-ends : (tok : List ℕ) (s : Scan) → take_token tok s ≢ stuck
unfolding take_token
take_token-ends tok s =
    if_both Ends (s.token_index == 0 && token_is_efi_name tok) (λ _ h. cc)
      (λ _.
        if_both Ends s.expect_target
          (λ _.
            >>=-ends (number_or_refuse (parse_uint_token tok) s.options) _
              (number_or_refuse-ends (parse_uint_token tok) s.options) (λ o h. cc))
          (λ _.
            if_both Ends (token_eq_ascii tok target_word) (λ _ h. cc)
              (λ _.
                >>=-ends (set_option tok s.options) _ (set_option-ends tok s.options) (λ o h. cc))))

skip_spaces-shorter : (cs : List ℕ) → length (skip_spaces cs) ≤ length cs
unfolding skip_spaces
skip_spaces-shorter [] = omega arith
skip_spaces-shorter (c ∷ cs) = let shorter = skip_spaces-shorter cs in ground arith

starts_here :
    {c c' : ℕ} {cs more : List ℕ}
    → c ∷ cs ≡ c' ∷ more
    → ch_is_space c ≡ false
    → ch_is_space c' ≡ false
starts_here h other = cc

-- What comes behind the spaces starts with no space.
skip_spaces-starts :
    (cs : List ℕ) {c : ℕ} {more : List ℕ} → skip_spaces cs ≡ c ∷ more → ch_is_space c ≡ false
unfolding skip_spaces
skip_spaces-starts [] {c = c'} {more = more} h = cc
skip_spaces-starts (c ∷ cs) {c = c'} {more = more} h =
    let starts = skip_spaces-starts cs {c = c'} {more = more} in
    elim (Bool-cases (ch_is_space c)) [
      | inl space ↦ starts (rw space at h)
      | inr other ↦ starts_here (rw other at h) other
    ]

span_token-shorter : (quoted : Bool) (cs : List ℕ) → length ((span_token quoted cs).1) ≤ length cs
unfolding span_token
span_token-shorter quoted [] = omega arith
span_token-shorter quoted (c ∷ cs) = let shorter = span_token-shorter quoted cs in ground arith

skip_quote-shorter : (quoted : Bool) (cs : List ℕ) → length (skip_quote quoted cs) ≤ length cs
unfolding skip_quote
skip_quote-shorter quoted [] = omega arith
skip_quote-shorter quoted (c ∷ cs) = ground arith

next_token-shorter :
    (c : ℕ) (cs tok rest : List ℕ)
    → ch_is_space c ≡ false
    → next_token (c ∷ cs) ≡ some (tok, rest)
    → length rest < length (c ∷ cs)
unfolding next_token span_token is_in_token
next_token-shorter c cs tok rest visible first =
    let quoted = skip_quote-shorter true ((span_token true cs).1) in
    let plain = skip_quote-shorter false ((span_token false cs).1) in
    let spanned = span_token-shorter true cs in
    let spanned' = span_token-shorter false cs in ground arith

none-ne-some : {A : Type 0} {a : A} → none ≢ some a
none-ne-some e = cc

next_token-rest :
    (cs tok rest : List ℕ)
    → next_token (skip_spaces cs) ≡ some (tok, rest)
    → length rest < length cs
unfolding next_token
next_token-rest cs tok rest first = split (skip_spaces cs) refl
  where
    split : (k : List ℕ) → skip_spaces cs ≡ k → length rest < length cs
    split [] h = absurd (none-ne-some (sym (ap next_token h) ∙ first))
    split (c ∷ more) h = omega (
      arith,
      skip_spaces-shorter cs,
      ap (length {A = ℕ}) h,
      next_token-shorter c more tok rest (skip_spaces-starts cs h) (sym (ap next_token h) ∙ first),
    )

take_next-ends :
    (go : List ℕ → Scan → Outcome Scan) (o : Option (List ℕ × List ℕ)) (s : Scan)
    → ((tok rest : List ℕ) (s : Scan) → o ≡ some (tok, rest) → go rest s ≢ stuck)
    → take_next go o s ≢ stuck
unfolding take_next
take_next-ends go none s ends = λ h. cc
take_next-ends go (some ([], rest)) s ends = ends [] rest s refl
take_next-ends go (some (c ∷ more, rest)) s ends =
    >>=-ends (take_token (c ∷ more) s) (go rest) (take_token-ends (c ∷ more) s)
      (λ a. ends (c ∷ more) rest a refl)

scan_tokens-ends :
    (fuel : ℕ) (cs : List ℕ) (s : Scan) → length cs < fuel → scan_tokens fuel cs s ≢ stuck
unfolding scan_tokens
scan_tokens-ends zero cs s enough = absurd (omega arith)
scan_tokens-ends (suc fuel) cs s enough =
    take_next-ends (scan_tokens fuel) (next_token (skip_spaces cs)) s (λ tok rest a first.
      scan_tokens-ends fuel rest a (omega (arith, enough, next_token-rest cs tok rest first)))

-- The parser ends with the options or with an error on every line: the rounds of its loop are
-- enough.
pub parse_options-ends : (cmd : Option (List ℕ)) → parse_options cmd ≢ stuck
unfolding parse_options
parse_options-ends none = λ h. cc
parse_options-ends (some cmd) =
    >>=-ends
      (scan_tokens (length cmd + 1) cmd
        (record { options = no_options; token_index = 0; expect_target = false }))
      _
      (scan_tokens-ends (length cmd + 1) cmd
        (record { options = no_options; token_index = 0; expect_target = false }) (omega arith))
      (λ s. refused s.expect_target s.options)
  where
    refused : (b : Bool) (o : Options) → (refuse b efi_invalid_parameter >> ok o) ≢ stuck
    refused true o h = cc
    refused false o h = cc
