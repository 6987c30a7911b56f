-- ===== src/Options/Words.antt =====
-- A command line of words on `parse_options` of src/src/main.c.
use mathlib.Core.List.{append_assoc}
use ufp_ffu_device_efi.Prelude.{
  ℕ, zero, suc, ◌+◌, ◌≤◌, ◌<◌, ◌≡◌, ◌≢◌, refl, ap, ◌∙◌, arith, List, [], ◌∷◌, ◌++◌, Bool, true,
  false, some, ◌==◌, if◌then◌else◌, length, All, length-append, get_or,
}
use ufp_ffu_device_efi.Efi.{Outcome, ok, err, stuck, ◌>>=◌, ◌>>◌, refuse, efi_invalid_parameter}
use ufp_ffu_device_efi.Text.{ch_is_space}
use ufp_ffu_device_efi.Options.{
  no_options, Scan, take_token, skip_spaces, is_in_token, span_token, skip_quote, next_token,
  take_next, scan_tokens, parse_options,
}

-- A word as it is typed: plain, or in quotes.
pub record Word : Type 0 where
  pub quoted : Bool
  pub chars : List ℕ

-- The word is not empty and has no character that would end it; a plain one does not start with a
-- quote.
abbrev pub IsWord : Word → Type 0
IsWord w =
    (0 < length w.chars)
    × All (λ (c : ℕ). is_in_token w.quoted c ≡ true) w.chars
    × (get_or w.chars 0 0 ≢ b'"')

-- The characters of the words, with a space behind each.
abbrev pub typed : Word → List ℕ
typed w = if w.quoted then b'"' ∷ (w.chars ++ b'"' ∷ []) else w.chars

abbrev pub command_line : List Word → List ℕ
command_line [] = []
command_line (w ∷ ws) = typed w ++ 0x20 ∷ command_line ws

-- The words in turn.
abbrev pub take_words : List Word → Scan → Outcome Scan
take_words [] s = ok s
take_words (w ∷ ws) s = take_token w.chars s >>= take_words ws

span_token-word :
    (quoted : Bool) (cs : List ℕ) (e : ℕ) (rest : List ℕ)
    → All (λ (c : ℕ). is_in_token quoted c ≡ true) cs
    → is_in_token quoted e ≡ false
    → span_token quoted (cs ++ e ∷ rest) ≡ (cs, e ∷ rest)
unfolding span_token
span_token-word quoted [] e rest inside stop = rw stop refl
span_token-word quoted (c ∷ cs) e rest inside stop =
    rw (span_token-word quoted cs e rest inside.1 stop, inside.0) refl

skip_spaces-token : (c : ℕ) (cs : List ℕ) → ch_is_space c ≡ false → skip_spaces (c ∷ cs) ≡ c ∷ cs
unfolding skip_spaces
skip_spaces-token c cs h = rw h refl

next_token-plain :
    (c : ℕ) (cs rest : List ℕ)
    → All (λ (c : ℕ). is_in_token false c ≡ true) (c ∷ cs)
    → c ≢ b'"'
    → next_token (skip_spaces (c ∷ (cs ++ 0x20 ∷ rest))) ≡ some (c ∷ cs, 0x20 ∷ rest)
unfolding next_token skip_quote is_in_token ch_is_space
next_token-plain c cs rest inside bare =
    let no_quote : (c == b'"') ≡ false = ground arith in
    let whole : span_token false (c ∷ (cs ++ 0x20 ∷ rest)) ≡ (c ∷ cs, 0x20 ∷ rest) =
      span_token-word false (c ∷ cs) 0x20 rest inside refl in
    let here = inside.0 in
    let visible : ch_is_space c ≡ false = ground arith in
    let present : (c == 0) ≡ false = ground arith in
    rw (skip_spaces-token c (cs ++ 0x20 ∷ rest) visible, present, no_quote, whole) refl

next_token-quoted :
    (cs rest : List ℕ)
    → All (λ (c : ℕ). is_in_token true c ≡ true) cs
    → next_token (skip_spaces (b'"' ∷ ((cs ++ b'"' ∷ []) ++ 0x20 ∷ rest))) ≡ some (cs, 0x20 ∷ rest)
unfolding next_token skip_quote skip_spaces ch_is_space is_in_token
next_token-quoted cs rest inside =
    let whole : span_token true (cs ++ b'"' ∷ 0x20 ∷ rest) ≡ (cs, b'"' ∷ 0x20 ∷ rest) =
      span_token-word true cs b'"' (0x20 ∷ rest) inside refl in
    rw (append_assoc cs (b'"' ∷ []) (0x20 ∷ rest), whole) refl

-- The loop's next token on a word and a space is the word's characters.
next_token-word :
    (quoted : Bool) (cs rest : List ℕ)
    → IsWord (record { quoted = quoted; chars = cs })
    → next_token (skip_spaces (typed (record { quoted = quoted; chars = cs }) ++ 0x20 ∷ rest))
      ≡ some (cs, 0x20 ∷ rest)
next_token-word quoted [] rest word = absurd (omega (arith, word.0))
next_token-word true (c ∷ cs) rest word = next_token-quoted (c ∷ cs) rest word.1
next_token-word false (c ∷ cs) rest word = next_token-plain c cs rest word.1 word.2

scan_tokens-space :
    (fuel : ℕ) (cs : List ℕ) (s : Scan) → scan_tokens fuel (0x20 ∷ cs) s ≡ scan_tokens fuel cs s
unfolding scan_tokens skip_spaces ch_is_space
scan_tokens-space zero cs s = refl
scan_tokens-space (suc fuel) cs s = refl

>>=-cong :
    {A B : Type 0} (m : Outcome A) (f g : A → Outcome B)
    → ((a : A) → f a ≡ g a)
    → (m >>= f) ≡ (m >>= g)
>>=-cong (ok a) f g h = h a
>>=-cong (err st) f g h = refl
>>=-cong stuck f g h = refl

scan_tokens-token :
    (fuel : ℕ) (cs tok rest : List ℕ) (s : Scan)
    → next_token (skip_spaces cs) ≡ some (tok, rest)
    → 0 < length tok
    → scan_tokens (suc fuel) cs s ≡ (take_token tok s >>= scan_tokens fuel rest)
unfolding scan_tokens take_next
scan_tokens-token fuel cs [] rest s first some' = absurd (omega (arith, some'))
scan_tokens-token fuel cs (c ∷ more) rest s first some' =
    ap (λ o. take_next (scan_tokens fuel) o s) first

scan_tokens-command_line :
    (fuel : ℕ) (ws : List Word) (s : Scan)
    → All IsWord ws
    → length ws < fuel
    → scan_tokens fuel (command_line ws) s ≡ take_words ws s
unfolding scan_tokens skip_spaces next_token take_next
scan_tokens-command_line zero ws s words enough = absurd (omega arith)
scan_tokens-command_line (suc fuel) [] s words enough = refl
scan_tokens-command_line (suc fuel) (w ∷ ws) s words enough =
    scan_tokens-token fuel (command_line (w ∷ ws)) w.chars (0x20 ∷ command_line ws) s
      (next_token-word w.quoted w.chars (command_line ws) words.0) words.0.0
    ∙ >>=-cong (take_token w.chars s) (scan_tokens fuel (0x20 ∷ command_line ws)) (take_words ws)
        (λ a.
          scan_tokens-space fuel (command_line ws) a
          ∙ scan_tokens-command_line fuel ws a words.1 (omega (arith, enough)))

length-command_line : (ws : List Word) → length ws ≤ length (command_line ws)
length-command_line [] = omega arith
length-command_line (w ∷ ws) =
    omega (arith, length-command_line ws, length-append (typed w) (0x20 ∷ command_line ws))

-- On a command line of words, plain ones or ones in quotes, with a space behind each, where no word
-- is empty, has a character that would end it, or starts with a quote: the parser takes the words
-- in turn up to the first that it refuses, whatever the length of the line, and then refuses a line
-- that ends with `--target`.
pub parse_options-command_line :
    (ws : List Word)
    → All IsWord ws
    → parse_options (some (command_line ws)) ≡ (
        take_words ws (record { options = no_options; token_index = 0; expect_target = false })
        >>= λ s. refuse s.expect_target efi_invalid_parameter >> ok s.options)
unfolding parse_options
parse_options-command_line ws words =
    ap
      (λ (o : Outcome Scan).
        o >>= λ s. refuse s.expect_target efi_invalid_parameter >> ok s.options)
      (scan_tokens-command_line (length (command_line ws) + 1) ws
        (record { options = no_options; token_index = 0; expect_target = false }) words
        (omega (arith, length-command_line ws)))
