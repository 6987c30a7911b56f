-- ===== src/Options/Tests.antt =====
-- Runs of the option parser of src/src/main.c.
use ufp_ffu_device_efi.Prelude.{ℕ, ◌≡◌, ◌≢◌, refl, arith, List, [], ◌∷◌, true, false, some}
use ufp_ffu_device_efi.Efi.{ok, stuck, ◌>>=◌, ◌>>◌, refuse, efi_invalid_parameter}
use ufp_ffu_device_efi.Options.{
  no_options, parse_options, usb_word, target_word, token_is_efi_name, set_target_or_path,
  set_option, take_token, skip_spaces, is_in_token, span_token, skip_quote, next_token, take_next,
  scan_tokens,
}
use ufp_ffu_device_efi.Text.{
  ch_is_space, ch_lower, parse_uint_token, parse_digits, token_eq_ascii, token_starts_ascii,
}
use ufp_ffu_device_efi.Options.Words.{Word, command_line, take_words, parse_options-command_line}
use ufp_ffu_device_efi.Options.Ends.{parse_options-ends}

abbrev plain : List ℕ → Word
plain chars = record { quoted = false; chars = chars }

-- `a.efi --usb --target 12 "p q"`
abbrev words : List Word
words =
    plain (b'a' ∷ b'.' ∷ b'e' ∷ b'f' ∷ b'i' ∷ [])
    ∷ plain usb_word
    ∷ plain target_word
    ∷ plain (b'1' ∷ b'2' ∷ [])
    ∷ record { quoted = true; chars = b'p' ∷ 0x20 ∷ b'q' ∷ [] }
    ∷ []

parsed :
    parse_options (some (command_line words))
    ≡ ok (record no_options { usb_ffu = true; target = 12; path = some (b'p' ∷ 0x20 ∷ b'q' ∷ []) })
unfolding parse_options scan_tokens take_next next_token skip_quote span_token is_in_token
    skip_spaces take_token set_option set_target_or_path token_is_efi_name ch_is_space ch_lower
    parse_uint_token parse_digits token_eq_ascii token_starts_ascii
parsed = refl

parse_options-command_line_example : parse_options (some (command_line words)) ≡ (
    take_words words (record { options = no_options; token_index = 0; expect_target = false })
    >>= λ s. refuse s.expect_target efi_invalid_parameter >> ok s.options)
unfolding is_in_token ch_is_space
parse_options-command_line_example = parse_options-command_line words (
  (omega arith, (refl, (refl, (refl, (refl, (refl, tt))))), λ e. omega arith),
  (
    (omega arith, (refl, (refl, (refl, (refl, (refl, tt))))), λ e. omega arith),
    (
      (
        omega arith,
        (refl, (refl, (refl, (refl, (refl, (refl, (refl, (refl, tt)))))))),
        λ e. omega arith,
      ),
      (
        (omega arith, (refl, (refl, tt)), λ e. omega arith),
        ((omega arith, (refl, (refl, (refl, tt))), λ e. omega arith), tt),
      ),
    ),
  ),
)

parse_options-ends_example : parse_options (some target_word) ≢ stuck
parse_options-ends_example = parse_options-ends (some target_word)
