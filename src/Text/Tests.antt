-- ===== src/Text/Tests.antt =====
-- Runs of the number and token routines of src/src.
use ufp_ffu_device_efi.Prelude.{ℕ, ◌≡◌, ◌↔◌, refl, arith, List, [], ◌∷◌, ◌++◌, true, some}
use ufp_ffu_device_efi.Text.{
  con_put_dec, con_put_hex, put_hex_digits, hex_digit, put_digits, parse_uint_token, parse_digits,
  token_starts_ascii,
}
use ufp_ffu_device_efi.Text.Decimal.{parse_uint_token-con_put_dec}
use ufp_ffu_device_efi.Text.Tokens.{token_starts_ascii_lem}

abbrev token : List ℕ
token = b'd' ∷ b'i' ∷ b's' ∷ b'k' ∷ b'1' ∷ []

abbrev prefix : List ℕ
prefix = b'd' ∷ b'i' ∷ b's' ∷ b'k' ∷ []

printed : con_put_dec 2560 ≡ b'2' ∷ b'5' ∷ b'6' ∷ b'0' ∷ []
unfolding con_put_dec put_digits
printed = refl

printed_hex : con_put_hex 0x2f0a 6 ≡ b'0' ∷ b'x' ∷ b'0' ∷ b'0' ∷ b'2' ∷ b'f' ∷ b'0' ∷ b'a' ∷ []
unfolding con_put_hex put_hex_digits hex_digit
printed_hex = refl

-- A number of more than 32 bits wraps around.
wrapped :
    parse_uint_token (b'4' ∷ b'2' ∷ b'9' ∷ b'4' ∷ b'9' ∷ b'6' ∷ b'7' ∷ b'2' ∷ b'9' ∷ b'7' ∷ [])
    ≡ some 1
unfolding parse_uint_token parse_digits
wrapped = refl

parse_uint_token-con_put_dec_example : parse_uint_token (con_put_dec 2560) ≡ some 2560
parse_uint_token-con_put_dec_example = parse_uint_token-con_put_dec 2560 (omega arith)

token_starts_ascii_lem_example :
    (token_starts_ascii token prefix ≡ true) ↔ ((rest : List ℕ) × (token ≡ prefix ++ rest))
token_starts_ascii_lem_example = token_starts_ascii_lem token prefix
