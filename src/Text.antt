-- ===== src/Text.antt =====
-- Numbers as text: `con_put_dec` and `con_put_hex` of src/src/uefi_min.c, and the token tests and `parse_uint_token` of
-- src/src/main.c. A token is the list of its characters.
use ufp_ffu_device_efi.Prelude.{
  ℕ, zero, suc, ◌+◌, ◌-◌, ◌*◌, ◌/◌, ◌%◌, List, [], ◌∷◌, Bool, true, false, Option, none, some, ltb,
  leb, ◌==◌, ◌||◌, ◌&&◌, if◌then◌else◌,
}
use Prim.Native.Nat.{bit_and}
use ufp_ffu_device_efi.Word.{u16, u32, ◌>>>◌}
pub mod Decimal
pub mod Tokens
mod Tests

-- `while (value && pos)`, with the characters from `pos` on.
unfoldable pub put_digits : ℕ → ℕ → List ℕ → List ℕ
put_digits zero value buf = buf
put_digits (suc pos) value buf =
    let rest = put_digits pos (value / 10) ((b'0' + value % 10) ∷ buf) in
    if value == 0 then buf else rest

-- The characters that `con_put_dec` prints; its buffer has 31 places before the final zero.
unfoldable pub con_put_dec : ℕ → List ℕ
con_put_dec value = if value == 0 then b'0' ∷ [] else put_digits 31 value []

-- The character of a digit below 16.
unfoldable pub hex_digit : ℕ → ℕ
hex_digit d = if ltb d 10 then b'0' + d else b'a' + (d - 10)

-- The digits of `con_put_hex`, with `count` to go.
unfoldable pub put_hex_digits : ℕ → ℕ → List ℕ
put_hex_digits zero value = []
put_hex_digits (suc count) value =
    hex_digit (bit_and (value >>> (count * 4)) 0xf) ∷ put_hex_digits count value

unfoldable pub con_put_hex : ℕ → ℕ → List ℕ
con_put_hex value width =
    b'0' ∷ b'x' ∷ put_hex_digits (if width == 0 || ltb 16 width then 16 else width) value

-- The loop of `parse_uint_token`.
unfoldable pub parse_digits : List ℕ → ℕ → Option ℕ
parse_digits [] value = some value
parse_digits (c ∷ t) value =
    if ltb c b'0' || ltb b'9' c then none else parse_digits t (u32 (u32 (value * 10) + (c - b'0')))

-- The value that is stored as an `int`, as the 32 bits of it.
unfoldable pub parse_uint_token : List ℕ → Option ℕ
parse_uint_token [] = none
parse_uint_token (c ∷ t) = parse_digits (c ∷ t) 0

unfoldable pub ch_is_space : ℕ → Bool
ch_is_space ch = ch == 0x20 || (ch == 0x09 || (ch == 0x0d || ch == 0x0a))

unfoldable pub ch_lower : ℕ → ℕ
ch_lower ch = if leb b'A' ch && leb ch b'Z' then u16 (ch + 32) else ch

-- The string is the list of its characters before the final zero.
unfoldable pub token_eq_ascii : List ℕ → List ℕ → Bool
token_eq_ascii [] [] = true
token_eq_ascii (c ∷ t) [] = false
token_eq_ascii [] (d ∷ s) = false
token_eq_ascii (c ∷ t) (d ∷ s) = if c == d then token_eq_ascii t s else false

-- Whether the token starts with the string.
unfoldable pub token_starts_ascii : List ℕ → List ℕ → Bool
token_starts_ascii t [] = true
token_starts_ascii [] (d ∷ s) = false
token_starts_ascii (c ∷ t) (d ∷ s) = if c == d then token_starts_ascii t s else false
