-- ===== src/Options.antt =====
-- `parse_options` of src/src/main.c, with `token_is_efi_name`, and `make_open_path` of src/src/ffu.c. The
-- load options are the list of their characters.
use ufp_ffu_device_efi.Prelude.{
  ℕ, zero, suc, ◌+◌, ◌-◌, ◌*◌, List, [], ◌∷◌, ◌++◌, Bool, true, false, Option, some, none, ltb, leb,
  ◌==◌, ◌!=◌, ◌||◌, ◌&&◌, not, if◌then◌else◌, get_or, length, drop, map,
}
use ufp_ffu_device_efi.Efi.{
  Outcome, ok, err, stuck, ◌>>=◌, ◌>>◌, refuse, efi_invalid_parameter, efi_out_of_resources,
}
use ufp_ffu_device_efi.Text.{
  ch_is_space, ch_lower, parse_uint_token, token_eq_ascii, token_starts_ascii,
}
pub mod Words
pub mod Ends
mod Tests

unfoldable pub token_is_efi_name : List ℕ → Bool
token_is_efi_name t =
    let len = length t in
    if ltb len 4
    then false
    else get_or t (len - 4) 0 == b'.'
      && (ch_lower (get_or t (len - 3) 0) == b'e'
          && (ch_lower (get_or t (len - 2) 0) == b'f' && ch_lower (get_or t (len - 1) 0) == b'i'))

-- OPTIONS; `target` is the 32 bits of an `int`, and the path is null at first.
pub record Options : Type 0 where
  pub help : Bool
  pub list_block : Bool
  pub packets : Bool
  pub flash : Bool
  pub usb_ffu : Bool
  pub yes' : Bool
  pub target : ℕ
  pub path : Option (List ℕ)

-- `memset(opts, 0, sizeof(*opts)); opts->target = -1;`
abbrev pub no_options : Options
no_options = record {
  help = false;
  list_block = false;
  packets = false;
  flash = false;
  usb_ffu = false;
  yes' = false;
  target = 0xffff_ffff;
  path = none;
}

-- The options with the locals `token_index` and `expect_target`.
pub record Scan : Type 0 where
  pub options : Options
  pub token_index : ℕ
  pub expect_target : Bool

-- The strings that a token is compared with.
abbrev pub dashes : List ℕ → List ℕ
dashes s = b'-' ∷ b'-' ∷ s

abbrev pub help_word : List ℕ
help_word = dashes (b'h' ∷ b'e' ∷ b'l' ∷ b'p' ∷ [])

abbrev pub list_block_word : List ℕ
list_block_word = dashes (b'l' ∷ b'i' ∷ b's' ∷ b't' ∷ b'-' ∷ b'b' ∷ b'l' ∷ b'o' ∷ b'c' ∷ b'k' ∷ [])

abbrev pub packets_word : List ℕ
packets_word = dashes (b'p' ∷ b'a' ∷ b'c' ∷ b'k' ∷ b'e' ∷ b't' ∷ b's' ∷ [])

abbrev pub info_word : List ℕ
info_word = dashes (b'i' ∷ b'n' ∷ b'f' ∷ b'o' ∷ [])

abbrev pub flash_word : List ℕ
flash_word = dashes (b'f' ∷ b'l' ∷ b'a' ∷ b's' ∷ b'h' ∷ [])

abbrev pub usb_word : List ℕ
usb_word = dashes (b'u' ∷ b's' ∷ b'b' ∷ [])

abbrev pub usb_ffu_word : List ℕ
usb_ffu_word = usb_word ++ b'-' ∷ b'f' ∷ b'f' ∷ b'u' ∷ []

abbrev pub yes_word : List ℕ
yes_word = dashes (b'y' ∷ b'e' ∷ b's' ∷ [])

abbrev pub target_word : List ℕ
target_word = dashes (b't' ∷ b'a' ∷ b'r' ∷ b'g' ∷ b'e' ∷ b't' ∷ [])

abbrev pub target_prefix : List ℕ
target_prefix = target_word ++ b'=' ∷ []

abbrev pub number_or_refuse : Option ℕ → Options → Outcome Options
number_or_refuse none o = err efi_invalid_parameter
number_or_refuse (some n) o = ok (record o { target = n })

-- `if (!opts->path) { ... }`
abbrev pub keep_path : Option (List ℕ) → List ℕ → Option (List ℕ)
keep_path none tok = some tok
keep_path (some old) tok = some old

-- What is left of the chain of comparisons: `--target=N`, and the path.
unfoldable pub set_target_or_path : List ℕ → Options → Outcome Options
set_target_or_path tok o =
    if token_starts_ascii tok target_prefix
    then number_or_refuse (parse_uint_token (drop (length target_prefix) tok)) o
    else ok (record o { path = keep_path o.path tok })

-- The chain of comparisons, but for `--target`.
unfoldable pub set_option : List ℕ → Options → Outcome Options
set_option tok o =
    if token_eq_ascii tok help_word || token_eq_ascii tok (b'-' ∷ b'h' ∷ [])
    then ok (record o { help = true })
    else if token_eq_ascii tok list_block_word
    then ok (record o { list_block = true })
    else if token_eq_ascii tok packets_word
    then ok (record o { packets = true })
    else if token_eq_ascii tok info_word
    then ok (record o { packets = false; flash = false })
    else if token_eq_ascii tok flash_word
    then ok (record o { flash = true })
    else if token_eq_ascii tok usb_ffu_word || token_eq_ascii tok usb_word
    then ok (record o { usb_ffu = true })
    else if token_eq_ascii tok yes_word
    then ok (record o { yes' = true })
    else set_target_or_path tok o

-- A token that is not empty.
unfoldable pub take_token : List ℕ → Scan → Outcome Scan
take_token tok s =
    let counted = record s { token_index = s.token_index + 1 } in
    if s.token_index == 0 && token_is_efi_name tok
    then ok counted
    else if s.expect_target
    then (do
      o ← number_or_refuse (parse_uint_token tok) s.options
      ok (record counted { options = o; expect_target = false }))
    else if token_eq_ascii tok target_word
    then ok (record counted { expect_target = true })
    else (do o ← set_option tok s.options; ok (record counted { options = o }))

unfoldable pub skip_spaces : List ℕ → List ℕ
skip_spaces [] = []
skip_spaces (c ∷ cs) = if ch_is_space c then skip_spaces cs else c ∷ cs

-- Whether a token goes on with this character.
unfoldable pub is_in_token : Bool → ℕ → Bool
is_in_token quoted c = c != 0 && (if quoted then c != b'"' else not (ch_is_space c))

-- The token's characters, and what is left.
unfoldable pub span_token : Bool → List ℕ → List ℕ × List ℕ
span_token quoted [] = ([], [])
span_token quoted (c ∷ cs) =
    let (tok, rest) = span_token quoted cs in
    if is_in_token quoted c then (c ∷ tok, rest) else ([], c ∷ cs)

-- `if (quoted && pos < len && cmd[pos] == '"') ++pos;`
unfoldable pub skip_quote : Bool → List ℕ → List ℕ
skip_quote quoted [] = []
skip_quote quoted (c ∷ cs) = if quoted && c == b'"' then cs else c ∷ cs

-- The next token, where there is one, and what is left.
unfoldable pub next_token : List ℕ → Option (List ℕ × List ℕ)
next_token [] = none
next_token (c ∷ cs) =
    if c == 0
    then none
    else let quoted = c == b'"' in
      let (tok, rest) = span_token quoted (if quoted then cs else c ∷ cs) in
      some (tok, skip_quote quoted rest)

-- The loop's body on the next token; `go` is the rounds that follow.
unfoldable pub take_next :
    (List ℕ → Scan → Outcome Scan) → Option (List ℕ × List ℕ) → Scan → Outcome Scan
take_next go none s = ok s
take_next go (some ([], rest)) s = go rest s
take_next go (some (c ∷ more, rest)) s = take_token (c ∷ more) s >>= go rest

-- The loop over the characters, on fuel: a round takes a character or more.
unfoldable pub scan_tokens : ℕ → List ℕ → Scan → Outcome Scan
scan_tokens zero cs s = stuck
scan_tokens (suc fuel) cs s = take_next (scan_tokens fuel) (next_token (skip_spaces cs)) s

-- `none` where the image has no load options.
unfoldable pub parse_options : Option (List ℕ) → Outcome Options
parse_options none = ok (record no_options { help = true })
parse_options (some cmd) = do
  s ←
      scan_tokens (length cmd + 1) cmd
        (record { options = no_options; token_index = 0; expect_target = false })
  refuse s.expect_target efi_invalid_parameter
  ok (s.options)

-- `make_open_path` on a path that is not empty: without its volume, and with backslashes.
unfoldable pub make_open_path : (ℕ → Bool) → List ℕ → Outcome (List ℕ)
make_open_path room path =
    let start = if leb 3 (length path) && get_or path 2 0 == b':' then 3 else 0 in
    let name = drop start path in
    if length path == 0
    then err efi_invalid_parameter
    else if not (room ((length name + 1) * 2))
    then err efi_out_of_resources
    else ok (map (λ ch. if ch == b'/' then 0x5c else ch) name ++ 0 ∷ [])
