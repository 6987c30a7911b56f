-- ===== src/Params.antt =====
-- `handle_read_param` and `handle_write_param` of src/src/main.c with the settings that they keep:
-- what is sent in reply, and the settings afterwards. The parameters whose answer never changes
-- are in Table, the UEFI variables in Variables.
use ufp_ffu_device_efi.Prelude.{
  ℕ, zero, suc, ◌+◌, ◌-◌, List, [], ◌∷◌, ◌++◌, Bool, true, false, Option, none, some, ltb, leb,
  ◌==◌, ◌!=◌, ◌||◌, ◌&&◌, if◌then◌else◌, replicate,
}
use ufp_ffu_device_efi.Prelude.Buffer.{slice}
use ufp_ffu_device_efi.Word.{u8, u32, u64}
use ufp_ffu_device_efi.Bytes.{byte, rd_be32, be32_bytes}
use ufp_ffu_device_efi.Proto.{max_payload_data}
use ufp_ffu_device_efi.Stream.{Media}
use ufp_ffu_device_efi.Frames.{fr_response, fw_response}
use ufp_ffu_device_efi.Params.Table.{ParamCase, answers, lookup, fixed_params}
use ufp_ffu_device_efi.Params.Variables.{
  RuntimeServices, handle_read_uefi_var_value, handle_read_uefi_var_size, handle_write_uefi_var,
}
pub mod Table
pub mod Variables
pub mod RoundTrip
mod Tests

-- `g_ffu_options`, of 500 bytes, and `g_mode_data`.
pub record Settings : Type 0 where
  pub ffu_options : List ℕ
  pub mode_data : ℕ

-- `usb->speed ? usb->speed : EfiUsbBusSpeedHigh`
abbrev pub known_speed : ℕ → ℕ
known_speed speed = u8 (if speed == 0 then 3 else speed)

-- The count of sectors in 32 bits.
abbrev pub sectors32 : Media → ℕ
sectors32 media =
    let sectors = u64 (media.last_block + 1) in
    if ltb 0xffff_ffff sectors then 0xffff_ffff else u32 sectors

-- The payload that a transfer of that size has room for.
abbrev pub write_size : ℕ → ℕ
write_size max_transfer =
    if ltb 32 max_transfer && ltb (max_transfer - 32) max_payload_data
    then u32 (max_transfer - 32)
    else max_payload_data

abbrev pub fo : ℕ
fo = 0x464f_0000

abbrev pub mode : ℕ
mode = 0x4d4f_4445

abbrev has_medium : Option Media → Bool
has_medium none = false
has_medium (some media) = true

abbrev medium_sectors : Option Media → ℕ
medium_sectors none = 0
medium_sectors (some media) = sectors32 media

abbrev mode_status : List ℕ → ℕ → ℕ
mode_status msg len = if leb 16 len && byte msg 15 != 0 then 11 else 0

-- The answers that depend on the message, the settings, the transport or the device.
abbrev pub state_params : Settings → ℕ → ℕ → Option Media → List ℕ → ℕ → List ParamCase
state_params s speed max_transfer media msg len =
    answers 0x454d_5300 (if has_medium media then 0 else 2) (be32_bytes (medium_sectors media))
    ∷ answers fo 0 s.ffu_options
    ∷ answers 0x4c5a_0000 (if leb 16 len && (byte msg 15 != 1 && byte msg 15 != 2) then 8 else 0)
        (replicate 8 0)
    ∷ answers mode (mode_status msg len)
        (be32_bytes (if mode_status msg len == 0 then s.mode_data else 0))
    ∷ answers 0x5353_0000 0 (3 ∷ 0xff ∷ 0xff ∷ 0 ∷ 0 ∷ 0 ∷ known_speed speed ∷ 0 ∷ [])
    ∷ answers 0x5453_0000 0 (be32_bytes (u32 max_transfer))
    ∷ answers 0x5553_4253 0
        (known_speed speed ∷ (if ltb 3 (known_speed speed) then known_speed speed else 3) ∷ [])
    ∷ answers 0x5742_5300 0 (be32_bytes (write_size max_transfer))
    ∷ []

-- The status and the bytes that `handle_read_param` sends for a parameter.
unfoldable pub param_value : Settings → ℕ → ℕ → Option Media → List ℕ → ℕ → ℕ → ℕ × List ℕ
param_value s speed max_transfer media msg len param =
    elim (lookup param (state_params s speed max_transfer media msg len)) [
      | some answer ↦ answer
      | none ↦ elim (lookup param fixed_params) [ some answer ↦ answer | none ↦ (11, []) ]
    ]

-- `actual`: how many bytes of the identifier come before its first zero, of `count` at `i`.
unfoldable pub identifier_length : List ℕ → ℕ → ℕ → ℕ
identifier_length msg i zero = 0
identifier_length msg i (suc count) =
    let rest = suc (identifier_length msg (i + 1) count) in if byte msg i == 0 then 0 else rest

module _ {V : Type 0} (rs : RuntimeServices V) (room : ℕ → Bool) where
  -- What is sent; `none` where nothing is. `speed` and `max_transfer` are the transport's.
  unfoldable pub handle_read_param :
      ℕ → ℕ → Option Media → List ℕ → ℕ → Settings → V → Option (List ℕ)
  handle_read_param speed max_transfer media msg len s v =
      let param = rd_be32 msg 7 in
      let (status, bytes) = param_value s speed max_transfer media msg len param in
      if ltb len 11
      then fr_response room 0 8 []
      else if param == 0x4755_4656
      then handle_read_uefi_var_value rs room param max_transfer msg len v
      else if param == 0x4755_5653
      then handle_read_uefi_var_size rs room param msg len v
      else fr_response room param status bytes

  -- The log identifier, which is not kept: its status.
  unfoldable pub identifier_status : List ℕ → ℕ → ℕ → ℕ
  identifier_status msg len data_len =
      if ltb len 15 || (ltb 200 data_len || ltb len (15 + data_len))
      then 8
      else let actual = identifier_length msg 15 data_len in
        if actual == data_len || actual + 1 != data_len then 8 else 0

  abbrev with_settings : Settings → List ℕ × V → List ℕ × Settings × V
  with_settings s (sent, v) = (sent, s, v)

  -- The parameter FO.
  unfoldable pub write_options : List ℕ → ℕ → ℕ → Settings → List ℕ × Settings
  write_options msg len data_len s =
      if ltb len 515 || data_len != 500
      then (fw_response fo 8, s)
      else (fw_response fo 0, record s { ffu_options = slice 0 msg 15 500 })

  -- The parameter MODE.
  unfoldable pub write_mode : List ℕ → ℕ → Settings → List ℕ × Settings
  write_mode msg len s =
      if ltb len 20 || byte msg 15 != 0
      then (fw_response mode 11, s)
      else (fw_response mode 0, record s { mode_data = if rd_be32 msg 16 == 0 then 0 else 1 })

  abbrev with_variables : V → List ℕ × Settings → List ℕ × Settings × V
  with_variables v (sent, s) = (sent, s, v)

  -- The reply, the settings and the variables.
  unfoldable pub handle_write_param : List ℕ → ℕ → Settings → V → List ℕ × Settings × V
  handle_write_param msg len s v =
      let param = rd_be32 msg 7 in
      let data_len = if leb 15 len then rd_be32 msg 11 else 0 in
      if ltb len 11
      then (fw_response 0 8, s, v)
      else if param == 0x424f_434c
          || (param == 0x424f_4600 || (param == 0x424f_4c00 || param == 0x4f42_5500))
      then (fw_response param 4, s, v)
      else if param == fo
      then with_variables v (write_options msg len data_len s)
      else if param == 0x5355_4656
      then with_settings s (handle_write_uefi_var rs room param msg len v)
      else if param == 0x4c49_0000
      then (fw_response param (identifier_status msg len data_len), s, v)
      else if param == mode
      then with_variables v (write_mode msg len s)
      else (fw_response param 11, s, v)
