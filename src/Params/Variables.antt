-- ===== src/Params/Variables.antt =====
-- The handlers of src/src/main.c that read and write UEFI variables. The firmware's variables are a
-- state `V` with GetVariable and SetVariable, each `none` where the service is missing.
use Prim.Native.Nat.{bit_and}
use ufp_ffu_device_efi.Prelude.{
  ℕ, ◌+◌, ◌-◌, List, [], ◌∷◌, ◌++◌, Bool, Option, none, some, ltb, leb, ◌==◌, ◌!=◌, ◌||◌, not,
  if◌then◌else◌,
}
use ufp_ffu_device_efi.Prelude.Buffer.{slice}
use ufp_ffu_device_efi.Word.{u32}
use ufp_ffu_device_efi.Bytes.{rd_be32, be32_bytes}
use ufp_ffu_device_efi.Efi.{is_error, efi_success, efi_buffer_too_small}
use ufp_ffu_device_efi.Frames.{fr_response, fw_response, read_var_status}

-- What GetVariable leaves: its status, the attributes, the size, and the bytes in the buffer.
pub record GotVariable : Type 0 where
  pub status : ℕ
  pub attributes : ℕ
  pub size : ℕ
  pub value : List ℕ

-- EFI_RUNTIME_SERVICES, as far as it is used: a variable's name and GUID are bytes. GetVariable
-- takes the size of the buffer, SetVariable the attributes and the value.
pub record RuntimeServices (V : Type 0) : Type 0 where
  pub get_variable : Option (V → List ℕ → List ℕ → ℕ → GotVariable)
  pub set_variable : Option (V → List ℕ → List ℕ → ℕ → List ℕ → ℕ × V)

-- `alloc_uefi_var_name`, which returns 0, -1 or 1 with the name and its final zero.
pub data VarName : Type 0 where
  bad : VarName
  no_room : VarName
  name : List ℕ → VarName

unfoldable pub alloc_uefi_var_name : (ℕ → Bool) → List ℕ → ℕ → ℕ → VarName
alloc_uefi_var_name room msg at src_len =
    if src_len == 0 || (bit_and src_len 1 != 0 || ltb 1024 src_len)
    then bad
    else if not (room (src_len + 2))
    then no_room
    else name (slice 0 msg at src_len ++ 0 ∷ 0 ∷ [])

-- The GUID in every message about a variable.
abbrev pub guid_of : List ℕ → List ℕ
guid_of msg = slice 0 msg 15 16

-- The answer to a variable's size.
abbrev size_answer : GotVariable → ℕ × List ℕ
size_answer got =
    let st = if got.status == efi_buffer_too_small then efi_success else got.status in
    let status = read_var_status st in
    (status, if status == 0 then be32_bytes (u32 got.size) else [])

-- The answer to a variable's value: the attributes and the size before it.
abbrev value_answer : GotVariable → ℕ × List ℕ
value_answer got =
    let status = read_var_status got.status in
    (
      status,
      if status == 0
          then be32_bytes got.attributes
            ++ be32_bytes (u32 got.size)
            ++ slice 0 got.value 0 got.size
          else [],
    )

module _ {V : Type 0} (rs : RuntimeServices V) (room : ℕ → Bool) (param : ℕ) where
  abbrev refused : ℕ → Option (List ℕ)
  refused status = fr_response room param status []

  -- What is sent; `none` where nothing is.
  unfoldable pub read_named : VarName → (List ℕ → ℕ × List ℕ) → Option (List ℕ)
  read_named bad ask = refused 8
  read_named no_room ask = refused 1
  read_named (name n) ask = let (status, bytes) = ask n in fr_response room param status bytes

  unfoldable pub handle_read_uefi_var_size : List ℕ → ℕ → V → Option (List ℕ)
  handle_read_uefi_var_size msg len v = elim rs.get_variable [
    | none ↦ refused 8
    | some get ↦
        let name_len = rd_be32 msg 35 in
        if ltb len 39 || ltb len (39 + name_len)
        then refused 8
        else read_named (alloc_uefi_var_name room msg 39 name_len)
            (λ n. size_answer (get v n (guid_of msg) 0))
  ]

  -- The value, in a buffer of `requested_size` bytes behind the 8 for attributes and size.
  unfoldable pub ask_value :
      (V → List ℕ → List ℕ → ℕ → GotVariable) → ℕ → List ℕ → V → List ℕ → ℕ × List ℕ
  ask_value get requested_size msg v n =
      if room (requested_size + 8)
      then value_answer (get v n (guid_of msg) requested_size)
      else (1, [])

  unfoldable pub handle_read_uefi_var_value : ℕ → List ℕ → ℕ → V → Option (List ℕ)
  handle_read_uefi_var_value max_transfer msg len v = elim rs.get_variable [
    | none ↦ refused 8
    | some get ↦
        let requested_size = rd_be32 msg 31 in
        let name_len = rd_be32 msg 35 in
        if ltb len 39 || (ltb len (39 + name_len) || ltb 0x1_0000 requested_size)
        then refused 8
        else if leb max_transfer 25 || ltb (u32 (max_transfer - 25)) requested_size
        then refused 48
        else read_named (alloc_uefi_var_name room msg 39 name_len)
            (ask_value get requested_size msg v)
  ]

  -- The status of a SetVariable, and the variables afterwards.
  unfoldable pub write_named :
      (V → List ℕ → List ℕ → ℕ → List ℕ → ℕ × V) → VarName → List ℕ → V → List ℕ × V
  write_named set bad msg v = (fw_response param 8, v)
  write_named set no_room msg v = (fw_response param 1, v)
  write_named set (name n) msg v =
      let value = slice 0 msg 555 (rd_be32 msg 551) in
      let (st, v') = set v n (guid_of msg) (rd_be32 msg 547) value in
      (fw_response param (if is_error st then 4 else 0), v')

  unfoldable pub handle_write_uefi_var : List ℕ → ℕ → V → List ℕ × V
  handle_write_uefi_var msg len v = elim rs.set_variable [
    | none ↦ (fw_response param 8, v)
    | some set ↦
        let name_len = rd_be32 msg 31 in
        let value_len = rd_be32 msg 551 in
        if ltb len 555
          || (ltb 512 name_len || (ltb 0x1_0000 value_len || ltb len (555 + value_len)))
        then (fw_response param 8, v)
        else write_named set (alloc_uefi_var_name room msg 35 name_len) msg v
  ]
