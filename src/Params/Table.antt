-- ===== src/Params/Table.antt =====
-- The parameters of `handle_read_param` in src/src/main.c whose answer does not depend on any state:
-- the key, the status, and the bytes of `data` that are sent.
use ufp_ffu_device_efi.Prelude.{
  ℕ, List, [], ◌∷◌, ◌++◌, Option, none, some, ◌==◌, if◌then◌else◌, replicate,
}
use ufp_ffu_device_efi.Bytes.{be32_bytes}

abbrev zeros : ℕ → List ℕ
zeros n = replicate n 0

-- "Date:- Time:- Info:-" with its final zero.
abbrev build_info : List ℕ
build_info =
    (b'D' ∷ b'a' ∷ b't' ∷ b'e' ∷ b':' ∷ b'-' ∷ 0x20 ∷ [])
    ++ (b'T' ∷ b'i' ∷ b'm' ∷ b'e' ∷ b':' ∷ b'-' ∷ 0x20 ∷ [])
    ++ (b'I' ∷ b'n' ∷ b'f' ∷ b'o' ∷ b':' ∷ b'-' ∷ 0 ∷ [])

-- A case of the switch: the parameter, its status and its bytes.
pub data ParamCase : Type 0 where
  answers : ℕ → ℕ → List ℕ → ParamCase

abbrev pub fixed_params : List ParamCase
fixed_params =
    answers 0x4154_5250 0 (0 ∷ 0 ∷ 0 ∷ 0 ∷ 1 ∷ 0 ∷ 0 ∷ 0 ∷ 1 ∷ [])
    ∷ answers 0x4641_4900 0 (2 ∷ 3 ∷ 3 ∷ 5 ∷ 4 ∷ 0 ∷ [])
    ∷ answers 0x4441_5300 0 (0 ∷ 1 ∷ [])
    ∷ answers 0x4150_5054 0 (1 ∷ [])
    ∷ answers 0x4249_544c 2 (0 ∷ [])
    ∷ answers 0x424e_464f 0 (build_info)
    ∷ answers 0x4355_464f 2 (zeros 2)
    ∷ answers 0x4445_5300 38 (zeros 8)
    ∷ answers 0x4450_4900 2 ([])
    ∷ answers 0x4450_5200 2 ([])
    ∷ answers 0x4454_4900 2 ([])
    ∷ answers 0x4454_5350 0 (zeros 4)
    ∷ answers 0x4455_4900 2 (zeros 16)
    ∷ answers 0x454d_4d54 9 ([])
    ∷ answers 0x4246_0000 0 (0 ∷ [])
    ∷ answers 0x4653_0000 0 (be32_bytes 3)
    ∷ answers 0x465a_0000 38 (zeros 8)
    ∷ answers 0x4753_4253 0 (0 ∷ [])
    ∷ answers 0x4c47_4d52 2 (zeros 8)
    ∷ answers 0x4d41_4300 8 (0 ∷ [])
    ∷ answers 0x5344_5300 10 (zeros 4)
    ∷ answers 0x5346_5049 0 (1 ∷ 0 ∷ 0x1f ∷ 0 ∷ 0 ∷ 0 ∷ [])
    ∷ answers 0x534d_4244 2 (zeros 4)
    ∷ answers 0x534e_0000 2 (zeros 16)
    ∷ answers 0x534f_534d 9 (zeros 8)
    ∷ answers 0x5445_4c53 0 (zeros 4)
    ∷ answers 0x5542_4600 2 (zeros 8)
    ∷ answers 0x5545_424f 2 (zeros 8)
    ∷ answers 0x554b_4944 10 ([])
    ∷ answers 0x554b_5446 10 ([])
    ∷ answers 0x706d_0000 2 (0 ∷ [])
    ∷ []

-- The case of a parameter.
unfoldable pub lookup : ℕ → List ParamCase → Option (ℕ × List ℕ)
lookup param [] = none
lookup param (answers key status bytes ∷ cases) =
    if param == key then some (status, bytes) else lookup param cases
