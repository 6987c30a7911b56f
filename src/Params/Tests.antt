-- ===== src/Params/Tests.antt =====
-- Runs of the parameter handlers of src/src/main.c.
use ufp_ffu_device_efi.Prelude.{
  ℕ, ◌≡◌, refl, arith, List, [], ◌∷◌, ◌++◌, true, none, if◌then◌else◌, ◌==◌, replicate,
}
use ufp_ffu_device_efi.Prelude.Buffer.{slice}
use ufp_ffu_device_efi.Bytes.{rd_be32, be32, be32_bytes}
use ufp_ffu_device_efi.Frames.{fr_response, fw_response}
use ufp_ffu_device_efi.Params.{Settings, fo, mode, handle_read_param, handle_write_param}
use ufp_ffu_device_efi.Params.Variables.{RuntimeServices}
use ufp_ffu_device_efi.Params.RoundTrip.{
  IsRequest, handle_read_param-write_options, handle_read_param-write_mode,
}

abbrev no_variables : RuntimeServices (Unit {0})
no_variables = record { get_variable = none; set_variable = none }

abbrev settings : Settings
settings = record { ffu_options = replicate 500 0; mode_data = 0 }

-- Seven bytes and the parameter.
abbrev about : ℕ → List ℕ
about param = replicate 7 0 ++ be32_bytes param

abbrev write_fo : List ℕ
write_fo = about fo ++ be32_bytes 500 ++ replicate 500 7

abbrev write_mode_message : List ℕ
write_mode_message = about mode ++ (0 ∷ 0 ∷ 0 ∷ 0 ∷ 0 ∷ []) ++ be32_bytes 5

read_fo-IsRequest : IsRequest fo (about fo) 11
unfolding rd_be32 be32
read_fo-IsRequest = record { long = omega arith; names = refl }

read_mode-IsRequest : IsRequest mode (about mode) 11
unfolding rd_be32 be32
read_mode-IsRequest = record { long = omega arith; names = refl }

handle_read_param-write_options_example :
    let (sent, s', v') = handle_write_param no_variables (λ n. true) write_fo 515 settings tt in
    (sent ≡ fw_response fo 0)
    × (v' ≡ tt)
    × (handle_read_param no_variables (λ n. true) 3 1024 none (about fo) 11 s' v'
        ≡ fr_response (λ n. true) fo 0 (slice 0 write_fo 15 500))
unfolding rd_be32 be32
handle_read_param-write_options_example =
    handle_read_param-write_options no_variables (λ n. true) 3 1024 none write_fo (about fo) 515 11
      settings tt (omega arith) refl refl read_fo-IsRequest

handle_read_param-write_mode_example :
    let (sent, s', v') =
      handle_write_param no_variables (λ n. true) write_mode_message 20 settings tt in
    (sent ≡ fw_response mode 0)
    × (v' ≡ tt)
    × (handle_read_param no_variables (λ n. true) 3 1024 none (about mode) 11 s' v'
        ≡ fr_response
            (λ n. true)
            mode
            0
            (be32_bytes (if rd_be32 write_mode_message 16 == 0 then 0 else 1)))
unfolding rd_be32 be32
handle_read_param-write_mode_example =
    handle_read_param-write_mode no_variables (λ n. true) 3 1024 none write_mode_message
      (about mode) 20 11 settings tt (omega arith) refl refl read_mode-IsRequest refl
