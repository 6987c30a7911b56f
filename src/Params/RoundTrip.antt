-- ===== src/Params/RoundTrip.antt =====
-- The settings that a host writes and reads back with the parameter messages of src/src/main.c.
use ufp_ffu_device_efi.Prelude.{
  ℕ, ◌≤◌, ◌≡◌, refl, arith, List, Bool, true, false, Option, ltb, leb, ◌==◌, ◌&&◌, if◌then◌else◌,
}
use ufp_ffu_device_efi.Prelude.Buffer.{slice}
use ufp_ffu_device_efi.Bytes.{byte, rd_be32, be32_bytes}
use ufp_ffu_device_efi.Stream.{Media}
use ufp_ffu_device_efi.Frames.{fr_response, fw_response}
use ufp_ffu_device_efi.Params.{
  Settings, fo, mode, param_value, handle_read_param, write_options, write_mode, handle_write_param,
}
use ufp_ffu_device_efi.Params.Table.{lookup}
use ufp_ffu_device_efi.Params.Variables.{RuntimeServices}

and_false : (b : Bool) → (b && false) ≡ false
and_false true = refl
and_false false = refl

-- A message that asks for a parameter.
pub record IsRequest (param : ℕ) (msg : List ℕ) (len : ℕ) : Type 0 where
  pub long : 11 ≤ len
  pub names : rd_be32 msg 7 ≡ param

module _ {V : Type 0} (rs : RuntimeServices V) (room : ℕ → Bool) (speed max_transfer : ℕ)
    (media : Option Media) where
  -- A write of the parameter FO with its 500 bytes is answered with status 0 and changes no
  -- variable, and a read of it afterwards gives these bytes with status 0.
  pub handle_read_param-write_options :
      (msg msg' : List ℕ) (len len' : ℕ) (s : Settings) (v : V)
      → 515 ≤ len
      → rd_be32 msg 7 ≡ fo
      → rd_be32 msg 11 ≡ 500
      → IsRequest fo msg' len'
      → let (sent, s', v') = handle_write_param rs room msg len s v in
        (sent ≡ fw_response fo 0)
        × (v' ≡ v)
        × (handle_read_param rs room speed max_transfer media msg' len' s' v'
            ≡ fr_response room fo 0 (slice 0 msg 15 500))
  unfolding handle_write_param write_options handle_read_param param_value lookup
  handle_read_param-write_options msg msg' len len' s v long names sized request =
      let enough : ltb len 11 ≡ false = ground arith in
      let enough' : leb 15 len ≡ true = ground arith in
      let enough'' : ltb len 515 ≡ false = ground arith in
      let there : ltb len' 11 ≡ false = ground (arith, request.long) in
      rw (enough, names, enough', sized, enough'', request.names, there) (refl, refl, refl)

  -- A write of the parameter MODE for the transport is answered with status 0 and changes no
  -- variable, and a read of it afterwards, for the transport or for none, gives 1 if the value
  -- written was not 0, and 0 if it was.
  pub handle_read_param-write_mode :
      (msg msg' : List ℕ) (len len' : ℕ) (s : Settings) (v : V)
      → 20 ≤ len
      → rd_be32 msg 7 ≡ mode
      → byte msg 15 ≡ 0
      → IsRequest mode msg' len'
      → byte msg' 15 ≡ 0
      → let (sent, s', v') = handle_write_param rs room msg len s v in
        (sent ≡ fw_response mode 0)
        × (v' ≡ v)
        × (handle_read_param rs room speed max_transfer media msg' len' s' v'
            ≡ fr_response room mode 0 (be32_bytes (if rd_be32 msg 16 == 0 then 0 else 1)))
  unfolding handle_write_param write_mode handle_read_param param_value lookup
  handle_read_param-write_mode msg msg' len len' s v long names kind request kind' =
      let enough : ltb len 11 ≡ false = ground arith in
      let enough' : ltb len 20 ≡ false = ground arith in
      let there : ltb len' 11 ≡ false = ground (arith, request.long) in
      let nothing : (leb 16 len' && false) ≡ false = and_false (leb 16 len') in
      rw (enough, names, enough', kind, request.names, there, kind', nothing) (refl, refl, refl)
