-- ===== src/Frames/Tests.antt =====
-- Replies of src/src/main.c.
use ufp_ffu_device_efi.Prelude.{◌≡◌, arith, [], ◌∷◌, some}
use ufp_ffu_device_efi.Proto.{blank}
use ufp_ffu_device_efi.Proto.Parse.{parse_switch_response}
use ufp_ffu_device_efi.Frames.{cb_response}
use ufp_ffu_device_efi.Frames.Fields.{parse_switch_response-cb_response}

parse_switch_response-cb_response_example :
    parse_switch_response (cb_response (7 ∷ 7 ∷ []) 3 77) 12 (some blank)
    ≡ (3, some (record blank { status = 3; specifier = 77 }))
parse_switch_response-cb_response_example =
    parse_switch_response-cb_response (7 ∷ 7 ∷ []) 3 77 blank (omega arith) (omega arith)
