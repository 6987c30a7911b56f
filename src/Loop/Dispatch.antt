-- ===== src/Loop/Dispatch.antt =====
-- The choice between the messages in `usb_secure_flash_loop` of src/src/main.c, and the loop over
-- what is received.
use ufp_ffu_device_efi.Prelude.{
  ℕ, List, [], ◌∷◌, Bool, Option, none, some, ltb, leb, ◌==◌, ◌!=◌, ◌||◌, ◌&&◌, if◌then◌else◌,
}
use ufp_ffu_device_efi.Bytes.{byte, rd_be32}
use ufp_ffu_device_efi.Efi.{efi_success}
use ufp_ffu_device_efi.Stream.{Media}
use ufp_ffu_device_efi.Legacy.{handle_legacy_flash}
use ufp_ffu_device_efi.Params.{Settings, handle_read_param, handle_write_param}
use ufp_ffu_device_efi.Params.Variables.{RuntimeServices}
use ufp_ffu_device_efi.Replies.{
  v_info_response, handle_get_gpt, handle_unlock, handle_relock, handle_read_empty_log,
  handle_common_ext, unknown_response,
}
use ufp_ffu_device_efi.Loop.{Loop, Handled, next, stop, answer, within, and_then, Message}
use ufp_ffu_device_efi.Loop.Flash.{handle_secure}
use ufp_ffu_device_efi.Loop.Async.{handle_async}

-- The loop's locals with the settings of the program and the firmware's variables.
pub record Machine (D : Type 0) (V : Type 0) : Type 0 where
  pub loop : Loop D
  pub settings : Settings
  pub variables : V

-- What `usb_transport_recv` gives.
pub data Received : Type 0 where
  message : Message → Received
  failed : ℕ → Received

-- The firmware and the transport, as far as the handlers use them: the block device with its
-- medium, the runtime services, the transport's speed and transfer size, the allocations that
-- succeed, and the run's `commit`. `junk` is what is on the stack.
pub record Host (D : Type 0) (V : Type 0) : Type 0 where
  pub write_blocks : D → ℕ → ℕ → List ℕ → ℕ × D
  pub read_blocks : D → ℕ → ℕ → ℕ → ℕ × List ℕ
  pub flush_blocks : Option (D → D)
  pub media : Media
  pub runtime : RuntimeServices V
  pub speed : ℕ
  pub max_transfer : ℕ
  pub pool : ℕ → ℕ → Bool
  pub room : ℕ → Bool
  pub junk : List ℕ
  pub commit : Bool

-- A handler that sends its reply, or nothing where there is none.
abbrev pub sends : {S : Type 0} → Option (List ℕ) → S → Handled S
sends none s = next [] s
sends (some sent) s = answer sent s

module _ {D V : Type 0} (host : Host D V) where
  abbrev in_machine : Machine D V → Loop D → Machine D V
  in_machine m l = record m { loop = l }

  unfoldable pub take_legacy : Message → Machine D V → Handled (Machine D V)
  take_legacy g m =
      let (sent, device) =
        handle_legacy_flash host.write_blocks host.media host.commit g.bytes g.len
          m.loop.flash.device in
      answer sent
        (in_machine m (record (m.loop) { flash = record (m.loop.flash) { device = device } }))

  unfoldable pub take_write_param : Message → Machine D V → Handled (Machine D V)
  take_write_param g m =
      let (sent, settings, variables) =
        handle_write_param host.runtime host.room g.bytes g.len m.settings m.variables in
      answer sent (record m { settings = settings; variables = variables })

  -- NOKXC; a request to reboot ends the loop.
  unfoldable pub take_common : Message → Machine D V → Handled (Machine D V)
  take_common g m =
      let replied =
        sends (handle_common_ext host.room host.junk host.max_transfer g.bytes g.len) m in
      let mode = if byte g.bytes 5 == b'B' && ltb 6 g.len then byte g.bytes 6 else 0 in
      if byte g.bytes 5 == b'B' && mode == b'R'
      then and_then replied (λ m. stop [] efi_success m)
      else replied

  -- NOKXF, by the sixth byte.
  unfoldable pub take_flash_app : Message → Machine D V → Handled (Machine D V)
  take_flash_app g m =
      let ext = byte g.bytes 5 in
      if ext == b'R'
      then sends
          (handle_read_param host.runtime host.room host.speed host.max_transfer (some host.media)
            g.bytes g.len m.settings m.variables)
          m
      else if ext == b'W'
      then take_write_param g m
      else if ext == b'I'
      then answer (handle_unlock g.bytes g.len) m
      else if ext == b'O'
      then answer handle_relock m
      else if ext == b'T'
      then sends
          (handle_read_empty_log host.room host.max_transfer b'T'
            (if leb 28 g.len then rd_be32 g.bytes 24 else 0))
          m
      else if ext == b'X'
      then sends
          (handle_read_empty_log host.room host.max_transfer b'X'
            (if leb 11 g.len then rd_be32 g.bytes 7 else 0))
          m
      else if ext == b'F'
      then within (in_machine m)
          (handle_async host.write_blocks host.media host.commit g.bytes g.len m.loop)
      else if ext == b'S'
      then within (in_machine m) (
          handle_secure host.write_blocks host.flush_blocks host.pool host.room host.media
            host.commit g.bytes g.len m.loop)
      else answer unknown_response m

  -- NOKX.
  unfoldable pub take_extended : Message → Machine D V → Handled (Machine D V)
  take_extended g m =
      if byte g.bytes 4 == b'C'
      then take_common g m
      else if byte g.bytes 4 == b'F'
      then take_flash_app g m
      else answer unknown_response m

  -- NOK, by the fourth byte.
  unfoldable pub take_nok : Message → Machine D V → Handled (Machine D V)
  take_nok g m =
      let kind = byte g.bytes 3 in
      if kind == b'I'
      then answer (b'N' ∷ b'O' ∷ b'K' ∷ b'I' ∷ []) m
      else if kind == b'V'
      then answer (v_info_response host.speed host.max_transfer (some host.media)) m
      else if kind == b'R' || (kind == b'M' || kind == b'Z')
      then stop [] efi_success m
      else if kind == b'S' || kind == b'N'
      then next [] m
      else if kind == b'T'
      then sends (handle_get_gpt host.room (host.read_blocks m.loop.flash.device) host.media) m
      else if kind == b'F'
      then take_legacy g m
      else if ltb g.len 6 || kind != b'X'
      then answer unknown_response m
      else take_extended g m

  -- A round of the loop.
  unfoldable pub handle_message : Message → Machine D V → Handled (Machine D V)
  handle_message g m =
      if ltb g.len 4
      then next [] m
      else if byte g.bytes 0 != b'N' || (byte g.bytes 1 != b'O' || byte g.bytes 2 != b'K')
      then answer unknown_response m
      else take_nok g m

  unfoldable pub handle_received : Received → Machine D V → Handled (Machine D V)
  handle_received (failed st) m = stop [] st m
  handle_received (message g) m = handle_message g m

  -- The rounds for what is received, up to the end of the loop.
  unfoldable pub serve : List Received → Machine D V → Handled (Machine D V)
  serve [] m = next [] m
  serve (r ∷ rs) m = and_then (handle_received r m) (serve rs)
