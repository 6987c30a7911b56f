-- ===== src/Loop/Sent.antt =====
-- The secure-flash requests of a host, built with src/src/ufp_proto.c, in the message loop of
-- src/src/main.c: which of them reach the header and payload branches, and with what data.
use ufp_ffu_device_efi.Prelude.{
  ℕ, ◌+◌, ◌^◌, ◌<◌, ◌≤◌, ◌≡◌, refl, sym, ap, ◌∙◌, arith, List, [], ◌++◌, Bool, true, Option, none,
  some, if◌then◌else◌, length, drop, length-append, drop-append_exact,
}
use ufp_ffu_device_efi.Proto.{has_magic, max_header_data, max_payload_data}
use ufp_ffu_device_efi.Proto.Build.{build_secure_header_request, build_secure_payload_request}
use ufp_ffu_device_efi.Word.{u32}
use ufp_ffu_device_efi.Proto.Frames.{
  IsHeaderRequest, IsPayloadRequest, build_secure_header_request-IsHeaderRequest,
  build_secure_payload_request-IsPayloadRequest,
}
use ufp_ffu_device_efi.Secure.{pass}
use ufp_ffu_device_efi.Secure.Requests.{
  requested_chunk, check_secure-header, check_header-header, check_secure-payload,
  check_payload-payload,
}
use ufp_ffu_device_efi.Loop.{Loop, Handled, within, Message}
use ufp_ffu_device_efi.Loop.Flash.{
  handle_secure, handle_checked, handle_header, take_header, take_payload, report_payload,
  flash_payload, forget_v2,
}
use ufp_ffu_device_efi.Loop.Dispatch.{
  Machine, Host, take_flash_app, take_extended, take_nok, handle_message,
}

-- What a builder returned, as a message.
abbrev pub request : ℕ × Option (List ℕ) → Message
request (len, none) = record { bytes = []; len = len }
request (len, some p) = record { bytes = p; len = len }

-- A payload request for these bytes; `frame` is what was in the 32 bytes before them.
abbrev pub payload_sent : List ℕ → ℕ → List ℕ → Bool → Message
payload_sent frame progress bytes final_packet = request (
    build_secure_payload_request (some (frame ++ bytes)) (length bytes + 32) progress (length bytes)
      final_packet)

-- A header request for these bytes, the whole header; `frame` is what was in the 60 bytes before.
abbrev pub header_sent : List ℕ → ℕ → List ℕ → Message
header_sent frame abs bytes =
    request
      (build_secure_header_request (some (frame ++ bytes)) (length bytes + 60) abs 0 (length bytes))

module _ {D V : Type 0} (host : Host D V) where
  -- The secure-flash messages on the loop's locals.
  abbrev pub secure : Message → Loop D → Handled (Loop D)
  secure g l =
      handle_secure host.write_blocks host.flush_blocks host.pool host.room host.media host.commit
        g.bytes g.len l

  -- A message with the letters of the secure-flash messages reaches their branch.
  pub handle_message-secure :
      (g : Message) (m : Machine D V)
      → has_magic g.bytes g.len b'F' b'S' ≡ true
      → handle_message host g m ≡ within (λ l. record m { loop = l }) (secure g m.loop)
  unfolding handle_message take_nok take_extended take_flash_app has_magic
  handle_message-secure g m h = ground arith

  -- The payload branch for these bytes.
  abbrev pub payload_branch : ℕ → List ℕ → Loop D → Handled (Loop D)
  payload_branch progress bytes l =
      report_payload host.write_blocks host.flush_blocks host.pool host.room host.media host.commit
        progress
        (flash_payload host.write_blocks host.flush_blocks host.pool host.room host.media
          host.commit (record { data_len = length bytes; data_offset = 0 }) bytes l)
        l

  flash_payload-sent :
      (p bytes : List ℕ) (l : Loop D)
      → drop 32 p ≡ bytes
      → flash_payload host.write_blocks host.flush_blocks host.pool host.room host.media host.commit
          (record { data_len = length bytes; data_offset = 32 })
          p
          l
        ≡ flash_payload host.write_blocks host.flush_blocks host.pool host.room host.media
            host.commit
            (record { data_len = length bytes; data_offset = 0 })
            bytes
            l
  unfolding flash_payload
  flash_payload-sent p bytes l rest = rw rest refl

  secure-payload :
      (p bytes : List ℕ) (progress : ℕ) (l : Loop D)
      → IsPayloadRequest p progress (length bytes)
      → length bytes ≤ max_payload_data
      → drop 32 p ≡ bytes
      → secure (record { bytes = p; len = length bytes + 32 }) l ≡ payload_branch progress bytes l
  unfolding handle_secure handle_checked take_payload
  secure-payload p bytes progress l f small rest =
      rw
        (
          check_secure-payload p progress (length bytes) f,
          check_payload-payload p progress (length bytes) f small,
          flash_payload-sent p bytes l rest,
        )
        refl

  -- A payload request that a host sends reaches the payload branch with its bytes.
  pub handle_message-payload_sent :
      (frame bytes : List ℕ) (progress : ℕ) (final_packet : Bool) (m : Machine D V)
      → length frame ≡ 32
      → length bytes ≤ max_payload_data
      → handle_message host (payload_sent frame progress bytes final_packet) m
        ≡ within
            (λ l. record m { loop = l })
            (payload_branch (if final_packet then 100 else progress) bytes m.loop)
  handle_message-payload_sent frame bytes progress final_packet m framed small =
      let n = length bytes in
      let (p, built, f, rest) =
        build_secure_payload_request-IsPayloadRequest (frame ++ bytes) (n + 32) progress n
          final_packet (omega (arith, framed, length-append frame bytes)) (omega arith) small in
      let percent = if final_packet then 100 else progress in
      let whole : drop 32 p ≡ bytes = rest ∙ drop-append_exact 32 frame bytes (sym framed) in
      let g : Message = record { bytes = p; len = n + 32 } in
      ap (λ r. handle_message host (request r) m) built
      ∙ handle_message-secure g m f.magic
      ∙ ap (within (λ l. record m { loop = l }))
          (secure-payload p bytes percent m.loop f small whole)

  -- What the header branch does with a whole header.
  abbrev pub header_branch : List ℕ → List ℕ → Loop D → Handled (Loop D)
  header_branch p bytes l =
      take_header host.write_blocks host.flush_blocks host.pool host.room host.media host.commit p
        (pass (requested_chunk l.buffer.header_v2_received 0 (length bytes))) l

  secure-header :
      (p bytes : List ℕ) (abs : ℕ) (l : Loop D)
      → IsHeaderRequest p abs (u32 (0 + length bytes)) 0 (length bytes)
      → length bytes ≤ max_header_data
      → l.buffer.header_v2_received ≡ 0
      → secure (record { bytes = p; len = length bytes + 60 }) l ≡ header_branch p bytes l
  unfolding handle_secure handle_checked handle_header forget_v2
  secure-header p bytes abs l f small fresh =
      let n = length bytes in
      rw
        (
          check_secure-header p abs 0 n f,
          check_header-header p abs 0 n f l.buffer.header_v2_received small (omega arith)
              (omega (arith, fresh)),
        )
        refl

  -- A whole header that a host sends, where no part of one came before, reaches the header branch
  -- in a message that has the header behind its frame.
  pub handle_message-header_sent :
      (frame bytes : List ℕ) (abs : ℕ) (m : Machine D V)
      → length frame ≡ 60
      → length bytes ≤ max_header_data
      → abs < 2 ^ 32
      → m.loop.buffer.header_v2_received ≡ 0
      → (p : List ℕ) × (drop 60 p ≡ bytes)
        × (handle_message host (header_sent frame abs bytes) m
            ≡ within (λ l. record m { loop = l }) (header_branch p bytes m.loop))
  handle_message-header_sent frame bytes abs m framed small ha fresh =
      let n = length bytes in
      let (p, built, f, rest, _) =
        build_secure_header_request-IsHeaderRequest (frame ++ bytes) (n + 60) abs 0 n
          (omega (arith, framed, length-append frame bytes)) (omega arith) small ha (omega arith) in
      let g : Message = record { bytes = p; len = n + 60 } in
      (
        p,
        rest ∙ drop-append_exact 60 frame bytes (sym framed),
        ap (λ r. handle_message host (request r) m) built
            ∙ handle_message-secure g m f.magic
            ∙ ap (within (λ l. record m { loop = l }))
                (secure-header p bytes abs m.loop f small fresh),
      )
