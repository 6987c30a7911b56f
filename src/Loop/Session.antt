-- ===== src/Loop/Session.antt =====
-- A whole flash over the message loop of src/src/main.c: the header, the payload in packets and the
-- final packet, as a host sends them with the builders of src/src/ufp_proto.c.
use mathlib.Core.List.{append_assoc}
use ufp_ffu_device_efi.Prelude.{
  ℕ, ◌<◌, ◌≤◌, ◌≡◌, ◌≢◌, refl, sym, ap, ◌∙◌, arith, List, [], ◌∷◌, ◌++◌, true, false, Option, some,
  ◌==◌, length, All, take-all,
}
use ufp_ffu_device_efi.Prelude.Buffer.{slice, take_or-eq-take}
use ufp_ffu_device_efi.Efi.{ok, Run, &>-eq-ok, efi_success}
use ufp_ffu_device_efi.Proto.{max_payload_data}
use ufp_ffu_device_efi.Proto.Build.{build_secure_status_response}
use ufp_ffu_device_efi.Stream.{StreamFlash, ffu_stream_flash_payload, ffu_stream_flash_done}
use ufp_ffu_device_efi.Stream.Packets.{flash_packets}
use ufp_ffu_device_efi.Loop.{Loop, Handled, next, stop, undefined, within, and_then, behind}
use ufp_ffu_device_efi.Loop.Flash.{
  flash_payload, final_state, final_status, report_payload, sent_of, buffer_of, flushed,
  flushed_device,
}
use ufp_ffu_device_efi.Loop.Dispatch.{
  Machine, Host, Received, message, handle_received, handle_message, serve,
}
use ufp_ffu_device_efi.Loop.Sent.{payload_sent, payload_branch, handle_message-payload_sent}
use ufp_ffu_device_efi.Loop.Started.{IsFlashing}

behind-behind :
    {S : Type 0} (r r' : List (List ℕ)) (x : Handled S)
    → behind r (behind r' x) ≡ behind (r ++ r') x
behind-behind r r' (next more s) = ap (λ rs. next rs s) (sym (append_assoc r r' more))
behind-behind r r' (stop more st s) = ap (λ rs. stop rs st s) (sym (append_assoc r r' more))
behind-behind r r' undefined = refl

behind-nil : {S : Type 0} (x : Handled S) → x ≡ behind [] x
behind-nil (next more s) = refl
behind-nil (stop more st s) = refl
behind-nil undefined = refl

-- A packet of the payload with the progress that the host gives, which is not the final one's.
abbrev pub Packet : Type 0
Packet = ℕ × List ℕ

abbrev pub IsPacket : Packet → Type 0
IsPacket p = (p.0 ≢ 100) × (0 < length p.1) × (length p.1 ≤ max_payload_data)

-- The payload requests for the packets; `frame` is what is in the 32 bytes before the data.
abbrev pub payloads_sent : List ℕ → List Packet → List Received
payloads_sent frame [] = []
payloads_sent frame ((progress, bytes) ∷ ps) =
    message (payload_sent frame progress bytes false) ∷ payloads_sent frame ps

abbrev pub contents : List Packet → List (List ℕ)
contents [] = []
contents ((progress, bytes) ∷ ps) = bytes ∷ contents ps

module _ {D V : Type 0} (host : Host D V) where
  -- What is sent in reply to a payload, and the locals then.
  abbrev reply_to : ℕ → ℕ → StreamFlash D → ℕ → Loop D → ℕ × Option (List ℕ)
  reply_to status specifier flash state l =
      build_secure_status_response (some l.resp) 64 status specifier 0xffff_ffff flash.last_sector
        state

  abbrev replied : ℕ × Option (List ℕ) → StreamFlash D → Loop D → Loop D
  replied built flash l = record l { flash = flash; resp = buffer_of l.resp built }

  -- A packet that the flasher takes is answered with status 0.
  payload_branch-goes_on :
      (progress : ℕ) (bytes : List ℕ) (l : Loop D) {c : StreamFlash D}
      → IsFlashing l
      → progress ≢ 100
      → 0 < length bytes
      → ffu_stream_flash_payload host.write_blocks bytes l.flash ≡ (ok tt, c)
      → let built = reply_to 0 0 c 0 l in
        payload_branch host progress bytes l ≡ next (sent_of built ∷ []) (replied built c l)
  unfolding flash_payload report_payload final_state final_status
  payload_branch-goes_on progress bytes l {c} flashing not_final some' ran =
      let whole : slice 0 bytes 0 (length bytes) ≡ bytes =
        take_or-eq-take (length bytes) 0 bytes (omega arith)
        ∙ take-all (length bytes) bytes (omega arith) in
      let positive : (length bytes == 0) ≡ false = ground arith in
      let early : (progress == 100) ≡ false = ground arith in
      rw (flashing.is_ready, positive, flashing.kept, whole, ran, early) refl

  -- The final packet ends the loop when the flasher is done.
  payload_branch-ends :
      (l : Loop D)
      → IsFlashing l
      → ffu_stream_flash_done l.flash ≡ true
      → let built = reply_to 0 0 l.flash 1 l in
        payload_branch host 100 [] l
        ≡ stop (sent_of built ∷ []) efi_success (
            replied built
              (flushed host.write_blocks host.flush_blocks host.pool host.room host.media
                host.commit l.flash)
              l)
  unfolding flash_payload report_payload final_state final_status
  payload_branch-ends l flashing done = rw (flashing.is_ready, done) refl

  -- The packets, one message each, are all answered with `next`, and the flasher has taken them.
  pub serve-payloads_sent :
      (frame : List ℕ) (ps : List Packet) (rest : List Received) (m : Machine D V)
      {c : StreamFlash D}
      → length frame ≡ 32
      → IsFlashing m.loop
      → All IsPacket ps
      → flash_packets host.write_blocks (contents ps) m.loop.flash ≡ (ok tt, c)
      → (replies : List (List ℕ)) × (m' : Machine D V) × (serve host
            (payloads_sent frame ps ++ rest)
            m
          ≡ behind replies (serve host rest m'))
        × (m'.loop.flash ≡ c)
        × IsFlashing m'.loop
        × (length replies ≡ length ps)
  unfolding serve handle_received
  serve-payloads_sent frame [] rest m {c} framed flashing packets ran = (
    [],
    m,
    behind-nil (serve host rest m),
    ap (λ (r : Run (StreamFlash D)). r.1) ran,
    flashing,
    refl,
  )
  serve-payloads_sent frame ((progress, bytes) ∷ ps) rest m {c} framed flashing packets ran =
      let (c₁, first, others) =
        &>-eq-ok (ffu_stream_flash_payload host.write_blocks bytes m.loop.flash)
          (flash_packets host.write_blocks (contents ps)) {c' = c} ran in
      let built = reply_to 0 0 c₁ 0 m.loop in
      let m₁ = record m { loop = replied built c₁ m.loop } in
      let (replies, m', served, taken, flashing', counted) =
        serve-payloads_sent frame ps rest m₁ {c = c} framed
          (record { is_ready = flashing.is_ready; kept = flashing.kept }) packets.1 others in
      let here : handle_message host (payload_sent frame progress bytes false) m
          ≡ next (sent_of built ∷ []) m₁ =
        handle_message-payload_sent host frame bytes progress false m framed packets.0.2
        ∙ ap (within (λ l. record m { loop = l })) (
            payload_branch-goes_on progress bytes m.loop {c = c₁} flashing packets.0.0 packets.0.1
              first) in
      (
        sent_of built ∷ replies,
        m',
        ap (λ x. and_then x (serve host (payloads_sent frame ps ++ rest))) here
            ∙ ap (behind (sent_of built ∷ [])) served
            ∙ behind-behind (sent_of built ∷ []) replies (serve host rest m'),
        taken,
        flashing',
        omega (arith, counted),
      )

  -- The final packet, without data, ends the loop with success when the flasher is done.
  pub serve-final :
      (frame : List ℕ) (m : Machine D V)
      → length frame ≡ 32
      → IsFlashing m.loop
      → ffu_stream_flash_done m.loop.flash ≡ true
      → (reply : List ℕ) × (m' : Machine D V) × (serve host
            (message (payload_sent frame 0 [] true) ∷ [])
            m
          ≡ stop (reply ∷ []) efi_success m')
        × (m'.loop.flash.device ≡ flushed_device host.commit host.flush_blocks m.loop.flash.device)
  unfolding serve handle_received
  serve-final frame m framed flashing done =
      let built = reply_to 0 0 m.loop.flash 1 m.loop in
      let flash =
        flushed host.write_blocks host.flush_blocks host.pool host.room host.media host.commit
          m.loop.flash in
      (
        sent_of built,
        record m { loop = replied built flash m.loop },
        ap (λ x. and_then x (serve host []))
            (handle_message-payload_sent host frame [] 0 true m framed (omega arith)
              ∙ ap (within (λ l. record m { loop = l }))
                  (payload_branch-ends m.loop flashing done)),
        refl,
      )
