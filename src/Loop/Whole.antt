-- ===== src/Loop/Whole.antt =====
-- What a whole flash over the message loop of src/src/main.c does to the device.
use ufp_ffu_device_efi.Prelude.{
  ℕ, ◌+◌, ◌^◌, ◌<◌, ◌≤◌, ◌≡◌, sym, ap, ◌∙◌, arith, List, [], ◌∷◌, ◌++◌, true, some, length, take,
  All, length-append,
}
use ufp_ffu_device_efi.Efi.{Outcome, ok, Run, efi_success}
use ufp_ffu_device_efi.Proto.{max_header_data}
use ufp_ffu_device_efi.Secure.{fs_short}
use ufp_ffu_device_efi.Stream.{StreamFlash, ffu_stream_flash_init, ffu_stream_flash_done}
use ufp_ffu_device_efi.Stream.Packets.{concat, ArePackets, flash_packets}
use ufp_ffu_device_efi.Stream.Device.{target_of, on_device}
use ufp_ffu_device_efi.Stream.Entries.{put_entries}
use ufp_ffu_device_efi.Stream.Init.{ffu_stream_flash_init-IsStarted}
use ufp_ffu_device_efi.Stream.Front.{with_header, ffu_stream_flash_init-front, put_entries-front}
use ufp_ffu_device_efi.Stream.Whole.{flash_packets-put_entries, flash_packets-done}
use ufp_ffu_device_efi.Loop.{stop, within, and_then, behind}
use ufp_ffu_device_efi.Loop.Flash.{flushed_device}
use ufp_ffu_device_efi.Loop.Dispatch.{Machine, Host, message, handle_received, serve}
use ufp_ffu_device_efi.Loop.Sent.{header_sent, payload_sent, handle_message-header_sent}
use ufp_ffu_device_efi.Loop.Started.{IsIdle, header_branch-starts}
use ufp_ffu_device_efi.Loop.Session.{
  Packet, IsPacket, payloads_sent, contents, serve-payloads_sent, serve-final,
}

contents-ArePackets : (ps : List Packet) → All IsPacket ps → ArePackets (contents ps)
contents-ArePackets [] h = tt
contents-ArePackets (p ∷ ps) h = (omega (arith, h.0.2), contents-ArePackets ps h.1)

module _ {D V : Type 0} (host : Host D V) (header : List ℕ) (device : D) {ctx : StreamFlash D}
    (small : length header ≤ max_header_data)
    (accepted : ffu_stream_flash_init host.pool host.room
        (some header)
        (length header)
        (some host.media)
        device
        host.commit
      ≡ ok ctx) where
  -- The flasher on the header in the loop's buffer.
  in_buffer :
      (buf : List ℕ)
      → take (length header) buf ≡ header
      → ffu_stream_flash_init host.pool host.room
          (some buf)
          (length header)
          (some host.media)
          device
          host.commit
        ≡ ok (record ctx { header = buf })
  in_buffer buf front =
      ffu_stream_flash_init-front buf header (length header) front host.pool host.room host.media
        device host.commit
      ∙ ap (with_header buf) accepted

  -- The entries are put on the device as the header alone says.
  flash_packets-in_buffer :
      (buf : List ℕ) (pk : List (List ℕ))
      → take (length header) buf ≡ header
      → ArePackets pk
      → length (concat pk) ≡ ctx.plan.total_payload_bytes
      → on_device (flash_packets host.write_blocks pk (record ctx { header = buf }))
        ≡ put_entries host.write_blocks (target_of ctx) ctx.plan.entries (concat pk) device
  flash_packets-in_buffer buf pk front packets whole =
      let s =
        ffu_stream_flash_init-IsStarted host.pool host.room header (length header) host.media device
          host.commit {ctx = ctx} (omega arith) accepted in
      flash_packets-put_entries host.write_blocks host.pool host.room buf (length header) host.media
        device host.commit pk {ctx = record ctx { header = buf }} (omega arith)
        (in_buffer buf front) packets whole
      ∙ put_entries-front buf header (length header) front host.write_blocks (target_of ctx)
          s.same_header.1 ctx.plan.entries (concat pk) device
      ∙ ap
          (λ h.
            put_entries host.write_blocks (record (target_of ctx) { header = h }) ctx.plan.entries
              (concat pk) device)
          (sym s.same_header.0)

run_of :
    {D : Type 0} (r : Run (StreamFlash D)) {d : D} → on_device r ≡ (ok tt, d) → r ≡ (ok tt, r.1)
run_of r h = ap (λ (o : Outcome (Unit {0})). (o, r.1)) (ap (λ (x : Run _). x.0) h)

module _ {D V : Type 0} (host : Host D V) (always : (n : ℕ) → host.room n ≡ true) where
  -- A host sends the whole header in one request, the payload in packets, and the final packet,
  -- with the builders of requests, to a loop that has seen no header. Where the frames have their
  -- lengths, the offset fits 32 bits, every allocation by size succeeds, the header is not empty, is at most as long as a
  -- packet and is accepted by the flasher, each packet has data, at most as much as a packet holds,
  -- and a progress that is not 100, the data are as long as the plan's payload, and the writes of
  -- the entries succeed: then the loop ends with EFI_SUCCESS, having answered every message, and the
  -- device is that with every entry of the header's plan put at each of its locations, and flushed
  -- when the run is to commit.
  pub serve-session :
      (frame frame' header : List ℕ) (abs : ℕ) (p : Packet) (ps : List Packet) (m : Machine D V)
      {ctx : StreamFlash D} {d : D}
      → length frame ≡ 60
      → length frame' ≡ 32
      → IsIdle m.loop
      → 0 < length header
      → length header ≤ max_header_data
      → abs < 2 ^ 32
      → ffu_stream_flash_init host.pool host.room
          (some header)
          (length header)
          (some host.media)
          m.loop.flash.device
          host.commit
        ≡ ok ctx
      → All IsPacket (p ∷ ps)
      → length (concat (contents (p ∷ ps))) ≡ ctx.plan.total_payload_bytes
      → put_entries host.write_blocks
          (target_of ctx)
          ctx.plan.entries
          (concat (contents (p ∷ ps)))
          m.loop.flash.device
        ≡ (ok tt, d)
      → (replies : List (List ℕ)) × (m' : Machine D V) × (serve host
            (message (header_sent frame abs header) ∷ payloads_sent frame' (p ∷ ps)
              ++ message (payload_sent frame' 0 [] true) ∷ [])
            m
          ≡ stop replies efi_success m')
        × (m'.loop.flash.device ≡ flushed_device host.commit host.flush_blocks d)
        × (length replies ≡ length ps + 3)
  unfolding serve handle_received
  serve-session frame frame' header abs p ps m {ctx} {d} framed framed' idle some' small ha accepted
        packets whole written =
      let device = m.loop.flash.device in
      let pk = contents (p ∷ ps) in
      let (msg, behind_frame, taken) =
        handle_message-header_sent host frame header abs m framed small ha idle.none_received in
      let (buf, l, started, flash, front, flashing) =
        header_branch-starts host always msg header m.loop {ctx = ctx} idle some' small behind_frame
          accepted in
      let at_start = record ctx { header = buf } in
      let m₁ = record m { loop = l } in
      let ran = flash_packets host.write_blocks pk at_start in
      let on =
        flash_packets-in_buffer host header device {ctx = ctx} small accepted buf pk front
          (contents-ArePackets (p ∷ ps) packets) whole
        ∙ written in
      let succeeded : ran ≡ (ok tt, ran.1) = run_of ran on in
      let (all_done, _) =
        flash_packets-done host.write_blocks host.pool host.room buf (length header) host.media
          device host.commit p.1 (contents ps) {ctx = at_start} {c = ran.1} (omega arith)
          (in_buffer host header device {ctx = ctx} small accepted buf front)
          (contents-ArePackets (p ∷ ps) packets) whole succeeded in
      let (replies, m₂, served, flashed, flashing', counted) =
        serve-payloads_sent host frame' (p ∷ ps) (message (payload_sent frame' 0 [] true) ∷ []) m₁
          {c = ran.1} framed' flashing packets
          (ap (flash_packets host.write_blocks pk) flash ∙ succeeded) in
      let (reply, m', ended, flushed) =
        serve-final host frame' m₂ framed' flashing'
          (ap (λ (c : StreamFlash D). ffu_stream_flash_done c) flashed ∙ all_done) in
      let there : m₂.loop.flash.device ≡ d =
        ap (λ (c : StreamFlash D). c.device) flashed ∙ ap (λ (r : Run D). r.1) on in
      (
        fs_short 0 0 ∷ (replies ++ reply ∷ []),
        m',
        ap
              (λ x. and_then x (
                serve host
                  (payloads_sent frame' (p ∷ ps) ++ message (payload_sent frame' 0 [] true) ∷ [])))
              (taken ∙ ap (within (λ l. record m { loop = l })) started)
            ∙ ap (behind (fs_short 0 0 ∷ [])) (served ∙ ap (behind replies) ended),
        flushed ∙ ap (flushed_device host.commit host.flush_blocks) there,
        omega (arith, counted, length-append replies (reply ∷ [])),
      )
