-- ===== src/Loop/Flash.antt =====
-- The header and payload branches of `usb_secure_flash_loop` in src/src/main.c: the start of the
-- streaming flasher, the payload and its replies.
use ufp_ffu_device_efi.Prelude.{
  ℕ, List, [], ◌∷◌, Bool, true, false, Option, none, some, ◌==◌, ◌!=◌, ◌||◌, ◌&&◌, not,
  if◌then◌else◌,
}
use ufp_ffu_device_efi.Prelude.Buffer.{slice}
use ufp_ffu_device_efi.Word.{u32}
use ufp_ffu_device_efi.Efi.{Outcome, ok, err, stuck, Run, efi_success}
use ufp_ffu_device_efi.Proto.{
  subblock_header_v1, subblock_header_v2, subblock_payload_v1, subblock_payload_v2,
  subblock_payload_v3,
}
use ufp_ffu_device_efi.Proto.Build.{build_secure_status_response}
use ufp_ffu_device_efi.Stream.{
  Media, StreamFlash, ffu_stream_flash_init, ffu_stream_flash_payload, ffu_stream_flash_done,
}
use ufp_ffu_device_efi.Secure.{
  Checked, reply, pass, SecureMessage, HeaderChunk, PayloadChunk, check_secure, read_header_v1,
  check_header, check_payload, fs_short, status_from_efi,
}
use ufp_ffu_device_efi.Secure.Assembly.{HeaderBuffer, Placing, assemble_header}
use ufp_ffu_device_efi.Loop.{Loop, zero_flash, Handled, stop, undefined, answer}

-- `send_fs_short(&usb, status, specifier); continue;`
abbrev pub short : {D : Type 0} → ℕ → ℕ → Loop D → Handled (Loop D)
short status specifier l = answer (fs_short status specifier) l

-- A V1 header whose lengths fit sets `header_v2_received` to 0.
unfoldable pub forget_v2 : ℕ → List ℕ → ℕ → HeaderBuffer → HeaderBuffer
forget_v2 subblock msg len b =
    if subblock == subblock_header_v2 then b else elim (read_header_v1 msg len) [
      | reply status specifier ↦ b
      | pass h ↦ record b { header_v2_received = 0 }
    ]

-- What the flasher sees of the header buffer after the message: what is written into it, unless
-- the buffer was moved, and the old one freed.
unfoldable pub keep_header : {D : Type 0} → HeaderBuffer → Loop D → Loop D
keep_header after l =
    let moved = record l { buffer = after; dangling = true } in
    if not l.buffer.flash_ready
    then record l { buffer = after }
    else if after.header_cap != l.buffer.header_cap
    then moved
    else elim after.header [
      | none ↦ moved
      | some bytes ↦ record l { buffer = after; flash = record (l.flash) { header = bytes } }
    ]

-- The outcome of `ffu_stream_flash_init`, in a loop whose header is complete.
unfoldable pub note_start : {D : Type 0} → Outcome (StreamFlash D) → Loop D → Handled (Loop D)
note_start (ok ctx) l =
    short 0 0 (record l { flash = ctx; buffer = record (l.buffer) { flash_ready = true } })
note_start (err st) l =
    short (status_from_efi st) (u32 st) (record l { flash = zero_flash l.flash.device })
note_start stuck l = undefined

-- What a payload message sets: `ufp_status`, `specifier` and the flasher. `none` is undefined.
abbrev pub PayloadResult : Type 0 → Type 0
PayloadResult D = Option (ℕ × ℕ × StreamFlash D)

abbrev pub payload_result : {D : Type 0} → Run (StreamFlash D) → PayloadResult D
payload_result (ok u, flash) = some (0, 0, flash)
payload_result (err st, flash) = some (status_from_efi st, u32 st, flash)
payload_result (stuck, flash) = none

-- `final_state` and the `ufp_status` that goes with it.
unfoldable pub final_state : {D : Type 0} → ℕ → StreamFlash D → ℕ
final_state progress flash = if progress == 100 && ffu_stream_flash_done flash then 1 else 0

unfoldable pub final_status : {D : Type 0} → ℕ → ℕ → StreamFlash D → ℕ
final_status progress ufp_status flash =
    if progress == 100 && (not (ffu_stream_flash_done flash) && ufp_status == 0)
    then 8
    else ufp_status

-- The bytes that are sent of `resp`, after a builder returned their number.
abbrev pub sent_of : ℕ × Option (List ℕ) → List ℕ
sent_of (out, none) = []
sent_of (out, some resp) = slice 0 resp 0 out

abbrev pub buffer_of : List ℕ → ℕ × Option (List ℕ) → List ℕ
buffer_of old (out, none) = old
buffer_of old (out, some resp) = resp

abbrev pub flushed_device : {D : Type 0} → Bool → Option (D → D) → D → D
flushed_device true (some flush) device = flush device
flushed_device true none device = device
flushed_device false flush device = device

-- The device with the firmware's WriteBlocks and FlushBlocks, the run's `commit`, and the
-- allocations that succeed: those of the parser, and those of a given size.
module _ {D : Type 0} (write_blocks : D → ℕ → ℕ → List ℕ → ℕ × D) (flush_blocks : Option (D → D))
    (pool : ℕ → ℕ → Bool) (room : ℕ → Bool) (media : Media) (commit : Bool) where
  -- A header of `complete_len` bytes is there.
  unfoldable pub start_flash : HeaderChunk → ℕ → Loop D → Handled (Loop D)
  start_flash h complete_len l =
      let size = if complete_len == 0 then l.buffer.header_size else complete_len in
      let received =
        if h.header_v2
        then record l { buffer = record (l.buffer) { header_v2_received = 0 } }
        else l in
      if l.buffer.flash_ready
      then short 0 0 received
      else note_start
          (ffu_stream_flash_init pool room l.buffer.header size (some media) l.flash.device commit)
          received

  -- What follows the assembly of the header.
  unfoldable pub after_assembly : HeaderChunk → Placing ℕ → Loop D → Handled (Loop D)
  after_assembly h (reply status specifier, b) l = short status specifier (keep_header b l)
  after_assembly h (pass complete_len, b) l = start_flash h complete_len (keep_header b l)

  unfoldable pub take_header : List ℕ → Checked HeaderChunk → Loop D → Handled (Loop D)
  take_header msg (reply status specifier) l = short status specifier l
  take_header msg (pass h) l = after_assembly h (assemble_header room h msg l.buffer) l

  -- The header branch.
  unfoldable pub handle_header : ℕ → List ℕ → ℕ → Loop D → Handled (Loop D)
  handle_header subblock msg len l =
      take_header msg (check_header l.buffer.header_v2_received subblock msg len)
        (record l { buffer = forget_v2 subblock msg len l.buffer })

  -- The flasher on the payload's data. It is undefined once the header's memory was freed.
  unfoldable pub flash_payload : PayloadChunk → List ℕ → Loop D → PayloadResult D
  flash_payload c msg l =
      if not l.buffer.flash_ready
      then some (6, 0, l.flash)
      else if c.data_len == 0
      then some (0, 0, l.flash)
      else if l.dangling
      then none
      else payload_result
          (ffu_stream_flash_payload write_blocks (slice 0 msg c.data_offset c.data_len) l.flash)

  -- `if (commit && bio->FlushBlocks) bio->FlushBlocks(bio);`
  abbrev pub flushed : StreamFlash D → StreamFlash D
  flushed flash = record flash { device = flushed_device commit flush_blocks flash.device }

  -- The reply to a payload message, and the end of the loop when all is flashed.
  unfoldable pub report_payload : ℕ → PayloadResult D → Loop D → Handled (Loop D)
  report_payload progress none l = undefined
  report_payload progress (some (ufp_status, specifier, flash)) l =
      let state = final_state progress flash in
      let status = final_status progress ufp_status flash in
      let built =
        build_secure_status_response (some l.resp) 64 status specifier 0xffff_ffff flash.last_sector
          state in
      let l' = record l { flash = flash; resp = buffer_of l.resp built } in
      if state == 1 && status == 0
      then stop (sent_of built ∷ []) efi_success (record l' { flash = flushed flash })
      else answer (sent_of built) l'

  -- The payload branch.
  unfoldable pub take_payload :
      SecureMessage → List ℕ → Checked PayloadChunk → Loop D → Handled (Loop D)
  take_payload m msg (reply status specifier) l = short status specifier l
  take_payload m msg (pass c) l = report_payload m.progress (flash_payload c msg l) l

  unfoldable pub handle_checked : List ℕ → ℕ → Checked SecureMessage → Loop D → Handled (Loop D)
  handle_checked msg len (reply status specifier) l = short status specifier l
  handle_checked msg len (pass m) l =
      if m.subblock == subblock_header_v1 || m.subblock == subblock_header_v2
      then handle_header m.subblock msg len l
      else if m.subblock == subblock_payload_v1
          || (m.subblock == subblock_payload_v2 || m.subblock == subblock_payload_v3)
      then take_payload m msg (check_payload m msg len) l
      else short 14 m.subblock l

  -- A message that starts with NOKXFS.
  unfoldable pub handle_secure : List ℕ → ℕ → Loop D → Handled (Loop D)
  handle_secure msg len l = handle_checked msg len (check_secure msg len) l
