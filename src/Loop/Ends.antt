-- ===== src/Loop/Ends.antt =====
-- When the secure-flash messages end the message loop of src/src/main.c.
use ufp_ffu_device_efi.Prelude.{
  ℕ, ◌+◌, ◌≤◌, ◌≡◌, refl, arith, List, Bool, true, Option, none, some, ◌==◌, ◌&&◌, ◌||◌, if_both,
}
use ufp_ffu_device_efi.Efi.{Outcome, ok, err, stuck, efi_success}
use ufp_ffu_device_efi.Proto.{
  subblock_header_v1, subblock_header_v2, subblock_payload_v1, subblock_payload_v2,
  subblock_payload_v3, max_payload_data,
}
use ufp_ffu_device_efi.Stream.{Media, StreamFlash, ffu_stream_flash_done}
use ufp_ffu_device_efi.Secure.{
  Checked, reply, pass, SecureMessage, HeaderChunk, PayloadChunk, check_secure, check_header,
  check_payload,
}
use ufp_ffu_device_efi.Secure.Requests.{check_payload-inside}
use ufp_ffu_device_efi.Secure.Assembly.{Placing, assemble_header}
use ufp_ffu_device_efi.Loop.{Loop, Handled, next, stop, undefined}
use ufp_ffu_device_efi.Loop.Flash.{
  PayloadResult, flash_payload, final_state, final_status, flushed_device, report_payload,
  keep_header, note_start, start_flash, after_assembly, take_header, handle_header, take_payload,
  handle_checked, handle_secure, forget_v2,
}

-- If the loop ends, it does so with success, with the flasher in a state of which `P` holds, and
-- the device flushed.
abbrev pub Stops :
    {D : Type 0} → Bool → Option (D → D) → (StreamFlash D → Type 0) → Handled (Loop D) → Type 0
Stops commit flush_blocks P (next replies l) = Unit {0}
Stops {D} commit flush_blocks P (stop replies st l) =
    (st ≡ efi_success)
    × (f : StreamFlash D) × P f
    × (l.flash.device ≡ flushed_device commit flush_blocks f.device)
Stops commit flush_blocks P undefined = Unit {0}

-- `P` holds of the flasher after a payload with status 0 when it is done.
abbrev pub Takes : {D : Type 0} → (StreamFlash D → Type 0) → PayloadResult D → Type 0
Takes P none = Unit {0}
Takes P (some (status, specifier, flash)) =
    status ≡ 0 → ffu_stream_flash_done flash ≡ true → P flash

module _ {D : Type 0} (write_blocks : D → ℕ → ℕ → List ℕ → ℕ × D) (flush_blocks : Option (D → D))
    (pool : ℕ → ℕ → Bool) (room : ℕ → Bool) (media : Media) (commit : Bool) where
  module _ (P : StreamFlash D → Type 0) where
    abbrev Sound : Handled (Loop D) → Type 0
    Sound = Stops commit flush_blocks P

    note_start-Stops : (o : Outcome (StreamFlash D)) (l : Loop D) → Sound (note_start o l)
    unfolding note_start
    note_start-Stops (ok ctx) l = tt
    note_start-Stops (err st) l = tt
    note_start-Stops stuck l = tt

    take_header-Stops :
        (msg : List ℕ) (c : Checked HeaderChunk) (l : Loop D)
        → Sound (take_header write_blocks flush_blocks pool room media commit msg c l)
    unfolding take_header after_assembly start_flash
    take_header-Stops msg (reply status specifier) l = tt
    take_header-Stops msg (pass h) l = assembled (assemble_header room h msg l.buffer)
      where
        assembled :
            (p : Placing ℕ)
            → Sound (after_assembly write_blocks flush_blocks pool room media commit h p l)
        assembled (reply status specifier, b) = tt
        assembled (pass k, b) =
            if_both Sound (keep_header b l).buffer.flash_ready (λ _. tt) (λ _. note_start-Stops _ _)

    report_payload-Stops :
        (progress : ℕ) (r : PayloadResult D) (l : Loop D)
        → Takes P r
        → Sound (report_payload write_blocks flush_blocks pool room media commit progress r l)
    unfolding report_payload final_state final_status
    report_payload-Stops progress none l taken = tt
    report_payload-Stops progress (some (status, specifier, flash)) l taken =
        if_both Sound (final_state progress flash == 1 && final_status progress status flash == 0)
          (λ ends. (refl, flash, taken (ground arith) (ground arith), refl)) (λ _. tt)

    pub handle_secure-Stops :
        (msg : List ℕ) (len : ℕ) (l : Loop D)
        → ((c : PayloadChunk)
            → (c.data_offset + c.data_len ≤ len) × (c.data_len ≤ max_payload_data)
            → Takes P (flash_payload write_blocks flush_blocks pool room media commit c msg l))
        → Sound (handle_secure write_blocks flush_blocks pool room media commit msg len l)
    unfolding handle_secure handle_checked handle_header take_payload
    handle_secure-Stops msg len l taken = checked (check_secure msg len)
      where
        paid :
            (m : SecureMessage) (r : Checked PayloadChunk)
            → check_payload m msg len ≡ r
            → Sound (take_payload write_blocks flush_blocks pool room media commit m msg r l)
        paid m (reply status specifier) e = tt
        paid m (pass c) e =
            report_payload-Stops m.progress
              (flash_payload write_blocks flush_blocks pool room media commit c msg l) l
              (taken c (check_payload-inside m msg len {c = c} e))

        checked :
            (c : Checked SecureMessage)
            → Sound (handle_checked write_blocks flush_blocks pool room media commit msg len c l)
        checked (reply status specifier) = tt
        checked (pass m) =
            if_both Sound (m.subblock == subblock_header_v1 || m.subblock == subblock_header_v2)
              (λ _.
                take_header-Stops msg (check_header l.buffer.header_v2_received m.subblock msg len)
                  (record l { buffer = forget_v2 m.subblock msg len l.buffer }))
              (λ _.
                if_both Sound
                  (m.subblock == subblock_payload_v1
                    || (m.subblock == subblock_payload_v2 || m.subblock == subblock_payload_v3))
                  (λ _. paid m (check_payload m msg len) refl) (λ _. tt))
