-- ===== src/Loop/DryRun.antt =====
-- A dry run of the message loop of src/src/main.c, one that is not to commit: no message changes the
-- device.
use ufp_ffu_device_efi.Prelude.{
  ℕ, ◌≡◌, ◌≢◌, ◌⊎◌, inl, inr, refl, ◌∙◌, arith, List, Bool, false, Option, none, some, Bool-cases,
  if_both, ◌==◌, ◌||◌, ◌&&◌, if◌then◌else◌, not,
}
use ufp_ffu_device_efi.Prelude.Buffer.{slice}
use ufp_ffu_device_efi.Efi.{Outcome, ok, err, stuck, Run}
use ufp_ffu_device_efi.Stream.{Media, StreamFlash, ffu_stream_flash_init, ffu_stream_flash_payload}
use ufp_ffu_device_efi.Stream.DryRun.{Calm, ffu_stream_flash_payload-Calm}
use ufp_ffu_device_efi.Secure.{
  Checked, reply, pass, SecureMessage, HeaderChunk, PayloadChunk, check_secure, check_header,
  check_payload,
}
use ufp_ffu_device_efi.Proto.{
  subblock_header_v1, subblock_header_v2, subblock_payload_v1, subblock_payload_v2,
  subblock_payload_v3,
}
use ufp_ffu_device_efi.Loop.Started.{assemble_header-flash_ready}
use ufp_ffu_device_efi.Secure.Assembly.{HeaderBuffer, Placing, assemble_header}
use ufp_ffu_device_efi.Loop.{Loop, Handled, next, stop, undefined}
use ufp_ffu_device_efi.Loop.Flash.{
  PayloadResult, payload_result, final_state, final_status, flash_payload, report_payload,
  keep_header, note_start, start_flash, after_assembly, take_header, handle_header, take_payload,
  handle_checked, handle_secure, forget_v2,
}

-- The device is `d`, and the flasher, if it is started, is on a dry run.
abbrev pub IsDry : {D : Type 0} → D → Loop D → Type 0
IsDry d l = (l.flash.device ≡ d) × ((l.buffer.flash_ready ≡ false) ⊎ (l.flash.dry_run ≢ 0))

-- The same after a message.
abbrev pub StaysDry : {D : Type 0} → D → Handled (Loop D) → Type 0
StaysDry d (next replies l) = IsDry d l
StaysDry d (stop replies st l) = l.flash.device ≡ d
StaysDry d undefined = Unit {0}

ffu_stream_flash_init-dry :
    {D : Type 0} (pool : ℕ → ℕ → Bool) (room : ℕ → Bool) (header : Option (List ℕ)) (size : ℕ)
    (media : Media) (device : D) {ctx : StreamFlash D}
    → ffu_stream_flash_init pool room header size (some media) device false ≡ ok ctx
    → (ctx.device ≡ device) × (ctx.dry_run ≢ 0)
unfolding ffu_stream_flash_init
ffu_stream_flash_init-dry pool room none size media device {ctx} h = cc
ffu_stream_flash_init-dry pool room (some header) size media device {ctx} h = ground arith

module _ {D : Type 0} (write_blocks : D → ℕ → ℕ → List ℕ → ℕ × D) (flush_blocks : Option (D → D))
    (pool : ℕ → ℕ → Bool) (room : ℕ → Bool) (media : Media) (d : D) where
  keep_header-IsDry :
      (after : HeaderBuffer) (l : Loop D)
      → after.flash_ready ≡ l.buffer.flash_ready
      → IsDry d l
      → IsDry d (keep_header after l)
  unfolding keep_header
  keep_header-IsDry after l same dry = ground arith

  note_start-dry :
      (header : Option (List ℕ)) (size : ℕ) (l : Loop D)
      → IsDry d l
      → l.buffer.flash_ready ≡ false
      → StaysDry d (
          note_start
            (ffu_stream_flash_init pool room header size (some media) l.flash.device false)
            l)
  unfolding note_start
  note_start-dry header size l dry idle =
      go (ffu_stream_flash_init pool room header size (some media) l.flash.device false) refl
    where
      go :
          (o : Outcome (StreamFlash D))
          → ffu_stream_flash_init pool room header size (some media) l.flash.device false ≡ o
          → StaysDry d (note_start o l)
      go (ok ctx) e =
          let (same, is_dry) =
            ffu_stream_flash_init-dry pool room header size media l.flash.device {ctx = ctx} e in
          (same ∙ dry.0, inr is_dry)
      go (err st) e = (dry.0, inl idle)
      go stuck e = tt

  start_flash-dry :
      (h : HeaderChunk) (k : ℕ) (l : Loop D)
      → IsDry d l
      → StaysDry d (start_flash write_blocks flush_blocks pool room media false h k l)
  unfolding start_flash
  start_flash-dry h k l dry =
      let size = if k == 0 then l.buffer.header_size else k in
      let received = record l { buffer = record (l.buffer) { header_v2_received = 0 } } in
      if_both (StaysDry d) l.buffer.flash_ready
        (λ ready. if_both (IsDry d) h.header_v2 {x = received} {y = l} (λ v2. dry) (λ v1. dry))
        (λ idle.
          if_both
            (λ r. StaysDry d (
              note_start
                (ffu_stream_flash_init pool room l.buffer.header size (some media) l.flash.device
                  false)
                r))
            h.header_v2 {x = received} {y = l}
            (λ v2. note_start-dry l.buffer.header size received dry idle)
            (λ v1. note_start-dry l.buffer.header size l dry idle))

  -- The flasher's context that a payload leaves.
  DryResult : Loop D → PayloadResult D → Type 0
  DryResult l none = Unit {0}
  DryResult l (some (status, specifier, flash)) =
      (flash.device ≡ d) × ((l.buffer.flash_ready ≡ false) ⊎ (flash.dry_run ≢ 0))

  report_payload-dry :
      (progress : ℕ) (r : PayloadResult D) (l : Loop D)
      → DryResult l r
      → StaysDry d (report_payload write_blocks flush_blocks pool room media false progress r l)
  unfolding report_payload DryResult
  report_payload-dry progress none l dry = tt
  report_payload-dry progress (some (status, specifier, flash)) l dry =
      elim (Bool-cases
        (final_state progress flash == 1 && final_status progress status flash == 0)) [
          | inl ends ↦ rw ends dry.0
          | inr goes_on ↦ rw goes_on dry
        ]

  payload_result-dry :
      (l : Loop D) (r : Run (StreamFlash D))
      → Calm l.flash r.1
      → l.flash.device ≡ d
      → DryResult l (payload_result r)
  unfolding DryResult
  payload_result-dry l (ok u, flash) calm same = (calm.0 ∙ same, inr calm.1)
  payload_result-dry l (err st, flash) calm same = (calm.0 ∙ same, inr calm.1)
  payload_result-dry l (stuck, flash) calm same = tt

  flash_payload-dry :
      (c : PayloadChunk) (msg : List ℕ) (l : Loop D)
      → IsDry d l
      → DryResult l (flash_payload write_blocks flush_blocks pool room media false c msg l)
  unfolding flash_payload DryResult
  flash_payload-dry c msg l (same, inl idle) = rw idle (same, inl refl)
  flash_payload-dry c msg l (same, inr is_dry) =
      let bytes = slice 0 msg c.data_offset c.data_len in
      if_both (DryResult l) (not l.buffer.flash_ready) (λ idle. (same, inr is_dry))
        (λ ready.
          if_both (DryResult l) (c.data_len == 0) (λ none_sent. (same, inr is_dry))
            (λ some_sent.
              if_both (DryResult l) l.dangling (λ lost. tt)
                (λ kept.
                  payload_result-dry l (ffu_stream_flash_payload write_blocks bytes l.flash)
                    (ffu_stream_flash_payload-Calm write_blocks bytes l.flash is_dry) same)))

  after_assembly-dry :
      (h : HeaderChunk) (p : Placing ℕ) (l : Loop D)
      → p.1.flash_ready ≡ l.buffer.flash_ready
      → IsDry d l
      → StaysDry d (after_assembly write_blocks flush_blocks pool room media false h p l)
  unfolding after_assembly
  after_assembly-dry h (reply status specifier, b) l same dry = keep_header-IsDry b l same dry
  after_assembly-dry h (pass k, b) l same dry =
      start_flash-dry h k (keep_header b l) (keep_header-IsDry b l same dry)

  take_header-dry :
      (msg : List ℕ) (c : Checked HeaderChunk) (l : Loop D)
      → IsDry d l
      → StaysDry d (take_header write_blocks flush_blocks pool room media false msg c l)
  unfolding take_header
  take_header-dry msg (reply status specifier) l dry = dry
  take_header-dry msg (pass h) l dry =
      after_assembly-dry h (assemble_header room h msg l.buffer) l
        (assemble_header-flash_ready room h msg l.buffer) dry

  forget_v2-flash_ready :
      (subblock : ℕ) (msg : List ℕ) (len : ℕ) (b : HeaderBuffer)
      → (forget_v2 subblock msg len b).flash_ready ≡ b.flash_ready
  unfolding forget_v2
  forget_v2-flash_ready subblock msg len b = ground arith

  take_payload-dry :
      (m : SecureMessage) (msg : List ℕ) (c : Checked PayloadChunk) (l : Loop D)
      → IsDry d l
      → StaysDry d (take_payload write_blocks flush_blocks pool room media false m msg c l)
  unfolding take_payload
  take_payload-dry m msg (reply status specifier) l dry = dry
  take_payload-dry m msg (pass c) l dry =
      report_payload-dry m.progress
        (flash_payload write_blocks flush_blocks pool room media false c msg l) l
        (flash_payload-dry c msg l dry)

  handle_checked-dry :
      (msg : List ℕ) (len : ℕ) (c : Checked SecureMessage) (l : Loop D)
      → IsDry d l
      → StaysDry d (handle_checked write_blocks flush_blocks pool room media false msg len c l)
  unfolding handle_checked handle_header
  handle_checked-dry msg len (reply status specifier) l dry = dry
  handle_checked-dry msg len (pass m) l dry =
      let b = forget_v2 m.subblock msg len l.buffer in
      let header =
        take_header-dry msg (check_header l.buffer.header_v2_received m.subblock msg len)
          (record l { buffer = b })
          (dry.0, rw (forget_v2-flash_ready m.subblock msg len l.buffer) dry.1) in
      let payload = take_payload-dry m msg (check_payload m msg len) l dry in
      elim (Bool-cases (m.subblock == subblock_header_v1 || m.subblock == subblock_header_v2)) [
        | inl is_header ↦ rw is_header header
        | inr no_header ↦
            elim (Bool-cases (
              m.subblock == subblock_payload_v1
              || (m.subblock == subblock_payload_v2 || m.subblock == subblock_payload_v3))) [
                | inl is_payload ↦ rw (no_header, is_payload) payload
                | inr unknown ↦ rw (no_header, unknown) dry
              ]
      ]

  pub handle_secure-dry :
      (msg : List ℕ) (len : ℕ) (l : Loop D)
      → IsDry d l
      → StaysDry d (handle_secure write_blocks flush_blocks pool room media false msg len l)
  unfolding handle_secure
  handle_secure-dry msg len l dry = handle_checked-dry msg len (check_secure msg len) l dry
