-- ===== src/Loop/DryMessages.antt =====
-- A dry run of the message loop of src/src/main.c over all messages: the device stays as it is.
use mathlib.Core.Path.{subst}
use ufp_ffu_device_efi.Prelude.{
  ℕ, ◌≡◌, inl, inr, sym, ◌∙◌, List, [], ◌∷◌, false, Option, none, some, if_both, ltb, ◌!=◌, ◌==◌,
  ◌||◌, ◌&&◌, if◌then◌else◌,
}
use ufp_ffu_device_efi.Bytes.{byte}
use ufp_ffu_device_efi.Efi.{efi_success}
use ufp_ffu_device_efi.Replies.{handle_common_ext}
use ufp_ffu_device_efi.Legacy.Writes.{handle_legacy_flash-device}
use ufp_ffu_device_efi.Loop.{
  Loop, Handled, next, stop, undefined, within, and_then, behind, Message,
}
use ufp_ffu_device_efi.Loop.Flash.{handle_secure}
use ufp_ffu_device_efi.Loop.Async.{handle_async}
use ufp_ffu_device_efi.Loop.Dispatch.{
  Machine, Host, Received, message, failed, sends, take_legacy, take_write_param, take_common,
  take_flash_app, take_extended, take_nok, handle_message, handle_received, serve,
}
use ufp_ffu_device_efi.Loop.DryRun.{IsDry, StaysDry, handle_secure-dry}
use ufp_ffu_device_efi.Loop.DryAsync.{handle_async-dry}

-- The device and the flasher of the whole program.
abbrev pub DryMachine : {D V : Type 0} → D → Handled (Machine D V) → Type 0
DryMachine d (next replies m) = IsDry d m.loop
DryMachine d (stop replies st m) = m.loop.flash.device ≡ d
DryMachine d undefined = Unit {0}

module _ {D V : Type 0} (host : Host D V) (d : D) (dry_run : host.commit ≡ false) where
  within-dry :
      (m : Machine D V) (x : Handled (Loop D))
      → StaysDry d x
      → DryMachine d (within (λ l. record m { loop = l }) x)
  within-dry m (next replies l) dry = dry
  within-dry m (stop replies st l) dry = dry
  within-dry m undefined dry = tt

  sends-dry : (o : Option (List ℕ)) (m : Machine D V) → IsDry d m.loop → DryMachine d (sends o m)
  sends-dry none m dry = dry
  sends-dry (some sent) m dry = dry

  behind-dry :
      (replies : List (List ℕ)) (x : Handled (Machine D V))
      → DryMachine d x
      → DryMachine d (behind replies x)
  behind-dry replies (next more m) dry = dry
  behind-dry replies (stop more st m) dry = dry
  behind-dry replies undefined dry = tt

  and_then-dry :
      (x : Handled (Machine D V)) (f : Machine D V → Handled (Machine D V))
      → DryMachine d x
      → ((m : Machine D V) → IsDry d m.loop → DryMachine d (f m))
      → DryMachine d (and_then x f)
  and_then-dry (next replies m) f dry h = behind-dry replies (f m) (h m dry)
  and_then-dry (stop replies st m) f dry h = dry
  and_then-dry undefined f dry h = tt

  take_legacy-dry :
      (g : Message) (m : Machine D V) → IsDry d m.loop → DryMachine d (take_legacy host g m)
  unfolding take_legacy
  take_legacy-dry g m dry =
      elim (handle_legacy_flash-device host.write_blocks host.media host.commit g.bytes g.len
        m.loop.flash.device) [
          | inl same ↦ (same ∙ dry.0, dry.1)
          | inr wrote ↦ cc (wrote.0, dry_run)
        ]

  take_common-dry :
      (g : Message) (m : Machine D V) → IsDry d m.loop → DryMachine d (take_common host g m)
  unfolding take_common
  take_common-dry g m dry =
      let answered =
        sends-dry (handle_common_ext host.room host.junk host.max_transfer g.bytes g.len) m dry in
      let mode = if byte g.bytes 5 == b'B' && ltb 6 g.len then byte g.bytes 6 else 0 in
      if_both (DryMachine d) (byte g.bytes 5 == b'B' && mode == b'R')
        (λ _. and_then-dry _ (λ m. stop [] efi_success m) answered (λ m dry. dry.0)) (λ _. answered)

  take_flash_app-dry :
      (g : Message) (m : Machine D V) → IsDry d m.loop → DryMachine d (take_flash_app host g m)
  unfolding take_flash_app take_write_param
  take_flash_app-dry g m dry =
      let async =
        subst (λ c. StaysDry d (handle_async host.write_blocks host.media c g.bytes g.len m.loop))
          (sym dry_run)
          (handle_async-dry host.write_blocks host.flush_blocks host.pool host.room host.media d
            g.bytes g.len m.loop dry) in
      let secure =
        subst
          (λ c. StaysDry d (
            handle_secure host.write_blocks host.flush_blocks host.pool host.room host.media c
              g.bytes g.len m.loop))
          (sym dry_run)
          (handle_secure-dry host.write_blocks host.flush_blocks host.pool host.room host.media d
            g.bytes g.len m.loop dry) in
      if_both (DryMachine d) (byte g.bytes 5 == b'R') (λ _. sends-dry _ m dry)
        (λ _.
          if_both (DryMachine d) (byte g.bytes 5 == b'W') (λ _. dry)
            (λ _.
              if_both (DryMachine d) (byte g.bytes 5 == b'I') (λ _. dry)
                (λ _.
                  if_both (DryMachine d) (byte g.bytes 5 == b'O') (λ _. dry)
                    (λ _.
                      if_both (DryMachine d) (byte g.bytes 5 == b'T') (λ _. sends-dry _ m dry)
                        (λ _.
                          if_both (DryMachine d) (byte g.bytes 5 == b'X') (λ _. sends-dry _ m dry)
                            (λ _.
                              if_both (DryMachine d) (byte g.bytes 5 == b'F')
                                (λ _. within-dry m _ async)
                                (λ _.
                                  if_both (DryMachine d) (byte g.bytes 5 == b'S')
                                    (λ _. within-dry m _ secure) (λ _. dry))))))))

  handle_message-dry :
      (g : Message) (m : Machine D V) → IsDry d m.loop → DryMachine d (handle_message host g m)
  unfolding handle_message take_nok take_extended
  handle_message-dry g m dry =
      if_both (DryMachine d) (ltb g.len 4) (λ _. dry)
        (λ _.
          if_both (DryMachine d)
            (byte g.bytes 0 != b'N' || (byte g.bytes 1 != b'O' || byte g.bytes 2 != b'K'))
            (λ _. dry)
            (λ _.
              if_both (DryMachine d) (byte g.bytes 3 == b'I') (λ _. dry)
                (λ _.
                  if_both (DryMachine d) (byte g.bytes 3 == b'V') (λ _. dry)
                    (λ _.
                      if_both (DryMachine d)
                        (byte g.bytes 3 == b'R'
                          || (byte g.bytes 3 == b'M' || byte g.bytes 3 == b'Z'))
                        (λ _. dry.0)
                        (λ _.
                          if_both (DryMachine d) (byte g.bytes 3 == b'S' || byte g.bytes 3 == b'N')
                            (λ _. dry)
                            (λ _.
                              if_both (DryMachine d) (byte g.bytes 3 == b'T')
                                (λ _. sends-dry _ m dry)
                                (λ _.
                                  if_both (DryMachine d) (byte g.bytes 3 == b'F')
                                    (λ _. take_legacy-dry g m dry)
                                    (λ _.
                                      if_both (DryMachine d) (ltb g.len 6 || byte g.bytes 3 != b'X')
                                        (λ _. dry)
                                        (λ _.
                                          if_both (DryMachine d) (byte g.bytes 4 == b'C')
                                            (λ _. take_common-dry g m dry)
                                            (λ _.
                                              if_both (DryMachine d) (byte g.bytes 4 == b'F')
                                                (λ _. take_flash_app-dry g m dry)
                                                (λ _. dry)))))))))))

  -- On a run that is not to commit, whatever is received leaves the device as it is, as long as the
  -- flasher, if it is started, is on a dry run; and so it stays.
  pub serve-dry_run :
      (rs : List Received) (m : Machine D V) → IsDry d m.loop → DryMachine d (serve host rs m)
  unfolding serve handle_received
  serve-dry_run [] m dry = dry
  serve-dry_run (failed st ∷ rs) m dry = dry.0
  serve-dry_run (message g ∷ rs) m dry =
      and_then-dry (handle_message host g m) (serve host rs) (handle_message-dry g m dry)
        (serve-dry_run rs)
