-- ===== src/Loop/DryAsync.antt =====
-- A dry run of the message loop of src/src/main.c: the async messages.
use ufp_ffu_device_efi.Prelude.{
  ℕ, ◌≡◌, arith, List, Bool, false, Option, if_both, ltb, leb, ◌!=◌, ◌==◌, ◌||◌, ◌&&◌,
}
use ufp_ffu_device_efi.Bytes.{byte}
use ufp_ffu_device_efi.Stream.{Media}
use ufp_ffu_device_efi.Loop.{Loop}
use ufp_ffu_device_efi.Loop.Async.{async_start, async_end, async_write, answer_write, handle_async}
use ufp_ffu_device_efi.Loop.DryRun.{IsDry, StaysDry}

module _ {D : Type 0} (write_blocks : D → ℕ → ℕ → List ℕ → ℕ × D) (flush_blocks : Option (D → D))
    (pool : ℕ → ℕ → Bool) (room : ℕ → Bool) (media : Media) (d : D) where
  async_write-dry :
      (msg : List ℕ) (len : ℕ) (l : Loop D)
      → let l' = async_write write_blocks media false msg len l in
        (l'.flash ≡ l.flash) × (l'.buffer ≡ l.buffer)
  unfolding async_write
  async_write-dry msg len l = ground arith

  pub handle_async-dry :
      (msg : List ℕ) (len : ℕ) (l : Loop D)
      → IsDry d l
      → StaysDry d (handle_async write_blocks media false msg len l)
  unfolding handle_async async_start async_end answer_write
  handle_async-dry msg len l dry =
      let (flash, buffer) = async_write-dry msg len l in
      if_both (StaysDry d) (leb 7 len && byte msg 6 == b'S')
        (λ start.
          if_both (StaysDry d) (ltb len 10 || (byte msg 8 != 1 || byte msg 9 != 0)) (λ _. dry)
            (λ _. dry))
        (λ _.
          if_both (StaysDry d) (leb 64 len && byte msg 6 == b'W') (λ write. rw (flash, buffer) dry)
            (λ _. if_both (StaysDry d) (leb 7 len && byte msg 6 == b'E') (λ end'. dry) (λ _. dry)))
