-- ===== src/Loop/Started.antt =====
-- The start of the streaming flasher in the message loop of src/src/main.c, by a whole header in one
-- message.
use ufp_ffu_device_efi.Prelude.{
  ℕ, ◌+◌, ◌<◌, ◌≤◌, ◌≡◌, refl, sym, ap, ◌∙◌, arith, List, [], ◌∷◌, Bool, true, false, none, some,
  ltb, ◌==◌, if◌then◌else◌, length, take, drop, take-all, inr,
}
use ufp_ffu_device_efi.Prelude.Buffer.{slice, take_or-eq-take}
use ufp_ffu_device_efi.Efi.{ok}
use ufp_ffu_device_efi.Proto.{max_header_data}
use ufp_ffu_device_efi.Stream.{StreamFlash, ffu_stream_flash_init}
use ufp_ffu_device_efi.Stream.Front.{with_header, ffu_stream_flash_init-front}
use ufp_ffu_device_efi.Secure.{reply, pass, HeaderChunk, fs_short}
use ufp_ffu_device_efi.Secure.Assembly.{
  HeaderBuffer, Placing, assemble_header, place_chunk, restart_header, grow_header, store_chunk,
}
use ufp_ffu_device_efi.Secure.Chunks.{assemble_header-first}
use ufp_ffu_device_efi.Secure.Requests.{requested_chunk}
use ufp_ffu_device_efi.Loop.{Loop, next}
use ufp_ffu_device_efi.Loop.Flash.{
  take_header, after_assembly, start_flash, keep_header, note_start,
}
use ufp_ffu_device_efi.Loop.Dispatch.{Host}
use ufp_ffu_device_efi.Loop.Sent.{header_branch}

pub assemble_header-flash_ready :
    (room : ℕ → Bool) (h : HeaderChunk) (msg : List ℕ) (b : HeaderBuffer)
    → (assemble_header room h msg b).1.flash_ready ≡ b.flash_ready
unfolding assemble_header place_chunk restart_header grow_header store_chunk
assemble_header-flash_ready room h msg b = ground arith

-- Locals from before any header.
pub record IsIdle {D : Type 0} (l : Loop D) : Type 0 where
  pub not_ready : l.buffer.flash_ready ≡ false
  pub no_header : l.buffer.header ≡ none
  pub no_size : l.buffer.header_size ≡ 0
  pub no_cap : l.buffer.header_cap ≡ 0
  pub none_received : l.buffer.header_v2_received ≡ 0
  pub not_dangling : l.dangling ≡ false

-- Locals of a flash that is under way, with its header in place.
pub record IsFlashing {D : Type 0} (l : Loop D) : Type 0 where
  pub is_ready : l.buffer.flash_ready ≡ true
  pub kept : l.dangling ≡ false

keep_header-idle :
    {D : Type 0} (b : HeaderBuffer) (l : Loop D)
    → l.buffer.flash_ready ≡ false
    → keep_header b l ≡ record l { buffer = b }
unfolding keep_header
keep_header-idle b l idle = rw idle refl

-- The header's chunk in a message that has the header behind the frame.
whole_chunk : (p bytes : List ℕ) → drop 60 p ≡ bytes → slice 0 p 60 (length bytes) ≡ bytes
whole_chunk p bytes behind = rw behind (
    take_or-eq-take (length bytes) 0 bytes (omega arith)
    ∙ take-all (length bytes) bytes (omega arith))

module _ {D V : Type 0} (host : Host D V) where
  -- The locals after the start.
  abbrev started_loop : StreamFlash D → Loop D → Loop D
  started_loop ctx l = record l {
    flash = ctx;
    buffer = record (l.buffer) { header_v2_received = 0; flash_ready = true };
  }

  start_flash-starts :
      (h : HeaderChunk) (k : ℕ) (buf : List ℕ) (l : Loop D) {ctx : StreamFlash D}
      → h.header_v2 ≡ true
      → 0 < k
      → l.buffer.flash_ready ≡ false
      → l.buffer.header ≡ some buf
      → ffu_stream_flash_init host.pool host.room
          (some buf)
          k
          (some host.media)
          l.flash.device
          host.commit
        ≡ ok ctx
      → start_flash host.write_blocks host.flush_blocks host.pool host.room host.media host.commit h
          k l
        ≡ next (fs_short 0 0 ∷ []) (started_loop ctx l)
  unfolding start_flash note_start
  start_flash-starts h k buf l {ctx} v2 some' idle there accepted =
      let positive : (k == 0) ≡ false = ground arith in
      rw (positive, v2, idle, there, accepted) refl

  module _ (always : (n : ℕ) → host.room n ≡ true) where
    -- A whole header that the flasher accepts starts it: the reply is status 0, and the context is
    -- the flasher's, with its header in the loop's buffer.
    pub header_branch-starts :
        (p bytes : List ℕ) (l : Loop D) {ctx : StreamFlash D}
        → IsIdle l
        → 0 < length bytes
        → length bytes ≤ max_header_data
        → drop 60 p ≡ bytes
        → ffu_stream_flash_init host.pool host.room
            (some bytes)
            (length bytes)
            (some host.media)
            l.flash.device
            host.commit
          ≡ ok ctx
        → (buf : List ℕ) × (l' : Loop D) × (header_branch host p bytes l
            ≡ next (fs_short 0 0 ∷ []) l')
          × (l'.flash ≡ record ctx { header = buf })
          × (take (length bytes) buf ≡ bytes)
          × IsFlashing l'
    unfolding take_header after_assembly
    header_branch-starts p bytes l {ctx} idle some' small behind accepted =
        let n = length bytes in
        let h = requested_chunk l.buffer.header_v2_received 0 n in
        let (b, assembled, holds, _) =
          assemble_header-first host.room h p l.buffer always idle.not_ready
            (inr (idle.no_header, idle.no_size, idle.no_cap)) refl refl some' (omega arith)
            (omega arith) in
        let plain : 0 + n ≡ n = omega arith in
        let fits : ltb n n ≡ false = ground arith in
        let not_ready : b.flash_ready ≡ false =
          sym (ap (λ (r : Placing ℕ). r.1.flash_ready) assembled)
          ∙ assemble_header-flash_ready host.room h p l.buffer
          ∙ idle.not_ready in
        let front : take n holds.buf ≡ bytes =
          ap (λ xs. take (length xs) holds.buf) (sym (whole_chunk p bytes behind))
          ∙ holds.front
          ∙ whole_chunk p bytes behind in
        let init =
          ffu_stream_flash_init-front holds.buf bytes n front host.pool host.room host.media
            l.flash.device host.commit
          ∙ ap (with_header holds.buf) accepted in
        let started = record ctx { header = holds.buf } in
        (
          holds.buf,
          started_loop started (record l { buffer = b }),
          ap
                (λ r.
                  after_assembly host.write_blocks host.flush_blocks host.pool host.room host.media
                    host.commit h r l)
                (assembled
                  ∙ ap (λ (k : ℕ). (if ltb n k then reply 0 0 else pass k, b)) plain
                  ∙ ap (λ (t : Bool). (if t then reply 0 0 else pass n, b)) fits)
              ∙ rw (keep_header-idle b l idle.not_ready) (
                  start_flash-starts h n holds.buf (record l { buffer = b }) {ctx = started} refl
                    some' not_ready holds.there init),
          refl,
          front,
          record { is_ready = refl; kept = idle.not_dangling },
        )
