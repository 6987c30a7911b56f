-- ===== src/Secure/Assembly.antt =====
-- The assembly of the FFU header from header messages, in `usb_secure_flash_loop` of
-- src/src/main.c.
use ufp_ffu_device_efi.Prelude.{
  ℕ, ◌+◌, ◌*◌, List, Bool, true, false, not, Option, some, none, ltb, ◌==◌, ◌!=◌, ◌||◌, ◌&&◌,
  if◌then◌else◌, replicate,
}
use ufp_ffu_device_efi.Prelude.Buffer.{blit, slice}
use ufp_ffu_device_efi.Word.{u32, u64}
use ufp_ffu_device_efi.Bytes.{align_up_u64}
use ufp_ffu_device_efi.Secure.{Checked, reply, pass, HeaderChunk}

-- The locals of the loop that hold the header: the buffer, of `header_cap` bytes.
pub record HeaderBuffer : Type 0 where
  pub header : Option (List ℕ)
  pub header_size : ℕ
  pub header_cap : ℕ
  pub header_v2_received : ℕ
  pub flash_ready : Bool

-- A reply that ends the handling of the message, or what goes on; and the locals afterwards.
abbrev pub Placing : Type 0 → Type 0
Placing A = Checked A × HeaderBuffer

infixl 5 ◌&=◌
abbrev pub ◌&=◌ : {A B : Type 0} → Placing A → (A → HeaderBuffer → Placing B) → Placing B
(reply status specifier, b) &= next = (reply status specifier, b)
(pass x, b) &= next = next x b

-- The chunk with its place in the buffer, and the sizes `need` and `complete_len`.
pub record ChunkPlace : Type 0 where
  pub copy_offset : ℕ
  pub need : ℕ
  pub complete_len : ℕ

abbrev pub has_header : Option (List ℕ) → Bool
has_header none = false
has_header (some _) = true

-- `if (file_offset == 0) { ... }` of a V2 message: a transfer starts anew.
unfoldable pub restart_header : HeaderBuffer → HeaderBuffer
restart_header b =
    if not b.flash_ready && has_header b.header
    then record b { header = none; header_size = 0; header_cap = 0; header_v2_received = 0 }
    else record b { header_v2_received = 0 }

-- `if (complete_len == 0) complete_len = need;`
abbrev pub placed_at : ℕ → ℕ → ℕ → ChunkPlace
placed_at copy_offset need complete_len = record {
  copy_offset = copy_offset;
  need = need;
  complete_len = if complete_len == 0 then need else complete_len;
}

-- Where the chunk goes, and how many bytes there must be for it and for the whole header. A V1
-- message has set `header_v2_received` to 0.
unfoldable pub place_chunk : HeaderChunk → HeaderBuffer → Placing ChunkPlace
place_chunk h b =
    if h.header_v2
    then if h.file_offset == 0
      then (
        pass (placed_at 0 ((restart_header b).header_v2_received + h.chunk_len) h.total_len),
        restart_header b,
      )
      else if has_header b.header
      then (pass (placed_at h.copy_offset (b.header_v2_received + h.chunk_len) h.total_len), b)
      else (reply 8 h.file_offset, b)
    else let need = u64 (h.file_offset + h.chunk_len) in
      let r = record b { header_v2_received = 0 } in
      if ltb need h.file_offset || (h.total_len != 0 && ltb h.total_len need)
      then (reply 16 h.chunk_len, r)
      else (pass (placed_at h.copy_offset need (if h.total_len == 0 then need else h.total_len)), r)

-- 1 MiB and 128 MiB.
abbrev pub header_step : ℕ
header_step = 1024 * 1024

abbrev pub header_limit : ℕ
header_limit = 128 * 1024 * 1024

-- The buffer of `new_cap` bytes with what there was.
abbrev pub moved_header : Option (List ℕ) → ℕ → ℕ → List ℕ
moved_header none header_size new_cap = replicate new_cap 0
moved_header (some old) header_size new_cap =
    blit (replicate new_cap 0) 0 (slice 0 old 0 header_size)

-- The capacity that the chunk and the whole header need.
unfoldable pub new_capacity : ChunkPlace → ℕ
new_capacity c =
    let cap_need = if ltb c.need c.complete_len then c.complete_len else c.need in
    align_up_u64 (if cap_need == 0 then 1 else cap_need) header_step

-- `room` says whether the allocation of that many bytes succeeds.
unfoldable pub grow_header : (ℕ → Bool) → ChunkPlace → HeaderBuffer → Placing ChunkPlace
grow_header room c b =
    if not (ltb b.header_cap c.need || ltb b.header_cap c.complete_len)
    then (pass c, b)
    else if ltb header_limit (new_capacity c)
    then (reply 4 (u32 (new_capacity c)), b)
    else if not (room (new_capacity c))
    then (reply 1 (u32 (new_capacity c)), b)
    else (
      pass c,
      record b {
        header = some (moved_header b.header b.header_size (new_capacity c));
        header_cap = new_capacity c;
      },
    )

abbrev pub written_header : Option (List ℕ) → ℕ → List ℕ → Option (List ℕ)
written_header none offset bytes = none
written_header (some buf) offset bytes = some (blit buf offset bytes)

-- The copy of the chunk, and the reply while the header is not complete; else the complete length.
unfoldable pub store_chunk : HeaderChunk → List ℕ → ChunkPlace → HeaderBuffer → Placing ℕ
store_chunk h msg c b =
    let header_size = if ltb b.header_size c.need then c.need else b.header_size in
    let stored = record b {
      header = written_header b.header c.copy_offset (slice 0 msg h.data_offset h.chunk_len);
      header_size = header_size;
      header_v2_received = if h.header_v2 then u32 c.need else b.header_v2_received;
    } in
    if c.complete_len != 0 && ltb header_size c.complete_len
    then (reply 0 0, stored)
    else (pass c.complete_len, stored)

-- A header message that passed the checks, up to the start of the flasher.
unfoldable pub assemble_header : (ℕ → Bool) → HeaderChunk → List ℕ → HeaderBuffer → Placing ℕ
assemble_header room h msg b = place_chunk h b &= grow_header room &= store_chunk h msg
