-- ===== src/Secure/Chunks.antt =====
-- The chunks of a header, sent in order, are assembled by src/src/main.c.
use ufp_ffu_device_efi.Prelude.{
  ℕ, ◌+◌, ◌^◌, ◌<◌, ◌≤◌, ◌≡◌, ◌≢◌, sym, ap, ◌∙◌, arith, List, [], ◌++◌, Bool, true, false, none,
  ltb, if◌then◌else◌, length, drop, length-append, inl, inr, ◌⊎◌,
}
use ufp_ffu_device_efi.Prelude.Buffer.{blit, slice, length-blit, length-take_or}
use ufp_ffu_device_efi.Word.{u32}
use ufp_ffu_device_efi.Secure.{reply, pass, HeaderChunk}
use ufp_ffu_device_efi.Secure.Assembly.{
  HeaderBuffer, Placing, ◌&=◌, ChunkPlace, restart_header, has_header, place_chunk, header_step,
  header_limit, grow_header, written_header, store_chunk, assemble_header,
}
use ufp_ffu_device_efi.Secure.Growth.{Holds, copied-Holds, grow_header-Holds, grow_header-fresh}

abbrev next_place : HeaderChunk → List ℕ → ChunkPlace
next_place h bytes = record {
  copy_offset = length bytes;
  need = length bytes + h.chunk_len;
  complete_len = h.total_len;
}

place_chunk-next :
    (h : HeaderChunk) (bytes : List ℕ) (b : HeaderBuffer)
    → has_header b.header ≡ true
    → b.header_v2_received ≡ length bytes
    → h.header_v2 ≡ true
    → h.file_offset ≢ 0
    → h.copy_offset ≡ length bytes
    → 0 < h.total_len
    → place_chunk h b ≡ (pass (next_place h bytes), b)
unfolding place_chunk
place_chunk-next h bytes b present received v2 later at some' = ground arith

store_chunk-Holds :
    (h : HeaderChunk) (msg bytes : List ℕ) (b : HeaderBuffer)
    → Holds bytes b
    → h.header_v2 ≡ true
    → length bytes + h.chunk_len ≤ b.header_cap
    → length bytes + h.chunk_len < 2 ^ 32
    → let more = slice 0 msg h.data_offset h.chunk_len in
      (b' : HeaderBuffer) × (store_chunk h msg (next_place h bytes) b ≡ (
        if ltb (length bytes + h.chunk_len) h.total_len then reply 0 0 else pass h.total_len,
        b',
      ))
      × Holds (bytes ++ more) b'
      × (b'.header_v2_received ≡ length (bytes ++ more))
unfolding store_chunk
store_chunk-Holds h msg bytes b holds v2 space small =
    let more = slice 0 msg h.data_offset h.chunk_len in
    let long : length more ≡ h.chunk_len = length-take_or h.chunk_len 0 (drop h.data_offset msg) in
    let len : length (bytes ++ more) ≡ length bytes + h.chunk_len =
      omega (arith, length-append bytes more) in
    (
      record b {
        header = written_header b.header (length bytes) more;
        header_size =
            if ltb b.header_size (length bytes + h.chunk_len)
            then length bytes + h.chunk_len
            else b.header_size;
        header_v2_received =
            if h.header_v2 then u32 (length bytes + h.chunk_len) else b.header_v2_received;
      },
      ground (arith, holds.full),
      record {
        buf = blit holds.buf (length bytes) more;
        there = ap (λ o. written_header o (length bytes) more) holds.there;
        sized = holds.sized ∙ sym (length-blit holds.buf (length bytes) more);
        full = ground (arith, len, holds.full);
        inside = omega (arith, len, length-blit holds.buf (length bytes) more, holds.sized);
        front = copied-Holds bytes more holds.buf (omega (arith, holds.sized)) holds.front;
      },
      ground (arith, len),
    )

-- The next chunk of a V2 header, whose offset is not 0, where the buffer holds the bytes received so
-- far, every allocation succeeds, and the chunk does not pass a total of at most 127 MiB: the
-- buffer then holds the bytes and the chunk behind them, and the device replies that there is more
-- to come, or goes on with the complete header.
pub assemble_header-next :
    (room : ℕ → Bool) (h : HeaderChunk) (msg bytes : List ℕ) (b : HeaderBuffer)
    → ((n : ℕ) → room n ≡ true)
    → Holds bytes b
    → b.header_v2_received ≡ length bytes
    → h.header_v2 ≡ true
    → h.file_offset ≢ 0
    → h.copy_offset ≡ length bytes
    → length bytes + h.chunk_len ≤ h.total_len
    → h.total_len + header_step ≤ header_limit
    → 0 < h.total_len
    → let more = slice 0 msg h.data_offset h.chunk_len in
      (b' : HeaderBuffer) × (assemble_header room h msg b ≡ (
        if ltb (length bytes + h.chunk_len) h.total_len then reply 0 0 else pass h.total_len,
        b',
      ))
      × Holds (bytes ++ more) b'
      × (b'.header_v2_received ≡ length (bytes ++ more))
unfolding assemble_header
assemble_header-next room h msg bytes b always holds received v2 later at fits small some' =
    let c = next_place h bytes in
    let (b₁, grown, holds₁, space, _) =
      grow_header-Holds room c b bytes always fits small (omega arith) holds in
    let (b', stored, holds', received') =
      store_chunk-Holds h msg bytes b₁ holds₁ v2 space (omega arith) in
    (
      b',
      ap (λ (r : Placing ChunkPlace). r &= grow_header room &= store_chunk h msg)
            (place_chunk-next h bytes b (ap has_header holds.there) received v2 later at some')
          ∙ ap (λ (r : Placing ChunkPlace). r &= store_chunk h msg) grown
          ∙ stored,
      holds',
      received',
    )

restart_header-empty :
    (b : HeaderBuffer)
    → b.flash_ready ≡ false
    → (has_header b.header ≡ true) ⊎ ((b.header ≡ none) × (b.header_size ≡ 0) × (b.header_cap ≡ 0))
    → let r = restart_header b in (r.header ≡ none) × (r.header_size ≡ 0) × (r.header_cap ≡ 0)
unfolding restart_header
restart_header-empty b idle (inl present) = ground arith
restart_header-empty b idle (inr (absent, empty, none_yet)) = ground arith

place_chunk-first :
    (h : HeaderChunk) (b : HeaderBuffer)
    → h.header_v2 ≡ true
    → h.file_offset ≡ 0
    → 0 < h.total_len
    → place_chunk h b ≡ (pass (next_place h []), restart_header b)
unfolding place_chunk restart_header
place_chunk-first h b v2 first some' = ground arith

-- The first chunk of a V2 header, at offset 0, before a flash has begun and where every allocation
-- succeeds: what a transfer before left is dropped, the buffer then holds the chunk, and the device
-- replies that there is more to come, or goes on with the complete header. The total is at most
-- 127 MiB and there is a byte in the chunk.
pub assemble_header-first :
    (room : ℕ → Bool) (h : HeaderChunk) (msg : List ℕ) (b : HeaderBuffer)
    → ((n : ℕ) → room n ≡ true)
    → b.flash_ready ≡ false
    → (has_header b.header ≡ true) ⊎ ((b.header ≡ none) × (b.header_size ≡ 0) × (b.header_cap ≡ 0))
    → h.header_v2 ≡ true
    → h.file_offset ≡ 0
    → 0 < h.chunk_len
    → h.chunk_len ≤ h.total_len
    → h.total_len + header_step ≤ header_limit
    → let chunk = slice 0 msg h.data_offset h.chunk_len in
      (b' : HeaderBuffer) × (assemble_header room h msg b
        ≡ (if ltb h.chunk_len h.total_len then reply 0 0 else pass h.total_len, b'))
      × Holds chunk b'
      × (b'.header_v2_received ≡ length chunk)
unfolding assemble_header
assemble_header-first room h msg b always idle before v2 first some' fits small =
    let c = next_place h [] in
    let (absent, empty, none_yet) = restart_header-empty b idle before in
    let (b₁, grown, holds₁, space) =
      grow_header-fresh room c (restart_header b) always absent empty none_yet (omega arith)
        (omega arith) small in
    let (b', stored, holds', received') =
      store_chunk-Holds h msg [] b₁ holds₁ v2 space (omega arith) in
    let plain : 0 + h.chunk_len ≡ h.chunk_len = omega arith in
    (
      b',
      ap (λ (r : Placing ChunkPlace). r &= grow_header room &= store_chunk h msg)
            (place_chunk-first h b v2 first (omega arith))
          ∙ ap (λ (r : Placing ChunkPlace). r &= store_chunk h msg) grown
          ∙ stored
          ∙ ap (λ n. (if ltb n h.total_len then reply 0 0 else pass h.total_len, b')) plain,
      holds',
      received',
    )
