-- ===== src/Replies.antt =====
-- The handlers of src/src/main.c that answer from the message, the transport and the device alone:
-- the version block, the partition table, unlock and relock, the empty logs, and the common
-- extension. Each gives the bytes that are sent, `none` where nothing is.
use ufp_ffu_device_efi.Prelude.{
  ℕ, ◌+◌, ◌-◌, ◌*◌, List, [], ◌∷◌, Bool, Option, none, some, ltb, leb, ◌==◌, ◌!=◌, ◌||◌, ◌&&◌, not,
  if◌then◌else◌, replicate,
}
use ufp_ffu_device_efi.Prelude.Buffer.{blit, slice}
use ufp_ffu_device_efi.Word.{u32}
use ufp_ffu_device_efi.Bytes.{byte, rd_be16, rd_be32, wr_be16, wr_be32}
use ufp_ffu_device_efi.Efi.{is_error, efi_success, efi_unsupported, efi_invalid_parameter}
use ufp_ffu_device_efi.Proto.{nokx}
use ufp_ffu_device_efi.Stream.{Media}
use ufp_ffu_device_efi.Frames.{
  cb_response, ext_status8, ext_blob_response, ext_declared_len_response, info_add_block,
  info_add_u32, efi_status_to_wire32, rd_be64_local,
}
use ufp_ffu_device_efi.Params.{known_speed, sectors32, write_size}

-- `info_add_...` on what the ones before have left.
infixl 5 ◌|>◌
abbrev pub ◌|>◌ : List ℕ × ℕ → (List ℕ → ℕ → List ℕ × ℕ) → List ℕ × ℕ
(resp, off) |> add = add resp off

abbrev add_block : ℕ → List ℕ → List ℕ → ℕ → List ℕ × ℕ
add_block id bytes resp off = info_add_block resp off id bytes

abbrev add_u32 : ℕ → ℕ → List ℕ → ℕ → List ℕ × ℕ
add_u32 id value resp off = info_add_u32 resp off id value

-- The block with the count of sectors, where there is a medium.
abbrev add_sectors : Option Media → List ℕ → ℕ → List ℕ × ℕ
add_sectors none resp off = (resp, off)
add_sectors (some media) resp off = info_add_u32 resp off 3 (sectors32 media)

-- The response in its 160 bytes, and the offset behind its last block.
unfoldable pub v_info : ℕ → ℕ → Option Media → List ℕ × ℕ
v_info speed max_transfer media =
    (blit (replicate 160 0) 0 (b'N' ∷ b'O' ∷ b'K' ∷ b'V' ∷ 0 ∷ 2 ∷ 3 ∷ 3 ∷ 5 ∷ 4 ∷ 0 ∷ []), 11)
    |> add_u32 1 (u32 max_transfer)
    |> add_u32 2 (write_size max_transfer)
    |> add_sectors media
    |> add_block 13 (0 ∷ 1 ∷ [])
    |> add_block 15 (3 ∷ 0xff ∷ 0xff ∷ 0 ∷ 0 ∷ 0 ∷ known_speed speed ∷ 0 ∷ 0xff ∷ [])
    |> add_block 16 (1 ∷ 0 ∷ 0x1f ∷ 0 ∷ 0 ∷ [])
    |> add_block 32 (1 ∷ 0 ∷ 0 ∷ 0 ∷ 1 ∷ 0 ∷ 0 ∷ 0 ∷ 4 ∷ [])
    |> add_block 37 (1 ∷ [])

unfoldable pub v_info_response : ℕ → ℕ → Option Media → List ℕ
v_info_response speed max_transfer media =
    let (resp, off) = v_info speed max_transfer media in slice 0 resp 0 off

-- The number of blocks of a partition table, and the status.
unfoldable pub gpt_blocks : ℕ → ℕ × ℕ
gpt_blocks block_size =
    if block_size == 512 then (34, 0) else if block_size == 4096 then (6, 0) else (0, 8)

-- The frame and the blocks as ReadBlocks left them in the reply.
abbrev gpt_frame : ℕ → List ℕ → List ℕ
gpt_frame status blocks = wr_be16 (b'N' ∷ b'O' ∷ b'K' ∷ b'T' ∷ 0 ∷ 0 ∷ 0 ∷ 0 ∷ blocks) 6 status

-- `read_blocks` is the firmware's: the media id, the block address and the size to its status and
-- the bytes.
unfoldable pub handle_get_gpt : (ℕ → Bool) → (ℕ → ℕ → ℕ → ℕ × List ℕ) → Media → Option (List ℕ)
handle_get_gpt room read_blocks media =
    let (block_count, status) = gpt_blocks media.block_size in
    let payload_len = u32 (block_count * media.block_size) in
    if not (room (payload_len + 8))
    then none
    else if status != 0 || payload_len == 0
    then some (gpt_frame status (replicate payload_len 0))
    else let (st, blocks) = read_blocks media.media_id 0 payload_len in
      some (
        if is_error st
        then gpt_frame 2 (replicate payload_len 0)
        else gpt_frame 0 (slice 0 blocks 0 payload_len))

-- The status of an unlock request, and the EFI status with it.
unfoldable pub unlock_status : List ℕ → ℕ → ℕ × ℕ
unlock_status msg len =
    let request_version = if leb 10 len then rd_be32 msg 6 else 0 in
    let token_len = if leb 18 len then rd_be32 msg 14 else 0 in
    if ltb len 18 || request_version != 2
    then (5121, efi_unsupported)
    else if ltb len (token_len + 18)
    then (5122, efi_invalid_parameter)
    else (0, efi_success)

unfoldable pub handle_unlock : List ℕ → ℕ → List ℕ
handle_unlock msg len =
    let (status, op_status) = unlock_status msg len in
    wr_be32 (wr_be16 (blit (replicate 14 0) 0 (nokx b'F' b'I')) 8 status) 10
      (efi_status_to_wire32 op_status)

unfoldable pub handle_relock : List ℕ
handle_relock = wr_be32 (blit (replicate 10 0) 0 (nokx b'F' b'O')) 6 0

unfoldable pub handle_read_empty_log : (ℕ → Bool) → ℕ → ℕ → ℕ → Option (List ℕ)
handle_read_empty_log room max_transfer ext requested_size =
    ext_blob_response room b'F' ext
      (if ltb 0xffe3 requested_size || ltb max_transfer requested_size then 48 else 0) []

-- The requests for files, with the letter D, F or P.
unfoldable pub handle_common_ext_file_stub : (ℕ → Bool) → ℕ → List ℕ → ℕ → ℕ → Option (List ℕ)
handle_common_ext_file_stub room max_transfer msg len ext =
    let refused = λ (status : ℕ). ext_blob_response room b'C' ext status [] in
    let requested = rd_be32 msg 1102 in
    let offset = rd_be64_local msg 1106 in
    let max_payload = if ext == b'P' then 0xfb94 else 0xffe3 in
    if ltb len 1114 || (ext == b'P' && ltb len 1115)
    then refused 8
    else if ltb (u32 max_transfer) requested || ltb max_payload requested
    then refused 48
    else if ext == b'F' && (requested == 0 && offset != 0)
    then refused 8
    else if ext == b'P'
    then if requested == 0 || ltb len (1115 + requested)
      then some (ext_declared_len_response b'C' b'P' 8 0)
      else some (ext_declared_len_response b'C' b'P' 38 requested)
    else if requested == 0
    then refused 38
    else if room requested
    then ext_blob_response room b'C' ext 38 (replicate requested 0)
    else none

-- The modes of a switch request that are answered with success.
unfoldable pub is_switch_mode : ℕ → Bool
is_switch_mode m = m == b'R' || (m == b'T' || (m == b'U' || (m == b'W' || m == b'Z')))

-- How many bytes are echoed: those that the message asks for, as far as it has them.
unfoldable pub echo_length : List ℕ → ℕ → ℕ
echo_length msg len =
    let asked = rd_be32 msg 6 in
    if ltb len 10 then 0 else if ltb (len - 10) asked then u32 (len - 10) else asked

-- `junk` is what is in the buffer on the stack.
unfoldable pub handle_echo : (ℕ → Bool) → List ℕ → List ℕ → ℕ → Option (List ℕ)
handle_echo room junk msg len =
    let echo_len = echo_length msg len in
    let resp =
      if ltb 64 (6 + echo_len) then replicate (6 + echo_len) 0 else slice 0 junk 0 (6 + echo_len) in
    if ltb 64 (6 + echo_len) && not (room (6 + echo_len))
    then none
    else some (blit (blit resp 0 (nokx b'C' b'E')) 6 (slice 0 msg 10 echo_len))

-- The bytes of `send_unknown_response`.
abbrev pub unknown_response : List ℕ
unknown_response = b'N' ∷ b'O' ∷ b'K' ∷ b'U' ∷ []

unfoldable pub handle_common_ext : (ℕ → Bool) → List ℕ → ℕ → List ℕ → ℕ → Option (List ℕ)
handle_common_ext room junk max_transfer msg len =
    let ext = if ltb 5 len then byte msg 5 else 0 in
    let mode = if ltb 6 len then byte msg 6 else 0 in
    let display_id = if leb 8 len then rd_be16 msg 6 else 0xffff in
    if ext == b'B'
    then some (if is_switch_mode mode then cb_response junk 0 0 else cb_response junk 8 mode)
    else if ext == b'C'
    then some (ext_status8 junk b'C' b'C' 0)
    else if ext == b'E'
    then handle_echo room junk msg len
    else if ext == b'M'
    then some (ext_status8 junk b'C' b'M' (if ltb display_id 5 then 0 else 11))
    else if ext == b'D' || (ext == b'F' || ext == b'P')
    then handle_common_ext_file_stub room max_transfer msg len ext
    else some unknown_response
