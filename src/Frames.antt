-- ===== src/Frames.antt =====
-- The replies of the message handlers of src/src/main.c as byte lists: what each function hands to
-- `usb_transport_send`.
use Prim.Native.Nat.{bit_and, bit_or}
use ufp_ffu_device_efi.Prelude.{
  ℕ, ◌+◌, List, [], ◌∷◌, Bool, true, false, Option, none, some, ltb, ◌==◌, ◌&&◌, not, if◌then◌else◌,
  replicate, length,
}
use ufp_ffu_device_efi.Prelude.Buffer.{blit, slice}
use ufp_ffu_device_efi.Word.{u8, u16, u32, u64, ◌<<<◌, ◌>>>◌}
use ufp_ffu_device_efi.Bytes.{byte, poke, rd_be32, wr_be16, wr_be32}
use ufp_ffu_device_efi.Efi.{is_error, efi_not_found}
use ufp_ffu_device_efi.Proto.{nokx}
pub mod Fields
mod Tests

-- A buffer on the stack holds what was there before, `junk`, until it is written.
unfoldable pub cb_response : List ℕ → ℕ → ℕ → List ℕ
cb_response junk status specifier =
    wr_be32 (wr_be16 (blit (slice 0 junk 0 12) 0 (nokx b'C' b'B')) 6 status) 8 specifier

unfoldable pub ext_status8 : List ℕ → ℕ → ℕ → ℕ → List ℕ
ext_status8 junk app ext status = wr_be16 (blit (slice 0 junk 0 8) 0 (nokx app ext)) 6 status

unfoldable pub fw_response : ℕ → ℕ → List ℕ
fw_response param status =
    wr_be32 (poke (wr_be16 (blit (replicate 17 0) 0 (nokx b'F' b'W')) 6 status) 8 0) 9 param

unfoldable pub legacy_flash_response : ℕ → ℕ → ℕ → List ℕ
legacy_flash_response status count specifier =
    let resp = blit (replicate 18 0) 0 (b'N' ∷ b'O' ∷ b'K' ∷ b'F' ∷ []) in
    wr_be32 (wr_be32 (wr_be16 resp 5 status) 10 count) 14 specifier

unfoldable pub ext_declared_len_response : ℕ → ℕ → ℕ → ℕ → List ℕ
ext_declared_len_response app ext status declared_len =
    wr_be32 (wr_be16 (blit (replicate 12 0) 0 (nokx app ext)) 6 status) 8 declared_len

-- `none` where the reply is longer than 64 bytes and the allocation fails: nothing is sent.
unfoldable pub ext_blob_response : (ℕ → Bool) → ℕ → ℕ → ℕ → List ℕ → Option (List ℕ)
ext_blob_response room app ext status data' =
    let total = 12 + length data' in
    if ltb 64 total && not (room total)
    then none
    else let resp = wr_be16 (blit (replicate total 0) 0 (nokx app ext)) 6 status in
      some (blit (wr_be32 resp 8 (u32 (length data'))) 12 data')

unfoldable pub fr_response : (ℕ → Bool) → ℕ → ℕ → List ℕ → Option (List ℕ)
fr_response room param status data' =
    let total = 17 + length data' in
    if ltb 64 total && not (room total)
    then none
    else let resp = wr_be16 (blit (replicate total 0) 0 (nokx b'F' b'R')) 6 status in
      let resp = wr_be32 (poke resp 8 0) 9 param in
      some (blit (wr_be32 resp 13 (u32 (length data'))) 17 data')

unfoldable pub wr_be64_local : List ℕ → ℕ → ℕ → List ℕ
wr_be64_local p i v = wr_be32 (wr_be32 p i (u32 (v >>> 32))) (i + 4) (u32 v)

unfoldable pub rd_be64_local : List ℕ → ℕ → ℕ
rd_be64_local p i = bit_or (u64 (rd_be32 p i <<< 32)) (rd_be32 p (i + 4))

unfoldable pub read_var_status : ℕ → ℕ
read_var_status st = if st == efi_not_found then 10 else if is_error st then 2 else 0

unfoldable pub efi_status_to_wire32 : ℕ → ℕ
efi_status_to_wire32 st =
    let low = u32 (bit_and st 0xffff_ffff) in if is_error st then bit_or 0x8000_0000 low else low

-- The block at `off`, the count of blocks in byte 10, and the offset behind the block.
unfoldable pub info_add_block : List ℕ → ℕ → ℕ → List ℕ → List ℕ × ℕ
info_add_block resp off id data' =
    let resp = poke resp off id in
    let resp = poke resp (off + 1) (u8 (length data' >>> 8)) in
    let resp = poke resp (off + 2) (u8 (length data')) in
    let resp = blit resp (off + 3) data' in
    (poke resp 10 (u8 (byte resp 10 + 1)), off + 3 + length data')

unfoldable pub info_add_u32 : List ℕ → ℕ → ℕ → ℕ → List ℕ × ℕ
info_add_u32 resp off id value = info_add_block resp off id (wr_be32 (replicate 4 0) 0 value)
