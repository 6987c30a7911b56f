-- ===== src/Bytes.antt =====
-- src/src/uefi_min.c: memory, byte order and alignment.
use Prim.Native.Nat.{bit_or}
use ufp_ffu_device_efi.Prelude.{
  ℕ, zero, suc, ◌+◌, ◌-◌, ◌*◌, ◌/◌, ◌%◌, ◌^◌, Bool, List, [], ◌∷◌, get_or, drop, if◌then◌else◌,
  ◌==◌, ◌!=◌, replicate,
}
use ufp_ffu_device_efi.Prelude.Buffer.{blit}
use ufp_ffu_device_efi.Word.{u8, u16, u32, u64, sub32, sub64, ◌<<<◌, ◌>>>◌}
pub mod Order
pub mod Align
pub mod Memory
mod Tests

-- `p[i]` of a `uint8_t *p`.
abbrev pub byte : List ℕ → ℕ → ℕ
byte p i = get_or p i 0

-- `p[i] = v`; a write out of the buffer changes nothing.
abbrev pub poke : List ℕ → ℕ → ℕ → List ℕ
poke [] i v = []
poke (x ∷ xs) zero v = v ∷ xs
poke (x ∷ xs) (suc i) v = x ∷ poke xs i v

-- The loop of `memcpy`, at `dst + d` and `src + s` with `len` bytes to go.
unfoldable pub memcpy : List ℕ → ℕ → List ℕ → ℕ → ℕ → List ℕ
memcpy dst d src s zero = dst
memcpy dst d src s (suc len) = memcpy (poke dst d (byte src s)) (d + 1) src (s + 1) len

unfoldable pub memset : List ℕ → ℕ → ℕ → ℕ → List ℕ
memset dst d value zero = dst
memset dst d value (suc len) = memset (poke dst d (u8 value)) (d + 1) value len

-- The result is the 32 bits of an `int`.
unfoldable pub memcmp : List ℕ → List ℕ → ℕ → ℕ
memcmp a b zero = 0
memcmp a b (suc len) =
    let rest = memcmp (drop 1 a) (drop 1 b) len in
    if byte a 0 != byte b 0 then sub32 (byte a 0) (byte b 0) else rest

-- `memset(dst + d, 0, len)`, as the callers use it.
abbrev pub clear : List ℕ → ℕ → ℕ → List ℕ
clear dst d len = blit dst d (replicate len 0)

-- The words that two or four bytes make, first byte first.
unfoldable pub le16 : ℕ → ℕ → ℕ
le16 a b = u16 (bit_or a (b <<< 8))

unfoldable pub le32 : ℕ → ℕ → ℕ → ℕ → ℕ
le32 a b c d = u32 (bit_or (bit_or (bit_or a (b <<< 8)) (c <<< 16)) (d <<< 24))

unfoldable pub be16 : ℕ → ℕ → ℕ
be16 a b = u16 (bit_or (a <<< 8) b)

unfoldable pub be32 : ℕ → ℕ → ℕ → ℕ → ℕ
be32 a b c d = u32 (bit_or (bit_or (bit_or (a <<< 24) (b <<< 16)) (c <<< 8)) d)

-- Reads at `p + i`.
unfoldable pub rd_le16 : List ℕ → ℕ → ℕ
rd_le16 p i = le16 (byte p i) (byte p (i + 1))

unfoldable pub rd_le32 : List ℕ → ℕ → ℕ
rd_le32 p i = le32 (byte p i) (byte p (i + 1)) (byte p (i + 2)) (byte p (i + 3))

unfoldable pub rd_le64 : List ℕ → ℕ → ℕ
rd_le64 p i = u64 (bit_or (rd_le32 p i) (rd_le32 p (i + 4) <<< 32))

unfoldable pub rd_be16 : List ℕ → ℕ → ℕ
rd_be16 p i = be16 (byte p i) (byte p (i + 1))

unfoldable pub rd_be32 : List ℕ → ℕ → ℕ
rd_be32 p i = be32 (byte p i) (byte p (i + 1)) (byte p (i + 2)) (byte p (i + 3))

-- The bytes that `wr_be16` and `wr_be32` store, and the stores at `p + i`.
abbrev pub be16_bytes : ℕ → List ℕ
be16_bytes v = u8 (v >>> 8) ∷ u8 v ∷ []

abbrev pub be32_bytes : ℕ → List ℕ
be32_bytes v = u8 (v >>> 24) ∷ u8 (v >>> 16) ∷ u8 (v >>> 8) ∷ u8 v ∷ []

abbrev pub wr_be16 : List ℕ → ℕ → ℕ → List ℕ
wr_be16 p i v = blit p i (be16_bytes v)

abbrev pub wr_be32 : List ℕ → ℕ → ℕ → List ℕ
wr_be32 p i v = blit p i (be32_bytes v)

unfoldable pub align_up_u64 : ℕ → ℕ → ℕ
align_up_u64 value alignment =
    if alignment == 0
    then value
    else if value % alignment != 0
    then sub64 (u64 (value + alignment)) (value % alignment)
    else value
