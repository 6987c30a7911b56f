-- ===== src/Bytes/Order.antt =====
-- Byte order: what the reads of src/src/uefi_min.c return, and that they undo the stores.
use Prim.Native.Nat.{bit_or}
use ufp_ffu_device_efi.Prelude.{ℕ, ◌+◌, ◌*◌, ◌/◌, ◌%◌, ◌^◌, ◌<◌, ◌≤◌, ◌≡◌, List, length, arith, ap}
use ufp_ffu_device_efi.Prelude.Buffer.{get_or-blit}
use ufp_ffu_device_efi.Word.{IsByte}
use ufp_ffu_device_efi.Word.Bits.{bit_or-shift, shift-bit_or}
use ufp_ffu_device_efi.Bytes.{
  le16, le32, be16, be32, rd_le16, rd_le32, rd_be32, wr_be32, be32_bytes, byte,
}

pub be16-sum : (a b : ℕ) → IsByte a → IsByte b → be16 a b ≡ a * 256 + b
unfolding be16
be16-sum a b ha hb = omega (arith, shift-bit_or 8 a b hb)

pub be32-sum :
    (a b c d : ℕ)
    → IsByte a
    → IsByte b
    → IsByte c
    → IsByte d
    → be32 a b c d ≡ a * 2 ^ 24 + b * 2 ^ 16 + c * 2 ^ 8 + d
unfolding be32
be32-sum a b c d ha hb hc hd = rw (first, second, third) (omega arith)
  where
    first : bit_or (a * 2 ^ 24) (b * 2 ^ 16) ≡ (a * 2 ^ 8 + b) * 2 ^ 16
    first = omega (arith, shift-bit_or 24 a (b * 2 ^ 16) (omega arith))

    second : bit_or ((a * 2 ^ 8 + b) * 2 ^ 16) (c * 2 ^ 8) ≡ (a * 2 ^ 16 + b * 2 ^ 8 + c) * 2 ^ 8
    second = omega (arith, shift-bit_or 16 (a * 2 ^ 8 + b) (c * 2 ^ 8) (omega arith))

    third :
        bit_or ((a * 2 ^ 16 + b * 2 ^ 8 + c) * 2 ^ 8) d ≡ (a * 2 ^ 16 + b * 2 ^ 8 + c) * 2 ^ 8 + d
    third = shift-bit_or 8 (a * 2 ^ 16 + b * 2 ^ 8 + c) d hd

pub le16-sum : (a b : ℕ) → IsByte a → IsByte b → le16 a b ≡ a + b * 256
unfolding le16
le16-sum a b ha hb = omega (arith, bit_or-shift 8 a b ha)

pub le32-sum :
    (a b c d : ℕ)
    → IsByte a
    → IsByte b
    → IsByte c
    → IsByte d
    → le32 a b c d ≡ a + b * 2 ^ 8 + c * 2 ^ 16 + d * 2 ^ 24
unfolding le32
le32-sum a b c d ha hb hc hd =
    rw
      (
        bit_or-shift 8 a b ha,
        bit_or-shift 16 (a + b * 2 ^ 8) c (omega arith),
        bit_or-shift 24 (a + b * 2 ^ 8 + c * 2 ^ 16) d (omega arith),
      )
      (omega arith)

-- The bytes of a word make the word again.
pub be16-bytes : (v : ℕ) → v < 2 ^ 16 → be16 (v / 2 ^ 8 % 2 ^ 8) (v % 2 ^ 8) ≡ v
be16-bytes v h = omega (arith, be16-sum (v / 2 ^ 8 % 2 ^ 8) (v % 2 ^ 8) (omega arith) (omega arith))

pub be32-bytes :
    (v : ℕ)
    → v < 2 ^ 32
    → be32 (v / 2 ^ 24 % 2 ^ 8) (v / 2 ^ 16 % 2 ^ 8) (v / 2 ^ 8 % 2 ^ 8) (v % 2 ^ 8) ≡ v
be32-bytes v h = omega (
  arith,
  be32-sum (v / 2 ^ 24 % 2 ^ 8) (v / 2 ^ 16 % 2 ^ 8) (v / 2 ^ 8 % 2 ^ 8) (v % 2 ^ 8) (omega arith)
      (omega arith) (omega arith) (omega arith),
)

-- Reads are bounded by their type.
pub rd_le16-lt : (p : List ℕ) (i : ℕ) → rd_le16 p i < 2 ^ 16
unfolding rd_le16 le16
rd_le16-lt p i = omega arith

pub rd_le32-lt : (p : List ℕ) (i : ℕ) → rd_le32 p i < 2 ^ 32
unfolding rd_le32 le32
rd_le32-lt p i = omega arith

pub rd_be32-lt : (p : List ℕ) (i : ℕ) → rd_be32 p i < 2 ^ 32
unfolding rd_be32 be32
rd_be32-lt p i = omega arith

-- `wr_be32` then `rd_be32` at the same place gives the value.
pub rd_be32-wr_be32 :
    (p : List ℕ) (i v : ℕ) → i + 4 ≤ length p → v < 2 ^ 32 → rd_be32 (wr_be32 p i v) i ≡ v
unfolding rd_be32
rd_be32-wr_be32 p i v fits small =
    rw
      (
        add_zero_at i,
        get_or-blit p i (be32_bytes v) 0 0 fits (omega arith),
        get_or-blit p i (be32_bytes v) 1 0 fits (omega arith),
        get_or-blit p i (be32_bytes v) 2 0 fits (omega arith),
        get_or-blit p i (be32_bytes v) 3 0 fits (omega arith),
      )
      (be32-bytes v small)
  where
    add_zero_at : (k : ℕ) → byte (wr_be32 p i v) k ≡ byte (wr_be32 p i v) (k + 0)
    add_zero_at k = ap (λ t. byte (wr_be32 p i v) t) (omega arith)
