-- ===== src/Bytes/Align.antt =====
-- `align_up_u64`: the least multiple of the alignment that is not below the value.
use native.Mathlib.Nat.{div-add-mod, mod-lt, mul-mod_right}
use ufp_ffu_device_efi.Prelude.{ℕ, ◌+◌, ◌-◌, ◌*◌, ◌/◌, ◌%◌, ◌^◌, ◌<◌, ◌≤◌, ◌≡◌, arith, ◌⊎◌}
use ufp_ffu_device_efi.Bytes.{align_up_u64}

-- The result in plain arithmetic, where the sum does not pass 2 ^ 64.
align_up_u64_plain :
    (value alignment : ℕ)
    → 0 < alignment
    → value + alignment < 2 ^ 64
    → (value % alignment ≡ 0) × (align_up_u64 value alignment ≡ value)
      ⊎ (0 < value % alignment)
        × (align_up_u64 value alignment ≡ value + alignment - value % alignment)
unfolding align_up_u64
align_up_u64_plain value alignment pos fits = ground (arith, mod-lt value pos)

multiple : (q alignment r : ℕ) → r ≡ alignment * q → r % alignment ≡ 0
multiple q alignment r e = rw (e, mul-mod_right alignment q)

-- With a nonzero alignment and no wrap of the 64-bit sum, the result is a multiple of the
-- alignment, at least the value, and less than one alignment above it.
pub align_up_u64_lem :
    (value alignment : ℕ)
    → 0 < alignment
    → value + alignment < 2 ^ 64
    → (align_up_u64 value alignment % alignment ≡ 0)
      × (value ≤ align_up_u64 value alignment)
      × (align_up_u64 value alignment < value + alignment)
align_up_u64_lem value alignment pos fits = ground (
  arith,
  align_up_u64_plain value alignment,
  mod-lt value pos,
  multiple (value / alignment + 1) alignment (align_up_u64 value alignment),
  div-add-mod value alignment,
)

pub align_up_u64-lt : (value alignment : ℕ) → value < 2 ^ 64 → align_up_u64 value alignment < 2 ^ 64
unfolding align_up_u64
align_up_u64-lt value alignment h = ground arith

-- Without an alignment the value stays.
pub align_up_u64_zero : (value : ℕ) → align_up_u64 value 0 ≡ value
unfolding align_up_u64
align_up_u64_zero value = ground arith
