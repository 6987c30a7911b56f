-- ===== src/Secure/Growth.antt =====
-- The growth of the header buffer of src/src/main.c keeps what is in it.
use ufp_ffu_device_efi.Prelude.{
  ℕ, ◌+◌, ◌^◌, ◌<◌, ◌≤◌, ◌≡◌, refl, sym, ap, ◌∙◌, arith, List, [], ◌++◌, Bool, true, false, some,
  none, ltb, ◌||◌, replicate, length, take, length-replicate, length-append, Bool-cases, inl, inr,
}
use ufp_ffu_device_efi.Prelude.Buffer.{blit, slice, take-blit, length-blit, take_or-eq-take}
use ufp_ffu_device_efi.Bytes.Align.{align_up_u64_lem}
use ufp_ffu_device_efi.Secure.{pass}
use ufp_ffu_device_efi.Secure.Assembly.{
  HeaderBuffer, ChunkPlace, header_step, header_limit, moved_header, new_capacity, grow_header,
}

-- The buffer holds these bytes at its front, and nothing is known to be behind them.
pub record Holds (bytes : List ℕ) (b : HeaderBuffer) : Type 0 where
  pub buf : List ℕ
  pub there : b.header ≡ some buf
  pub sized : b.header_cap ≡ length buf
  pub full : b.header_size ≡ length bytes
  pub inside : length bytes ≤ length buf
  pub front : take (length bytes) buf ≡ bytes

new_capacity-ge :
    (c : ChunkPlace)
    → c.need ≤ c.complete_len
    → c.complete_len < 2 ^ 32
    → (c.complete_len ≤ new_capacity c) × (new_capacity c ≤ c.complete_len + header_step)
unfolding new_capacity
new_capacity-ge c within small = ground (
  arith,
  align_up_u64_lem c.complete_len header_step,
  align_up_u64_lem c.need header_step,
  align_up_u64_lem 1 header_step,
)

-- A copy to a place behind the bytes adds to them.
pub copied-Holds :
    (bytes more buf : List ℕ)
    → length bytes + length more ≤ length buf
    → take (length bytes) buf ≡ bytes
    → take (length (bytes ++ more)) (blit buf (length bytes) more) ≡ bytes ++ more
copied-Holds bytes more buf fits front =
    let len : length (bytes ++ more) ≡ length bytes + length more = length-append bytes more in
    rw len (take-blit buf (length bytes) more fits ∙ ap (λ xs. xs ++ more) front)

moved-front :
    (bytes buf : List ℕ) (size new_cap : ℕ)
    → size ≡ length bytes
    → length bytes ≤ length buf
    → length bytes ≤ new_cap
    → take (length bytes) buf ≡ bytes
    → take (length bytes) (moved_header (some buf) size new_cap) ≡ bytes
moved-front bytes buf size new_cap full inside fits front =
    let whole : slice 0 buf 0 size ≡ bytes =
      rw full (take_or-eq-take (length bytes) 0 buf inside ∙ front) in
    rw whole (
      copied-Holds [] bytes (replicate new_cap 0)
        (omega (arith, length-replicate {A = ℕ} new_cap 0)) refl)

-- Growing keeps the bytes and makes room.
pub grow_header-Holds :
    (room : ℕ → Bool) (c : ChunkPlace) (b : HeaderBuffer) (bytes : List ℕ)
    → ((n : ℕ) → room n ≡ true)
    → c.need ≤ c.complete_len
    → c.complete_len + header_step ≤ header_limit
    → length bytes ≤ c.need
    → Holds bytes b
    → (b' : HeaderBuffer) × (grow_header room c b ≡ (pass c, b'))
      × Holds bytes b'
      × (c.need ≤ b'.header_cap)
      × (b'.header_v2_received ≡ b.header_v2_received)
unfolding grow_header
grow_header-Holds room c b bytes always within small behind h =
    elim (Bool-cases (ltb b.header_cap c.need || ltb b.header_cap c.complete_len)) [
      | inr enough ↦ (b, rw (enough, grow_header) refl, h, ground arith, refl)
      | inl more ↦
          let (enough, little) = new_capacity-ge c within (omega arith) in
          let limited : ltb header_limit (new_capacity c) ≡ false = ground arith in
          (
            record b {
              header = some (moved_header (some h.buf) (b.header_size) (new_capacity c));
              header_cap = new_capacity c;
            },
            rw (more, limited, always (new_capacity c), h.there, grow_header) refl,
            record {
              buf = moved_header (some h.buf) (b.header_size) (new_capacity c);
              there = refl;
              sized = sym (
                  length-blit (replicate (new_capacity c) 0) 0 (slice 0 h.buf 0 b.header_size)
                  ∙ length-replicate {A = ℕ} (new_capacity c) 0);
              full = h.full;
              inside = omega (
                arith,
                length-blit (replicate (new_capacity c) 0) 0 (slice 0 h.buf 0 b.header_size),
                length-replicate {A = ℕ} (new_capacity c) 0,
              );
              front =
                  moved-front bytes h.buf b.header_size (new_capacity c) h.full h.inside
                    (omega arith) h.front;
            },
            omega arith,
            refl,
          )
    ]

-- Without a buffer there is a new one, for nothing so far.
pub grow_header-fresh :
    (room : ℕ → Bool) (c : ChunkPlace) (b : HeaderBuffer)
    → ((n : ℕ) → room n ≡ true)
    → b.header ≡ none
    → b.header_size ≡ 0
    → b.header_cap ≡ 0
    → 0 < c.need
    → c.need ≤ c.complete_len
    → c.complete_len + header_step ≤ header_limit
    → (b' : HeaderBuffer) × (grow_header room c b ≡ (pass c, b'))
      × Holds [] b'
      × (c.need ≤ b'.header_cap)
unfolding grow_header
grow_header-fresh room c b always absent empty none_yet some' within small =
    let (enough, little) = new_capacity-ge c within (omega arith) in
    let limited : ltb header_limit (new_capacity c) ≡ false = ground arith in
    let more : (ltb b.header_cap c.need || ltb b.header_cap c.complete_len) ≡ true = ground arith in
    (
      record b { header = some (replicate (new_capacity c) 0); header_cap = new_capacity c },
      rw (more, limited, always (new_capacity c), absent, grow_header) refl,
      record {
        buf = replicate (new_capacity c) 0;
        there = refl;
        sized = sym (length-replicate {A = ℕ} (new_capacity c) 0);
        full = empty;
        inside = omega arith;
        front = refl;
      },
      omega arith,
    )
