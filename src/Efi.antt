-- ===== src/Efi.antt =====
-- EFI_STATUS values of src/include/uefi_min.h, and the results of the code that returns them.
use Prim.Native.Nat.{bit_or, bit_and}
use ufp_ffu_device_efi.Prelude.{ℕ, ◌≡◌, Bool, ◌!=◌, refl, true, false, ◌⊎◌, inl, inr, ◌≢◌}

abbrev pub efi_error_bit : ℕ
efi_error_bit = 0x8000_0000_0000_0000

-- EFIERR
abbrev pub efi_err : ℕ → ℕ
efi_err x = bit_or efi_error_bit x

abbrev pub efi_success : ℕ
efi_success = 0

abbrev pub efi_invalid_parameter : ℕ
efi_invalid_parameter = efi_err 2

abbrev pub efi_unsupported : ℕ
efi_unsupported = efi_err 3

abbrev pub efi_bad_buffer_size : ℕ
efi_bad_buffer_size = efi_err 4

abbrev pub efi_buffer_too_small : ℕ
efi_buffer_too_small = efi_err 5

abbrev pub efi_out_of_resources : ℕ
efi_out_of_resources = efi_err 9

abbrev pub efi_volume_corrupted : ℕ
efi_volume_corrupted = efi_err 10

abbrev pub efi_not_found : ℕ
efi_not_found = efi_err 14

abbrev pub efi_aborted : ℕ
efi_aborted = efi_err 21

abbrev pub efi_end_of_file : ℕ
efi_end_of_file = efi_err 31

-- EFI_ERROR
abbrev pub is_error : ℕ → Bool
is_error st = bit_and st efi_error_bit != 0

-- What a function returns that gives EFI_SUCCESS with a value, or an error status. `stuck` is no
-- value of the code: a loop of the model ran out of its fuel.
pub data Outcome {ℓ} (A : Type ℓ) : Type ℓ where
  ok : A → Outcome A
  err : ℕ → Outcome A
  stuck : Outcome A

infixl 5 ◌>>=◌ ◌>>◌
abbrev pub ◌>>=◌ {ℓ κ} : {A : Type ℓ} {B : Type κ} → Outcome A → (A → Outcome B) → Outcome B
stuck >>= next = stuck
err st >>= next = err st
ok x >>= next = next x

abbrev pub ◌>>◌ {ℓ} : {B : Type ℓ} → Outcome (Unit {0}) → Outcome B → Outcome B
m >> k = m >>= λ _. k

-- `if (refuse) return st;`
abbrev pub refuse : Bool → ℕ → Outcome (Unit {0})
refuse true st = err st
refuse false st = ok tt

-- Inversion of a successful chain.
pub >>=-eq-ok {ℓ κ} :
    {A : Type ℓ} {B : Type κ} (m : Outcome A) (next : A → Outcome B) {b : B}
    → (m >>= next) ≡ ok b
    → (x : A) × (m ≡ ok x) × (next x ≡ ok b)
>>=-eq-ok stuck next h = cc
>>=-eq-ok (err st) next h = cc
>>=-eq-ok (ok x) next h = (x, refl, h)

pub refuse-eq-ok : (b : Bool) (st : ℕ) {u : Unit {0}} → refuse b st ≡ ok u → b ≡ false
refuse-eq-ok true st h = cc
refuse-eq-ok false st h = refl

pub outcome_cases :
    {A : Type 0} (m : Outcome A) → m ≢ stuck → ((a : A) × (m ≡ ok a)) ⊎ ((st : ℕ) × (m ≡ err st))
outcome_cases (ok a) h = inl (a, refl)
outcome_cases (err st) h = inr (st, refl)
outcome_cases stuck h = absurd (h refl)

-- What a function returns that works on an object its caller owns: the status, and the object as
-- the function leaves it, whatever the status.
abbrev pub Run : Type 0 → Type 0
Run C = Outcome (Unit {0}) × C

infixl 5 ◌&>◌
-- `st = f(object); if (EFI_ERROR(st)) return st;` and what follows.
abbrev pub ◌&>◌ : {C : Type 0} → Run C → (C → Run C) → Run C
(ok u, c) &> f = f c
(err st, c) &> f = (err st, c)
(stuck, c) &> f = (stuck, c)

pub &>-assoc : {C : Type 0} (r : Run C) (f g : C → Run C) → ((r &> f) &> g) ≡ (r &> λ c. f c &> g)
&>-assoc (ok u, c) f g = refl
&>-assoc (err st, c) f g = refl
&>-assoc (stuck, c) f g = refl

pub &>-eq-ok :
    {C : Type 0} (r : Run C) (f : C → Run C) {c' : C}
    → (r &> f) ≡ (ok tt, c')
    → (c : C) × (r ≡ (ok tt, c)) × (f c ≡ (ok tt, c'))
&>-eq-ok (ok tt, c) f h = (c, refl, h)
&>-eq-ok (err st, c) f h = cc
&>-eq-ok (stuck, c) f h = cc

pub &>-ok : {C : Type 0} (r : Run C) → (r &> λ c. (ok tt, c)) ≡ r
&>-ok (ok tt, c) = refl
&>-ok (err st, c) = refl
&>-ok (stuck, c) = refl

pub &>-cong :
    {C : Type 0} (r : Run C) (f g : C → Run C)
    → ((c : C) → r ≡ (ok tt, c) → f c ≡ g c)
    → (r &> f) ≡ (r &> g)
&>-cong (ok tt, c) f g h = h c refl
&>-cong (err st, c) f g h = refl
&>-cong (stuck, c) f g h = refl
