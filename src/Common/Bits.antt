-- ===== src/Common/Bits.antt =====
-- Facts about `bit_or` at variables, and tables of the bit operations over three bits.
use Prim.Native.Nat.{
  ℕ, zero, suc, ◌+◌, ◌*◌, ◌/◌, ◌%◌, ◌≤◌, ◌<◌, max, bit_or, digits, bit_or-bitwise,
}
use mathlib.Core.Path.{◌≡◌, refl, sym, ◌∙◌}
use native.Mathlib.Decide.{dec_lt}
use mathlib.Core.Bool.{Bool, true, ◌&&◌}
use native.Mathlib.Omega.{arith}

-- The digit recursion behind `bit_or`.
abbrev or_digits : ℕ → ℕ → ℕ → ℕ
or_digits n a b = digits (λ b. b) max n a b

or_digits-zero : (n b : ℕ) → or_digits n 0 b ≡ b
or_digits-zero zero b = refl
or_digits-zero (suc n) b = refl

-- Any two counts that are large enough serve.
or_digits_agree : (n m a b : ℕ) → a ≤ n → a ≤ m → or_digits n a b ≡ or_digits m a b
or_digits_agree n m zero b p q = or_digits-zero n b ∙ sym (or_digits-zero m b)
or_digits_agree zero m (suc a) b p q = absurd (omega arith)
or_digits_agree (suc n) zero (suc a) b p q = absurd (omega arith)
or_digits_agree (suc n) (suc m) (suc a) b p q =
    omega (arith, or_digits_agree n m (suc a / 2) (b / 2) (omega arith) (omega arith))

zero-bit_or : (b : ℕ) → bit_or 0 b ≡ b
zero-bit_or b = bit_or-bitwise 0 b

-- The last digit of `bit_or`, and the others.
pub bit_or_step : (m n : ℕ) → bit_or m n ≡ max (m % 2) (n % 2) + bit_or (m / 2) (n / 2) * 2
bit_or_step zero b = omega (arith, zero-bit_or b, zero-bit_or (b / 2))
bit_or_step (suc a) b =
    let half = suc a / 2 in
    let counts = or_digits_agree a half half (b / 2) (omega arith) (omega arith) in
    omega (arith, bit_or-bitwise (suc a) b, bit_or-bitwise half (b / 2), counts)

bit_or-zero_upto : (n a : ℕ) → a ≤ n → bit_or a 0 ≡ a
bit_or-zero_upto zero a h = let e : a ≡ 0 = omega arith in rw e refl
bit_or-zero_upto (suc n) a h = elim (dec_lt 0 a) [
  | yes p ↦ omega (arith, bit_or_step a 0, bit_or-zero_upto n (a / 2) (omega arith))
  | no p ↦ let e : a ≡ 0 = omega arith in rw e refl
]

pub bit_or-zero : (a : ℕ) → bit_or a 0 ≡ a
bit_or-zero a = bit_or-zero_upto a a (omega arith)

bit_or-double : (a b : ℕ) → bit_or (a * 2) (b * 2) ≡ bit_or a b * 2
bit_or-double a b =
    let ha : a * 2 / 2 ≡ a = omega arith in
    let hb : b * 2 / 2 ≡ b = omega arith in rw (bit_or_step (a * 2) (b * 2), ha, hb) (omega arith)

pub bit_or-shift : (a b : ℕ) → bit_or (a * 8) (b * 8) ≡ bit_or a b * 8
bit_or-shift a b =
    let ea : a * 8 ≡ a * 2 * 2 * 2 = omega arith in
    let eb : b * 8 ≡ b * 2 * 2 * 2 = omega arith in
    rw (ea, eb)
      (omega (
        arith,
        bit_or-double (a * 2 * 2) (b * 2 * 2),
        bit_or-double (a * 2) (b * 2),
        bit_or-double a b,
      ))

bit_or_even : (a b : ℕ) → bit_or (a * 2) b ≡ bit_or a (b / 2) * 2 + b % 2
bit_or_even a b =
    let ha : a * 2 / 2 ≡ a = omega arith in rw (bit_or_step (a * 2) b, ha) (omega arith)

-- The low three bits of a multiple of 8 are free.
pub bit_or_low : (a b : ℕ) → b < 8 → bit_or (a * 8) b ≡ a * 8 + b
bit_or_low a b h =
    let ea : a * 8 ≡ a * 2 * 2 * 2 = omega arith in
    let eb : b / 2 / 2 / 2 ≡ 0 = omega arith in
    let last : bit_or a (b / 2 / 2 / 2) ≡ a = rw eb (bit_or-zero a) in
    rw ea (
      omega (
        arith,
        bit_or_even (a * 2 * 2) b,
        bit_or_even (a * 2) (b / 2),
        bit_or_even a (b / 2 / 2),
        last,
      ))

-- Checks a test of two numbers below 8 at all of them.
abbrev pub row : (ℕ → Bool) → Bool
row p = p 0 && p 1 && p 2 && p 3 && p 4 && p 5 && p 6 && p 7

pub row_sound : (p : ℕ → Bool) (x : ℕ) → row p ≡ true → x < 8 → p x ≡ true
row_sound p zero h l = ground arith
row_sound p (suc zero) h l = ground arith
row_sound p (suc (suc zero)) h l = ground arith
row_sound p (suc (suc (suc zero))) h l = ground arith
row_sound p (suc (suc (suc (suc zero)))) h l = ground arith
row_sound p (suc (suc (suc (suc (suc zero))))) h l = ground arith
row_sound p (suc (suc (suc (suc (suc (suc zero)))))) h l = ground arith
row_sound p (suc (suc (suc (suc (suc (suc (suc zero))))))) h l = ground arith
row_sound p (suc (suc (suc (suc (suc (suc (suc (suc x)))))))) h l = absurd (omega arith)

pub table_sound :
    (p : ℕ → ℕ → Bool) (x y : ℕ) → row (λ a. row (p a)) ≡ true → x < 8 → y < 8 → p x y ≡ true
table_sound p x y h lx ly = row_sound (p x) y (row_sound (λ a. row (p a)) x h lx) ly
