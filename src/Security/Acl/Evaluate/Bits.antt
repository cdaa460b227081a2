-- ===== src/Security/Acl/Evaluate/Bits.antt =====
-- The three permissions as bits: facts about `&`, `|` and `!`, from tables over all values below 8.
use argos_fs.Common.Bits.{row, row_sound, table_sound}
use argos_fs.Common.{
  ℕ, ◌<◌, ◌≡◌, refl, inl, inr, Bool-cases, Bool, true, false, ◌&&◌, ◌||◌, not, arith, ltb, ltb→lt,
  ◌==◌, ==_iff,
}
use argos_fs.Security.Acl.Evaluate.{has_bit, clear_bits, grants}
use Prim.Native.Nat.{bit_and, bit_or}

pub data Permission : Type 0 where
  read write execute : Permission

abbrev pub bit : Permission → ℕ
bit read = 4
bit write = 2
bit execute = 1

abbrev equal : Bool → Bool → Bool
equal true b = b
equal false b = not b

equal→≡ : (a b : Bool) → equal a b ≡ true → a ≡ b
equal→≡ a b h = ground arith

abbrev common_bit : ℕ → ℕ → Bool
common_bit p r =
    has_bit r 4 && has_bit p 4 || has_bit r 2 && has_bit p 2 || has_bit r 1 && has_bit p 1

common_table : row (λ p. row (λ r. equal (bit_and p r == 0) (not (common_bit p r)))) ≡ true
common_table = refl

bit_and-eq_zero : (p r : ℕ) → p < 8 → r < 8 → (bit_and p r == 0) ≡ not (common_bit p r)
bit_and-eq_zero p r hp hr =
    equal→≡ _ _
      (table_sound (λ p r. equal (bit_and p r == 0) (not (common_bit p r))) p r common_table hp hr)

-- Where no bit is common, a bit of one is not of the other.
pub no_common_bit :
    (b : Permission) (p r : ℕ)
    → p < 8
    → r < 8
    → (bit_and p r == 0) ≡ true
    → has_bit r (bit b) ≡ true
    → has_bit p (bit b) ≡ false
no_common_bit read p r hp hr z h = ground (arith, bit_and-eq_zero p r hp hr)
no_common_bit write p r hp hr z h = ground (arith, bit_and-eq_zero p r hp hr)
no_common_bit execute p r hp hr z h = ground (arith, bit_and-eq_zero p r hp hr)

pub some_common_bit :
    (p r : ℕ)
    → p < 8
    → r < 8
    → (bit_and p r == 0) ≡ false
    → (b : Permission) × (has_bit r (bit b) ≡ true) × (has_bit p (bit b) ≡ true)
some_common_bit p r hp hr z =
    let some_bit : common_bit p r ≡ true = ground (arith, bit_and-eq_zero p r hp hr) in
    elim (Bool-cases (has_bit r 4 && has_bit p 4)) [
      | inl h ↦ (read, ground (arith, h), ground (arith, h))
      | inr h ↦ elim (Bool-cases (has_bit r 2 && has_bit p 2)) [
        | inl h' ↦ (write, ground (arith, h'), ground (arith, h'))
        | inr h' ↦ (execute, ground (arith, h, h', some_bit), ground (arith, h, h', some_bit))
      ]
    ]

-- What clearing leaves.
abbrev left_over : ℕ → ℕ → ℕ
left_over p r = clear_bits r (bit_and p r)

abbrev keeps_rest : Permission → ℕ → ℕ → Bool
keeps_rest b p r =
    equal (has_bit (left_over p r) (bit b)) (has_bit r (bit b) && not (has_bit p (bit b)))

keeps_rest_table : (b : Permission) → row (λ p. row (keeps_rest b p)) ≡ true
keeps_rest_table read = refl
keeps_rest_table write = refl
keeps_rest_table execute = refl

pub has_bit-clear_bits :
    (b : Permission) (p r : ℕ)
    → p < 8
    → r < 8
    → has_bit (clear_bits r (bit_and p r)) (bit b) ≡ has_bit r (bit b) && not (has_bit p (bit b))
has_bit-clear_bits b p r hp hr =
    equal→≡ _ _ (table_sound (keeps_rest b) p r (keeps_rest_table b) hp hr)

left_over_table : row (λ p. row (λ r. ltb (left_over p r) 8)) ≡ true
left_over_table = refl

pub clear_bits-lt : (p r : ℕ) → p < 8 → r < 8 → clear_bits r (bit_and p r) < 8
clear_bits-lt p r hp hr =
    ltb→lt _ _ (table_sound (λ p r. ltb (left_over p r) 8) p r left_over_table hp hr)

bit_or_table : row (λ p. row (λ r. ltb (bit_or p r) 8)) ≡ true
bit_or_table = refl

pub bit_or-lt : (p r : ℕ) → p < 8 → r < 8 → bit_or p r < 8
bit_or-lt p r hp hr = ltb→lt _ _ (table_sound (λ p r. ltb (bit_or p r) 8) p r bit_or_table hp hr)

abbrev joins : Permission → ℕ → ℕ → Bool
joins b p r = equal (has_bit (bit_or p r) (bit b)) (has_bit p (bit b) || has_bit r (bit b))

joins_table : (b : Permission) → row (λ p. row (joins b p)) ≡ true
joins_table read = refl
joins_table write = refl
joins_table execute = refl

pub has_bit-bit_or :
    (b : Permission) (p r : ℕ)
    → p < 8
    → r < 8
    → has_bit (bit_or p r) (bit b) ≡ has_bit p (bit b) || has_bit r (bit b)
has_bit-bit_or b p r hp hr = equal→≡ _ _ (table_sound (joins b) p r (joins_table b) hp hr)

abbrev some_bit : ℕ → Bool
some_bit r = r == 0 || has_bit r 4 || has_bit r 2 || has_bit r 1

pub has_some_bit :
    (r : ℕ) → r < 8 → (r == 0) ≡ false → (b : Permission) × (has_bit r (bit b) ≡ true)
has_some_bit r hr z =
    let h : some_bit r ≡ true = row_sound some_bit r refl hr in
    elim (Bool-cases (has_bit r 4)) [
      | inl h4 ↦ (read, h4)
      | inr h4 ↦ elim (Bool-cases (has_bit r 2)) [
        | inl h2 ↦ (write, h2)
        | inr h2 ↦ (execute, ground (arith, h))
      ]
    ]

abbrev contains_all : ℕ → ℕ → Bool
contains_all p r =
    (not (has_bit r 4) || has_bit p 4)
    && (not (has_bit r 2) || has_bit p 2)
    && (not (has_bit r 1) || has_bit p 1)

grants_table : row (λ p. row (λ r. equal (grants p r) (contains_all p r))) ≡ true
grants_table = refl

-- A set of permissions grants a request if it has each of its bits.
pub grants_iff :
    (p r : ℕ)
    → p < 8
    → r < 8
    → (grants p r ≡ true → (b : Permission) → has_bit r (bit b) ≡ true → has_bit p (bit b) ≡ true)
      × (((b : Permission) → has_bit r (bit b) ≡ true → has_bit p (bit b) ≡ true)
          → grants p r ≡ true)
grants_iff p r hp hr =
    let e : grants p r ≡ contains_all p r =
      equal→≡ _ _
        (table_sound (λ p r. equal (grants p r) (contains_all p r)) p r grants_table hp hr) in
    (
      λ g b h. elim b [
        | read ↦ ground (arith, e)
        | write ↦ ground (arith, e)
        | execute ↦ ground (arith, e)
      ],
      λ f. rw e (ground (arith, f read, f write, f execute)),
    )

abbrev meets : Permission → ℕ → ℕ → Bool
meets b p r = equal (has_bit (bit_and p r) (bit b)) (has_bit p (bit b) && has_bit r (bit b))

meets_table : (b : Permission) → row (λ p. row (meets b p)) ≡ true
meets_table read = refl
meets_table write = refl
meets_table execute = refl

pub has_bit-bit_and :
    (b : Permission) (p r : ℕ)
    → p < 8
    → r < 8
    → has_bit (bit_and p r) (bit b) ≡ has_bit p (bit b) && has_bit r (bit b)
has_bit-bit_and b p r hp hr = equal→≡ _ _ (table_sound (meets b) p r (meets_table b) hp hr)

bit_and_table : row (λ p. row (λ r. ltb (bit_and p r) 8)) ≡ true
bit_and_table = refl

pub bit_and-lt : (p r : ℕ) → p < 8 → r < 8 → bit_and p r < 8
bit_and-lt p r hp hr = ltb→lt _ _ (table_sound (λ p r. ltb (bit_and p r) 8) p r bit_and_table hp hr)

all_bits_table : row (λ p. bit_and p 7 == p) ≡ true
all_bits_table = refl

pub bit_and-all_bits : (p : ℕ) → p < 8 → bit_and p 7 ≡ p
bit_and-all_bits p hp = (==_iff _ _).0 (row_sound (λ p. bit_and p 7 == p) p all_bits_table hp)
