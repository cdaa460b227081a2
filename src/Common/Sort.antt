-- ===== src/Common/Sort.antt =====
-- The stable sort `sort_by_key`, over keys that are numbers.
use argos_fs.Common.Tests.{leb, if◌then◌else◌, Bool-cases}
use argos_fs.Common.Lists.{All}
use Prim.Native.Nat.{ℕ, ◌+◌, ◌≤◌}
use mathlib.Core.Path.{◌≡◌, refl}
use mathlib.Core.Logic.{inl, inr}
use mathlib.Core.List.{List, [], ◌∷◌}
use native.Mathlib.Omega.{arith}

-- A sum over the elements, which does not depend on their order.
abbrev pub total {ℓ} : {A : Type ℓ} → (A → ℕ) → List A → ℕ
total weight [] = 0
total weight (x ∷ xs) = weight x + total weight xs

module _ {ℓ} {A : Type ℓ} (key : A → ℕ) where
  -- Before the elements of an equal key, which stood behind it.
  pub insert_by_key : A → List A → List A
  insert_by_key a [] = a ∷ []
  insert_by_key a (x ∷ xs) = if leb (key a) (key x) then a ∷ x ∷ xs else x ∷ insert_by_key a xs

  unfoldable pub sort_by_key : List A → List A
  unfolding insert_by_key
  sort_by_key [] = []
  sort_by_key (x ∷ xs) = insert_by_key x (sort_by_key xs)

  abbrev pub IsAtLeast : ℕ → List A → Type 0
  IsAtLeast n xs = All (λ x. n ≤ key x) xs

  -- The keys ascend.
  abbrev pub IsSorted : List A → Type 0
  IsSorted [] = Unit {0}
  IsSorted (x ∷ xs) = IsAtLeast (key x) xs × IsSorted xs

  IsAtLeast-mono : (m n : ℕ) (xs : List A) → m ≤ n → IsAtLeast n xs → IsAtLeast m xs
  IsAtLeast-mono m n [] h a = tt
  IsAtLeast-mono m n (x ∷ xs) h a = (omega arith, IsAtLeast-mono m n xs h a.1)

  insert_by_key-IsAtLeast :
      (n : ℕ) (a : A) (xs : List A) → n ≤ key a → IsAtLeast n xs → IsAtLeast n (insert_by_key a xs)
  unfolding insert_by_key
  insert_by_key-IsAtLeast n a [] h all = (h, tt)
  insert_by_key-IsAtLeast n a (x ∷ xs) h all =
      ground (arith, insert_by_key-IsAtLeast n a xs h all.1)

  insert_by_key-IsSorted : (a : A) (xs : List A) → IsSorted xs → IsSorted (insert_by_key a xs)
  unfolding insert_by_key
  insert_by_key-IsSorted a [] s = (tt, tt)
  insert_by_key-IsSorted a (x ∷ xs) s = ground (
    arith,
    insert_by_key-IsSorted a xs s.1,
    IsAtLeast-mono (key a) (key x) xs,
    insert_by_key-IsAtLeast (key x) a xs,
  )

  pub sort_by_key-IsSorted : (xs : List A) → IsSorted (sort_by_key xs)
  unfolding sort_by_key
  sort_by_key-IsSorted [] = tt
  sort_by_key-IsSorted (x ∷ xs) =
      insert_by_key-IsSorted x (sort_by_key xs) (sort_by_key-IsSorted xs)

  module _ {κ} (P : A → Type κ) where
    insert_by_key-All : (a : A) (xs : List A) → P a → All P xs → All P (insert_by_key a xs)
    unfolding insert_by_key
    insert_by_key-All a [] h all = (h, tt)
    insert_by_key-All a (x ∷ xs) h all = elim (Bool-cases (leb (key a) (key x))) [
      | inl e ↦ rw e (h, all)
      | inr e ↦ rw e (all.0, insert_by_key-All a xs h all.1)
    ]

    pub sort_by_key-All : (xs : List A) → All P xs → All P (sort_by_key xs)
    unfolding sort_by_key
    sort_by_key-All [] all = tt
    sort_by_key-All (x ∷ xs) all =
        insert_by_key-All x (sort_by_key xs) all.0 (sort_by_key-All xs all.1)

  module _ (weight : A → ℕ) where
    total-insert_by_key :
        (a : A) (xs : List A) → total weight (insert_by_key a xs) ≡ weight a + total weight xs
    unfolding insert_by_key
    total-insert_by_key a [] = refl
    total-insert_by_key a (x ∷ xs) = ground (arith, total-insert_by_key a xs)

    pub total-sort_by_key : (xs : List A) → total weight (sort_by_key xs) ≡ total weight xs
    unfolding sort_by_key
    total-sort_by_key [] = refl
    total-sort_by_key (x ∷ xs) =
        omega (arith, total-insert_by_key x (sort_by_key xs), total-sort_by_key xs)
