-- ===== src/Common/Map.antt =====
-- `BTreeMap` as a list of pairs with distinct keys. The order of the keys is not kept: no lookup, sum
-- or test below depends on it.
use argos_fs.Common.Tests.{if◌then◌else◌, ◌==◌, ==_iff, Bool-cases}
use Prim.Native.Nat.{ℕ, ◌+◌, ◌≤◌}
use Prim.Native.String.{String}
use mathlib.Core.Path.{◌≡◌, refl}
use mathlib.Core.Logic.{◌↔◌, inl, inr}
use mathlib.Core.Bool.{Bool, true, false}
use mathlib.Core.Option.{Option, none, some}
use mathlib.Core.List.{List, [], ◌∷◌}
use native.Mathlib.Omega.{arith}
use text.Mathlib.Text.{◌==◌ as str_eq}
use text.Mathlib.TextEquality.{eq_iff}

-- A type whose values can be compared.
pub record Key (K : Type 0) : Type 0 where
  pub same : K → K → Bool
  pub same_iff : (a b : K) → (same a b ≡ true) ↔ (a ≡ b)

instance abbrev pub nat_key : Key ℕ
nat_key = record { same = λ a b. a == b; same_iff = ==_iff }

instance abbrev pub string_key : Key String
string_key = record { same = λ a b. str_eq a b; same_iff = eq_iff }

-- The value of an entry, or 0 for a missing one.
abbrev pub weight_of {ℓ} : {V : Type ℓ} → (V → ℕ) → Option V → ℕ
weight_of f none = 0
weight_of f (some v) = f v

module _ {ℓ} {K : Type 0} {V : Type ℓ} ⦃key : Key K⦄ where
  unfoldable pub get : K → List (K × V) → Option V
  get k [] = none
  get k ((j, v) ∷ m) = if key.same k j then some v else get k m

  unfoldable pub put : K → V → List (K × V) → List (K × V)
  put k v [] = (k, v) ∷ []
  put k v ((j, w) ∷ m) = if key.same k j then (j, v) ∷ m else (j, w) ∷ put k v m

  unfoldable pub del : K → List (K × V) → List (K × V)
  del k [] = []
  del k ((j, w) ∷ m) = let rest = del k m in if key.same k j then rest else (j, w) ∷ rest

  -- No key stands twice.
  abbrev pub IsMap : List (K × V) → Type ℓ
  IsMap [] = Unit
  IsMap ((k, v) ∷ m) = (get k m ≡ none) × IsMap m

  -- A sum over the values.
  unfoldable pub sum : (V → ℕ) → List (K × V) → ℕ
  sum f [] = 0
  sum f ((k, v) ∷ m) = f v + sum f m

  pub get-put :
      (j k : K) (v : V) (m : List (K × V))
      → get j (put k v m) ≡ (if key.same k j then some v else get j m)
  unfolding get put
  get-put j k v [] = ground (arith, key.same_iff k j, key.same_iff j k)
  get-put j k v ((i, w) ∷ m) =
      ground (arith, key.same_iff k j, key.same_iff j i, key.same_iff k i, get-put j k v m)

  pub get-del :
      (j k : K) (m : List (K × V)) → get j (del k m) ≡ (if key.same k j then none else get j m)
  unfolding get del
  get-del j k [] = ground arith
  get-del j k ((i, w) ∷ m) =
      ground (arith, key.same_iff k j, key.same_iff j i, key.same_iff k i, get-del j k m)

  pub put-IsMap : (k : K) (v : V) (m : List (K × V)) → IsMap m → IsMap (put k v m)
  unfolding get put
  put-IsMap k v [] h = (refl, tt)
  put-IsMap k v ((i, w) ∷ m) (h, hs) = elim (Bool-cases (key.same k i)) [
    | inl e ↦ rw e (h, hs)
    | inr e ↦ rw e (ground (arith, get-put i k v m, h), put-IsMap k v m hs)
  ]

  pub del-IsMap : (k : K) (m : List (K × V)) → IsMap m → IsMap (del k m)
  unfolding get del
  del-IsMap k [] h = tt
  del-IsMap k ((i, w) ∷ m) (h, hs) = elim (Bool-cases (key.same k i)) [
    | inl e ↦ rw e (del-IsMap k m hs)
    | inr e ↦ rw e (ground (arith, get-del i k m, h), del-IsMap k m hs)
  ]

  pub sum-put :
      (f : V → ℕ) (k : K) (v : V) (m : List (K × V))
      → sum f (put k v m) + weight_of f (get k m) ≡ sum f m + f v
  unfolding get put sum
  sum-put f k v [] = omega arith
  sum-put f k v ((i, w) ∷ m) = ground (arith, sum-put f k v m)

  sum-del_missing :
      (f : V → ℕ) (k : K) (m : List (K × V)) → get k m ≡ none → sum f (del k m) ≡ sum f m
  unfolding get del sum
  sum-del_missing f k [] h = refl
  sum-del_missing f k ((i, w) ∷ m) h = ground (arith, sum-del_missing f k m)

  pub sum-del :
      (f : V → ℕ) (k : K) (m : List (K × V))
      → IsMap m
      → sum f (del k m) + weight_of f (get k m) ≡ sum f m
  unfolding get del sum
  sum-del f k [] h = omega arith
  sum-del f k ((i, w) ∷ m) (h, hs) = elim (Bool-cases (key.same k i)) [
    | inl e ↦
        let missing : get k m ≡ none = rw ((key.same_iff k i).0 e) h in
        rw e (omega (arith, sum-del_missing f k m missing))
    | inr e ↦ rw e (omega (arith, sum-del f k m hs))
  ]

  pub weight_of-le-sum : (f : V → ℕ) (k : K) (m : List (K × V)) → weight_of f (get k m) ≤ sum f m
  unfolding get sum
  weight_of-le-sum f k [] = omega arith
  weight_of-le-sum f k ((i, w) ∷ m) = ground (arith, weight_of-le-sum f k m)

  -- Two weights that agree on all values have one sum.
  pub sum_agree :
      (f g : V → ℕ) (m : List (K × V))
      → ((k : K) (v : V) → get k m ≡ some v → f v ≡ g v)
      → IsMap m
      → sum f m ≡ sum g m
  unfolding get sum
  sum_agree f g [] h u = refl
  sum_agree f g ((i, w) ∷ m) h (u, us) =
      let head : f w ≡ g w = h i w (ground (arith, key.same_iff i i)) in
      let rest : sum f m ≡ sum g m =
        sum_agree f g m (λ k v e. h k v (ground (arith, e, u, key.same_iff k i))) us in
      omega (arith, head, rest)

  pub put-put : (k : K) (v w : V) (m : List (K × V)) → put k v (put k w m) ≡ put k v m
  unfolding put
  put-put k v w [] = ground (arith, key.same_iff k k)
  put-put k v w ((i, u) ∷ m) = ground (arith, put-put k v w m)

  -- A present key is replaced in its place, so that the order of two replacements does not matter.
  pub put_swap :
      (j k : K) (v w u : V) (m : List (K × V))
      → key.same j k ≡ false
      → get j m ≡ some u
      → put j v (put k w m) ≡ put k w (put j v m)
  unfolding get put
  put_swap j k v w u [] apart h = absurd (ground (arith, h))
  put_swap j k v w u ((i, x) ∷ m) apart h = elim (Bool-cases (key.same j i)) [
    | inl e ↦ elim (Bool-cases (key.same k i)) [
      | inl f ↦
          absurd (
            ground (arith, (key.same_iff j i).0 e, (key.same_iff k i).0 f, key.same_iff j k, apart))
      | inr f ↦ rw (f, e, f) refl
    ]
    | inr e ↦ elim (Bool-cases (key.same k i)) [
      | inl f ↦ rw (f, e, f) refl
      | inr f ↦ rw (f, e, f) (rw (put_swap j k v w u m apart (ground (arith, e, h))) refl)
    ]
  ]

  pub put-del :
      (j k : K) (v : V) (m : List (K × V))
      → key.same k j ≡ false
      → put j v (del k m) ≡ del k (put j v m)
  unfolding put del
  put-del j k v [] apart = rw apart refl
  put-del j k v ((i, w) ∷ m) apart = elim (Bool-cases (key.same k i)) [
    | inl e ↦ elim (Bool-cases (key.same j i)) [
      | inl f ↦
          absurd (
            ground (arith, (key.same_iff k i).0 e, (key.same_iff j i).0 f, key.same_iff k j, apart))
      | inr f ↦ rw (e, f, e) (put-del j k v m apart)
    ]
    | inr e ↦ elim (Bool-cases (key.same j i)) [
      | inl f ↦ rw (e, f, e) refl
      | inr f ↦ rw (e, f, e) (rw (put-del j k v m apart) refl)
    ]
  ]
