-- ===== src/Common/StringSet.antt =====
-- Sets of strings, `BTreeSet<String>`, as lists without repetitions.
use argos_fs.Common.Tests.{if◌then◌else◌, Bool-cases}
use argos_fs.Common.Lists.{length, All}
use Prim.Native.Nat.{◌+◌, ◌≤◌, ◌<◌}
use Prim.Native.String.{String}
use mathlib.Core.Path.{◌≡◌}
use mathlib.Core.Logic.{◌≢◌, inl, inr}
use mathlib.Core.Bool.{Bool, true, false, ◌||◌}
use mathlib.Core.List.{List, [], ◌∷◌}
use native.Mathlib.Omega.{arith}
use text.Mathlib.Text.{◌==◌}
use text.Mathlib.TextEquality.{eq_iff}

unfoldable pub contains : String → List String → Bool
contains d [] = false
contains d (x ∷ xs) = x == d || contains d xs

-- `BTreeSet::insert`.
unfoldable pub insert : String → List String → List String
insert d xs = if contains d xs then xs else d ∷ xs

abbrev pub IsDistinct : List String → Type 0
IsDistinct [] = Unit {0}
IsDistinct (x ∷ xs) = (contains x xs ≡ false) × IsDistinct xs

abbrev pub In : List String → String → Type 0
In xs d = contains d xs ≡ true

pub insert-IsDistinct : (d : String) (xs : List String) → IsDistinct xs → IsDistinct (insert d xs)
unfolding insert
insert-IsDistinct d xs h = elim (Bool-cases (contains d xs)) [
  | inl e ↦ rw e h
  | inr e ↦ rw e (e, h)
]

pub contains-insert :
    (e d : String) (xs : List String) → contains e (insert d xs) ≡ (d == e || contains e xs)
unfolding insert contains
contains-insert e d xs = ground (arith, eq_iff d e)

-- Removes the first occurrence.
remove : String → List String → List String
remove d [] = []
remove d (x ∷ xs) = if x == d then xs else x ∷ remove d xs

length-remove : (d : String) (xs : List String) → In xs d → length (remove d xs) + 1 ≡ length xs
unfolding contains remove
length-remove d [] h = cc
length-remove d (x ∷ xs) h = ground (arith, length-remove d xs)

remove-In : (d e : String) (xs : List String) → d ≢ e → In xs e → In (remove d xs) e
unfolding contains remove
remove-In d e [] n h = h
remove-In d e (x ∷ xs) n h = ground (arith, remove-In d e xs n, eq_iff x d, eq_iff x e)

remove-All :
    (d : String) (ds xs : List String)
    → contains d ds ≡ false
    → All (In xs) ds
    → All (In (remove d xs)) ds
unfolding contains
remove-All d [] xs n h = tt
remove-All d (e ∷ ds) xs n h =
    (remove-In d e xs (λ p. ground (arith, eq_iff e d)) h.0, remove-All d ds xs (ground arith) h.1)

-- A set within a list is no longer than it.
pub length-le_of_subset :
    (ds xs : List String) → IsDistinct ds → All (In xs) ds → length ds ≤ length xs
length-le_of_subset [] xs d h = omega arith
length-le_of_subset (e ∷ ds) xs d h = omega (
  arith,
  length-le_of_subset ds (remove e xs) d.1 (remove-All e ds xs d.0 h.1),
  length-remove e xs h.0,
)

-- Two sets within a list that is shorter than both together have a common element.
pub common_element :
    (us vs xs : List String)
    → IsDistinct us
    → IsDistinct vs
    → All (In xs) us
    → All (In xs) vs
    → length xs < length us + length vs
    → (d : String) × In us d × In vs d
unfolding contains
common_element [] vs xs du dv hu hv n = absurd (omega (arith, length-le_of_subset vs xs dv hv))
common_element (e ∷ us) vs xs du dv hu hv n = elim (Bool-cases (contains e vs)) [
  | inl both ↦ (e, ground (arith, eq_iff e e), both)
  | inr only ↦
      let (d, a, b) =
        common_element us vs (remove e xs) du.1 dv (remove-All e us xs du.0 hu.1)
          (remove-All e vs xs only hv) (omega (arith, length-remove e xs hu.0)) in
      (d, ground arith, b)
]

pub insert-All {ℓ} :
    (P : String → Type ℓ) (d : String) (xs : List String) → P d → All P xs → All P (insert d xs)
unfolding insert
insert-All P d xs p h = elim (Bool-cases (contains d xs)) [ inl e ↦ rw e h | inr e ↦ rw e (p, h) ]
