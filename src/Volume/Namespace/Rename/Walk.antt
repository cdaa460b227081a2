-- ===== src/Volume/Namespace/Rename/Walk.antt =====
-- The walk below a directory finds what is below it.
use argos_fs.Common.Map.{nat_key}
use argos_fs.Common.Bytes.{bytes_key}
use argos_fs.Common.{
  ℕ, zero, suc, ◌<◌, ◌≡◌, refl, subst, ◌↔◌, ◌⊎◌, inl, inr, Bool, true, false, List, [], ◌∷◌, Option,
  none, some, ◌==◌, ==_iff, Bool-cases, if_cases, arith,
}
use argos_fs.Security.Acl.{is_directory}
use argos_fs.Volume.Namespace.Rename.{any_child, within, directory_contains_inode}
use argos_fs.Volume.Tree.{Name, Node, Tree, find_node}

-- An entry of the list names the inode.
abbrev pub Names : ℕ → List (Name × ℕ) → Type 0
Names c [] = ⊥
Names c ((name, d) ∷ rest) = (c ≡ d) ⊎ Names c rest

-- The inode is the directory or below it.
pub data IsBelow (t : Tree) : ℕ → ℕ → Type 0 where
  itself : {a : ℕ} → IsBelow t a a
  deeper :
      {a c x : ℕ} (n : Node)
      → find_node a t ≡ some n
      → is_directory n.kind ≡ true
      → Names c n.entries
      → IsBelow t c x
      → IsBelow t a x

-- Heights: those of the entries of a directory are lower than its own.
abbrev pub IsRanked : Tree → (ℕ → ℕ) → Type 0
IsRanked t height =
    (a c : ℕ) (n : Node) → find_node a t ≡ some n → Names c n.entries → height c < height a

answers_any :
    (test : ℕ → Option Bool) (l : List (Name × ℕ))
    → ((c : ℕ) → Names c l → (b : Bool) × (test c ≡ some b))
    → (b : Bool) × (any_child test l ≡ some b)
unfolding any_child
answers_any test [] h = (false, refl)
answers_any test ((name, c) ∷ rest) h =
    let (b, e) = h c (inl refl) in
    let (r, f) = answers_any test rest (λ d i. h d (inr i)) in
    elim (Bool-cases b) [
      | inl y ↦ (true, ground (arith, e, y))
      | inr z ↦ (r, ground (arith, e, z, f))
    ]

pub answers_within :
    (test : ℕ → Option Bool) (o : Option Node)
    → ((n : Node) → o ≡ some n → (c : ℕ) → Names c n.entries → (b : Bool) × (test c ≡ some b))
    → (b : Bool) × (within test o ≡ some b)
answers_within test none h = (false, refl)
answers_within test (some n) h =
    if_cases (λ (o : Option Bool). (b : Bool) × (o ≡ some b)) (is_directory n.kind)
      (λ y. answers_any test n.entries (h n refl)) (λ z. (false, refl))

found_at :
    (test : ℕ → Option Bool) (name : Name) (c : ℕ) (rest : List (Name × ℕ)) (o : Option Bool)
    → test c ≡ o
    → (any_child test rest ≡ some true → (d : ℕ) × Names d rest × (test d ≡ some true))
    → elim o [ none ↦ none | some true ↦ some true | some false ↦ any_child test rest ] ≡ some true
    → (d : ℕ) × Names d ((name, c) ∷ rest) × (test d ≡ some true)
found_at test name c rest none e later k = absurd (ground (arith, k))
found_at test name c rest (some true) e later k = (c, inl refl, e)
found_at test name c rest (some false) e later k = let (d, i, f) = later k in (d, inr i, f)

found_any :
    (test : ℕ → Option Bool) (l : List (Name × ℕ))
    → any_child test l ≡ some true
    → (c : ℕ) × Names c l × (test c ≡ some true)
unfolding any_child
found_any test [] h = absurd (ground (arith, h))
found_any test ((name, c) ∷ rest) h =
    found_at test name c rest (test c) refl (found_any test rest) h

found_within :
    (test : ℕ → Option Bool) (o : Option Node)
    → within test o ≡ some true
    → (n : Node) × (o ≡ some n)
      × (is_directory n.kind ≡ true)
      × (c : ℕ) × Names c n.entries
      × (test c ≡ some true)
found_within test none h = absurd (ground (arith, h))
found_within test (some n) h =
    let y : is_directory n.kind ≡ true = ground (arith, h) in
    let (c, i, e) = found_any test n.entries (ground (arith, h, y)) in (n, refl, y, c, i, e)

missed_any :
    (test : ℕ → Option Bool) (l : List (Name × ℕ))
    → any_child test l ≡ some false
    → (c : ℕ) → Names c l
    → test c ≡ some false
unfolding any_child
missed_any test [] h c i = absurd i
missed_any test ((name, d) ∷ rest) h c (inl e) = rw e (ground (arith, h))
missed_any test ((name, d) ∷ rest) h c (inr i) = missed_any test rest (ground (arith, h)) c i

-- What a walk that finds has found.
walk_sound :
    (t : Tree) (fuel needle a : ℕ)
    → directory_contains_inode fuel t needle a ≡ some true
    → IsBelow t a needle
unfolding directory_contains_inode
walk_sound t zero needle a h = absurd (ground (arith, h))
walk_sound t (suc fuel) needle a h = elim (Bool-cases (a == needle)) [
  | inl y ↦ subst (IsBelow t a) ((==_iff a needle).0 y) itself
  | inr z ↦
      let (n, found, dir, c, i, e) =
        found_within (directory_contains_inode fuel t needle) (find_node a t)
          (ground (arith, h, z)) in
      deeper n found dir i (walk_sound t fuel needle c e)
]

walk_complete :
    (t : Tree) (fuel needle a : ℕ)
    → directory_contains_inode fuel t needle a ≡ some false
    → IsBelow t a needle
    → ⊥
unfolding directory_contains_inode
walk_complete t zero needle a h b = absurd (ground (arith, h))
walk_complete t (suc fuel) needle a h itself = ground (arith, h, ==_iff a a)
walk_complete t (suc fuel) needle a h (deeper n found dir i below) =
    let none_below : any_child (directory_contains_inode fuel t needle) n.entries ≡ some false =
      ground (arith, h, found, dir) in
    walk_complete t fuel needle _ (missed_any _ n.entries none_below _ i) below

-- An answer of the walk is whether the inode is the directory or below it.
pub directory_contains_inode-IsBelow :
    (t : Tree) (fuel needle a : ℕ) (answer : Bool)
    → directory_contains_inode fuel t needle a ≡ some answer
    → (answer ≡ true) ↔ IsBelow t a needle
directory_contains_inode-IsBelow t fuel needle a true h =
    (λ y. walk_sound t fuel needle a h, λ b. refl)
directory_contains_inode-IsBelow t fuel needle a false h =
    (λ y. absurd (ground (arith, y)), λ b. absurd (walk_complete t fuel needle a h b))
