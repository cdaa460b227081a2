-- ===== src/Volume/Namespace/Rename/Ends.antt =====
-- The walk below a directory ends within the fuel that rename gives it, the next inode number.
use argos_fs.Common.Map.{nat_key, sum, weight_of-le-sum}
use argos_fs.Common.Bytes.{bytes_key}
use argos_fs.Common.{
  ℕ, zero, suc, ◌+◌, ◌≤◌, ◌<◌, ◌≡◌, refl, subst, ◌↔◌, inl, inr, Bool, true, List, [], ◌∷◌, Option,
  none, some, ltb, ◌==◌, ==_iff, if◌then◌else◌, Bool-cases, if_cases, arith,
}
use argos_fs.Volume.Namespace.{is_some}
use argos_fs.Volume.Namespace.Rename.{directory_contains_inode}
use argos_fs.Volume.Namespace.Rename.Walk.{
  Names, IsBelow, IsRanked, answers_within, directory_contains_inode-IsBelow,
}
use argos_fs.Volume.Tree.{Name, Node, Tree, find_node}
use argos_fs.Volume.Tree.WellFormed.{IsTree, names, refs}

-- How many of the first inode numbers have a height below the given one.
abbrev lower : (ℕ → ℕ) → ℕ → ℕ → ℕ
lower height zero h = 0
lower height (suc k) h = lower height k h + (if ltb (height k) h then 1 else 0)

lower_monotone : (height : ℕ → ℕ) (k h g : ℕ) → h ≤ g → lower height k h ≤ lower height k g
lower_monotone height zero h g le = omega arith
lower_monotone height (suc k) h g le = ground (arith, lower_monotone height k h g le)

-- A number between the two heights is counted by the larger only.
lower_grows :
    (height : ℕ → ℕ) (k h g c : ℕ)
    → c < k
    → h ≤ height c
    → height c < g
    → lower height k h < lower height k g
lower_grows height zero h g c i le lt = absurd (omega (arith, i))
lower_grows height (suc k) h g c i le lt = elim (Bool-cases (c == k)) [
  | inl y ↦
      let e : c ≡ k = (==_iff c k).0 y in
      let now : h ≤ height k = subst (λ j. h ≤ height j) e le in
      let later : height k < g = subst (λ j. height j < g) e lt in
      let wider : h ≤ g = omega (arith, le, lt) in
      ground (arith, lower_monotone height k h g wider, now, later)
  | inr n ↦
      let before : c < k = ground (arith, i, n, ==_iff c k) in
      let wider : h ≤ g = omega (arith, le, lt) in
      ground (arith, lower_grows height k h g c before le lt, wider)
]

lower_at_most : (height : ℕ → ℕ) (k h : ℕ) → lower height k h ≤ k
lower_at_most height zero h = omega arith
lower_at_most height (suc k) h = ground (arith, lower_at_most height k h)

lower_bounded : (height : ℕ → ℕ) (k h c : ℕ) → c < k → h ≤ height c → lower height k h < k
lower_bounded height k h c i le =
    let grown = lower_grows height k h (suc (height c)) c i le (omega arith) in
    omega (arith, grown, lower_at_most height k (suc (height c)))

Names-counted : (c : ℕ) (l : List (Name × ℕ)) → Names c l → 0 < sum (λ d. if d == c then 1 else 0) l
unfolding sum
Names-counted c [] i = absurd i
Names-counted c ((name, d) ∷ rest) (inl e) = ground (arith, e, ==_iff d c)
Names-counted c ((name, d) ∷ rest) (inr i) = ground (arith, Names-counted c rest i)

-- An inode that is found has a number below the next one; so has one that an entry names.
found_bounded : (t : Tree) → IsTree t → (i : ℕ) → is_some (find_node i t) ≡ true → i < t.next_inode
found_bounded t w i e = elim (Bool-cases (ltb i t.next_inode)) [
  | inl y ↦ ground (arith, y)
  | inr z ↦ absurd (ground (arith, w.fresh i (ground (arith, z)), e))
]

named_bounded :
    (t : Tree)
    → IsTree t
    → (a c : ℕ) (n : Node) → find_node a t ≡ some n
    → Names c n.entries
    → c < t.next_inode
named_bounded t w a c n e i = by_found (find_node c t) refl
  where
    by_found : (o : Option Node) → find_node c t ≡ o → c < t.next_inode
    by_found (some m) f = found_bounded t w c (ground (arith, f))
    by_found none f =
        let counted = Names-counted c n.entries i in
        let held : names c n ≤ refs c t =
          ground (arith, weight_of-le-sum (names c) a t.inodes, e) in
        absurd (omega (arith, w.present c f, held, counted))

module _ (t : Tree) (w : IsTree t) (height : ℕ → ℕ) (ranked : IsRanked t height) where
  walk_answers :
      (fuel needle a : ℕ)
      → lower height t.next_inode (height a) < fuel
      → (b : Bool) × (directory_contains_inode fuel t needle a ≡ some b)
  unfolding directory_contains_inode
  walk_answers zero needle a h = absurd (omega (arith, h))
  walk_answers (suc fuel) needle a h =
      if_cases (λ (o : Option Bool). (b : Bool) × (o ≡ some b)) (a == needle) (λ y. (true, refl))
        (λ z. answers_within (directory_contains_inode fuel t needle) (find_node a t) (λ n e c i.
          let grown =
            lower_grows height t.next_inode (height c) (height a) c (named_bounded t w a c n e i)
              (omega arith) (ranked a c n e i) in
          walk_answers fuel needle c (omega (arith, grown, h))))

  -- In a well-formed tree in which the entries of each directory are lower than it, for some heights,
  -- the next inode number is enough fuel for the walk from an inode that is there: it has an answer,
  -- which is whether the other inode is that inode or below it.
  pub directory_contains_inode-next_inode :
      (needle a : ℕ)
      → is_some (find_node a t) ≡ true
      → (b : Bool) × (directory_contains_inode t.next_inode t needle a ≡ some b)
        × ((b ≡ true) ↔ IsBelow t a needle)
  directory_contains_inode-next_inode needle a e =
      let enough =
        lower_bounded height t.next_inode (height a) a (found_bounded t w a e) (omega arith) in
      let (b, answer) = walk_answers t.next_inode needle a enough in
      (b, answer, directory_contains_inode-IsBelow t t.next_inode needle a b answer)
