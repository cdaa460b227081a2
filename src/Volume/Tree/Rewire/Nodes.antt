-- ===== src/Volume/Tree/Rewire/Nodes.antt =====
-- Replacing the nodes of one inode, or of two.
use argos_fs.Common.Map.{nat_key, put, put-IsMap}
use argos_fs.Common.Bytes.{bytes_key}
use argos_fs.Common.{
  ℕ, ◌+◌, ◌≡◌, refl, ◌∙◌, subst, ◌⊎◌, inl, inr, true, false, Option, none, some, ◌==◌, ==_iff,
  if◌then◌else◌, Bool-cases, arith,
}
use argos_fs.Volume.Tree.{Node, Tree, find_node, insert_node}
use argos_fs.Volume.Tree.Rewire.{Follows, Follows-same, Pair, both, neither, rewired-IsTree}
use argos_fs.Volume.Tree.Sums.{find_node-insert_node, refs-insert_node}
use argos_fs.Volume.Tree.WellFormed.{names, refs, is_dir, IsTree}

Option-cases {ℓ} : {A : Type ℓ} (o : Option A) → ((a : A) × (o ≡ some a)) ⊎ (o ≡ none)
Option-cases none = inr refl
Option-cases (some a) = inl (a, refl)

module _ (t : Tree) (w : IsTree t) (p : ℕ) (n n' : Node) (found : find_node p t ≡ some n)
    (same_names : (x : ℕ) → names x n' ≡ names x n)
    (follows : Follows t (refs p t) (refs p t) n n') where
  abbrev pub replaced : Tree
  replaced = insert_node p n' t

  find_one : (j : ℕ) → find_node j replaced ≡ (if p == j then some n' else find_node j t)
  find_one j = find_node-insert_node p j n' t

  counted_one : (x : ℕ) → refs x replaced ≡ refs x t
  counted_one x = ground (arith, refs-insert_node x p n' t, found, same_names x)

  both_one : (j : ℕ) → Pair t replaced j
  both_one j = elim (Bool-cases (p == j)) [
    | inl y ↦
        let e : p ≡ j = (==_iff p j).0 y in
        both n n' (ground (arith, e, found)) (ground (arith, find_one j, y)) follows.kind
    | inr z ↦ elim (Option-cases (find_node j t)) [
      | inl (m, e) ↦ both m m e (ground (arith, find_one j, z, e)) refl
      | inr e ↦ neither e (ground (arith, find_one j, z, e))
    ]
  ]

  kept_one :
      (j : ℕ) (m m' : Node)
      → find_node j t ≡ some m
      → find_node j replaced ≡ some m'
      → Follows t (refs j t) (refs j replaced) m m'
  kept_one j m m' e e' = rw (counted_one j) (elim (Bool-cases (p == j)) [
    | inl y ↦
        let i : p ≡ j = (==_iff p j).0 y in
        let a : n ≡ m = ground (arith, i, found, e) in
        let b : n' ≡ m' = ground (arith, find_one j, y, e') in
        subst (λ j. Follows t (refs j t) (refs j t) m m') i
          (subst (λ m. Follows t (refs p t) (refs p t) m m') a
            (subst (λ m'. Follows t (refs p t) (refs p t) n m') b follows))
    | inr z ↦
        let a : m ≡ m' = ground (arith, find_one j, z, e, e') in
        subst (λ m'. Follows t (refs j t) (refs j t) m m') a
          (Follows-same t w j m (refs j t) (refs j t) e (λ f. refl))
  ])

  -- One node, with the same names in it.
  pub replaced-IsTree : IsTree replaced
  replaced-IsTree =
      rewired-IsTree t replaced w (put-IsMap p n' t.inodes w.keys) refl both_one kept_one
        (λ i e. counted_one i ∙ w.present i e) (λ i d. counted_one i)

module _ (t : Tree) (w : IsTree t) (p q : ℕ) (n n' m m' : Node) (found_p : find_node p t ≡ some n)
    (found_q : find_node q t ≡ some m) (apart : (p == q) ≡ false) (lost gained : ℕ → ℕ)
    (balance : (x : ℕ) → names x n' + names x m' + lost x ≡ names x n + names x m + gained x)
    (dirs_kept : (x : ℕ) → is_dir t x ≡ true → lost x ≡ gained x)
    (none_gained : (x : ℕ) → find_node x t ≡ none → gained x ≡ 0)
    (others : (x : ℕ) → (p == x) ≡ false → (q == x) ≡ false → lost x ≡ gained x)
    (follows_p : (r' : ℕ) → r' + lost p ≡ refs p t + gained p → Follows t (refs p t) r' n n')
    (follows_q : (r' : ℕ) → r' + lost q ≡ refs q t + gained q → Follows t (refs q t) r' m m') where
  abbrev pub replaced2 : Tree
  replaced2 = insert_node q m' (insert_node p n' t)

  find_two :
      (j : ℕ)
      → find_node j replaced2
        ≡ (if q == j then some m' else if p == j then some n' else find_node j t)
  find_two j =
      find_node-insert_node q j m' (insert_node p n' t) ∙ rw (find_node-insert_node p j n' t) refl

  counted_two : (x : ℕ) → refs x replaced2 + lost x ≡ refs x t + gained x
  counted_two x = ground (
    arith,
    refs-insert_node x q m' (insert_node p n' t),
    refs-insert_node x p n' t,
    find_node-insert_node p q n' t,
    found_p,
    found_q,
    apart,
    balance x,
  )

  -- What is found at `q`, at `p`, and elsewhere.
  at_q : (j : ℕ) → q ≡ j → find_node j replaced2 ≡ some m'
  at_q j e = ground (arith, find_two j, ==_iff q j)

  at_p : (j : ℕ) → p ≡ j → find_node j replaced2 ≡ some n'
  at_p j e = ground (arith, find_two j, ==_iff p j, ==_iff q j, ==_iff p q, apart)

  elsewhere : (j : ℕ) → (p == j) ≡ false → (q == j) ≡ false → find_node j replaced2 ≡ find_node j t
  elsewhere j a b = ground (arith, find_two j)

  data Place (j : ℕ) : Type 0 where
    first : p ≡ j → Place j
    second : q ≡ j → Place j
    third : (p == j) ≡ false → (q == j) ≡ false → Place j

  place : (j : ℕ) → Place j
  place j = elim (Bool-cases (p == j)) [
    | inl y ↦ first ((==_iff p j).0 y)
    | inr y ↦ elim (Bool-cases (q == j)) [ inl z ↦ second ((==_iff q j).0 z) | inr z ↦ third y z ]
  ]

  counted_p : refs p replaced2 + lost p ≡ refs p t + gained p
  counted_p = counted_two p

  both_two : (j : ℕ) → Pair t replaced2 j
  both_two j = elim (place j) [
    | first e ↦
        both n n' (subst (λ j. find_node j t ≡ some n) e found_p) (at_p j e)
          (follows_p _ counted_p).kind
    | second e ↦
        both m m' (subst (λ j. find_node j t ≡ some m) e found_q) (at_q j e)
          (follows_q _ (counted_two q)).kind
    | third a b ↦ elim (Option-cases (find_node j t)) [
      | inl (x, e) ↦ both x x e (elsewhere j a b ∙ e) refl
      | inr e ↦ neither e (elsewhere j a b ∙ e)
    ]
  ]

  -- A node that is found is the one that is known to be there.
  as_found :
      (j : ℕ) (a a' x x' : Node)
      → find_node j t ≡ some a
      → find_node j t ≡ some x
      → find_node j replaced2 ≡ some a'
      → find_node j replaced2 ≡ some x'
      → Follows t (refs j t) (refs j replaced2) a a'
      → Follows t (refs j t) (refs j replaced2) x x'
  as_found j a a' x x' e f e' f' h =
      let y : a ≡ x = ground (arith, e, f) in
      let z : a' ≡ x' = ground (arith, e', f') in
      subst (λ x. Follows t (refs j t) (refs j replaced2) x x') y
        (subst (λ x'. Follows t (refs j t) (refs j replaced2) a x') z h)

  kept_two :
      (j : ℕ) (x x' : Node)
      → find_node j t ≡ some x
      → find_node j replaced2 ≡ some x'
      → Follows t (refs j t) (refs j replaced2) x x'
  kept_two j x x' e e' = elim (place j) [
    | first i ↦
        as_found j n n' x x' (subst (λ j. find_node j t ≡ some n) i found_p) e (at_p j i) e'
          (subst (λ j. Follows t (refs j t) (refs j replaced2) n n') i (follows_p _ counted_p))
    | second i ↦
        as_found j m m' x x' (subst (λ j. find_node j t ≡ some m) i found_q) e (at_q j i) e' (
          subst (λ j. Follows t (refs j t) (refs j replaced2) m m') i (follows_q _ (counted_two q)))
    | third a b ↦
        let same : refs j t ≡ refs j replaced2 = omega (arith, counted_two j, others j a b) in
        as_found j x x x x' e e (elsewhere j a b ∙ e) e' (Follows-same t w j x _ _ e (λ f. same))
  ]

  -- Two nodes, where the names that are lost or gained are those of the two inodes.
  pub replaced2-IsTree : IsTree replaced2
  replaced2-IsTree =
      rewired-IsTree t replaced2 w
        (put-IsMap q m' (put p n' t.inodes) (put-IsMap p n' t.inodes w.keys)) refl both_two kept_two
        (λ i e. omega (arith, counted_two i, none_gained i e, w.present i e))
        (λ i d. omega (arith, counted_two i, dirs_kept i d))
