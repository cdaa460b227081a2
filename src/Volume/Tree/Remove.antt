-- ===== src/Volume/Tree/Remove.antt =====
-- Taking out an inode: a file that has no names, and an empty directory with its name.
use argos_fs.Common.Map.{nat_key, get, del, IsMap, sum, put-IsMap, del-IsMap}
use argos_fs.Common.Bytes.{bytes_key}
use argos_fs.Common.{
  ℕ, ◌+◌, ◌-◌, ◌≤◌, ◌≡◌, refl, sym, ◌∙◌, subst, max, inl, inr, true, false, [], none, some, ◌==◌,
  ==_iff, if◌then◌else◌, Bool-cases, arith,
}
use argos_fs.Security.Acl.{is_directory}
use argos_fs.Volume.Tree.{Name, Node, Tree, find_node, insert_node, remove_node, root_ino}
use argos_fs.Volume.Tree.Sums.{
  find_node-insert_node, find_node-remove_node, refs-insert_node, refs-remove_node, one,
  names-drop_name, subdirs-drop_name, names-le-refs, subdirs_agree,
}
use argos_fs.Volume.Tree.WellFormed.{names, refs, is_dir, subdirs, IsTree}

names_empty : (x : ℕ) (n : Node) → n.entries ≡ [] → names x n ≡ 0
unfolding sum
names_empty x n h = rw h refl

module _ (t : Tree) (w : IsTree t) (c : ℕ) (child : Node) (found : find_node c t ≡ some child)
    (file : is_directory child.kind ≡ false) (unnamed : refs c t ≡ 0) where
  abbrev pub reaped : Tree
  reaped = remove_node c t

  find : (j : ℕ) → find_node j reaped ≡ (if c == j then none else find_node j t)
  find j = find_node-remove_node c j t

  counted : (x : ℕ) → refs x reaped ≡ refs x t
  counted x = ground (
    arith,
    refs-remove_node x c t w.keys,
    found,
    names_empty x child (w.leaves c child found file),
  )

  same_dirs : (j : ℕ) → is_dir reaped j ≡ is_dir t j
  same_dirs j = ground (arith, find j, found, file, ==_iff c j)

  old {κ} :
      (j : ℕ) (n : Node) (P : Type κ)
      → (find_node j t ≡ some n → P)
      → find_node j reaped ≡ some n
      → P
  old j n P f e = f (ground (arith, find j, e))

  same_subdirs : (n : Node) → IsMap n.entries → subdirs reaped n ≡ subdirs t n
  same_subdirs n h = subdirs_agree reaped t n h (λ x pos. same_dirs x)

  -- A file that has no names.
  pub reaped-IsTree : IsTree reaped
  reaped-IsTree = record {
    keys = del-IsMap c t.inodes w.keys;
    entry_keys = λ i n e. old i n (IsMap n.entries) (λ f. w.entry_keys i n f) e;
    fresh = λ i h. ground (arith, find i, w.fresh i);
    leaves = λ i n e d. old i n (n.entries ≡ []) (λ f. w.leaves i n f d) e;
    present = λ i h. ground (arith, find i, counted i, w.present i, unnamed, ==_iff c i);
    file_links = λ i n e d.
        old i n (n.nlink ≡ refs i reaped) (λ f. w.file_links i n f d ∙ sym (counted i)) e;
    dir_links = λ i n e d.
        old i n (n.nlink ≡ 2 + subdirs reaped n)
          (λ f. omega (arith, w.dir_links i n f d, same_subdirs n (w.entry_keys i n f))) e;
    dir_once = λ i d r. counted i ∙ w.dir_once i (sym (same_dirs i) ∙ d) r;
    root = same_dirs root_ino ∙ w.root;
    root_once = counted root_ino ∙ w.root_once;
  }

module _ (t : Tree) (w : IsTree t) (p : ℕ) (parent : Node) (name : Name) (c : ℕ) (child : Node)
    (found : find_node p t ≡ some parent) (dir : is_directory parent.kind ≡ true)
    (named : get name parent.entries ≡ some c) (found_c : find_node c t ≡ some child)
    (dir_c : is_directory child.kind ≡ true) (empty : child.entries ≡ []) (parent' : Node)
    (kind' : parent'.kind ≡ parent.kind) (entries' : parent'.entries ≡ del name parent.entries)
    (nlink' : parent'.nlink ≡ max (parent.nlink - 1) 2) where
  abbrev without : Tree
  without = insert_node p parent' t

  abbrev pub cleared : Tree
  cleared = remove_node c without

  -- The parent has an entry, and the child has none.
  apart : (p == c) ≡ false
  unfolding get
  apart = elim (Bool-cases (p == c)) [
    | inl y ↦
        let i : p ≡ c = (==_iff p c).0 y in
        let same : parent ≡ child =
          ground (arith, subst (λ j. find_node j t ≡ some parent) i found, found_c) in
        let nothing : get name parent.entries ≡ none = rw (same, empty) refl in cc
    | inr z ↦ z
  ]

  find_kept :
      (j : ℕ)
      → find_node j cleared
        ≡ (if c == j then none else if p == j then some parent' else find_node j t)
  find_kept j = find_node-remove_node c j without ∙ rw (find_node-insert_node p j parent' t) refl

  keys : IsMap without.inodes
  keys = put-IsMap p parent' t.inodes w.keys

  names-parent : (x : ℕ) → names x parent' + one x c ≡ names x parent
  names-parent x =
      rw entries'
        (ground (arith, names-drop_name x name parent (w.entry_keys p parent found), named))

  counted_kept : (x : ℕ) → refs x cleared + one x c ≡ refs x t
  counted_kept x = ground (
    arith,
    refs-remove_node x c without keys,
    refs-insert_node x p parent' t,
    find_node-insert_node p c parent' t,
    apart,
    found,
    found_c,
    names_empty x child empty,
    names-parent x,
  )

  has_name : 1 ≤ names c parent
  has_name = ground (arith, names-parent c, ==_iff c c)

  not_root : (c == root_ino) ≡ false
  not_root = ground (arith, w.root_once, names-le-refs c p t, found, has_name, ==_iff c root_ino)

  once : refs c t ≡ 1
  once = w.dir_once c (ground (arith, found_c, dir_c)) not_root

  -- No other directory names the child.
  other_names : (j : ℕ) (n : Node) → (p == j) ≡ false → find_node j t ≡ some n → names c n ≡ 0
  other_names j n z e = ground (
    arith,
    refs-remove_node c p t w.keys,
    found,
    once,
    has_name,
    names-le-refs c j (remove_node p t),
    find_node-remove_node p j t,
    e,
  )

  dirs_kept : (j : ℕ) → is_dir cleared j ≡ (if c == j then false else is_dir t j)
  dirs_kept j = ground (arith, find_kept j, found, dir, kind', ==_iff p j)

  subdirs_without : (n : Node) → IsMap n.entries → names c n ≡ 0 → subdirs cleared n ≡ subdirs t n
  subdirs_without n h z =
      subdirs_agree cleared t n h (λ x pos. ground (arith, dirs_kept x, z, pos, ==_iff c x))

  subdirs-parent : subdirs cleared parent' + 1 ≡ subdirs t parent
  subdirs-parent =
      let h : IsMap parent'.entries =
        rw entries' (del-IsMap name parent.entries (w.entry_keys p parent found)) in
      let gone : names c parent' ≡ 0 = omega (arith, names-parent c, one-le-refs) in
      let step : subdirs t parent' + 1 ≡ subdirs t parent = rw entries' (
        ground (
          arith,
          subdirs-drop_name t name parent (w.entry_keys p parent found),
          named,
          found_c,
          dir_c,
        )) in
      omega (arith, subdirs_without parent' h gone, step)
    where
      one-le-refs : names c parent' + 1 ≤ 1
      one-le-refs = ground (arith, names-parent c, names-le-refs c p t, found, once, ==_iff c c)

  -- What a lookup finds afterwards.
  by_place {κ} :
      (P : ℕ → Node → Type κ)
      → P p parent'
      → ((j : ℕ) (n : Node) → (c == j) ≡ false → (p == j) ≡ false → find_node j t ≡ some n → P j n)
      → (j : ℕ) (n : Node) → find_node j cleared ≡ some n
      → P j n
  by_place P a b j n e = elim (Bool-cases (c == j)) [
    | inl y ↦ absurd (ground (arith, find_kept j, y, e))
    | inr y ↦ elim (Bool-cases (p == j)) [
      | inl z ↦
          let i : p ≡ j = (==_iff p j).0 z in
          let f : parent' ≡ n = ground (arith, find_kept j, y, z, e) in
          subst (λ j. P j n) i (subst (P p) f a)
      | inr z ↦ b j n y z (ground (arith, find_kept j, y, z, e))
    ]
  ]

  -- An empty directory and its name.
  pub cleared-IsTree : IsTree cleared
  cleared-IsTree = record {
    keys = del-IsMap c without.inodes keys;
    entry_keys =
        by_place (λ j n. IsMap n.entries)
          (rw entries' (del-IsMap name parent.entries (w.entry_keys p parent found)))
          (λ j n y z e. w.entry_keys j n e);
    fresh = λ i h. ground (arith, find_kept i, w.fresh i, found);
    leaves =
        by_place (λ j n. is_directory n.kind ≡ false → n.entries ≡ []) (λ f. cc (f, dir, kind'))
          (λ j n y z e f. w.leaves j n e f);
    present = λ i h. ground (arith, find_kept i, counted_kept i, w.present i, once, ==_iff c i);
    file_links =
        by_place (λ j n. is_directory n.kind ≡ false → n.nlink ≡ refs j cleared)
          (λ f. cc (f, dir, kind'))
          (λ j n y z e f. ground (arith, counted_kept j, w.file_links j n e f, y));
    dir_links =
        by_place (λ j n. is_directory n.kind ≡ true → n.nlink ≡ 2 + subdirs cleared n)
          (λ f. omega (arith, subdirs-parent, nlink', w.dir_links p parent found dir))
          (λ j n y z e f. omega (
            arith,
            subdirs_without n (w.entry_keys j n e) (other_names j n z e),
            w.dir_links j n e f,
          ));
    dir_once = λ i d r. ground (arith, dirs_kept i, counted_kept i, w.dir_once i);
    root = ground (arith, dirs_kept root_ino, w.root, not_root);
    root_once = omega (arith, counted_kept root_ino, w.root_once);
  }
