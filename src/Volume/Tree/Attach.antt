-- ===== src/Volume/Tree/Attach.antt =====
-- A new inode under a free name keeps the tree well formed.
use argos_fs.Common.Map.{nat_key, get, put, IsMap, sum, put-IsMap}
use argos_fs.Common.Bytes.{bytes_key}
use argos_fs.Common.{
  ℕ, ◌+◌, ◌≡◌, refl, sym, ◌∙◌, subst, inl, inr, true, false, [], none, some, ◌==◌, ==_iff,
  if◌then◌else◌, Bool-cases, arith,
}
use argos_fs.Security.Acl.{is_directory}
use argos_fs.Volume.Tree.{Name, Node, Tree, find_node, insert_node, root_ino}
use argos_fs.Volume.Tree.Sums.{
  find_node-insert_node, refs-insert_node, one, names-add_name, subdirs-add_name, names-le-refs,
  subdirs_agree,
}
use argos_fs.Volume.Tree.WellFormed.{names, refs, is_dir, subdirs, IsTree}

-- What a directory counts a child for.
abbrev pub dir_count : Node → ℕ
dir_count n = if is_directory n.kind then 1 else 0

module _ (t : Tree) (w : IsTree t) (p : ℕ) (parent : Node) (name : Name) (child : Node)
    (found : find_node p t ≡ some parent) (dir : is_directory parent.kind ≡ true)
    (free : get name parent.entries ≡ none) (empty : child.entries ≡ [])
    (links : child.nlink ≡ 1 + dir_count child) (parent' : Node)
    (kind' : parent'.kind ≡ parent.kind)
    (entries' : parent'.entries ≡ put name t.next_inode parent.entries)
    (nlink' : parent'.nlink ≡ parent.nlink + dir_count child) where
  abbrev ino : ℕ
  ino = t.next_inode

  -- The tree with the child under its name.
  abbrev pub attached : Tree
  attached = insert_node p parent' (record (insert_node ino child t) { next_inode = ino + 1 })

  abbrev middle : Tree
  middle = insert_node ino child t

  apart : (p == ino) ≡ false
  apart = ground (arith, w.fresh ino, found)

  find :
      (j : ℕ)
      → find_node j attached
        ≡ (if p == j then some parent' else if ino == j then some child else find_node j t)
  find j = find_node-insert_node p j parent' middle ∙ rw (find_node-insert_node ino j child t) refl

  names-child : (x : ℕ) → names x child ≡ 0
  unfolding sum
  names-child x = rw empty refl

  names-parent : (x : ℕ) → names x parent' ≡ names x parent + one x ino
  names-parent x = rw entries' (ground (arith, names-add_name x ino name parent, free))

  counted : (x : ℕ) → refs x attached ≡ refs x t + one x ino
  counted x = ground (
    arith,
    refs-insert_node x p parent' middle,
    refs-insert_node x ino child t,
    find_node-insert_node ino p child t,
    w.fresh ino,
    names-child x,
    names-parent x,
    found,
    apart,
  )

  is_dir-attached :
      (j : ℕ) → is_dir attached j ≡ (if ino == j then is_directory child.kind else is_dir t j)
  is_dir-attached j = ground (arith, find j, apart, found, dir, kind', ==_iff p j, ==_iff ino j)

  no_refs : refs ino t ≡ 0
  no_refs = w.present ino (w.fresh ino (omega arith))

  -- No node of the old tree names the new number.
  unnamed : (i : ℕ) (n : Node) → find_node i t ≡ some n → names ino n ≡ 0
  unnamed i n e = ground (arith, names-le-refs ino i t, no_refs, e)

  subdirs_kept : (i : ℕ) (n : Node) → find_node i t ≡ some n → subdirs attached n ≡ subdirs t n
  subdirs_kept i n e =
      subdirs_agree attached t n (w.entry_keys i n e)
        (λ c pos. ground (arith, is_dir-attached c, unnamed i n e, ==_iff ino c, pos))

  subdirs-parent : subdirs attached parent' ≡ subdirs t parent + dir_count child
  subdirs-parent = rw entries' (
      ground (
        arith,
        subdirs-add_name attached ino name parent,
        free,
        subdirs_kept p parent found,
        is_dir-attached ino,
        ==_iff ino ino,
      ))

  -- Which of the three inodes a lookup finds.
  data Origin (j : ℕ) (n : Node) : Type 0 where
    is_parent : j ≡ p → n ≡ parent' → Origin j n
    is_child : j ≡ ino → n ≡ child → Origin j n
    is_old : (p == j) ≡ false → (ino == j) ≡ false → find_node j t ≡ some n → Origin j n

  origin : (j : ℕ) (n : Node) → find_node j attached ≡ some n → Origin j n
  origin j n e = elim (Bool-cases (p == j)) [
    | inl y ↦ is_parent (ground (arith, y)) (ground (arith, find j, y))
    | inr y ↦ elim (Bool-cases (ino == j)) [
      | inl z ↦ is_child (ground (arith, z)) (ground (arith, find j, y, z))
      | inr z ↦ is_old y z (ground (arith, find j, y, z))
    ]
  ]

  by_origin {κ} :
      (P : ℕ → Node → Type κ)
      → P p parent'
      → P ino child
      → ((j : ℕ) (n : Node)
          → (p == j) ≡ false
          → (ino == j) ≡ false
          → find_node j t ≡ some n
          → P j n)
      → (j : ℕ) (n : Node) → find_node j attached ≡ some n
      → P j n
  by_origin P a b c j n e = elim (origin j n e) [
    | is_parent i f ↦ subst (λ j. P j n) (sym i) (subst (P p) (sym f) a)
    | is_child i f ↦ subst (λ j. P j n) (sym i) (subst (P ino) (sym f) b)
    | is_old x y f ↦ c j n x y f
  ]

  -- A new inode under a free name of a directory.
  pub attached-IsTree : IsTree attached
  unfolding sum
  attached-IsTree = record {
    keys = put-IsMap p parent' middle.inodes (put-IsMap ino child t.inodes w.keys);
    entry_keys =
        by_origin (λ j n. IsMap n.entries)
          (rw entries' (put-IsMap name ino parent.entries (w.entry_keys p parent found)))
          (rw empty tt) (λ j n x y e. w.entry_keys j n e);
    fresh = λ i h. ground (arith, find i, w.fresh i, found);
    leaves =
        by_origin (λ j n. is_directory n.kind ≡ false → n.entries ≡ []) (λ f. cc (f, dir, kind'))
          (λ f. empty) (λ j n x y e f. w.leaves j n e f);
    present = λ i h. ground (arith, find i, counted i, w.present i);
    file_links =
        by_origin (λ j n. is_directory n.kind ≡ false → n.nlink ≡ refs j attached)
          (λ f. cc (f, dir, kind'))
          (λ f. ground (arith, counted ino, no_refs, links, ==_iff ino ino))
          (λ j n x y e f. ground (arith, counted j, w.file_links j n e f, y));
    dir_links =
        by_origin (λ j n. is_directory n.kind ≡ true → n.nlink ≡ 2 + subdirs attached n)
          (λ f. ground (arith, subdirs-parent, nlink', w.dir_links p parent found dir))
          (λ f. rw empty (ground (arith, links)))
          (λ j n x y e f. ground (arith, subdirs_kept j n e, w.dir_links j n e f));
    dir_once =
        λ i d r. ground (arith, is_dir-attached i, counted i, no_refs, w.dir_once i, ==_iff ino i);
    root = ground (arith, is_dir-attached root_ino, w.root, w.fresh root_ino);
    root_once = ground (arith, counted root_ino, w.root_once, w.root, w.fresh root_ino);
  }
