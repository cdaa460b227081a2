-- ===== src/Volume/Tree/Rewire.antt =====
-- Changes of names and link counts that keep the inodes and their kinds.
pub mod Nodes
use argos_fs.Common.Map.{Key, nat_key, get, put, IsMap, sum, weight_of, put-IsMap}
use argos_fs.Common.Bytes.{bytes_key}
use argos_fs.Common.{
  ℕ, ◌+◌, ◌≤◌, ◌<◌, ◌≡◌, refl, sym, ap, ◌∙◌, subst, inl, inr, Bool, true, false, List, [], ◌∷◌,
  Option, none, some, ◌==◌, ==_iff, if◌then◌else◌, Bool-cases, arith,
}
use argos_fs.Security.Acl.{NodeKind, is_directory}
use argos_fs.Volume.Tree.{Node, Tree, find_node, insert_node, root_ino}
use argos_fs.Volume.Tree.Sums.{find_node-insert_node, refs-insert_node, one, dir_one, subdirs_agree}
use argos_fs.Volume.Tree.WellFormed.{names, refs, is_dir, is_directory_node, subdirs, IsTree}

-- The node of an inode before and after the change. `r` and `r'` are the numbers of its names.
pub record Follows (t : Tree) (r r' : ℕ) (n n' : Node) : Type 0 where
  pub kind : n'.kind ≡ n.kind
  pub entry_keys : IsMap n'.entries
  pub leaf : is_directory n.kind ≡ false → n'.entries ≡ []
  pub file_links : is_directory n.kind ≡ false → n'.nlink + r ≡ n.nlink + r'
  pub dir_links : is_directory n.kind ≡ true → n'.nlink + subdirs t n ≡ n.nlink + subdirs t n'

-- A node that is left alone.
pub Follows-same :
    (t : Tree) (w : IsTree t) (i : ℕ) (n : Node) (r r' : ℕ)
    → find_node i t ≡ some n
    → (is_directory n.kind ≡ false → r ≡ r')
    → Follows t r r' n n
Follows-same t w i n r r' e same = record {
  kind = refl;
  entry_keys = w.entry_keys i n e;
  leaf = λ f. w.leaves i n e f;
  file_links = λ f. omega (arith, same f);
  dir_links = λ d. refl;
}

-- How an inode looks in two trees.
pub data Pair (t t' : Tree) (i : ℕ) : Type 0 where
  both :
      (n n' : Node)
      → find_node i t ≡ some n
      → find_node i t' ≡ some n'
      → n'.kind ≡ n.kind
      → Pair t t' i
  neither : find_node i t ≡ none → find_node i t' ≡ none → Pair t t' i

module _ (t t' : Tree) (w : IsTree t) (keys : IsMap t'.inodes) (next : t'.next_inode ≡ t.next_inode)
    (pair : (i : ℕ) → Pair t t' i)
    (follows : (i : ℕ) (n n' : Node)
      → find_node i t ≡ some n
      → find_node i t' ≡ some n'
      → Follows t (refs i t) (refs i t') n n')
    (missing : (i : ℕ) → find_node i t ≡ none → refs i t' ≡ 0)
    (named : (i : ℕ) → is_dir t i ≡ true → refs i t' ≡ refs i t) where
  same_dirs : (i : ℕ) → is_dir t' i ≡ is_dir t i
  same_dirs i = elim (pair i) [
    | both n n' e e' k ↦ rw (e, e', k) refl
    | neither e e' ↦ rw (e, e') refl
  ]

  same_subdirs : (n : Node) → IsMap n.entries → subdirs t' n ≡ subdirs t n
  same_subdirs n h = subdirs_agree t' t n h (λ c pos. same_dirs c)

  was {κ} :
      (i : ℕ) (n' : Node) (P : Type κ)
      → ((n : Node)
          → find_node i t ≡ some n
          → n'.kind ≡ n.kind
          → Follows t (refs i t) (refs i t') n n'
          → P)
      → find_node i t' ≡ some n'
      → P
  was i n' P f e' = elim (pair i) [
    | both n m e em k ↦
        let same : m ≡ n' = cc in
        f n e (ap (λ (x : Node). x.kind) (sym same) ∙ k) (follows i n n' e e')
    | neither e em ↦ absurd (cc)
  ]

  pub rewired-IsTree : IsTree t'
  rewired-IsTree = record {
    keys = keys;
    entry_keys = λ i n' e'. was i n' (IsMap n'.entries) (λ n e k f. f.entry_keys) e';
    fresh = λ i h. elim (pair i) [
      | both n n' e e' k ↦ cc (w.fresh i (rw next at h), e)
      | neither e e' ↦ e'
    ];
    leaves = λ i n' e' d. was i n' (n'.entries ≡ []) (λ n e k f. f.leaf (ground (arith, k, d))) e';
    present = λ i h. elim (pair i) [ both n n' e e' k ↦ absurd (cc) | neither e e' ↦ missing i e ];
    file_links = λ i n' e' d.
        was i n' (n'.nlink ≡ refs i t')
          (λ n e k f.
            let d' : is_directory n.kind ≡ false = rw (← k) d in
            omega (arith, f.file_links d', w.file_links i n e d'))
          e';
    dir_links = λ i n' e' d.
        was i n' (n'.nlink ≡ 2 + subdirs t' n')
          (λ n e k f.
            let d' : is_directory n.kind ≡ true = rw (← k) d in
            omega (arith, f.dir_links d', w.dir_links i n e d', same_subdirs n' f.entry_keys))
          e';
    dir_once = λ i d r.
        let d' : is_dir t i ≡ true = sym (same_dirs i) ∙ d in named i d' ∙ w.dir_once i d' r;
    root = same_dirs root_ino ∙ w.root;
    root_once = named root_ino w.root ∙ w.root_once;
  }
