-- ===== src/Volume/Namespace/Rename/Touched.antt =====
-- Changes of an inode that leave its kind, names and link count alone, and the links of a directory
-- that gets a new parent.
use argos_fs.Common.Map.{nat_key, IsMap}
use argos_fs.Common.Bytes.{bytes_key}
use argos_fs.Common.Word.{u32_max}
use argos_fs.Common.{
  ℕ, ◌+◌, ◌-◌, ◌≡◌, refl, ap, ◌∙◌, min, max, Bool, true, false, Option, none, some, ◌==◌, ==_iff,
  if◌then◌else◌, arith,
}
use argos_fs.Security.Acl.{is_directory}
use argos_fs.Volume.Commit.{Mount}
use argos_fs.Volume.Namespace.{one_more, one_less_dir}
use argos_fs.Volume.Namespace.Collapse.{
  found_there, found_elsewhere, insert_node-insert_node, insert_node_swap, update_node-found,
  update_node-insert_node,
}
use argos_fs.Volume.Namespace.Rename.{moved_subdir}
use argos_fs.Volume.Tree.{
  Name, Node, Tree, find_node, insert_node, update_node, touched, touch_inode,
}
use argos_fs.Volume.Tree.Rewire.Nodes.{replaced-IsTree, replaced2-IsTree}
use argos_fs.Volume.Tree.Sums.{find_node-insert_node}
use argos_fs.Volume.Tree.WellFormed.{IsTree, lookup, names, subdirs}

pub touch_inode-IsTree :
    (i : ℕ) (a b : Bool) (now : ℕ) (t : Tree) → IsTree t → IsTree (touch_inode i a b now t)
unfolding touch_inode update_node
touch_inode-IsTree i a b now t w = touched_found (find_node i t) refl
  where
    touched_found :
        (o : Option Node)
        → find_node i t ≡ o
        → IsTree (elim o [ none ↦ t | some n ↦ insert_node i (touched a b now n) t ])
    touched_found none e = w
    touched_found (some n) e =
        replaced-IsTree t w i n (touched a b now n) e (λ x. refl)
          (record {
            kind = refl;
            entry_keys = w.entry_keys i n e;
            leaf = w.leaves i n e;
            file_links = λ f. refl;
            dir_links = λ d. refl;
          })

-- No name leads elsewhere.
pub lookup-touch_inode :
    (x : ℕ) (name : Name) (i : ℕ) (a b : Bool) (now : ℕ) (t : Tree)
    → lookup x name (touch_inode i a b now t) ≡ lookup x name t
unfolding touch_inode update_node
lookup-touch_inode x name i a b now t = touched_found (find_node i t) refl
  where
    touched_found :
        (o : Option Node)
        → find_node i t ≡ o
        → lookup x name (elim o [ none ↦ t | some n ↦ insert_node i (touched a b now n) t ])
          ≡ lookup x name t
    touched_found none e = refl
    touched_found (some n) e =
        ground (arith, find_node-insert_node i x (touched a b now n) t, e, ==_iff i x)

-- Two directories of which the second gets a name that the first loses.
module _ (t : Tree) (w : IsTree t) (p q : ℕ) (n m : Node) (found_p : find_node p t ≡ some n)
    (found_q : find_node q t ≡ some m) (dir_p : is_directory n.kind ≡ true)
    (dir_q : is_directory m.kind ≡ true) (apart : (p == q) ≡ false) (n' m' : Node)
    (kind_p : n'.kind ≡ n.kind) (kind_q : m'.kind ≡ m.kind) (keys_p : IsMap n'.entries)
    (keys_q : IsMap m'.entries)
    (balance : (x : ℕ) → names x n' + names x m' ≡ names x n + names x m)
    (links_p : n'.nlink + subdirs t n ≡ n.nlink + subdirs t n')
    (links_q : m'.nlink + subdirs t m ≡ m.nlink + subdirs t m') where
  pub traded-IsTree : IsTree (insert_node q m' (insert_node p n' t))
  traded-IsTree =
      replaced2-IsTree t w p q n n' m m' found_p found_q apart (λ x. 0) (λ x. 0)
        (λ x. omega (arith, balance x)) (λ x d. refl) (λ x e. refl) (λ x a b. refl)
        (λ r' e. record {
          kind = kind_p;
          entry_keys = keys_p;
          leaf = λ f. absurd (ground (arith, f, dir_p));
          file_links = λ f. absurd (ground (arith, f, dir_p));
          dir_links = λ d. links_p;
        })
        (λ r' e. record {
          kind = kind_q;
          entry_keys = keys_q;
          leaf = λ f. absurd (ground (arith, f, dir_q));
          file_links = λ f. absurd (ground (arith, f, dir_q));
          dir_links = λ d. links_q;
        })

-- How a subdirectory that changes its parent is counted, on two inodes that were replaced before.
abbrev pub lowered : Bool → Node → Node
lowered d n = record n { nlink = if d then max (n.nlink - 1) 2 else n.nlink }

abbrev pub raised : Bool → Node → Node
raised d n = record n { nlink = if d then min u32_max (n.nlink + 1) else n.nlink }

module _ (m : Mount) (t s : Tree) (o : ℕ) (o_name : Name) (k : ℕ) (k_name : Name) (p q : ℕ)
    (n' m' : Node) (apart : (p == q) ≡ false) where
  back : (q == p) ≡ false
  back = ground (arith, apart, ==_iff p q, ==_iff q p)

  first_updated :
      (f : Node → Node) (m' : Node)
      → update_node p f (insert_node q m' (insert_node p n' s))
        ≡ insert_node q m' (insert_node p (f n') s)
  first_updated f m' =
      let base = insert_node p n' s in
      let there' = found_there p n' s in
      update_node-found p f (insert_node q m' base) n' (found_elsewhere q p m' n' base back there')
      ∙ insert_node_swap p q (f n') m' n' base apart there'
      ∙ ap (insert_node q m') (insert_node-insert_node p (f n') n' s)

  pub first_to_second :
      (d : Bool)
      → moved_subdir m t o o_name k k_name p q d (insert_node q m' (insert_node p n' s))
        ≡ insert_node q (raised d m') (insert_node p (lowered d n') s)
  first_to_second false = refl
  first_to_second true =
      rw (first_updated one_less_dir m')
        (update_node-insert_node q one_more (insert_node p (one_less_dir n') s) m')

  pub second_to_first :
      (d : Bool)
      → moved_subdir m t o o_name k k_name q p d (insert_node q m' (insert_node p n' s))
        ≡ insert_node q (lowered d m') (insert_node p (raised d n') s)
  second_to_first false = refl
  second_to_first true =
      rw (update_node-insert_node q one_less_dir (insert_node p n' s) m')
        (first_updated one_more (one_less_dir m'))
