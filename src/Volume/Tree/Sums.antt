-- ===== src/Volume/Tree/Sums.antt =====
-- How lookups and counts change when one inode is replaced or taken out.
use argos_fs.Common.Map.{
  nat_key, get, IsMap, weight_of, get-put, get-del, sum-put, sum-del, weight_of-le-sum, sum_agree,
}
use argos_fs.Common.Bytes.{bytes_key}
use argos_fs.Common.{ℕ, ◌+◌, ◌≤◌, ◌<◌, ◌≡◌, refl, none, some, ◌==◌, ==_iff, if◌then◌else◌, arith}
use argos_fs.Volume.Tree.{
  Name, Node, Tree, find_node, insert_node, remove_node, add_name, drop_name,
}
use argos_fs.Volume.Tree.WellFormed.{names, refs, is_dir, subdirs}

pub find_node-insert_node :
    (i j : ℕ) (n : Node) (t : Tree)
    → find_node j (insert_node i n t) ≡ (if i == j then some n else find_node j t)
find_node-insert_node i j n t = get-put j i n t.inodes

pub find_node-remove_node :
    (i j : ℕ) (t : Tree) → find_node j (remove_node i t) ≡ (if i == j then none else find_node j t)
find_node-remove_node i j t = get-del j i t.inodes

pub refs-insert_node :
    (x i : ℕ) (n : Node) (t : Tree)
    → refs x (insert_node i n t) + weight_of (names x) (find_node i t) ≡ refs x t + names x n
refs-insert_node x i n t = sum-put (names x) i n t.inodes

pub refs-remove_node :
    (x i : ℕ) (t : Tree)
    → IsMap t.inodes
    → refs x (remove_node i t) + weight_of (names x) (find_node i t) ≡ refs x t
refs-remove_node x i t h = sum-del (names x) i t.inodes h

-- The number of a name's inodes, 1 or 0.
abbrev pub one : ℕ → ℕ → ℕ
one x c = if c == x then 1 else 0

pub names-add_name :
    (x child : ℕ) (name : Name) (n : Node)
    → names x (add_name name child n) + weight_of (one x) (get name n.entries)
      ≡ names x n + one x child
names-add_name x child name n = sum-put (one x) name child n.entries

pub names-drop_name :
    (x : ℕ) (name : Name) (n : Node)
    → IsMap n.entries
    → names x (drop_name name n) + weight_of (one x) (get name n.entries) ≡ names x n
names-drop_name x name n h = sum-del (one x) name n.entries h

abbrev pub dir_one : Tree → ℕ → ℕ
dir_one t c = if is_dir t c then 1 else 0

pub subdirs-add_name :
    (t : Tree) (child : ℕ) (name : Name) (n : Node)
    → subdirs t (add_name name child n) + weight_of (dir_one t) (get name n.entries)
      ≡ subdirs t n + dir_one t child
subdirs-add_name t child name n = sum-put (dir_one t) name child n.entries

pub subdirs-drop_name :
    (t : Tree) (name : Name) (n : Node)
    → IsMap n.entries
    → subdirs t (drop_name name n) + weight_of (dir_one t) (get name n.entries) ≡ subdirs t n
subdirs-drop_name t name n h = sum-del (dir_one t) name n.entries h

-- A child that has an entry is counted.
pub one-le-names :
    (x : ℕ) (name : Name) (n : Node) → weight_of (one x) (get name n.entries) ≤ names x n
one-le-names x name n = weight_of-le-sum (one x) name n.entries

pub names-le-refs : (x i : ℕ) (t : Tree) → weight_of (names x) (find_node i t) ≤ refs x t
names-le-refs x i t = weight_of-le-sum (names x) i t.inodes

-- Subdirectories are counted alike where the trees agree on the children that are named.
pub subdirs_agree :
    (s t : Tree) (n : Node)
    → IsMap n.entries
    → ((c : ℕ) → 0 < names c n → is_dir s c ≡ is_dir t c)
    → subdirs s n ≡ subdirs t n
subdirs_agree s t n h same =
    sum_agree (dir_one s) (dir_one t) n.entries
      (λ k c e. rw (same c (ground (arith, one-le-names c k n, e, ==_iff c c))) refl) h
