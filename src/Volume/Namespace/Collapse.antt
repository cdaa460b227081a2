-- ===== src/Volume/Namespace/Collapse.antt =====
-- The updates of an operation, one after the other, as one change of the inodes.
use argos_fs.Common.Map.{nat_key, get, put-put, put_swap}
use argos_fs.Common.Bytes.{bytes_key}
use argos_fs.Common.{ℕ, ◌≡◌, refl, ap, ◌∙◌, true, false, none, some, ◌==◌, ==_iff, arith}
use argos_fs.Error.{ok, >>=-eq-ok}
use argos_fs.Security.Acl.{is_directory}
use argos_fs.Volume.Namespace.{vacant_in}
use argos_fs.Volume.Tree.{
  Name, Node, Tree, find_node, insert_node, update_node, dir_inode, update_dir,
}
use argos_fs.Volume.Tree.Sums.{find_node-insert_node}

pub found_there : (i : ℕ) (n : Node) (t : Tree) → find_node i (insert_node i n t) ≡ some n
found_there i n t = ground (arith, find_node-insert_node i i n t, ==_iff i i)

pub found_elsewhere :
    (i j : ℕ) (n m : Node) (t : Tree)
    → (i == j) ≡ false
    → find_node j t ≡ some m
    → find_node j (insert_node i n t) ≡ some m
found_elsewhere i j n m t apart h = ground (arith, find_node-insert_node i j n t, apart, h)

pub insert_node-insert_node :
    (i : ℕ) (a b : Node) (t : Tree) → insert_node i a (insert_node i b t) ≡ insert_node i a t
insert_node-insert_node i a b t = ap (λ l. record t { inodes = l }) (put-put i a b t.inodes)

pub insert_node_swap :
    (i j : ℕ) (a b c : Node) (t : Tree)
    → (i == j) ≡ false
    → find_node i t ≡ some c
    → insert_node i a (insert_node j b t) ≡ insert_node j b (insert_node i a t)
insert_node_swap i j a b c t apart h =
    ap (λ l. record t { inodes = l }) (put_swap i j a b c t.inodes apart h)

pub update_node-found :
    (i : ℕ) (f : Node → Node) (t : Tree) (n : Node)
    → find_node i t ≡ some n
    → update_node i f t ≡ insert_node i (f n) t
unfolding update_node
update_node-found i f t n h = ground (arith, h)

-- A second update of the same inode.
pub update_node-insert_node :
    (i : ℕ) (f : Node → Node) (t : Tree) (n : Node)
    → update_node i f (insert_node i n t) ≡ insert_node i (f n) t
update_node-insert_node i f t n =
    update_node-found i f (insert_node i n t) n (found_there i n t)
    ∙ insert_node-insert_node i (f n) n t

-- The directory that a lookup returns.
pub dir_inode-ok :
    (i : ℕ) (t : Tree) (n : Node)
    → dir_inode i t ≡ ok n
    → (find_node i t ≡ some n) × (is_directory n.kind ≡ true)
unfolding dir_inode
dir_inode-ok i t n h = ground (arith, h)

pub update_dir-found :
    (i : ℕ) (f : Node → Node) (t : Tree) (n : Node)
    → find_node i t ≡ some n
    → is_directory n.kind ≡ true
    → update_dir i f t ≡ ok (insert_node i (f n) t)
unfolding update_dir dir_inode
update_dir-found i f t n h d = rw (h, d) refl

pub vacant_in-ok :
    (i : ℕ) (name : Name) (t : Tree) (n : Node)
    → vacant_in i name t ≡ ok n
    → (find_node i t ≡ some n) × (is_directory n.kind ≡ true) × (get name n.entries ≡ none)
unfolding vacant_in
vacant_in-ok i name t n h =
    let (p, e, g) = >>=-eq-ok (dir_inode i t) _ h in
    let (found, dir) = dir_inode-ok i t p e in
    (ground (arith, g, found), ground (arith, g, dir), ground (arith, g))
