-- ===== src/Volume/Namespace/Create/Entered.antt =====
-- A staged inode under a new name leaves a well-formed tree.
use argos_fs.Common.Map.{nat_key, get}
use argos_fs.Common.Bytes.{bytes_key}
use argos_fs.Common.Word.{u32_max}
use argos_fs.Common.{
  ℕ, ◌+◌, ◌<◌, ◌≡◌, refl, true, false, List, [], Option, none, some, ◌==◌, ==_iff, arith,
}
use argos_fs.Error.{ok, ◌>>=◌, Yields, >>=-Yields}
use argos_fs.Security.Acl.{NodeKind, is_directory}
use argos_fs.Volume.Commit.{Mount, ensure_block_backend_writable}
use argos_fs.Volume.Names.{validate_entry_name, entry_name_from_os}
use argos_fs.Volume.Namespace.{vacant_in, one_more}
use argos_fs.Volume.Namespace.Collapse.{
  found_elsewhere, update_node-insert_node, update_dir-found, vacant_in-ok,
}
use argos_fs.Volume.Namespace.Create.{
  enter, new_directory, mknod_kind, stage_mkdir, stage_mknod, stage_symlink,
}
use argos_fs.Volume.Tree.{
  Name, Node, Tree, find_node, insert_node, add_name, touched, touch_inode, alloc_inode,
}
use argos_fs.Volume.Tree.Attach.{dir_count, attached-IsTree}
use argos_fs.Volume.Tree.WellFormed.{IsTree}

-- No link count is at the end of its range.
abbrev pub IsRoomy : Tree → Type 0
IsRoomy t = (i : ℕ) (n : Node) → find_node i t ≡ some n → n.nlink < u32_max

module _ (t : Tree) (w : IsTree t) (parent : ℕ) (name : Name) (p : Node)
    (found : find_node parent t ≡ some p) (dir : is_directory p.kind ≡ true)
    (free : get name p.entries ≡ none) (node : Node) (empty : node.entries ≡ [])
    (links : node.nlink ≡ 1 + dir_count node) where
  abbrev base : Tree
  base = record (insert_node t.next_inode node t) { next_inode = t.next_inode + 1 }

  abbrev named : Node
  named = add_name name t.next_inode p

  apart : (t.next_inode == parent) ≡ false
  apart = ground (arith, w.fresh parent, found, ==_iff t.next_inode parent)

  pub enter-ok : enter parent name (alloc_inode t) node ≡ ok (insert_node parent named base)
  unfolding alloc_inode
  enter-ok =
      update_dir-found parent (add_name name t.next_inode) base p
        (found_elsewhere t.next_inode parent node p t apart found) dir

  -- With the changes of the parent that follow.
  pub entered-IsTree :
      (f : Node → Node)
      → (f named).kind ≡ p.kind
      → (f named).entries ≡ named.entries
      → (f named).nlink ≡ p.nlink + dir_count node
      → IsTree (insert_node parent (f named) base)
  entered-IsTree f kind entries nlink =
      attached-IsTree t w parent p name node found dir free empty links (f named) kind entries nlink

module _ (m : Mount) (t : Tree) (w : IsTree t) (parent : ℕ) where
  pub stage_mkdir-Yields :
      IsRoomy t
      → (name : Name) (mode uid gid : ℕ) → Yields IsTree (stage_mkdir m t parent name mode uid gid)
  unfolding stage_mkdir touch_inode
  stage_mkdir-Yields roomy name mode uid gid =
      >>=-Yields IsTree (ensure_block_backend_writable m) _ (λ _ _.
        >>=-Yields IsTree (validate_entry_name name) _ (λ _ _.
          >>=-Yields IsTree (vacant_in parent name t) _ (λ p e.
            let (found, dir, free) = vacant_in-ok parent name t p e in
            let node = new_directory m t parent p name mode uid gid in
            let named = add_name name t.next_inode p in
            let base : Tree = record (insert_node t.next_inode node t) {
              next_inode = t.next_inode + 1;
            } in
            let touches =
              update_node-insert_node parent (touched true true m.now) base (one_more named) in
            let grown = update_node-insert_node parent one_more base named in
            rw (enter-ok t w parent name p found dir free node refl refl) (
              rw grown (
                rw touches (
                  entered-IsTree t w parent name p found dir free node refl refl
                    (λ n. touched true true m.now (one_more n)) refl refl
                    (ground (arith, roomy parent p found))))))))

  -- A node that is no directory, with the parent touched.
  leaf_entered :
      (name : Name) (p : Node)
      → vacant_in parent name t ≡ ok p
      → (node : Node) → node.entries ≡ []
      → node.nlink ≡ 1
      → is_directory node.kind ≡ false
      → Yields IsTree (
          enter parent name (alloc_inode t) node
          >>= (λ s. ok (touch_inode parent true true m.now s)))
  unfolding touch_inode
  leaf_entered name p e node empty one leaf =
      let (found, dir, free) = vacant_in-ok parent name t p e in
      let named = add_name name t.next_inode p in
      let base : Tree = record (insert_node t.next_inode node t) {
        next_inode = t.next_inode + 1;
      } in
      let touches = update_node-insert_node parent (touched true true m.now) base named in
      let links : node.nlink ≡ 1 + dir_count node = ground (arith, one, leaf) in
      rw (enter-ok t w parent name p found dir free node empty links) (
        rw touches (
          entered-IsTree t w parent name p found dir free node empty links (touched true true m.now)
            refl refl (ground (arith, leaf))))

  mknod_kind-leaf :
      (mode rdev : ℕ) (k : NodeKind)
      → mknod_kind m t parent mode rdev ≡ ok k
      → is_directory k ≡ false
  unfolding mknod_kind
  mknod_kind-leaf mode rdev k h = ground (arith, h)

  pub stage_mknod-Yields :
      (name : Name) (mode rdev uid gid : ℕ)
      → Yields IsTree (stage_mknod m t parent name mode rdev uid gid)
  unfolding stage_mknod
  stage_mknod-Yields name mode rdev uid gid =
      >>=-Yields IsTree (ensure_block_backend_writable m) _ (λ _ _.
        >>=-Yields IsTree (validate_entry_name name) _ (λ _ _.
          >>=-Yields IsTree (vacant_in parent name t) _ (λ p e.
            >>=-Yields IsTree (mknod_kind m t parent mode rdev) _
              (λ k d. leaf_entered name p e _ refl refl (mknod_kind-leaf mode rdev k d)))))

  module _ (hex_encode : List ℕ → List ℕ) (hex_decode : List ℕ → Option (List ℕ)) where
    pub stage_symlink-Yields :
        (name target : List ℕ) (uid gid : ℕ)
        → Yields IsTree (stage_symlink hex_encode hex_decode m t parent name target uid gid)
    unfolding stage_symlink
    stage_symlink-Yields name target uid gid =
        >>=-Yields IsTree (entry_name_from_os hex_encode name) _ (λ stored _.
          >>=-Yields IsTree (ensure_block_backend_writable m) _ (λ _ _.
            >>=-Yields IsTree (vacant_in parent stored t) _
              (λ p e. leaf_entered stored p e _ refl refl refl)))
