-- ===== src/Volume/Namespace/Unlink.antt =====
-- `unlink_locked` and `reap_unlinked_inode` of src/volume/mod.rs.
pub mod Removed
use argos_fs.Common.Map.{Key, nat_key, get}
use argos_fs.Common.Bytes.{bytes_key}
use argos_fs.Common.{
  ℕ, Bool, true, false, ◌&&◌, not, List, [], ◌∷◌, Option, none, some, ◌==◌, if◌then◌else◌,
}
use argos_fs.Error.{
  ArgosError, Result, ok, err, ◌>>=◌, ◌>>◌, handle, fail_if, ok_or, not_found, not_directory,
  is_directory as is_a_directory, directory_not_empty,
}
use argos_fs.Security.Acl.{is_directory}
use argos_fs.Volume.Commit.{Mount, Outcome, ensure_block_backend_writable, commit}
use argos_fs.Volume.Names.{validate_entry_name}
use argos_fs.Volume.Namespace.{check_sticky, one_less, one_less_dir, settle, after}
use argos_fs.Volume.Tree.{
  Name, Node, Tree, find_node, dir_inode, remove_node, update_node, update_dir, drop_name,
  touch_inode,
}

abbrev pub is_empty {ℓ} : {A : Type ℓ} → List A → Bool
is_empty [] = true
is_empty (x ∷ xs) = false

module _ (m : Mount) (t : Tree) where
  -- The checks of the kind of the removed inode.
  unfoldable pub removable : (dir : Bool) → Node → Result (Unit {0})
  removable true child = do
    fail_if (not (is_directory child.kind)) not_directory
    fail_if (not (is_empty child.entries)) directory_not_empty
  removable false child = fail_if (is_directory child.kind) is_a_directory

  abbrev pub one_less_at : Node → Node
  one_less_at n = record (one_less n) { ctime = m.now }

  -- A file whose last name is gone is removed, unless it is kept for its open handles.
  abbrev pub drop_live : (preserve_unlinked : Bool) → ℕ → Tree → Option Node → Tree
  drop_live preserve child s none = s
  drop_live preserve child s (some live) =
      if (one_less_at live).nlink == 0 && not preserve
      then remove_node child (update_node child one_less_at s)
      else update_node child one_less_at s

  abbrev pub drop_link : (preserve_unlinked : Bool) → ℕ → Tree → Tree
  drop_link preserve child s = drop_live preserve child s (find_node child s)

  abbrev pub removed_from :
      (preserve_unlinked : Bool) → (parent child : ℕ) → (child_dir : Bool) → Tree → Tree
  removed_from preserve parent child child_dir s =
      if child_dir
      then remove_node child (update_node parent one_less_dir s)
      else drop_link preserve child s

  unfoldable pub stage_unlink :
      (parent : ℕ)
      → Name
      → (dir : Bool) → (uid : Option ℕ) → (preserve_unlinked : Bool) → Result Tree
  stage_unlink parent name dir uid preserve = do
    validate_entry_name name
    p ← dir_inode parent t
    child ← ok_or (get name p.entries) not_found
    child_inode ← ok_or (find_node child t) not_found
    check_sticky t parent child uid
    ensure_block_backend_writable m
    removable dir child_inode
    s ← update_dir parent (drop_name name) t
    ok (
        removed_from preserve parent child (is_directory child_inode.kind)
          (touch_inode parent true true m.now s))

  unfoldable pub unlink :
      (parent : ℕ)
      → Name
      → (dir : Bool) → (uid : Option ℕ) → (preserve_unlinked : Bool) → Outcome (Unit {0})
  unlink parent name dir uid preserve =
      after (settle m none t (stage_unlink parent name dir uid preserve)) (λ s. m.rebuild_quotas s)

  -- An inode that still has a name is left alone.
  abbrev pub reap_found : ℕ → Option Node → Option Tree
  reap_found ino none = none
  reap_found ino (some inode) = if not (inode.nlink == 0) then none else some (remove_node ino t)

  unfoldable pub stage_reap : ℕ → Result (Option Tree)
  stage_reap ino = do ensure_block_backend_writable m; ok (reap_found ino (find_node ino t))

  abbrev pub reap_settled : Result (Option Tree) → Outcome (Unit {0})
  reap_settled (err e) = (err e, t)
  reap_settled (ok none) = (ok tt, t)
  reap_settled (ok (some s)) = commit m s

  unfoldable pub reap_unlinked_inode : ℕ → Outcome (Unit {0})
  reap_unlinked_inode ino = reap_settled (stage_reap ino)
