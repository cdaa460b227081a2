-- ===== src/Volume/Namespace/Link.antt =====
-- `link_at` of src/volume/namespace.rs.
pub mod Linked
use argos_fs.Common.{ℕ, Bool, true, false, List, Option, none, some, if◌then◌else◌}
use argos_fs.Error.{
  ArgosError, Result, ok, err, ◌>>=◌, ◌>>◌, fail_if, ok_or, not_found, unsupported,
}
use argos_fs.Security.Acl.{is_directory}
use argos_fs.Volume.Commit.{Mount, Outcome, ensure_block_backend_writable}
use argos_fs.Volume.Names.{entry_name_from_os}
use argos_fs.Volume.Namespace.{vacant_in, one_more, settle, after}
use argos_fs.Volume.Tree.{Node, Tree, find_node, update_node, update_dir, add_name, touch_inode}

module _ (hex_encode : List ℕ → List ℕ) (m : Mount) (t : Tree) (ino : ℕ) (new_parent : ℕ) where
  abbrev pub one_more_at : Node → Node
  one_more_at n = record (one_more n) { ctime = m.now }

  abbrev pub checked_quotas : Tree → Result Tree
  checked_quotas s = if m.has_directory_quotas then (m.validate_quotas s >> ok s) else ok s

  unfoldable pub stage_link : (new_name : List ℕ) → Result Tree
  stage_link new_name = do
    name ← entry_name_from_os hex_encode new_name
    ensure_block_backend_writable m
    inode ← ok_or (find_node ino t) not_found
    p ← vacant_in new_parent name t
    fail_if (is_directory inode.kind) unsupported
    s ← update_dir new_parent (add_name name ino) t
    checked_quotas (touch_inode new_parent true true m.now (update_node ino one_more_at s))

  -- The inode, of whose attributes the caller is told.
  unfoldable pub link_at : (new_name : List ℕ) → Outcome Node
  link_at new_name =
      after (settle m none t (stage_link new_name))
        (λ s. do m.rebuild_quotas s; ok_or (find_node ino s) not_found)
