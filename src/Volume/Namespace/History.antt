-- ===== src/Volume/Namespace/History.antt =====
-- Sequences of operations on the namespace, with commits that succeed or fail at any of them.
pub mod Preserved
pub mod Durable
use argos_fs.Common.{
  ℕ, ◌+◌, ◌≤◌, ◌≡◌, refl, sym, ap, ◌∙◌, subst, ◌⊎◌, inl, inr, Bool, true, false, ◌&&◌, not, List,
  [], ◌∷◌, ◌++◌, Option, none, some, ◌==◌, if◌then◌else◌, if_cases, arith,
}
use argos_fs.Error.{ArgosError, Result, ok, err, ◌>>=◌, ◌>>◌, is_ok, Yields, >>=-Yields}
use argos_fs.Security.Acl.{is_directory}
use argos_fs.Volume.Commit.{
  Mount, Outcome, ensure_block_backend_writable, transaction_error_is_committed, is_conflict,
  commit_with_previous, commit,
}
use argos_fs.Volume.Commit.Outcome.{Left, staged, rolled_back, reloaded, commit_with_previous-Left}
use argos_fs.Volume.Namespace.{settle, after}
use argos_fs.Volume.Namespace.Create.{
  stage_mkdir, mkdir, stage_mknod, commit_previous_snapshot, mknod_failed, mknod_settled,
  mknod_finish, mknod, stage_symlink, symlink_at,
}
use argos_fs.Volume.Namespace.Create.Entered.{
  IsRoomy, stage_mkdir-Yields, stage_mknod-Yields, stage_symlink-Yields,
}
use argos_fs.Volume.Namespace.Link.{stage_link, link_at}
use argos_fs.Volume.Namespace.Link.Linked.{stage_link-Yields}
use argos_fs.Volume.Namespace.Rename.{RenamePolicy, stage_rename, rename_settled, rename}
use argos_fs.Volume.Namespace.Unlink.{
  stage_unlink, unlink, reap_found, stage_reap, reap_settled, reap_unlinked_inode,
}
use argos_fs.Volume.Namespace.Unlink.Removed.{stage_unlink-Yields}
use argos_fs.Volume.Tree.{Name, Node, Tree, find_node, remove_node}
use argos_fs.Volume.Tree.Remove.{reaped-IsTree}
use argos_fs.Volume.Tree.WellFormed.{IsTree}

-- A call of one of the operations.
pub data Request : Type 0 where
  make_directory : (parent : ℕ) (name : Name) (mode uid gid : ℕ) → Request
  make_node : (parent : ℕ) (name : Name) (mode rdev uid gid : ℕ) → Request
  make_symlink : (parent : ℕ) (name target : List ℕ) (uid gid : ℕ) → Request
  make_link : (ino new_parent : ℕ) (new_name : List ℕ) → Request
  remove_name :
      (parent : ℕ) (name : Name) (dir : Bool) (uid : Option ℕ) (preserve_unlinked : Bool) → Request
  reap_inode : (ino : ℕ) → Request
  rename_name :
      (old_parent : ℕ) (old_name : Name) (new_parent : ℕ) (new_name : Name) (policy : RenamePolicy)
      → Request

abbrev pub as_staged : Result Tree → Result (Option Tree)
as_staged (err e) = err e
as_staged (ok s) = ok (some s)

-- The tree that is handed to a commit, if one is.
abbrev pub handed : Result (Option Tree) → List Tree
handed (err e) = []
handed (ok none) = []
handed (ok (some s)) = s ∷ []

-- The tree is in the list.
abbrev pub Among : Tree → List Tree → Type 0
Among u [] = ⊥
Among u (s ∷ known) = (u ≡ s) ⊎ Among u known

-- What recovery reads from the devices was handed to them before.
abbrev pub Recovers : Mount → List Tree → Type 0
Recovers m known = (u : Tree) → m.recover ≡ ok u → Among u known

module _ (hex_encode : List ℕ → List ℕ) (hex_decode : List ℕ → Option (List ℕ)) where
  abbrev pub staged_by : Mount → Tree → Request → Result (Option Tree)
  staged_by m t (make_directory parent name mode uid gid) =
      as_staged (stage_mkdir m t parent name mode uid gid)
  staged_by m t (make_node parent name mode rdev uid gid) =
      as_staged (stage_mknod m t parent name mode rdev uid gid)
  staged_by m t (make_symlink parent name target uid gid) =
      as_staged (stage_symlink hex_encode hex_decode m t parent name target uid gid)
  staged_by m t (make_link ino parent name) = as_staged (stage_link hex_encode m t ino parent name)
  staged_by m t (remove_name parent name dir uid preserve) =
      as_staged (stage_unlink m t parent name dir uid preserve)
  staged_by m t (reap_inode ino) = stage_reap m t ino
  staged_by m t (rename_name p a q b policy) = stage_rename m t p a q b policy

  -- The tree that the operation leaves, whether it succeeds or fails.
  abbrev pub perform : Mount → Tree → Request → Tree
  perform m t (make_directory parent name mode uid gid) = (mkdir m t parent name mode uid gid).1
  perform m t (make_node parent name mode rdev uid gid) =
      (mknod m t parent name mode rdev uid gid).1
  perform m t (make_symlink parent name target uid gid) =
      (symlink_at hex_encode hex_decode m t parent name target uid gid).1
  perform m t (make_link ino parent name) = (link_at hex_encode m t ino parent name).1
  perform m t (remove_name parent name dir uid preserve) =
      (unlink m t parent name dir uid preserve).1
  perform m t (reap_inode ino) = (reap_unlinked_inode m t ino).1
  perform m t (rename_name p a q b policy) = (rename m t p a q b policy).1

  -- The trees that can be reached from the first one, with all trees that were in memory or were
  -- handed to a commit on the way.
  pub data History (first : Tree) : Tree → List Tree → Type 0 where
    begin : History first first (first ∷ [])
    next :
        {t : Tree} {known : List Tree}
        → History first t known
        → (m : Mount) (r : Request) → IsRoomy t
        → Recovers m (handed (staged_by m t r) ++ known)
        → History first (perform m t r) (perform m t r ∷ handed (staged_by m t r) ++ known)
