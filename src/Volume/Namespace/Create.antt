-- ===== src/Volume/Namespace/Create.antt =====
-- `mkdir_locked` and `mknod_locked` of src/volume/mod.rs, `symlink_at_with_owner` of
-- src/volume/namespace.rs.
pub mod Entered
pub mod Found
use argos_fs.Common.{
  ℕ, ◌+◌, ◌*◌, ◌/◌, ◌%◌, Bool, true, false, ◌&&◌, ◌||◌, not, List, [], ◌∷◌, Option, none, some,
  length, ◌==◌, if◌then◌else◌,
}
use argos_fs.Error.{ArgosError, Result, ok, err, ◌>>=◌, ◌>>◌, fail_if, invalid, unsupported}
use argos_fs.Security.Acl.{
  NodeKind, directory, file, symlink, special, inherited_directory_acl, inherited_access_acl,
}
use argos_fs.Volume.Commit.{
  Mount, Outcome, ensure_block_backend_writable, transaction_error_is_committed, is_conflict,
  commit_with_previous,
}
use argos_fs.Volume.Names.{
  validate_entry_name, entry_name_from_os, encode_symlink_target, decode_symlink_target_bytes,
}
use argos_fs.Volume.Namespace.{
  s_isgid, acl_inode, vacant_in, inherited_gid, new_node, one_more, settle, after,
}
use argos_fs.Volume.Tree.{
  Name, Node, Tree, insert_node, update_node, update_dir, add_name, touch_inode, alloc_inode,
}
use Prim.Native.Nat.{bit_or}

-- A new inode is inserted under its name.
abbrev pub enter : ℕ → Name → (ℕ × Tree) → Node → Result Tree
enter parent name (ino, t) node = update_dir parent (add_name name ino) (insert_node ino node t)

module _ (m : Mount) (t : Tree) (parent : ℕ) where
  abbrev pub new_directory : Node → Name → (mode uid gid : ℕ) → Node
  new_directory p name mode uid gid =
      let inherit_setgid = s_isgid p.mode in
      let mode = if inherit_setgid then bit_or mode 1024 else mode in
      new_node directory (bit_or 16384 (mode % 4096)) uid (inherited_gid p gid) 2 0 0 m.now none
        (inherited_access_acl (acl_inode p) mode) (inherited_directory_acl (acl_inode p)) name

  unfoldable pub stage_mkdir : Name → (mode uid gid : ℕ) → Result Tree
  stage_mkdir name mode uid gid = do
    ensure_block_backend_writable m
    validate_entry_name name
    p ← vacant_in parent name t
    s ← enter parent name (alloc_inode t) (new_directory p name mode uid gid)
    ok (touch_inode parent true true m.now (update_node parent one_more s))

  unfoldable pub mkdir : Name → (mode uid gid : ℕ) → Outcome ℕ
  mkdir name mode uid gid =
      after (settle m none t (stage_mkdir name mode uid gid)) (λ s. ok t.next_inode)

  -- `mode & S_IFMT`.
  abbrev pub file_type : ℕ → ℕ
  file_type mode = mode / 4096 % 16 * 4096

  abbrev pub is_fifo_or_socket : ℕ → Bool
  is_fifo_or_socket ft = ft == 4096 || ft == 49152

  unfoldable pub mknod_kind : (mode rdev : ℕ) → Result NodeKind
  mknod_kind mode rdev =
      let ft = file_type mode in
      if ft == 32768 || ft == 0
      then (do fail_if (not (rdev == 0)) invalid; ok file)
      else if ft == 8192 || ft == 24576 || is_fifo_or_socket ft
      then (do fail_if (is_fifo_or_socket ft && not (rdev == 0)) invalid; ok special)
      else err unsupported

  abbrev pub normalized_mode : ℕ → ℕ
  normalized_mode mode =
      let ft = file_type mode in
      if ft == 0 then bit_or 32768 (mode % 4096) else bit_or ft (mode % 4096)

  unfoldable pub stage_mknod : Name → (mode rdev uid gid : ℕ) → Result Tree
  stage_mknod name mode rdev uid gid = do
    ensure_block_backend_writable m
    validate_entry_name name
    p ← vacant_in parent name t
    kind ← mknod_kind mode rdev
    s ← enter parent name (alloc_inode t) (
        new_node kind (normalized_mode mode) uid (inherited_gid p gid) 1 0 rdev m.now none
          (inherited_access_acl (acl_inode p) mode) none name)
    ok (touch_inode parent true true m.now s)

  -- `commit_previous_snapshot`.
  abbrev pub commit_previous_snapshot : Option Tree
  commit_previous_snapshot = if not m.host && m.defer_metadata_commit then none else some t

  -- The rollback of `mknod_locked` when the commit fails.
  abbrev pub mknod_failed : ArgosError → Tree → Option Tree → Outcome (Unit {0})
  mknod_failed e s none = (err e, s)
  mknod_failed e s (some rollback) =
      if not (transaction_error_is_committed e) && not (is_conflict e)
      then (err e, rollback)
      else (err e, s)

  abbrev pub mknod_settled : Outcome (Unit {0}) → Outcome (Unit {0})
  mknod_settled (ok u, s) = (ok u, s)
  mknod_settled (err e, s) = mknod_failed e s commit_previous_snapshot

  abbrev pub mknod_finish : Result Tree → Outcome (Unit {0})
  mknod_finish (err e) = (err e, t)
  mknod_finish (ok s) = mknod_settled (commit_with_previous m commit_previous_snapshot s)

  unfoldable pub mknod : Name → (mode rdev uid gid : ℕ) → Outcome ℕ
  mknod name mode rdev uid gid =
      after (mknod_finish (stage_mknod name mode rdev uid gid)) (λ s. ok t.next_inode)

module _ (hex_encode : List ℕ → List ℕ) (hex_decode : List ℕ → Option (List ℕ)) (m : Mount)
    (t : Tree) (parent : ℕ) where
  abbrev pub new_symlink : Node → Name → (target : List ℕ) → (uid gid : ℕ) → Node
  new_symlink p name target uid gid =
      let stored = encode_symlink_target hex_encode target in
      let size = length (decode_symlink_target_bytes hex_decode stored) in
      new_node symlink (bit_or 40960 511) uid (inherited_gid p gid) 1 size 0 m.now (some stored)
        (inherited_access_acl (acl_inode p) 511) none name

  unfoldable pub stage_symlink : (name target : List ℕ) → (uid gid : ℕ) → Result Tree
  stage_symlink name target uid gid = do
    name ← entry_name_from_os hex_encode name
    ensure_block_backend_writable m
    p ← vacant_in parent name t
    s ← enter parent name (alloc_inode t) (new_symlink p name target uid gid)
    ok (touch_inode parent true true m.now s)

  -- The inode of the link, of whose attributes the caller is told.
  unfoldable pub symlink_at : (name target : List ℕ) → (uid gid : ℕ) → Outcome ℕ
  symlink_at name target uid gid =
      after (settle m none t (stage_symlink name target uid gid)) (λ s. ok t.next_inode)
