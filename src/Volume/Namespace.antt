-- ===== src/Volume/Namespace.antt =====
-- Creating, linking and removing directory entries, in src/volume/mod.rs and src/volume/namespace.rs.
-- Each operation is the part that stages a tree, which fails or yields one, and the commit. The clock
-- is read once for an operation. Freeing the shards of a removed file and the runtime quota
-- membership of a new inode change no inode, and are left out.
pub mod Collapse
pub mod Create
pub mod Link
pub mod Unlink
pub mod Rename
pub mod History
mod Examples
use argos_fs.Common.Map.{Key, nat_key, get}
use argos_fs.Common.Bytes.{bytes_key}
use argos_fs.Common.Word.{u32_max}
use argos_fs.Common.{
  ℕ, ◌+◌, ◌-◌, ◌/◌, ◌%◌, min, max, Bool, true, false, ◌||◌, not, List, [], ◌∷◌, Option, none, some,
  ◌==◌, if◌then◌else◌,
}
use argos_fs.Error.{
  ArgosError, Result, ok, err, ◌>>=◌, ◌>>◌, fail_if, ok_or, not_found, permission_denied,
  already_exists,
}
use argos_fs.Security.Acl.{Inode, NodeKind, PosixAcl}
use argos_fs.Volume.Commit.{Mount, Outcome, commit_with_previous}
use argos_fs.Volume.Names.{boot_critical_name}
use argos_fs.Volume.Tree.{
  Name, Node, Tree, find_node, dir_inode, insert_node, update_node, update_dir, add_name,
  touch_inode,
}

abbrev pub s_isgid : ℕ → Bool
s_isgid mode = mode / 1024 % 2 == 1

abbrev pub s_isvtx : ℕ → Bool
s_isvtx mode = mode / 512 % 2 == 1

-- The fields that access control reads.
abbrev pub acl_inode : Node → Inode
acl_inode n = record {
  kind = n.kind;
  mode = n.mode;
  uid = n.uid;
  gid = n.gid;
  posix_acl_access = n.posix_acl_access;
  posix_acl_default = n.posix_acl_default;
  nfs4_acl = n.nfs4_acl;
}

-- `check_sticky_locked`; no uid stands for a caller that is not checked.
unfoldable pub check_sticky : Tree → (parent child : ℕ) → (uid : Option ℕ) → Result (Unit {0})
check_sticky t parent child none = ok tt
check_sticky t parent child (some uid) = if uid == 0 then ok tt else do
  p ← dir_inode parent t
  if not (s_isvtx p.mode) then ok tt else do
    c ← ok_or (find_node child t) not_found
    fail_if (not (uid == p.uid || uid == c.uid)) permission_denied

abbrev pub is_some {ℓ} : {A : Type ℓ} → Option A → Bool
is_some none = false
is_some (some a) = true

-- `if self.dir_inode_locked(meta, parent)?.entries.contains_key(name) { return Err(..) }`, with the
-- parent.
unfoldable pub vacant_in : ℕ → Name → Tree → Result Node
vacant_in parent name t = do
  p ← dir_inode parent t
  fail_if (is_some (get name p.entries)) already_exists
  ok p

-- The group of a new inode.
abbrev pub inherited_gid : Node → ℕ → ℕ
inherited_gid parent gid = if s_isgid parent.mode then parent.gid else gid

-- The literal of a new inode, with what the callers fill in.
abbrev pub new_node :
    (kind : NodeKind) (mode uid gid nlink size rdev now : ℕ)
    → (target : Option (List ℕ)) → (access default : Option PosixAcl) → (name : Name) → Node
new_node kind mode uid gid nlink size rdev now target access default name = record {
  kind = kind;
  mode = mode;
  uid = uid;
  gid = gid;
  nlink = nlink;
  size = size;
  rdev = rdev;
  atime = now;
  mtime = now;
  ctime = now;
  entries = [];
  target = target;
  inline_data = none;
  blocks = [];
  quota_bytes = none;
  posix_acl_access = access;
  posix_acl_default = default;
  nfs4_acl = none;
  boot_critical = boot_critical_name name;
}

-- `nlink.saturating_add(1)`, on a u32.
abbrev pub one_more : Node → Node
one_more n = record n { nlink = min u32_max (n.nlink + 1) }

abbrev pub one_less : Node → Node
one_less n = record n { nlink = n.nlink - 1 }

-- `nlink.saturating_sub(1).max(2)`.
abbrev pub one_less_dir : Node → Node
one_less_dir n = record n { nlink = max (n.nlink - 1) 2 }

-- The staged tree is committed; an error before that leaves the tree as it was.
abbrev pub settle : Mount → Option Tree → Tree → Result Tree → Outcome (Unit {0})
settle m previous t (err e) = (err e, t)
settle m previous t (ok s) = commit_with_previous m previous s

-- What is returned after the commit.
abbrev pub after : {A : Type 0} → Outcome (Unit {0}) → (Tree → Result A) → Outcome A
after (err e, t) f = (err e, t)
after (ok u, t) f = (f t, t)
