-- ===== src/Volume/Tree.antt =====
-- The inodes of src/model/types.rs and what src/volume/mod.rs does with single ones: lookup, update,
-- allocation. A time is the number of a clock reading; the extended attributes, the counters of
-- accesses, the tier and the checksums of an inode are left out, as no operation here reads them.
pub mod WellFormed
pub mod Sums
pub mod Attach
pub mod Remove
pub mod Rewire
pub mod Root
use argos_fs.Common.Map.{Key, nat_key, get, put, del}
use argos_fs.Common.Bytes.{bytes_key}
use argos_fs.Common.{
  ℕ, ◌+◌, Bool, true, false, not, List, [], ◌∷◌, Option, none, some, if◌then◌else◌,
}
use argos_fs.Error.{Result, ok, err, ◌>>=◌, ◌>>◌, fail_if, ok_or, not_found, not_directory}
use argos_fs.Security.Acl.{NodeKind, directory, is_directory, PosixAcl, Nfs4Acl}
use argos_fs.Volume.Sparse.{FileBlock}
use Prim.Native.Nat.{bit_or}

-- The name of a directory entry, as it is stored.
abbrev pub Name : Type 0
Name = List ℕ

pub record Node : Type 0 where
  pub kind : NodeKind
  pub mode : ℕ
  pub uid : ℕ
  pub gid : ℕ
  pub nlink : ℕ
  pub size : ℕ
  pub rdev : ℕ
  pub atime : ℕ
  pub mtime : ℕ
  pub ctime : ℕ
  pub entries : List (Name × ℕ)
  pub target : Option (List ℕ)
  pub inline_data : Option (List ℕ)
  pub blocks : List FileBlock
  pub quota_bytes : Option ℕ
  pub posix_acl_access : Option PosixAcl
  pub posix_acl_default : Option PosixAcl
  pub nfs4_acl : Option Nfs4Acl
  pub boot_critical : Bool

pub record Tree : Type 0 where
  pub inodes : List (ℕ × Node)
  pub next_inode : ℕ

abbrev pub root_ino : ℕ
root_ino = 1

-- `meta.inodes.get(&ino)`.
abbrev pub find_node : ℕ → Tree → Option Node
find_node ino t = get ino t.inodes

abbrev pub insert_node : ℕ → Node → Tree → Tree
insert_node ino n t = record t { inodes = put ino n t.inodes }

abbrev pub remove_node : ℕ → Tree → Tree
remove_node ino t = record t { inodes = del ino t.inodes }

-- `if let Some(inode) = meta.inodes.get_mut(&ino) { .. }`.
unfoldable pub update_node : ℕ → (Node → Node) → Tree → Tree
update_node ino f t = elim (find_node ino t) [ none ↦ t | some n ↦ insert_node ino (f n) t ]

unfoldable pub dir_inode : ℕ → Tree → Result Node
dir_inode ino t = do
  n ← ok_or (find_node ino t) not_found
  fail_if (not (is_directory n.kind)) not_directory
  ok n

-- `self.dir_inode_mut_locked(meta, ino)?` with what is done to the inode.
unfoldable pub update_dir : ℕ → (Node → Node) → Tree → Result Tree
update_dir ino f t = do n ← dir_inode ino t; ok (insert_node ino (f n) t)

-- `entries.insert(name, child)` and `entries.remove(name)`.
abbrev pub add_name : Name → ℕ → Node → Node
add_name name child n = record n { entries = put name child n.entries }

abbrev pub drop_name : Name → Node → Node
drop_name name n = record n { entries = del name n.entries }

abbrev pub touched : (mtime ctime : Bool) → ℕ → Node → Node
touched m c now n = record n {
  mtime = if m then now else n.mtime;
  ctime = if c then now else n.ctime;
}

unfoldable pub touch_inode : ℕ → (mtime ctime : Bool) → ℕ → Tree → Tree
touch_inode ino m c now t = update_node ino (touched m c now) t

-- The source adds to a u64 without a check; the number is taken to stay below 2^64.
unfoldable pub alloc_inode : Tree → ℕ × Tree
alloc_inode t = (t.next_inode, record t { next_inode = t.next_inode + 1 })

unfoldable pub root_inode : (uid gid created_at : ℕ) → Node
root_inode uid gid created_at = record {
  kind = directory;
  mode = bit_or 16384 493;
  uid = uid;
  gid = gid;
  nlink = 2;
  size = 0;
  rdev = 0;
  atime = created_at;
  mtime = created_at;
  ctime = created_at;
  entries = [];
  target = none;
  inline_data = none;
  blocks = [];
  quota_bytes = none;
  posix_acl_access = none;
  posix_acl_default = none;
  nfs4_acl = none;
  boot_critical = true;
}

-- The inodes of a volume that is created.
unfoldable pub new_volume : (uid gid created_at : ℕ) → Tree
new_volume uid gid created_at = record {
  inodes = put root_ino (root_inode uid gid created_at) [];
  next_inode = root_ino + 1;
}
