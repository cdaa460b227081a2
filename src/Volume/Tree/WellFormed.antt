-- ===== src/Volume/Tree/WellFormed.antt =====
-- What it means that the inodes form a directory tree with right link counts.
use argos_fs.Common.Map.{nat_key, get, IsMap, sum}
use argos_fs.Common.Bytes.{bytes_key}
use argos_fs.Common.{
  ℕ, ◌+◌, ◌≤◌, ◌≡◌, Bool, true, false, [], Option, none, some, ◌==◌, if◌then◌else◌,
}
use argos_fs.Security.Acl.{is_directory}
use argos_fs.Volume.Tree.{Name, Node, Tree, find_node, root_ino}

-- How many entries of a directory name the inode.
abbrev pub names : ℕ → Node → ℕ
names x n = sum (λ c. if c == x then 1 else 0) n.entries

-- How many entries of all directories do.
abbrev pub refs : ℕ → Tree → ℕ
refs x t = sum (names x) t.inodes

-- The inode behind a name of a directory.
abbrev pub entry_of : Name → Option Node → Option ℕ
entry_of name none = none
entry_of name (some n) = get name n.entries

abbrev pub lookup : ℕ → Name → Tree → Option ℕ
lookup parent name t = entry_of name (find_node parent t)

abbrev pub is_directory_node : Option Node → Bool
is_directory_node none = false
is_directory_node (some n) = is_directory n.kind

abbrev pub is_dir : Tree → ℕ → Bool
is_dir t x = is_directory_node (find_node x t)

-- How many entries of a directory name a directory.
abbrev pub subdirs : Tree → Node → ℕ
subdirs t n = sum (λ c. if is_dir t c then 1 else 0) n.entries

pub record IsTree (t : Tree) : Type 0 where
  -- Inode numbers and names are unique, and numbers from `next_inode` on are free.
  pub keys : IsMap t.inodes
  pub entry_keys : (i : ℕ) (n : Node) → find_node i t ≡ some n → IsMap n.entries
  pub fresh : (i : ℕ) → t.next_inode ≤ i → find_node i t ≡ none
  -- Only directories have entries, and an entry names an inode that is there.
  pub leaves :
      (i : ℕ) (n : Node) → find_node i t ≡ some n → is_directory n.kind ≡ false → n.entries ≡ []
  pub present : (i : ℕ) → find_node i t ≡ none → refs i t ≡ 0
  -- The link count of a file is the number of its names, that of a directory counts itself, its own
  -- name and its subdirectories.
  pub file_links :
      (i : ℕ) (n : Node) → find_node i t ≡ some n → is_directory n.kind ≡ false → n.nlink ≡ refs i t
  pub dir_links :
      (i : ℕ) (n : Node)
      → find_node i t ≡ some n
      → is_directory n.kind ≡ true
      → n.nlink ≡ 2 + subdirs t n
  -- A directory has one name, but for the root, which has none.
  pub dir_once : (i : ℕ) → is_dir t i ≡ true → (i == root_ino) ≡ false → refs i t ≡ 1
  pub root : is_dir t root_ino ≡ true
  pub root_once : refs root_ino t ≡ 0
