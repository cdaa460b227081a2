-- ===== src/Volume/Tree/Root.antt =====
-- The tree of a new volume.
use argos_fs.Common.Map.{nat_key, get, put, sum}
use argos_fs.Common.Bytes.{bytes_key}
use argos_fs.Common.{ℕ, ◌≡◌, refl, ap, some, arith}
use argos_fs.Security.Acl.{is_directory}
use argos_fs.Volume.Tree.{Node, Tree, find_node, root_inode, new_volume}
use argos_fs.Volume.Tree.WellFormed.{IsTree}

module _ (uid gid created_at : ℕ) where
  abbrev t : Tree
  t = new_volume uid gid created_at

  found : (i : ℕ) (n : Node) → find_node i t ≡ some n → root_inode uid gid created_at ≡ n
  unfolding new_volume get put
  found i n e = ground (arith, e)

  -- It is well formed.
  pub new_volume-IsTree : IsTree t
  unfolding new_volume root_inode get put sum
  new_volume-IsTree = record {
    keys = (refl, tt);
    entry_keys = λ i n e. rw⁻¹ (found i n e) tt;
    fresh = λ i h. ground (arith, h);
    leaves = λ i n e d. rw⁻¹ (found i n e) refl;
    present = λ i e. refl;
    file_links = λ i n e d. absurd (ground (arith, ap (λ n. is_directory n.kind) (found i n e), d));
    dir_links = λ i n e d. rw⁻¹ (found i n e) refl;
    dir_once = λ i d r. ground (arith, d, r);
    root = refl;
    root_once = refl;
  }
