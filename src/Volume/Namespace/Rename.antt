-- ===== src/Volume/Namespace/Rename.antt =====
-- `rename_locked` of src/volume/mod.rs. The walk below a directory is on fuel: it has an answer if
-- the fuel exceeds the height of the directory, and a walk without one counts as a walk that found.
pub mod Touched
pub mod Exchanged
pub mod Detached
pub mod Staged
pub mod Effect
pub mod Moved
pub mod Walk
pub mod Ends
use argos_fs.Common.Map.{Key, nat_key, get}
use argos_fs.Common.Bytes.{bytes_key, same_bytes}
use argos_fs.Common.{
  ℕ, zero, suc, ◌+◌, Bool, true, false, ◌&&◌, not, List, [], ◌∷◌, Option, none, some, unwrap_or,
  ◌==◌, if◌then◌else◌,
}
use argos_fs.Error.{
  ArgosError, Result, ok, err, ◌>>=◌, ◌>>◌, fail_if, ok_or, not_found, invalid, already_exists,
  not_directory, is_directory as is_a_directory, directory_not_empty,
}
use argos_fs.Security.Acl.{is_directory}
use argos_fs.Volume.Commit.{Mount, Outcome, ensure_block_backend_writable, commit}
use argos_fs.Volume.Names.{validate_entry_name}
use argos_fs.Volume.Namespace.{check_sticky, is_some, one_more, one_less_dir, after}
use argos_fs.Volume.Namespace.Unlink.{is_empty, drop_link}
use argos_fs.Volume.Tree.{
  Name, Node, Tree, find_node, dir_inode, remove_node, update_node, update_dir, add_name, drop_name,
  touch_inode,
}

pub record RenamePolicy : Type 0 where
  pub no_replace : Bool
  pub exchange : Bool
  pub uid : Option ℕ
  pub preserve_replaced_inode : Bool

-- `values().any(..)` of a test that may have no answer.
unfoldable pub any_child : (ℕ → Option Bool) → List (Name × ℕ) → Option Bool
any_child test [] = some false
any_child test ((name, c) ∷ rest) = elim (test c) [
  | none ↦ none
  | some true ↦ some true
  | some false ↦ any_child test rest
]

abbrev pub within : (ℕ → Option Bool) → Option Node → Option Bool
within deeper none = some false
within deeper (some n) = if is_directory n.kind then any_child deeper n.entries else some false

unfoldable pub directory_contains_inode : (fuel : ℕ) → Tree → (needle ancestor : ℕ) → Option Bool
directory_contains_inode zero t needle ancestor = none
directory_contains_inode (suc fuel) t needle ancestor =
    let deeper = directory_contains_inode fuel t needle in
    if ancestor == needle then some true else within deeper (find_node ancestor t)

abbrev pub contains_inode : Tree → (ancestor needle : ℕ) → Bool
contains_inode t ancestor needle =
    unwrap_or true (directory_contains_inode t.next_inode t needle ancestor)

-- `existing == Some(child)`.
abbrev pub is_child : ℕ → Option ℕ → Bool
is_child child none = false
is_child child (some e) = e == child

module _ (m : Mount) (t : Tree) (old_parent : ℕ) (old_name : Name) (new_parent : ℕ)
    (new_name : Name) where
  abbrev pub same_parent : Bool
  same_parent = old_parent == new_parent

  -- The new name and the old one are put on each other's inode.
  abbrev pub swap_names : (child existing : ℕ) → Result Tree
  swap_names child existing =
      update_dir old_parent (add_name old_name existing) t
      >>= update_dir new_parent (add_name new_name child)

  -- A subdirectory goes from one parent to the other.
  abbrev pub moved_subdir : (from to : ℕ) → (is_dir : Bool) → Tree → Tree
  moved_subdir from to is_dir s =
      if is_dir then update_node to one_more (update_node from one_less_dir s) else s

  abbrev pub exchanged_counts : (child_dir existing_dir : Bool) → Tree → Tree
  exchanged_counts child_dir existing_dir s =
      if same_parent
      then s
      else moved_subdir new_parent old_parent existing_dir
          (moved_subdir old_parent new_parent child_dir s)

  abbrev pub touch_parents : Tree → Tree
  touch_parents s =
      touch_inode new_parent true true m.now (touch_inode old_parent true true m.now s)

  abbrev pub check_quotas : Result Tree → Result (Unit {0})
  check_quotas candidate =
      if m.has_directory_quotas then (candidate >>= m.validate_quotas) else ok tt

  unfoldable pub stage_exchange :
      (policy : RenamePolicy) → (child : ℕ) → Node → (existing : Option ℕ) → Result Tree
  stage_exchange policy child child_inode found = do
    existing ← ok_or found not_found
    check_sticky t new_parent existing policy.uid
    existing_inode ← ok_or (find_node existing t) not_found
    fail_if (is_directory existing_inode.kind && contains_inode t existing old_parent) invalid
    check_quotas (swap_names child existing)
    s ← swap_names child existing
    ok (
        touch_inode existing false true m.now (
          touch_inode child false true m.now (
            touch_parents (
              exchanged_counts (is_directory child_inode.kind) (is_directory existing_inode.kind)
                s))))

  -- Which inodes may be replaced by which.
  unfoldable pub replaceable : (child existing : Node) → Result (Unit {0})
  replaceable child existing =
      if is_directory child.kind
      then (if is_directory existing.kind
          then fail_if (not (is_empty existing.entries)) directory_not_empty
          else err not_directory)
      else fail_if (is_directory existing.kind) is_a_directory

  unfoldable pub replaced_inode : RenamePolicy → Node → Option ℕ → Result (Option (ℕ × Node))
  replaced_inode policy child none = ok none
  replaced_inode policy child (some existing) = do
    check_sticky t new_parent existing policy.uid
    inode ← ok_or (find_node existing t) not_found
    replaceable child inode
    ok (some (existing, inode))

  -- The names alone, for the quotas.
  abbrev pub move_names : (replaces : Bool) → ℕ → Result Tree
  move_names replaces child = do
    s ← if replaces then update_dir new_parent (drop_name new_name) t else ok t
    u ← update_dir old_parent (drop_name old_name) s
    update_dir new_parent (add_name new_name child) u

  -- The replaced inode loses its name.
  unfoldable pub detach : RenamePolicy → Option (ℕ × Node) → Result Tree
  detach policy none = ok t
  detach policy (some (existing, inode)) = do
    s ← update_dir new_parent (drop_name new_name) t
    ok (
        if is_directory inode.kind
        then update_node new_parent one_less_dir (remove_node existing s)
        else drop_link m t policy.preserve_replaced_inode existing s)

  -- The child goes from its old name to the new one.
  unfoldable pub reattach : (child : ℕ) → (child_dir : Bool) → Tree → Result Tree
  reattach child child_dir s = do
    u ← update_dir old_parent (drop_name old_name) s
    v ← update_dir new_parent (add_name new_name child) u
    ok (moved_subdir old_parent new_parent (child_dir && not same_parent) v)

  unfoldable pub stage_move :
      (policy : RenamePolicy) → (child : ℕ) → Node → (existing : Option ℕ) → Result Tree
  stage_move policy child child_inode existing = do
    replaced ← replaced_inode policy child_inode existing
    check_quotas (move_names (is_some existing) child)
    s ← detach policy replaced
    v ← reattach child (is_directory child_inode.kind) s
    ok (touch_inode child false true m.now (touch_parents v))

  -- The staged tree, or none where there is nothing to do.
  unfoldable pub stage_rename : RenamePolicy → Result (Option Tree)
  stage_rename policy = do
    validate_entry_name old_name
    validate_entry_name new_name
    fail_if (policy.no_replace && policy.exchange) invalid
    if same_parent && same_bytes old_name new_name && not policy.exchange then ok none else do
      old_dir ← dir_inode old_parent t
      child ← ok_or (get old_name old_dir.entries) not_found
      child_inode ← ok_or (find_node child t) not_found
      new_dir ← dir_inode new_parent t
      check_sticky t old_parent child policy.uid
      fail_if (is_directory child_inode.kind && contains_inode t child new_parent) invalid
      let existing = get new_name new_dir.entries in
          do
            fail_if (policy.no_replace && is_some existing) already_exists
            if is_child child existing && not policy.exchange then ok none else do
              ensure_block_backend_writable m
              s ←
                  if policy.exchange
                  then stage_exchange policy child child_inode existing
                  else stage_move policy child child_inode existing
              ok (some s)

  abbrev pub rename_settled : Result (Option Tree) → Outcome (Unit {0})
  rename_settled (err e) = (err e, t)
  rename_settled (ok none) = (ok tt, t)
  rename_settled (ok (some s)) = after (commit m s) (λ u. m.rebuild_quotas u)

  unfoldable pub rename : RenamePolicy → Outcome (Unit {0})
  rename policy = rename_settled (stage_rename policy)
