-- ===== src/Volume/Namespace/Examples.antt =====
-- Operations on the tree of a new volume. Bytes are encoded by themselves.
use argos_fs.Common.Map.{nat_key, get, put, del}
use argos_fs.Common.Bytes.{bytes_key, is_utf8_inside}
use argos_fs.Common.{
  ℕ, ◌≡◌, refl, ◌↔◌, Bool, true, false, List, [], ◌∷◌, Option, none, some, ◌==◌, if◌then◌else◌,
  arith,
}
use argos_fs.Error.{Result, ok, err, not_found, conflict, is_ok}
use argos_fs.Volume.Commit.{
  Mount, ensure_block_backend_writable, commit_host, commit_with_previous, commit,
}
use argos_fs.Volume.Names.{
  validate_entry_name, validate_entry_name_bytes, entry_name_from_os, encode_symlink_target,
  decode_symlink_target_bytes, decode_entry_name_bytes,
}
use argos_fs.Volume.Names.RoundTrip.{
  decode_entry_name_bytes-entry_name_from_os, decode_symlink_target_bytes-encode_symlink_target,
}
use argos_fs.Volume.Namespace.{is_some, vacant_in, check_sticky}
use argos_fs.Volume.Namespace.Create.{mkdir, stage_mkdir}
use argos_fs.Volume.Namespace.Create.Entered.{IsRoomy}
use argos_fs.Volume.Namespace.Create.Found.{IsMade, mkdir-IsMade}
use argos_fs.Volume.Namespace.History.{make_directory, make_node, staged_by, perform, begin, next}
use argos_fs.Volume.Namespace.History.Preserved.{History-IsTree}
use argos_fs.Volume.Namespace.Rename.{
  is_child, rename, stage_rename, stage_move, replaced_inode, detach, reattach, RenamePolicy,
  any_child, directory_contains_inode,
}
use argos_fs.Volume.Namespace.Rename.Effect.{rename-IsMoved}
use argos_fs.Volume.Namespace.Rename.Ends.{directory_contains_inode-next_inode}
use argos_fs.Volume.Namespace.Rename.Moved.{IsMoved}
use argos_fs.Volume.Namespace.Rename.Walk.{IsBelow, IsRanked, directory_contains_inode-IsBelow}
use argos_fs.Volume.Tree.{
  Name, Tree, find_node, root_inode, new_volume, dir_inode, update_node, update_dir, touch_inode,
  alloc_inode,
}
use argos_fs.Volume.Tree.Root.{new_volume-IsTree}
use argos_fs.Volume.Tree.WellFormed.{IsTree, lookup}

-- A host volume on which every call succeeds but for `append` and `recover`.
abbrev mount : (append : Result (Unit {0})) → Mount
mount result = record {
  host = true;
  backend_writable = true;
  fenced = false;
  bulk_import = false;
  defer_metadata_commit = false;
  now = 7;
  note_deferred = λ t. ok tt;
  hash = λ t. ok tt;
  prepare_integrity = λ t. ok tt;
  superblocks = λ t. ok tt;
  validate_durability = λ t. ok tt;
  open_backend = λ t. ok tt;
  append = λ t. result;
  apply_report = λ t. ok tt;
  recover = err not_found;
  has_directory_quotas = false;
  validate_quotas = λ t. ok tt;
  rebuild_quotas = λ t. ok tt;
}

abbrev plain : List ℕ → List ℕ
plain bs = bs

abbrev unplain : List ℕ → Option (List ℕ)
unplain bs = some bs

abbrev start : Tree
start = new_volume 0 0 5

abbrev etc : Name
etc = 101 ∷ 116 ∷ 99 ∷ []

start-IsRoomy : IsRoomy start
unfolding new_volume root_inode get put
start-IsRoomy i n e = ground (arith, e)

History-IsTree_example :
    IsTree (perform plain unplain (mount (ok tt)) start (make_directory 1 etc 493 0 0))
History-IsTree_example = History-IsTree plain unplain (new_volume-IsTree 0 0 5) (
    next begin (mount (ok tt)) (make_directory 1 etc 493 0 0) start-IsRoomy
      (λ u e. absurd (ground (arith, e))))

etc_made : (mkdir (mount (ok tt)) start 1 etc 493 0 0).0 ≡ ok 2
unfolding mkdir stage_mkdir ensure_block_backend_writable validate_entry_name vacant_in dir_inode
    new_volume root_inode get put alloc_inode update_dir update_node touch_inode
    commit_with_previous commit_host
etc_made = refl

mkdir-IsMade_example : IsMade start 1 etc 2 (mkdir (mount (ok tt)) start 1 etc 493 0 0).1
mkdir-IsMade_example =
    mkdir-IsMade (mount (ok tt)) start (new_volume-IsTree 0 0 5) 1 etc 493 0 0 2 etc_made

start_walk : directory_contains_inode 2 start 1 1 ≡ some true
unfolding directory_contains_inode
start_walk = refl

directory_contains_inode-IsBelow_example : (true ≡ true) ↔ IsBelow start 1 1
directory_contains_inode-IsBelow_example =
    directory_contains_inode-IsBelow start 2 1 1 true start_walk

etc_stored : entry_name_from_os plain etc ≡ ok etc
unfolding entry_name_from_os validate_entry_name_bytes validate_entry_name is_utf8_inside
etc_stored = refl

decode_entry_name_bytes-entry_name_from_os_example : decode_entry_name_bytes unplain etc ≡ etc
decode_entry_name_bytes-entry_name_from_os_example =
    decode_entry_name_bytes-entry_name_from_os plain unplain (λ bs. refl) etc etc etc_stored

decode_symlink_target_bytes-encode_symlink_target_example :
    decode_symlink_target_bytes unplain (encode_symlink_target plain (255 ∷ [])) ≡ 255 ∷ []
decode_symlink_target_bytes-encode_symlink_target_example =
    decode_symlink_target_bytes-encode_symlink_target plain unplain (λ bs. refl) (255 ∷ []) refl

-- The tree with the directory `etc` below the root.
abbrev second : Tree
second = (mkdir (mount (ok tt)) start 1 etc 493 0 0).1

abbrev policy : RenamePolicy
policy = record { no_replace = true; exchange = false; uid = none; preserve_replaced_inode = false }

abbrev usr : Name
usr = 117 ∷ 115 ∷ 114 ∷ []

second-IsRoomy : IsRoomy second
unfolding mkdir stage_mkdir ensure_block_backend_writable validate_entry_name vacant_in dir_inode
    new_volume root_inode get put alloc_inode update_dir update_node touch_inode
    commit_with_previous commit_host
second-IsRoomy i n e = ground (arith, e)

usr_free : is_child 2 (lookup 1 usr second) ≡ false
unfolding mkdir stage_mkdir ensure_block_backend_writable validate_entry_name vacant_in dir_inode
    new_volume root_inode get put alloc_inode update_dir update_node touch_inode
    commit_with_previous commit_host
usr_free = refl

renamed : is_ok (rename (mount (ok tt)) second 1 etc 1 usr policy).0 ≡ true
unfolding mkdir stage_mkdir ensure_block_backend_writable validate_entry_name vacant_in dir_inode
    new_volume root_inode get put alloc_inode update_dir update_node touch_inode
    commit_with_previous commit_host commit rename stage_rename check_sticky
    directory_contains_inode any_child stage_move replaced_inode detach reattach del
renamed = refl

rename-IsMoved_example : IsMoved 1 etc 1 usr 2 (rename (mount (ok tt)) second 1 etc 1 usr policy).1
rename-IsMoved_example =
    rename-IsMoved (mount (ok tt)) second History-IsTree_example second-IsRoomy 1 etc 1 usr 2 policy
      mkdir-IsMade_example.entry usr_free refl renamed

-- The root is higher than the directory in it.
abbrev level : ℕ → ℕ
level i = if i == 1 then 1 else 0

second-IsRanked : IsRanked second level
unfolding mkdir stage_mkdir ensure_block_backend_writable validate_entry_name vacant_in dir_inode
    new_volume root_inode get put alloc_inode update_dir update_node touch_inode
    commit_with_previous commit_host
second-IsRanked a c n e i = ground (arith, e, i)

root_found : is_some (find_node 1 second) ≡ true
unfolding mkdir stage_mkdir ensure_block_backend_writable validate_entry_name vacant_in dir_inode
    new_volume root_inode get put alloc_inode update_dir update_node touch_inode
    commit_with_previous commit_host
root_found = refl

directory_contains_inode-next_inode_example :
    (b : Bool) × (directory_contains_inode second.next_inode second 2 1 ≡ some b)
    × ((b ≡ true) ↔ IsBelow second 1 2)
directory_contains_inode-next_inode_example =
    directory_contains_inode-next_inode second History-IsTree_example level second-IsRanked 2 1
      root_found

-- A raw volume whose writing finds a conflict, and whose devices hold the new volume.
abbrev raw_mount : Mount
raw_mount = record (mount (err conflict)) { host = false; recover = ok start }

-- The tree with a new file in it, which is not written.
abbrev with_file : Result (Option Tree)
with_file = staged_by plain unplain raw_mount start (make_node 1 etc 33188 0 0 0)
