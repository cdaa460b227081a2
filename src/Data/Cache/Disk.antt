-- ===== src/Data/Cache/Disk.antt =====
-- The cache on disk of src/data/cache.rs behind the one in memory: `get`, `put`, `remove` and
-- `invalidate_prefix` of `BlockCache` as a whole, `load_l2_index`, `put_l2` and `prune_l2`. A call is not
-- interleaved with another one. `l2_path` gives the file of a key; `in_order` lists the index in the
-- order of its paths, as iteration over a `BTreeMap` does.
pub mod Files
pub mod Run
pub mod Refined
use argos_fs.Common.Map.{Key, string_key, get, put, del}
use argos_fs.Common.Sort.{sort_by_key}
use argos_fs.Common.Word.{saturating_add, saturating_sub}
use argos_fs.Common.{
  ℕ, ◌+◌, max, Bool, true, false, List, [], ◌∷◌, Option, none, some, length, leb, ◌==◌,
  if◌then◌else◌,
}
use argos_fs.Data.Cache.{
  CacheInner, put_memory_only, remove_key, invalidate_prefix, is_expected, get_block,
}
use Prim.Native.String.{String}

pub record L2Entry : Type 0 where
  pub size : ℕ
  pub touched : ℕ

-- The fields of `CacheInner` on the cache on disk, and the files below its root.
pub record L2State : Type 0 where
  pub files : List (String × List ℕ)
  pub l2_loaded : Bool
  pub l2_bytes : ℕ
  pub l2_index : List (String × L2Entry)
  pub l2_clock : ℕ
  pub l2_writes : ℕ
  pub l2_errors : ℕ

pub record BlockCache : Type 0 where
  pub inner : CacheInner
  pub disk : L2State

-- How `atomic_write` ends: well, or with an error before or behind the step that puts the new file in
-- the place of the old one.
pub data Write : Type 0 where
  written failed_before failed_behind : Write

-- What the file system does in one call: the files that the walk over the root finds, the oldest
-- first, with their lengths; whether the file of the key can be read; which files are gone when they
-- have been removed; how a write ends.
pub record FileSystem : Type 0 where
  pub walk : List (String × ℕ)
  pub readable : Bool
  pub removes : String → Bool
  pub write : Write

-- The loop of `load_l2_index`.
unfoldable pub index_files : List (String × ℕ) → L2State → L2State
index_files [] d = d
index_files ((path, size) ∷ rest) d =
    let clock = saturating_add d.l2_clock 1 in
    index_files rest (record d {
      l2_bytes = saturating_add d.l2_bytes size;
      l2_index = put path (record { size = size; touched = clock }) d.l2_index;
      l2_clock = clock;
    })

-- The index is counted from an empty one, and its clock does not go back.
abbrev pub loaded : L2State → L2State → L2State
loaded d new = record d {
  l2_loaded = true;
  l2_bytes = new.l2_bytes;
  l2_index = new.l2_index;
  l2_clock = max new.l2_clock d.l2_clock;
}

unfoldable pub load_l2_index : FileSystem → L2State → L2State
load_l2_index fs d =
    if d.l2_loaded
    then d
    else loaded d (index_files fs.walk (record d { l2_bytes = 0; l2_index = []; l2_clock = 0 }))

-- `if let Some(entry) = inner.l2_index.remove(&path) { .. }`.
abbrev pub forget : String → Option L2Entry → L2State → L2State
forget path none d = d
forget path (some entry) d = record d {
  l2_bytes = saturating_sub d.l2_bytes entry.size;
  l2_index = del path d.l2_index;
}

-- `let _ = std::fs::remove_file(&path)`, and the index.
unfoldable pub drop_file : FileSystem → String → L2State → L2State
drop_file fs path d =
    let d' = forget path (get path d.l2_index) d in
    if fs.removes path then record d' { files = del path d.files } else d'

-- The file of the key is used.
abbrev pub retouched : String → ℕ → Option L2Entry → L2State → L2State
retouched path clock none d = record d { l2_clock = clock }
retouched path clock (some entry) d = record d {
  l2_clock = clock;
  l2_index = put path (record entry { touched = clock }) d.l2_index;
}

unfoldable pub touch_file : String → L2State → L2State
touch_file path d = retouched path (saturating_add d.l2_clock 1) (get path d.l2_index) d

-- The loop of `prune_l2`, which ends early at a file that cannot be removed; says whether it did not.
unfoldable pub prune_files :
    (l2_limit : ℕ) → FileSystem → List (String × L2Entry) → L2State → Bool × L2State
prune_files limit fs [] d = (true, d)
prune_files limit fs ((path, entry) ∷ rest) d =
    let smaller = record d {
      files = del path d.files;
      l2_bytes = saturating_sub d.l2_bytes entry.size;
      l2_index = del path d.l2_index;
    } in
    let pruned = prune_files limit fs rest smaller in
    if leb d.l2_bytes limit then (true, d) else if fs.removes path then pruned else (false, d)

-- `old`, the entry that the new one takes the place of.
abbrev pub old_size : Option L2Entry → ℕ
old_size none = 0
old_size (some entry) = entry.size

abbrev pub put_file : String → List ℕ → L2State → L2State
put_file path value d = record d { files = put path value d.files }

-- The index after a write.
unfoldable pub enter_file : String → List ℕ → L2State → L2State
enter_file path value d =
    let clock = saturating_add d.l2_clock 1 in
    record d {
      l2_clock = clock;
      l2_index = put path (record { size = length value; touched = clock }) d.l2_index;
      l2_bytes =
          saturating_add (saturating_sub d.l2_bytes (old_size (get path d.l2_index)))
            (length value);
      l2_writes = d.l2_writes + 1;
    }

-- An error of the cache on disk is counted.
abbrev pub counted : Bool × L2State → L2State
counted (true, d) = d
counted (false, d) = record d { l2_errors = saturating_add d.l2_errors 1 }

module _ (in_order : List (String × L2Entry) → List (String × L2Entry)) (l2_limit : ℕ) where
  unfoldable pub prune_l2 : FileSystem → L2State → Bool × L2State
  prune_l2 fs d =
      if leb d.l2_bytes l2_limit
      then (true, d)
      else prune_files l2_limit fs (sort_by_key (λ e. e.1.touched) (in_order d.l2_index)) d

  abbrev pub put_l2_written : FileSystem → String → List ℕ → L2State → Write → Bool × L2State
  put_l2_written fs path value d written =
      prune_l2 fs (enter_file path value (put_file path value d))
  put_l2_written fs path value d failed_before = (false, d)
  put_l2_written fs path value d failed_behind = (false, put_file path value d)

  unfoldable pub put_l2 : FileSystem → String → List ℕ → L2State → Bool × L2State
  put_l2 fs path value d = put_l2_written fs path value (load_l2_index fs d) fs.write

module _ (content_hash_matches : List ℕ → String → Bool) (l2_path : String → String)
    (in_order : List (String × L2Entry) → List (String × L2Entry)) (memory_limit l2_limit : ℕ) where
  -- What `std::fs::read` gives for the file of the key.
  unfoldable pub read_file : FileSystem → String → L2State → Option (List ℕ)
  read_file fs key d =
      if l2_limit == 0 then none else if fs.readable then get (l2_path key) d.files else none

  -- The value is served from memory.
  abbrev pub is_served : Option String → Option (List ℕ) → Bool
  is_served sha none = false
  is_served sha (some value) = is_expected content_hash_matches (λ k. none) memory_limit sha value

  abbrev pub after_read : FileSystem → String → Option String → Option (List ℕ) → L2State → L2State
  after_read fs path sha none d = d
  after_read fs path sha (some value) d =
      if is_expected content_hash_matches (λ k. none) memory_limit sha value
      then touch_file path d
      else drop_file fs path d

  unfoldable pub get_disk : FileSystem → String → Option String → BlockCache → L2State
  get_disk fs key sha b =
      if is_served sha (get key b.inner.items)
      then b.disk
      else if l2_limit == 0
      then b.disk
      else after_read fs (l2_path key) sha (read_file fs key b.disk) (load_l2_index fs b.disk)

  -- `BlockCache::get`.
  unfoldable pub get_cached :
      FileSystem → String → Option String → BlockCache → Option (List ℕ) × BlockCache
  get_cached fs key sha b =
      let found =
        get_block content_hash_matches (λ k. read_file fs k b.disk) memory_limit key sha b.inner in
      (found.0, record { inner = found.1; disk = get_disk fs key sha b })

  -- `BlockCache::put`.
  unfoldable pub put_cached : FileSystem → String → List ℕ → BlockCache → BlockCache
  put_cached fs key value b = record {
    inner = put_memory_only memory_limit key value b.inner;
    disk =
        if l2_limit == 0
        then b.disk
        else counted (put_l2 in_order l2_limit fs (l2_path key) value b.disk);
  }

  -- `BlockCache::remove`.
  unfoldable pub remove_cached : FileSystem → String → BlockCache → BlockCache
  remove_cached fs key b = record {
    inner = remove_key key b.inner;
    disk = if l2_limit == 0 then b.disk else drop_file fs (l2_path key) b.disk;
  }

-- `BlockCache::invalidate_prefix`, which leaves the files.
unfoldable pub invalidate_cached : (prefix : String) → BlockCache → BlockCache
invalidate_cached prefix b = record b { inner = invalidate_prefix prefix b.inner }
