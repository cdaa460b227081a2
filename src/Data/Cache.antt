-- ===== src/Data/Cache.antt =====
-- The cache in memory of src/data/cache.rs: `get`, `put`, `remove` and `invalidate_prefix` of
-- `BlockCache`. What the cache on disk gives for a key is `l2_read`; the files, with their index, are in
-- Data/Cache/Disk.antt. SHA-256 is the test `content_hash_matches`.
pub mod Bound
pub mod Calls
pub mod Disk
pub mod Kept
pub mod Map
mod Examples
use argos_fs.Common.Map.{Key, string_key, get, put, del}
use argos_fs.Common.Bytes.{bytes_of, starts_with}
use argos_fs.Common.{
  ℕ, ◌+◌, ◌-◌, Bool, true, false, not, List, [], ◌∷◌, ◌++◌, Option, none, some, length, ltb, ◌==◌,
  if◌then◌else◌,
}
use Prim.Native.String.{String}

pub record CacheInner : Type 0 where
  pub bytes : ℕ
  pub items : List (String × List ℕ)
  pub order : List String
  pub hits : ℕ
  pub misses : ℕ
  pub l2_hits : ℕ

-- `CacheInner::default()`.
abbrev pub empty_cache : CacheInner
empty_cache = record { bytes = 0; items = []; order = []; hits = 0; misses = 0; l2_hits = 0 }

-- `order.retain(|candidate| candidate != key)`.
unfoldable pub retain_other : String → List String → List String
retain_other key [] = []
retain_other key (k ∷ order) =
    let rest = retain_other key order in if string_key.same key k then rest else k ∷ rest

abbrev pub size_of : String → List (String × List ℕ) → ℕ
size_of key items = elim (get key items) [ none ↦ 0 | some value ↦ length value ]

-- `if let Some(old) = inner.items.remove(key) { .. }`.
abbrev pub remove_found : String → CacheInner → Option (List ℕ) → CacheInner
remove_found key c none = c
remove_found key c (some old) = record c {
  bytes = c.bytes - length old;
  items = del key c.items;
  order = retain_other key c.order;
}

unfoldable pub remove_item : String → CacheInner → CacheInner
remove_item key c = remove_found key c (get key c.items)

-- The loop that drops the oldest keys, on the order.
unfoldable pub evict : (memory_limit : ℕ) → CacheInner → List String → CacheInner
evict limit c [] = record c { order = [] }
evict limit c (oldest ∷ order) =
    let smaller = record c {
      bytes = c.bytes - size_of oldest c.items;
      items = del oldest c.items;
    } in
    let rest = evict limit smaller order in
    if ltb limit c.bytes then rest else record c { order = oldest ∷ order }

-- The key at the end of the order, with its bytes.
abbrev pub pushed : String → List ℕ → CacheInner → CacheInner
pushed key bs c = record c {
  bytes = c.bytes + length bs;
  items = put key bs c.items;
  order = c.order ++ (key ∷ []);
}

unfoldable pub put_memory_only : (memory_limit : ℕ) → String → List ℕ → CacheInner → CacheInner
put_memory_only limit key bs c =
    if limit == 0 then c else (let p = pushed key bs (remove_item key c) in evict limit p p.order)

-- `remove`, and a step of `invalidate_prefix`.
unfoldable pub remove_key : String → CacheInner → CacheInner
remove_key key c = record c {
  bytes = c.bytes - size_of key c.items;
  items = del key c.items;
  order = retain_other key c.order;
}

unfoldable pub keys_with : (prefix : String) → List (String × List ℕ) → List String
keys_with prefix [] = []
keys_with prefix ((key, value) ∷ items) =
    let rest = keys_with prefix items in
    if starts_with (bytes_of prefix) (bytes_of key) then key ∷ rest else rest

abbrev pub remove_keys : List String → CacheInner → CacheInner
remove_keys [] c = c
remove_keys (key ∷ keys) c = remove_keys keys (remove_key key c)

unfoldable pub invalidate_prefix : (prefix : String) → CacheInner → CacheInner
invalidate_prefix prefix c = remove_keys (keys_with prefix c.items) c

module _ (content_hash_matches : List ℕ → String → Bool) (l2_read : String → Option (List ℕ))
    (memory_limit : ℕ) where
  -- No digest is asked for, or it is that of the value.
  abbrev pub is_expected : Option String → List ℕ → Bool
  is_expected none value = true
  is_expected (some sha) value = content_hash_matches value sha

  abbrev pub hit : String → List ℕ → CacheInner → Option (List ℕ) × CacheInner
  hit key value c =
      (some value, record c { hits = c.hits + 1; order = retain_other key c.order ++ (key ∷ []) })

  abbrev pub missed : CacheInner → Option (List ℕ) × CacheInner
  missed c = (none, record c { misses = c.misses + 1 })

  -- The cache on disk, which is asked after the one in memory.
  abbrev pub get_l2 :
      String → Option String → CacheInner → Option (List ℕ) → Option (List ℕ) × CacheInner
  get_l2 key sha c none = missed c
  get_l2 key sha c (some value) =
      if is_expected sha value
      then (
        some value,
        put_memory_only memory_limit key value (record c { l2_hits = c.l2_hits + 1 }),
      )
      else missed c

  abbrev pub get_found :
      String → Option String → CacheInner → Option (List ℕ) → Option (List ℕ) × CacheInner
  get_found key sha c none = get_l2 key sha c (l2_read key)
  get_found key sha c (some value) =
      if is_expected sha value
      then hit key value c
      else get_l2 key sha (remove_item key c) (l2_read key)

  -- `BlockCache::get`.
  unfoldable pub get_block : String → Option String → CacheInner → Option (List ℕ) × CacheInner
  get_block key sha c = get_found key sha c (get key c.items)
