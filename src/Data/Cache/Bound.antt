-- ===== src/Data/Cache/Bound.antt =====
-- The cache in memory stays within its limit and knows its own size.
use argos_fs.Common.Map.{
  string_key, get, del, IsMap, sum, weight_of, get-put, get-del, put-IsMap, del-IsMap, sum-put,
  sum-del,
}
use argos_fs.Common.{
  ℕ, ◌+◌, ◌-◌, ◌≤◌, ◌≡◌, refl, List, [], ◌∷◌, ◌++◌, Option, none, some, length, ltb, ◌==◌,
  if◌then◌else◌, if_cases, arith,
}
use argos_fs.Data.Cache.{
  CacheInner, retain_other, size_of, remove_found, remove_item, evict, pushed, put_memory_only,
  remove_key, keys_with, remove_keys, invalidate_prefix,
}
use Prim.Native.String.{String}

-- How often a key stands in the order.
unfoldable pub times : String → List String → ℕ
times key [] = 0
times key (k ∷ order) = (if string_key.same key k then 1 else 0) + times key order

abbrev pub present_once : List ℕ → ℕ
present_once value = 1

-- The size is that of the items, and the order has each key of an item once and no other.
pub record IsCounted (c : CacheInner) (order : List String) : Type 0 where
  pub keys : IsMap c.items
  pub total : c.bytes ≡ sum length c.items
  pub listed : (key : String) → times key order ≡ weight_of present_once (get key c.items)

-- And the size is within the limit.
pub record IsCache (limit : ℕ) (c : CacheInner) : Type 0 where
  pub counted : IsCounted c c.order
  pub bounded : c.bytes ≤ limit

pub times-retain_other :
    (k key : String) (order : List String)
    → times k (retain_other key order) ≡ (if string_key.same key k then 0 else times k order)
unfolding times retain_other
times-retain_other k key [] = ground arith
times-retain_other k key (j ∷ order) = ground (
  arith,
  times-retain_other k key order,
  string_key.same_iff key j,
  string_key.same_iff k j,
  string_key.same_iff key k,
)

pub times-append :
    (k : String) (order : List String) (key : String)
    → times k (order ++ (key ∷ [])) ≡ times k order + (if string_key.same k key then 1 else 0)
unfolding times
times-append k [] key = ground arith
times-append k (j ∷ order) key = ground (arith, times-append k order key)

size_of-weight :
    (key : String) (items : List (String × List ℕ))
    → size_of key items ≡ weight_of length (get key items)
size_of-weight key items = by_found (get key items)
  where
    by_found :
        (o : Option (List ℕ))
        → (elim o [ none ↦ 0 | some value ↦ length value ]) ≡ weight_of length o
    by_found none = refl
    by_found (some v) = refl

-- A key that is taken out, and its place in the order.
pub taken_out :
    (c c' : CacheInner) (key : String) (order order' : List String)
    → IsCounted c order
    → c'.items ≡ del key c.items
    → c'.bytes ≡ c.bytes - size_of key c.items
    → ((k : String) → times k order' ≡ (if string_key.same key k then 0 else times k order))
    → IsCounted c' order'
taken_out c c' key order order' w items bytes places = record {
  keys = rw items (del-IsMap key c.items w.keys);
  total = rw items (
      omega (arith, bytes, size_of-weight key c.items, w.total, sum-del length key c.items w.keys));
  listed = λ k. rw items (ground (arith, places k, w.listed k, get-del k key c.items));
}

pub nothing_listed :
    (items : List (String × List ℕ))
    → ((key : String) → get key items ≡ none)
    → sum length items ≡ 0
unfolding get sum
nothing_listed [] h = refl
nothing_listed ((key, value) ∷ items) h =
    absurd (ground (arith, h key, string_key.same_iff key key))

-- The loop ends within the limit, for an empty order means that there are no items.
pub evict-IsCache :
    (limit : ℕ) (c : CacheInner) (order : List String)
    → IsCounted c order
    → IsCache limit (evict limit c order)
unfolding evict times
evict-IsCache limit c [] w =
    let none_left : sum length c.items ≡ 0 =
      nothing_listed c.items (λ k. ground (arith, w.listed k)) in
    record {
      counted = record { keys = w.keys; total = w.total; listed = w.listed };
      bounded = omega (arith, none_left, w.total);
    }
evict-IsCache limit c (oldest ∷ order) w =
    let smaller = record c {
      bytes = c.bytes - size_of oldest c.items;
      items = del oldest c.items;
    } in
    let once : times oldest order ≡ 0 =
      ground (arith, w.listed oldest, string_key.same_iff oldest oldest) in
    let rest : IsCounted smaller order =
      taken_out c smaller oldest (oldest ∷ order) order w refl refl
        (λ k. ground (arith, once, string_key.same_iff oldest k, string_key.same_iff k oldest)) in
    if_cases (IsCache limit) (ltb limit c.bytes) (λ y. evict-IsCache limit smaller order rest)
      (λ n. record {
        counted = record { keys = w.keys; total = w.total; listed = w.listed };
        bounded = ground (arith, n);
      })

module _ (limit : ℕ) where
  pub remove_key-IsCache :
      (key : String) (c : CacheInner) → IsCache limit c → IsCache limit (remove_key key c)
  unfolding remove_key
  remove_key-IsCache key c w = record {
    counted =
        taken_out c (remove_key key c) key c.order (retain_other key c.order) w.counted refl refl
          (λ k. times-retain_other k key c.order);
    bounded = omega (arith, w.bounded);
  }

  pub remove_item-IsCache :
      (key : String) (c : CacheInner) → IsCache limit c → IsCache limit (remove_item key c)
  unfolding remove_item
  remove_item-IsCache key c w = by_found (get key c.items) refl
    where
      by_found : (o : Option (List ℕ)) → get key c.items ≡ o → IsCache limit (remove_found key c o)
      by_found none e = w
      by_found (some old) e = record {
        counted =
            taken_out c (remove_found key c (some old)) key c.order (retain_other key c.order)
              w.counted refl (ground (arith, size_of-weight key c.items, e))
              (λ k. times-retain_other k key c.order);
        bounded = omega (arith, w.bounded);
      }

  -- The key is gone afterwards.
  pub get-remove_item : (key : String) (c : CacheInner) → get key (remove_item key c).items ≡ none
  unfolding remove_item
  get-remove_item key c = by_found (get key c.items) refl
    where
      by_found :
          (o : Option (List ℕ)) → get key c.items ≡ o → get key (remove_found key c o).items ≡ none
      by_found none e = e
      by_found (some old) e = ground (arith, get-del key key c.items, string_key.same_iff key key)

  pub pushed-IsCounted :
      (key : String) (bs : List ℕ) (c : CacheInner)
      → IsCounted c c.order
      → get key c.items ≡ none
      → IsCounted (pushed key bs c) (c.order ++ (key ∷ []))
  pushed-IsCounted key bs c w free = record {
    keys = put-IsMap key bs c.items w.keys;
    total = ground (arith, w.total, sum-put length key bs c.items, free);
    listed = λ k. ground (
      arith,
      times-append k c.order key,
      w.listed k,
      get-put k key bs c.items,
      string_key.same_iff key k,
      string_key.same_iff k key,
      free,
    );
  }

  pub put_memory_only-IsCache :
      (key : String) (bs : List ℕ) (c : CacheInner)
      → IsCache limit c
      → IsCache limit (put_memory_only limit key bs c)
  unfolding put_memory_only
  put_memory_only-IsCache key bs c w =
      if_cases (IsCache limit) (limit == 0) (λ y. w)
        (λ n.
          let removed = remove_item-IsCache key c w in
          evict-IsCache limit (pushed key bs (remove_item key c))
            ((remove_item key c).order ++ (key ∷ []))
            (pushed-IsCounted key bs (remove_item key c) removed.counted (get-remove_item key c)))

  pub invalidate_prefix-IsCache :
      (prefix : String) (c : CacheInner)
      → IsCache limit c
      → IsCache limit (invalidate_prefix prefix c)
  unfolding invalidate_prefix
  invalidate_prefix-IsCache prefix c w = all_removed (keys_with prefix c.items) c w
    where
      all_removed :
          (keys : List String) (c : CacheInner)
          → IsCache limit c
          → IsCache limit (remove_keys keys c)
      all_removed [] c w = w
      all_removed (key ∷ keys) c w =
          all_removed keys (remove_key key c) (remove_key-IsCache key c w)
