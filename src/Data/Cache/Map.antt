-- ===== src/Data/Cache/Map.antt =====
-- The cache shows, for each key, a value that the calls before allow.
use argos_fs.Common.Map.{string_key, get, del, get-put, get-del}
use argos_fs.Common.Bytes.{bytes_of, starts_with}
use argos_fs.Common.{
  ℕ, ◌+◌, ◌-◌, ◌<◌, ◌≡◌, refl, sym, ◌∙◌, subst, ◌⊎◌, inl, inr, Bool, true, false, List, [], ◌∷◌,
  ◌++◌, Option, none, some, ltb, ◌==◌, if◌then◌else◌, Bool-cases, if_cases, arith,
}
use argos_fs.Common.StringSet.{contains}
use argos_fs.Data.Cache.{
  CacheInner, size_of, remove_found, remove_item, evict, pushed, put_memory_only, remove_key,
  keys_with, remove_keys, invalidate_prefix, is_expected, get_l2, get_found, get_block,
}
use Prim.Native.String.{String}

-- The values that a lookup of a key may give.
abbrev pub Contents : Type 0
Contents = String → List (List ℕ)

abbrev pub Holds : List ℕ → List (List ℕ) → Type 0
Holds v [] = ⊥
Holds v (w ∷ ws) = (v ≡ w) ⊎ Holds v ws

-- What the cache in memory holds for a key is one of them.
abbrev pub Shows : CacheInner → Contents → Type 0
Shows c f = (k : String) (v : List ℕ) → get k c.items ≡ some v → Holds v (f k)

abbrev pub set : String → List (List ℕ) → Contents → Contents
set key values f k = if string_key.same key k then values else f k

abbrev pub clear_prefix : String → Contents → Contents
clear_prefix prefix f k = if starts_with (bytes_of prefix) (bytes_of k) then [] else f k

evict-keeps :
    (limit : ℕ) (c : CacheInner) (order : List String) (k : String) (v : List ℕ)
    → get k (evict limit c order).items ≡ some v
    → get k c.items ≡ some v
unfolding evict
evict-keeps limit c [] k v h = h
evict-keeps limit c (oldest ∷ order) k v h =
    let smaller = record c {
      bytes = c.bytes - size_of oldest c.items;
      items = del oldest c.items;
    } in
    if_cases (λ (r : CacheInner). get k r.items ≡ some v → get k c.items ≡ some v)
      (ltb limit c.bytes)
      (λ y e. ground (arith, evict-keeps limit smaller order k v e, get-del k oldest c.items))
      (λ n e. e) h

remove_item-keeps :
    (key : String) (c : CacheInner) (k : String) (v : List ℕ)
    → get k (remove_item key c).items ≡ some v
    → get k c.items ≡ some v
unfolding remove_item
remove_item-keeps key c k v h = by_found (get key c.items) h
  where
    by_found :
        (o : Option (List ℕ)) → get k (remove_found key c o).items ≡ some v → get k c.items ≡ some v
    by_found none e = e
    by_found (some old) e = ground (arith, e, get-del k key c.items)

remove_keys-keeps :
    (keys : List String) (c : CacheInner) (k : String) (v : List ℕ)
    → get k (remove_keys keys c).items ≡ some v
    → (get k c.items ≡ some v) × (contains k keys ≡ false)
unfolding remove_key contains
remove_keys-keeps [] c k v h = (h, refl)
remove_keys-keeps (key ∷ keys) c k v h =
    let (before, absent) = remove_keys-keeps keys (remove_key key c) k v h in
    (
      ground (arith, before, get-del k key c.items),
      ground (arith, before, absent, get-del k key c.items, string_key.same_iff key k),
    )

contains-keys_with :
    (prefix : String) (items : List (String × List ℕ)) (k : String) (v : List ℕ)
    → get k items ≡ some v
    → starts_with (bytes_of prefix) (bytes_of k) ≡ true
    → contains k (keys_with prefix items) ≡ true
unfolding get keys_with contains
contains-keys_with prefix [] k v h s = absurd (ground (arith, h))
contains-keys_with prefix ((key, value) ∷ items) k v h s =
    elim (Bool-cases (string_key.same k key)) [
      | inl y ↦
          let i : k ≡ key = (string_key.same_iff k key).0 y in
          let t : starts_with (bytes_of prefix) (bytes_of key) ≡ true =
            subst (λ k. starts_with (bytes_of prefix) (bytes_of k) ≡ true) i s in
          rw t (ground (arith, i, string_key.same_iff key k))
      | inr n ↦
          let later = contains-keys_with prefix items k v (ground (arith, h, n)) s in
          if_cases (λ l. contains k l ≡ true) (starts_with (bytes_of prefix) (bytes_of key))
            (λ y. ground (arith, later)) (λ n. later)
    ]

pub put_memory_only-Shows :
    (limit : ℕ) (key : String) (bs : List ℕ) (c : CacheInner) (f g : Contents)
    → 0 < limit
    → Holds bs (g key)
    → ((k : String) (v : List ℕ) → string_key.same key k ≡ false → Holds v (f k) → Holds v (g k))
    → Shows c f
    → Shows (put_memory_only limit key bs c) g
unfolding put_memory_only
put_memory_only-Shows limit key bs c f g pos new others s k v =
    let r = remove_item key c in
    if_cases (λ (u : CacheInner). get k u.items ≡ some v → Holds v (g k)) (limit == 0)
      (λ y. absurd (ground (arith, y, pos)))
      (λ n e.
        let before = evict-keeps limit (pushed key bs r) (r.order ++ (key ∷ [])) k v e in
        elim (Bool-cases (string_key.same key k)) [
          | inl y ↦
              let i : key ≡ k = (string_key.same_iff key k).0 y in
              let now : bs ≡ v = ground (arith, before, get-put k key bs r.items, y) in
              subst (λ k. Holds v (g k)) i (subst (λ v. Holds v (g key)) now new)
          | inr n ↦
              let old : get k r.items ≡ some v =
                ground (arith, before, get-put k key bs r.items, n) in
              others k v n (s k v (remove_item-keeps key c k v old))
        ])

pub remove_key-Shows :
    (key : String) (c : CacheInner) (f g : Contents)
    → ((k : String) → string_key.same key k ≡ false → g k ≡ f k)
    → Shows c f
    → Shows (remove_key key c) g
unfolding remove_key
remove_key-Shows key c f g others s k v h = elim (Bool-cases (string_key.same key k)) [
  | inl y ↦ absurd (ground (arith, h, get-del k key c.items, y))
  | inr n ↦ subst (Holds v) (sym (others k n)) (s k v (ground (arith, h, get-del k key c.items, n)))
]

pub invalidate_prefix-Shows :
    (prefix : String) (c : CacheInner) (f : Contents)
    → Shows c f
    → Shows (invalidate_prefix prefix c) (clear_prefix prefix f)
unfolding invalidate_prefix
invalidate_prefix-Shows prefix c f s k v h =
    let (before, absent) = remove_keys-keeps (keys_with prefix c.items) c k v h in
    elim (Bool-cases (starts_with (bytes_of prefix) (bytes_of k))) [
      | inl y ↦ absurd (ground (arith, contains-keys_with prefix c.items k v before y, absent))
      | inr n ↦ rw n (s k v before)
    ]

pub invalidate_prefix-Shows_still :
    (prefix : String) (c : CacheInner) (f : Contents)
    → Shows c f
    → Shows (invalidate_prefix prefix c) f
unfolding invalidate_prefix
invalidate_prefix-Shows_still prefix c f s k v h =
    let (before, absent) = remove_keys-keeps (keys_with prefix c.items) c k v h in s k v before

module _ (content_hash_matches : List ℕ → String → Bool) (l2_read : String → Option (List ℕ))
    (limit : ℕ) (pos : 0 < limit) (key : String) (sha : Option String) (f : Contents)
    (held : (v : List ℕ) → l2_read key ≡ some v → Holds v (f key)) where
  -- What is returned is allowed for the key, and the cache shows only what is allowed.
  abbrev pub IsAnswer : Option (List ℕ) × CacheInner → Type 0
  IsAnswer r = ((v : List ℕ) → r.0 ≡ some v → Holds v (f key)) × Shows r.1 f

  from_l2 :
      (c : CacheInner) (o : Option (List ℕ))
      → l2_read key ≡ o
      → Shows c f
      → IsAnswer (get_l2 content_hash_matches l2_read limit key sha c o)
  from_l2 c none e s = (λ v h. absurd (ground (arith, h)), s)
  from_l2 c (some value) e s =
      let known : Holds value (f key) = held value e in
      if_cases IsAnswer (is_expected content_hash_matches l2_read limit sha value)
        (λ y. (
          λ v h. subst (λ v. Holds v (f key)) (ground (arith, h)) known,
          put_memory_only-Shows limit key value (record c { l2_hits = c.l2_hits + 1 }) f f pos known
              (λ k v n i. i) s,
        ))
        (λ n. (λ v h. absurd (ground (arith, h)), s))

  from_memory :
      (c : CacheInner) (o : Option (List ℕ))
      → get key c.items ≡ o
      → Shows c f
      → IsAnswer (get_found content_hash_matches l2_read limit key sha c o)
  from_memory c none e s = from_l2 c (l2_read key) refl s
  from_memory c (some value) e s =
      if_cases IsAnswer (is_expected content_hash_matches l2_read limit sha value)
        (λ y. (λ v h. s key v (e ∙ h), s))
        (λ n.
          from_l2 (remove_item key c) (l2_read key) refl
            (λ k v h. s k v (remove_item-keeps key c k v h)))

  pub get_block-IsAnswer :
      (c : CacheInner)
      → Shows c f
      → IsAnswer (get_block content_hash_matches l2_read limit key sha c)
  unfolding get_block
  get_block-IsAnswer c s = from_memory c (get key c.items) refl s
