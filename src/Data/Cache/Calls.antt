-- ===== src/Data/Cache/Calls.antt =====
-- Sequences of calls of the cache.
use argos_fs.Common.Map.{string_key, get, sum}
use argos_fs.Common.{
  ℕ, ◌+◌, ◌≡◌, refl, inl, inr, Bool, true, List, [], ◌∷◌, Option, none, some, Bool-cases, if_cases,
  arith,
}
use argos_fs.Data.Cache.{
  CacheInner, empty_cache, retain_other, remove_item, put_memory_only, remove_key,
  invalidate_prefix, is_expected, hit, missed, get_l2, get_found, get_block,
}
use Prim.Native.String.{String}
use argos_fs.Data.Cache.Bound.{
  times, times-retain_other, times-append, IsCache, remove_key-IsCache, remove_item-IsCache,
  put_memory_only-IsCache, invalidate_prefix-IsCache,
}

-- A call of one of the operations.
pub data Call : Type 0 where
  get_call : (key : String) (expected_sha : Option String) (on_disk : Option (List ℕ)) → Call
  put_call : (key : String) (bs : List ℕ) → Call
  remove_call : (key : String) → Call
  invalidate_call : (prefix : String) → Call

module _ (content_hash_matches : List ℕ → String → Bool) (l2_read : String → Option (List ℕ))
    (limit : ℕ) where
  hit-IsCache :
      (key : String) (value : List ℕ) (c : CacheInner)
      → IsCache limit c
      → get key c.items ≡ some value
      → IsCache limit (hit content_hash_matches l2_read limit key value c).1
  hit-IsCache key value c w e = record {
    counted = record {
      keys = w.counted.keys;
      total = w.counted.total;
      listed = λ k. ground (
        arith,
        times-append k (retain_other key c.order) key,
        times-retain_other k key c.order,
        w.counted.listed k,
        string_key.same_iff key k,
        string_key.same_iff k key,
        e,
      );
    };
    bounded = w.bounded;
  }

  missed-IsCache :
      (c : CacheInner)
      → IsCache limit c
      → IsCache limit (missed content_hash_matches l2_read limit c).1
  missed-IsCache c w = record {
    counted = record { keys = w.counted.keys; total = w.counted.total; listed = w.counted.listed };
    bounded = w.bounded;
  }

  get_l2-IsCache :
      (key : String) (sha : Option String) (c : CacheInner) (o : Option (List ℕ))
      → IsCache limit c
      → IsCache limit (get_l2 content_hash_matches l2_read limit key sha c o).1
  get_l2-IsCache key sha c none w = missed-IsCache c w
  get_l2-IsCache key sha c (some value) w =
      if_cases (λ (r : Option (List ℕ) × CacheInner). IsCache limit r.1)
        (is_expected content_hash_matches l2_read limit sha value)
        (λ y.
          put_memory_only-IsCache limit key value (record c { l2_hits = c.l2_hits + 1 })
            (record {
              counted = record {
                keys = w.counted.keys;
                total = w.counted.total;
                listed = w.counted.listed;
              };
              bounded = w.bounded;
            }))
        (λ n. missed-IsCache c w)

  get_block-IsCache :
      (key : String) (sha : Option String) (c : CacheInner)
      → IsCache limit c
      → IsCache limit (get_block content_hash_matches l2_read limit key sha c).1
  unfolding get_block
  get_block-IsCache key sha c w = by_found (get key c.items) refl
    where
      by_found :
          (o : Option (List ℕ))
          → get key c.items ≡ o
          → IsCache limit (get_found content_hash_matches l2_read limit key sha c o).1
      by_found none e = get_l2-IsCache key sha c (l2_read key) w
      by_found (some value) e =
          if_cases (λ (r : Option (List ℕ) × CacheInner). IsCache limit r.1)
            (is_expected content_hash_matches l2_read limit sha value)
            (λ y. hit-IsCache key value c w e)
            (λ n.
              get_l2-IsCache key sha (remove_item key c) (l2_read key)
                (remove_item-IsCache limit key c w))

  -- What a lookup returns has the digest that was asked for, if one was.
  pub get_block-is_expected :
      (key : String) (sha : Option String) (c : CacheInner) (value : List ℕ)
      → (get_block content_hash_matches l2_read limit key sha c).0 ≡ some value
      → is_expected content_hash_matches l2_read limit sha value ≡ true
  unfolding get_block
  get_block-is_expected key sha c value h = by_found (get key c.items) h
    where
      from_l2 :
          (c : CacheInner) (o : Option (List ℕ))
          → (get_l2 content_hash_matches l2_read limit key sha c o).0 ≡ some value
          → is_expected content_hash_matches l2_read limit sha value ≡ true
      from_l2 c none e = absurd (ground (arith, e))
      from_l2 c (some v) e =
          elim (Bool-cases (is_expected content_hash_matches l2_read limit sha v)) [
            | inl y ↦ let same : v ≡ value = ground (arith, e, y) in rw⁻¹ same y
            | inr n ↦ absurd (ground (arith, e, n))
          ]

      by_found :
          (o : Option (List ℕ))
          → (get_found content_hash_matches l2_read limit key sha c o).0 ≡ some value
          → is_expected content_hash_matches l2_read limit sha value ≡ true
      by_found none e = from_l2 c (l2_read key) e
      by_found (some v) e =
          elim (Bool-cases (is_expected content_hash_matches l2_read limit sha v)) [
            | inl y ↦ let same : v ≡ value = ground (arith, e, y) in rw⁻¹ same y
            | inr n ↦ from_l2 (remove_item key c) (l2_read key) (ground (arith, e, n))
          ]

module _ (content_hash_matches : List ℕ → String → Bool) (limit : ℕ) where
  abbrev pub run : List Call → CacheInner → CacheInner
  run [] c = c
  run (get_call key sha on_disk ∷ calls) c =
      run calls (get_block content_hash_matches (λ k. on_disk) limit key sha c).1
  run (put_call key bs ∷ calls) c = run calls (put_memory_only limit key bs c)
  run (remove_call key ∷ calls) c = run calls (remove_key key c)
  run (invalidate_call prefix ∷ calls) c = run calls (invalidate_prefix prefix c)

  runs : (calls : List Call) (c : CacheInner) → IsCache limit c → IsCache limit (run calls c)
  runs [] c w = w
  runs (get_call key sha on_disk ∷ calls) c w =
      runs calls _ (get_block-IsCache content_hash_matches (λ k. on_disk) limit key sha c w)
  runs (put_call key bs ∷ calls) c w = runs calls _ (put_memory_only-IsCache limit key bs c w)
  runs (remove_call key ∷ calls) c w = runs calls _ (remove_key-IsCache limit key c w)
  runs (invalidate_call prefix ∷ calls) c w =
      runs calls _ (invalidate_prefix-IsCache limit prefix c w)

  -- After any calls on an empty cache, its size is that of its items and at most the limit, and the
  -- order of eviction has the key of each item once and no other key.
  pub run-IsCache : (calls : List Call) → IsCache limit (run calls empty_cache)
  unfolding get sum times
  run-IsCache calls = runs calls empty_cache (record {
    counted = record { keys = tt; total = refl; listed = λ k. refl };
    bounded = omega arith;
  })
