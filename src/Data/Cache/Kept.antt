-- ===== src/Data/Cache/Kept.antt =====
-- What was put last is found.
use argos_fs.Common.Map.{string_key, get, del, sum, get-put, get-del, sum-del}
use argos_fs.Common.{
  ℕ, ◌-◌, ◌≤◌, ◌<◌, ◌≡◌, refl, sym, subst, Bool, true, false, List, [], ◌∷◌, ◌++◌, Option, some,
  length, ltb, ◌==◌, if_cases, arith,
}
use argos_fs.Data.Cache.{
  CacheInner, size_of, remove_item, evict, pushed, put_memory_only, is_expected, get_found,
  get_block,
}
use Prim.Native.String.{String}
use argos_fs.Data.Cache.Bound.{
  times, times-append, IsCounted, IsCache, taken_out, nothing_listed, remove_item-IsCache,
  get-remove_item, pushed-IsCounted,
}

-- The last key alone fits.
alone :
    (c : CacheInner) (key : String) (bs : List ℕ)
    → IsCounted c (key ∷ [])
    → get key c.items ≡ some bs
    → c.bytes ≡ length bs
unfolding times
alone c key bs w e =
    let others : sum length (del key c.items) ≡ 0 = nothing_listed (del key c.items) (λ k. ground (
      arith,
      get-del k key c.items,
      w.listed k,
      string_key.same_iff key k,
      string_key.same_iff k key,
    )) in
    ground (arith, w.total, sum-del length key c.items w.keys, others, e)

-- The key at the end of the order is not dropped.
evict-last :
    (limit : ℕ) (c : CacheInner) (order : List String) (key : String) (bs : List ℕ)
    → IsCounted c (order ++ (key ∷ []))
    → get key c.items ≡ some bs
    → length bs ≤ limit
    → get key (evict limit c (order ++ (key ∷ []))).items ≡ some bs
unfolding evict times
evict-last limit c [] key bs w e small =
    let size = alone c key bs w e in
    if_cases (λ (r : CacheInner). get key r.items ≡ some bs) (ltb limit c.bytes)
      (λ y. absurd (ground (arith, y, size, small))) (λ n. e)
evict-last limit c (oldest ∷ order) key bs w e small =
    let smaller = record c {
      bytes = c.bytes - size_of oldest c.items;
      items = del oldest c.items;
    } in
    let behind = times-append key order key in
    let apart : string_key.same oldest key ≡ false = ground (
      arith,
      w.listed key,
      behind,
      e,
      string_key.same_iff key key,
      string_key.same_iff oldest key,
      string_key.same_iff key oldest,
    ) in
    let once : times oldest (order ++ (key ∷ [])) ≡ 0 =
      ground (arith, w.listed oldest, string_key.same_iff oldest oldest) in
    let rest : IsCounted smaller (order ++ (key ∷ [])) =
      taken_out c smaller oldest (oldest ∷ order ++ (key ∷ [])) (order ++ (key ∷ [])) w refl refl
        (λ k. ground (arith, once, string_key.same_iff oldest k, string_key.same_iff k oldest)) in
    let still : get key smaller.items ≡ some bs =
      ground (arith, get-del key oldest c.items, apart, e) in
    if_cases (λ (r : CacheInner). get key r.items ≡ some bs) (ltb limit c.bytes)
      (λ y. evict-last limit smaller order key bs rest still small) (λ n. e)

-- In a well-formed cache with a limit above 0, a value that is no longer than the limit is found after
-- it was put, by a lookup without a digest or with one that it has.
pub get_block-put_memory_only :
    (content_hash_matches : List ℕ → String → Bool) (l2_read : String → Option (List ℕ)) (limit : ℕ)
    (c : CacheInner) (key : String) (bs : List ℕ) (sha : Option String)
    → IsCache limit c
    → 0 < limit
    → length bs ≤ limit
    → is_expected content_hash_matches l2_read limit sha bs ≡ true
    → (get_block content_hash_matches l2_read limit key sha (put_memory_only limit key bs c)).0
      ≡ some bs
unfolding get_block put_memory_only
get_block-put_memory_only content_hash_matches l2_read limit c key bs sha w pos small expected =
    let removed = remove_item key c in
    let w' = remove_item-IsCache limit key c w in
    let gone = get-remove_item limit key c in
    let there : get key (pushed key bs removed).items ≡ some bs =
      ground (arith, get-put key key bs removed.items, string_key.same_iff key key) in
    let kept : get key (evict limit (pushed key bs removed) (removed.order ++ (key ∷ []))).items
        ≡ some bs =
      evict-last limit (pushed key bs removed) removed.order key bs
        (pushed-IsCounted limit key bs removed w'.counted gone) there small in
    let enabled : (limit == 0) ≡ false = ground (arith, pos) in
    rw enabled (
      subst
        (λ o.
          (get_found content_hash_matches l2_read limit key sha
            (evict limit (pushed key bs removed) (removed.order ++ (key ∷ []))) o).0
          ≡ some bs)
        (sym kept) (rw expected refl))
