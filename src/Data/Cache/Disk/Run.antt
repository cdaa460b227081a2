-- ===== src/Data/Cache/Disk/Run.antt =====
-- The cache with its files refines a map from keys to the values that a lookup may give.
use argos_fs.Common.Map.{string_key, get, put, get-put}
use argos_fs.Common.{
  ℕ, ◌≡◌, refl, sym, ap, subst, inl, inr, Bool, true, false, List, [], ◌∷◌, Option, none, some,
  ◌==◌, if◌then◌else◌, Bool-cases, if_cases, arith,
}
use argos_fs.Data.Cache.{empty_cache}
use argos_fs.Data.Cache.Disk.{
  L2Entry, L2State, BlockCache, FileSystem, Write, written, failed_before, failed_behind, drop_file,
  get_cached, put_cached, remove_cached, invalidate_cached,
}
use argos_fs.Data.Cache.Disk.Files.{files_behind, drop_file-Keeps, drop_file-removes}
use argos_fs.Data.Cache.Map.{Contents, Holds, set, clear_prefix}
use Prim.Native.String.{String}

-- The value of a file that lies there at the start.
abbrev pub found_values : Option (List ℕ) → List (List ℕ)
found_values none = []
found_values (some value) = value ∷ []

-- The value that is put replaces what was there, unless a write that failed leaves the old file.
abbrev pub values_put : Write → List ℕ → List (List ℕ) → List (List ℕ)
values_put written value old = value ∷ []
values_put failed_before value old = value ∷ old
values_put failed_behind value old = value ∷ []

-- What is allowed after a value is put under a key: the given values there; and the value, besides what
-- was allowed, for another key with the same path.
abbrev pub set_put :
    (l2_path : String → String)
    → (key : String) → (value : List ℕ) → (values : List (List ℕ)) → Contents
    → Contents
set_put l2_path key value values f k =
    if string_key.same key k
    then values
    else if string_key.same (l2_path key) (l2_path k)
    then value ∷ f k
    else f k

-- The states of a cache on files of any content, with the values that a lookup of each key may give: a
-- file that lay there, or what was put, until another value is put under the key or it is removed. Without a
-- cache on disk no file counts, and no write or removal of one fails.
pub data Run (content_hash_matches : List ℕ → String → Bool) (l2_path : String → String)
    (in_order : List (String × L2Entry) → List (String × L2Entry)) (memory_limit l2_limit : ℕ)
    : BlockCache → Contents → Type 0 where
  start :
      (d : L2State)
      → Run content_hash_matches l2_path in_order memory_limit l2_limit
          (record { inner = empty_cache; disk = d })
          (λ k. if l2_limit == 0 then [] else found_values (get (l2_path k) d.files))
  got :
      {b : BlockCache} {f : Contents}
      → Run content_hash_matches l2_path in_order memory_limit l2_limit b f
      → (fs : FileSystem) (key : String) (sha : Option String)
      → Run content_hash_matches l2_path in_order memory_limit l2_limit
          (get_cached content_hash_matches l2_path in_order memory_limit l2_limit fs key sha b).1
          f
  stored :
      {b : BlockCache} {f : Contents}
      → Run content_hash_matches l2_path in_order memory_limit l2_limit b f
      → (fs : FileSystem) (key : String) (value : List ℕ)
      → Run content_hash_matches l2_path in_order memory_limit l2_limit
          (put_cached content_hash_matches l2_path in_order memory_limit l2_limit fs key value b)
          (set_put l2_path key value
            (if l2_limit == 0 then value ∷ [] else values_put fs.write value (f key))
            f)
  removed :
      {b : BlockCache} {f : Contents}
      → Run content_hash_matches l2_path in_order memory_limit l2_limit b f
      → (fs : FileSystem) (key : String)
      → Run content_hash_matches l2_path in_order memory_limit l2_limit
          (remove_cached content_hash_matches l2_path in_order memory_limit l2_limit fs key b)
          (set key (if l2_limit == 0 then [] else if fs.removes (l2_path key) then [] else f key) f)
  invalidated :
      {b : BlockCache} {f : Contents}
      → Run content_hash_matches l2_path in_order memory_limit l2_limit b f
      → (prefix : String)
      → Run content_hash_matches l2_path in_order memory_limit l2_limit
          (invalidate_cached prefix b)
          (if l2_limit == 0 then clear_prefix prefix f else f)

pub set_other :
    (key : String) (values : List (List ℕ)) (f : Contents) (k : String)
    → string_key.same key k ≡ false
    → set key values f k ≡ f k
set_other key values f k n = rw n refl

pub Holds-values_put :
    (w : Write) (value : List ℕ) (old : List (List ℕ)) → Holds value (values_put w value old)
Holds-values_put written value old = inl refl
Holds-values_put failed_before value old = inl refl
Holds-values_put failed_behind value old = inl refl

pub set_put-Holds :
    (l2_path : String → String) (key : String) (value : List ℕ) (values : List (List ℕ))
    (f : Contents) (k : String) (v : List ℕ)
    → string_key.same key k ≡ false
    → Holds v (f k)
    → Holds v (set_put l2_path key value values f k)
set_put-Holds l2_path key value values f k v n i =
    rw n (if_cases (Holds v) (string_key.same (l2_path key) (l2_path k)) (λ y. inr i) (λ n. i))

module _ (l2_path : String → String) (f : Contents) where
  -- What a file holds is allowed for its key.
  abbrev Covers : List (String × List ℕ) → Contents → Type 0
  Covers files g = (k : String) (v : List ℕ) → get (l2_path k) files ≡ some v → Holds v (g k)

  put-Covers :
      (key : String) (value : List ℕ) (values : List (List ℕ)) (files : List (String × List ℕ))
      → Holds value values
      → Covers files f
      → Covers (put (l2_path key) value files) (set_put l2_path key value values f)
  put-Covers key value values files i c k v h =
      let found = get-put (l2_path k) (l2_path key) value files in
      elim (Bool-cases (string_key.same key k)) [
        | inl y ↦
            let e : key ≡ k = (string_key.same_iff key k).0 y in
            let same : string_key.same (l2_path key) (l2_path k) ≡ true =
              (string_key.same_iff _ _).1 (ap l2_path e) in
            let now : value ≡ v = ground (arith, h, found, same) in
            rw y (subst (λ v. Holds v values) now i)
        | inr n ↦ elim (Bool-cases (string_key.same (l2_path key) (l2_path k))) [
          | inl y ↦ let now : v ≡ value = ground (arith, h, found, y) in rw n (rw y (inl now))
          | inr z ↦
              let old : get (l2_path k) files ≡ some v = ground (arith, h, found, z) in
              set_put-Holds l2_path key value values f k v n (c k v old)
        ]
      ]

  pub files_behind-Covers :
      (w : Write) (key : String) (value : List ℕ) (files : List (String × List ℕ))
      → Covers files f
      → Covers
          (files_behind w (l2_path key) value files)
          (set_put l2_path key value (values_put w value (f key)) f)
  files_behind-Covers written key value files c =
      put-Covers key value (value ∷ []) files (inl refl) c
  files_behind-Covers failed_behind key value files c =
      put-Covers key value (value ∷ []) files (inl refl) c
  files_behind-Covers failed_before key value files c = λ k v h.
      elim (Bool-cases (string_key.same key k)) [
        | inl y ↦
            let e : k ≡ key = sym ((string_key.same_iff key k).0 y) in
            rw y (inr (subst (λ k. Holds v (f k)) e (c k v h)))
        | inr n ↦ set_put-Holds l2_path key value (value ∷ f key) f k v n (c k v h)
      ]

  pub drop_file-Covers :
      (fs : FileSystem) (key : String) (d : L2State)
      → Covers d.files f
      → Covers
          (drop_file fs (l2_path key) d).files
          (set key (if fs.removes (l2_path key) then [] else f key) f)
  drop_file-Covers fs key d c k v h = elim (Bool-cases (string_key.same key k)) [
    | inl y ↦
        let e : k ≡ key = sym ((string_key.same_iff key k).0 y) in
        let at_key : get (l2_path key) (drop_file fs (l2_path key) d).files ≡ some v =
          subst (λ k. get (l2_path k) (drop_file fs (l2_path key) d).files ≡ some v) e h in
        rw y (
          if_cases (Holds v) (fs.removes (l2_path key))
            (λ r. absurd (ground (arith, at_key, drop_file-removes fs (l2_path key) d r)))
            (λ n.
              subst (λ k. Holds v (f k)) e
                (c k v (drop_file-Keeps fs (l2_path key) d (l2_path k) v h))))
    | inr n ↦ rw n (c k v (drop_file-Keeps fs (l2_path key) d (l2_path k) v h))
  ]
