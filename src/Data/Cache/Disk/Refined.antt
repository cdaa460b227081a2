-- ===== src/Data/Cache/Disk/Refined.antt =====
-- A lookup gives a value that the calls before allow.
use argos_fs.Common.Map.{string_key, get}
use argos_fs.Common.{
  ℕ, ◌<◌, ◌≡◌, refl, inl, Bool, false, List, [], ◌∷◌, Option, none, some, ◌==◌, if◌then◌else◌,
  if_cases, arith,
}
use argos_fs.Data.Cache.{invalidate_prefix}
use argos_fs.Data.Cache.Disk.{
  L2Entry, BlockCache, FileSystem, read_file, get_cached, put_cached, remove_cached,
  invalidate_cached,
}
use argos_fs.Data.Cache.Disk.Files.{put_l2-Keeps, get_disk-Keeps}
use argos_fs.Data.Cache.Map.{
  Contents, Holds, Shows, set, clear_prefix, put_memory_only-Shows, remove_key-Shows,
  invalidate_prefix-Shows, invalidate_prefix-Shows_still, get_block-IsAnswer,
}
use Prim.Native.String.{String}
use argos_fs.Data.Cache.Disk.Run.{
  found_values, values_put, Run, start, got, stored, removed, invalidated, set_other, set_put,
  set_put-Holds, Holds-values_put, files_behind-Covers, drop_file-Covers,
}

found_values-Holds : (o : Option (List ℕ)) (v : List ℕ) → o ≡ some v → Holds v (found_values o)
found_values-Holds none v h = absurd (ground (arith, h))
found_values-Holds (some w) v h = inl (ground (arith, h))

module _ (content_hash_matches : List ℕ → String → Bool) (l2_path : String → String)
    (in_order : List (String × L2Entry) → List (String × L2Entry)) (memory_limit l2_limit : ℕ)
    (pos : 0 < memory_limit) where
  -- Memory, and the files where there is a cache on disk, hold what is allowed.
  abbrev IsCovered : BlockCache → Contents → Type 0
  IsCovered b f =
      Shows b.inner f
      × ((l2_limit == 0) ≡ false
          → (k : String) (v : List ℕ) → get (l2_path k) b.disk.files ≡ some v
          → Holds v (f k))

  read_file-Holds :
      (b : BlockCache) (f : Contents) (fs : FileSystem) (key : String)
      → IsCovered b f
      → (v : List ℕ)
      → read_file content_hash_matches l2_path in_order memory_limit l2_limit fs key b.disk ≡ some v
      → Holds v (f key)
  unfolding read_file
  read_file-Holds b f fs key c v =
      let P = λ (o : Option (List ℕ)). o ≡ some v → Holds v (f key) in
      if_cases P (l2_limit == 0) (λ y h. absurd (ground (arith, h)))
        (λ n. if_cases P fs.readable (λ y h. c.1 n key v h) (λ n h. absurd (ground (arith, h))))

  get_cached-IsAnswer :
      (b : BlockCache) (f : Contents) (fs : FileSystem) (key : String) (sha : Option String)
      → IsCovered b f
      → ((v : List ℕ)
          → (get_cached content_hash_matches l2_path in_order memory_limit l2_limit fs key sha b).0
            ≡ some v
          → Holds v (f key))
        × IsCovered
            (get_cached content_hash_matches l2_path in_order memory_limit l2_limit fs key sha b).1
            f
  unfolding get_cached
  get_cached-IsAnswer b f fs key sha c =
      let (value, memory) =
        get_block-IsAnswer content_hash_matches
          (λ k. read_file content_hash_matches l2_path in_order memory_limit l2_limit fs k b.disk)
          memory_limit pos key sha f (read_file-Holds b f fs key c) b.inner c.0 in
      (
        value,
        (
          memory,
          λ n k v h. c.1 n k v (
              get_disk-Keeps content_hash_matches l2_path in_order memory_limit l2_limit fs key sha
                b (l2_path k) v h),
        ),
      )

  put_cached-IsCovered :
      (b : BlockCache) (f : Contents) (fs : FileSystem) (key : String) (value : List ℕ)
      → IsCovered b f
      → IsCovered
          (put_cached content_hash_matches l2_path in_order memory_limit l2_limit fs key value b)
          (set_put l2_path key value
            (if l2_limit == 0 then value ∷ [] else values_put fs.write value (f key))
            f)
  unfolding put_cached
  put_cached-IsCovered b f fs key value c =
      let values = if l2_limit == 0 then value ∷ [] else values_put fs.write value (f key) in
      let new : Holds value values =
        if_cases (Holds value) (l2_limit == 0) (λ y. inl refl)
          (λ n. Holds-values_put fs.write value (f key)) in
      let at_key : Holds value (set_put l2_path key value values f key) =
        rw ((string_key.same_iff key key).1 refl) new in
      (
        put_memory_only-Shows memory_limit key value b.inner f (set_put l2_path key value values f)
            pos at_key (set_put-Holds l2_path key value values f) c.0,
        λ n k v. rw n (λ h.
            files_behind-Covers l2_path f fs.write key value b.disk.files (c.1 n) k v
              (put_l2-Keeps in_order l2_limit fs (l2_path key) value b.disk (l2_path k) v h)),
      )

  remove_cached-IsCovered :
      (b : BlockCache) (f : Contents) (fs : FileSystem) (key : String)
      → IsCovered b f
      → IsCovered
          (remove_cached content_hash_matches l2_path in_order memory_limit l2_limit fs key b)
          (set key (if l2_limit == 0 then [] else if fs.removes (l2_path key) then [] else f key) f)
  unfolding remove_cached
  remove_cached-IsCovered b f fs key c =
      let values = if l2_limit == 0 then [] else if fs.removes (l2_path key) then [] else f key in
      (
        remove_key-Shows key b.inner f (set key values f) (set_other key values f) c.0,
        λ n k v. rw n (λ h. drop_file-Covers l2_path f fs key b.disk (c.1 n) k v h),
      )

  invalidate_cached-IsCovered :
      (b : BlockCache) (f : Contents) (prefix : String)
      → IsCovered b f
      → IsCovered (invalidate_cached prefix b) (if l2_limit == 0 then clear_prefix prefix f else f)
  unfolding invalidate_cached
  invalidate_cached-IsCovered b f prefix c = (
    if_cases (Shows (invalidate_prefix prefix b.inner)) (l2_limit == 0)
        (λ y. invalidate_prefix-Shows prefix b.inner f c.0)
        (λ n. invalidate_prefix-Shows_still prefix b.inner f c.0),
    λ n k v. rw n (λ h. c.1 n k v h),
  )

  Run-IsCovered :
      {b : BlockCache} {f : Contents}
      → Run content_hash_matches l2_path in_order memory_limit l2_limit b f
      → IsCovered b f
  unfolding get
  Run-IsCovered (start d) = (
    λ k v h. absurd (ground (arith, h)),
    λ n k v h. rw n (found_values-Holds (get (l2_path k) d.files) v h),
  )
  Run-IsCovered (got {b = b} {f = f} r fs key sha) =
      (get_cached-IsAnswer b f fs key sha (Run-IsCovered r)).1
  Run-IsCovered (stored {b = b} {f = f} r fs key value) =
      put_cached-IsCovered b f fs key value (Run-IsCovered r)
  Run-IsCovered (removed {b = b} {f = f} r fs key) =
      remove_cached-IsCovered b f fs key (Run-IsCovered r)
  Run-IsCovered (invalidated {b = b} {f = f} r prefix) =
      invalidate_cached-IsCovered b f prefix (Run-IsCovered r)

  -- A cache with a memory limit above 0, with or without files on disk, refines the map of what a lookup
  -- of each key may give: whatever was called before, and whatever files could be read, written and
  -- removed, a lookup returns nothing or an allowed value. Allowed is what lay in the key's file at the
  -- start or was put under the key, or under another one with the same path, until another value is put
  -- under the key (unless writing its file fails before the old file is replaced) or the key is removed
  -- (unless its file cannot be removed). Invalidation by a prefix forbids the values of its keys only
  -- without a cache on disk.
  pub get_cached-Run :
      {b : BlockCache} {f : Contents}
      → Run content_hash_matches l2_path in_order memory_limit l2_limit b f
      → (fs : FileSystem) (key : String) (sha : Option String) (value : List ℕ)
      → (get_cached content_hash_matches l2_path in_order memory_limit l2_limit fs key sha b).0
        ≡ some value
      → Holds value (f key)
  get_cached-Run {b = b} {f = f} r fs key sha value h =
      (get_cached-IsAnswer b f fs key sha (Run-IsCovered r)).0 value h
