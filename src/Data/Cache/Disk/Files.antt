-- ===== src/Data/Cache/Disk/Files.antt =====
-- What the calls do to the files of the cache on disk.
use argos_fs.Common.Map.{string_key, get, put, del, get-del}
use argos_fs.Common.{
  ℕ, ◌≡◌, refl, sym, ◌==◌, Bool, true, false, List, [], ◌∷◌, Option, none, some, leb, if_cases,
  arith,
}
use argos_fs.Common.Sort.{sort_by_key}
use argos_fs.Data.Cache.{is_expected}
use argos_fs.Data.Cache.Disk.{
  L2Entry, L2State, FileSystem, Write, written, failed_before, failed_behind, load_l2_index, forget,
  drop_file, retouched, touch_file, prune_files, prune_l2, put_file, enter_file, counted,
  put_l2_written, put_l2, read_file, after_read, get_disk, is_served, BlockCache,
}
use Prim.Native.String.{String}

-- Each file of the second is a file of the first.
abbrev pub Keeps : List (String × List ℕ) → List (String × List ℕ) → Type 0
Keeps files rest = (p : String) (v : List ℕ) → get p rest ≡ some v → get p files ≡ some v

del-Keeps : (path : String) (files : List (String × List ℕ)) → Keeps files (del path files)
del-Keeps path files p v h = ground (arith, h, get-del p path files)

load_l2_index-files : (fs : FileSystem) (d : L2State) → (load_l2_index fs d).files ≡ d.files
unfolding load_l2_index
load_l2_index-files fs d =
    if_cases (λ (e : L2State). e.files ≡ d.files) d.l2_loaded (λ y. refl) (λ n. refl)

forget-files :
    (path : String) (o : Option L2Entry) (d : L2State) → (forget path o d).files ≡ d.files
forget-files path none d = refl
forget-files path (some entry) d = refl

pub drop_file-Keeps :
    (fs : FileSystem) (path : String) (d : L2State) → Keeps d.files (drop_file fs path d).files
unfolding drop_file
drop_file-Keeps fs path d p v =
    let o = get path d.l2_index in
    if_cases (λ (e : L2State). get p e.files ≡ some v → get p d.files ≡ some v) (fs.removes path)
      (λ y h. del-Keeps path d.files p v h) (λ n h. ground (arith, h, forget-files path o d))

-- A file that can be removed is gone.
pub drop_file-removes :
    (fs : FileSystem) (path : String) (d : L2State)
    → fs.removes path ≡ true
    → get path (drop_file fs path d).files ≡ none
unfolding drop_file
drop_file-removes fs path d y =
    rw y (ground (arith, get-del path path d.files, string_key.same_iff path path))

touch_file-files : (path : String) (d : L2State) → (touch_file path d).files ≡ d.files
unfolding touch_file
touch_file-files path d = by_entry _ (get path d.l2_index)
  where
    by_entry : (clock : ℕ) (o : Option L2Entry) → (retouched path clock o d).files ≡ d.files
    by_entry clock none = refl
    by_entry clock (some entry) = refl

prune_files-Keeps :
    (limit : ℕ) (fs : FileSystem) (l : List (String × L2Entry)) (d : L2State)
    → Keeps d.files (prune_files limit fs l d).1.files
unfolding prune_files
prune_files-Keeps limit fs [] d p v = λ h. h
prune_files-Keeps limit fs ((path, entry) ∷ rest) d p v =
    let P = λ (r : Bool × L2State). get p r.1.files ≡ some v → get p d.files ≡ some v in
    if_cases P (leb d.l2_bytes limit) (λ y h. h)
      (λ n.
        if_cases P (fs.removes path)
          (λ y h. del-Keeps path d.files p v (prune_files-Keeps limit fs rest _ p v h)) (λ n h. h))

prune_l2-Keeps :
    (in_order : List (String × L2Entry) → List (String × L2Entry)) (limit : ℕ) (fs : FileSystem)
    (d : L2State)
    → Keeps d.files (prune_l2 in_order limit fs d).1.files
unfolding prune_l2
prune_l2-Keeps in_order limit fs d p v =
    if_cases (λ (r : Bool × L2State). get p r.1.files ≡ some v → get p d.files ≡ some v)
      (leb d.l2_bytes limit) (λ y h. h)
      (λ n h.
        prune_files-Keeps limit fs (sort_by_key (λ e. e.1.touched) (in_order d.l2_index)) d p v h)

-- The files behind the write, before any is pruned.
abbrev pub files_behind : Write → String → List ℕ → List (String × List ℕ) → List (String × List ℕ)
files_behind written path value files = put path value files
files_behind failed_before path value files = files
files_behind failed_behind path value files = put path value files

counted-files : (r : Bool × L2State) → (counted r).files ≡ r.1.files
counted-files (true, d) = refl
counted-files (false, d) = refl

pub put_l2-Keeps :
    (in_order : List (String × L2Entry) → List (String × L2Entry)) (limit : ℕ) (fs : FileSystem)
    (path : String) (value : List ℕ) (d : L2State)
    → Keeps
        (files_behind fs.write path value d.files)
        (counted (put_l2 in_order limit fs path value d)).files
unfolding put_l2 enter_file
put_l2-Keeps in_order limit fs path value d p v h =
    by_write fs.write (ground (arith, h, counted-files (put_l2 in_order limit fs path value d)))
  where
    e : L2State
    e = load_l2_index fs d

    by_write :
        (w : Write)
        → get p (put_l2_written in_order limit fs path value e w).1.files ≡ some v
        → get p (files_behind w path value d.files) ≡ some v
    by_write written k =
        rw (sym (load_l2_index-files fs d))
          (prune_l2-Keeps in_order limit fs (enter_file path value (put_file path value e)) p v k)
    by_write failed_before k = rw (sym (load_l2_index-files fs d)) k
    by_write failed_behind k = rw (sym (load_l2_index-files fs d)) k

module _ (content_hash_matches : List ℕ → String → Bool) (l2_path : String → String)
    (in_order : List (String × L2Entry) → List (String × L2Entry)) (memory_limit l2_limit : ℕ) where
  after_read-Keeps :
      (fs : FileSystem) (path : String) (sha : Option String) (o : Option (List ℕ)) (d : L2State)
      → Keeps d.files
          (after_read content_hash_matches l2_path in_order memory_limit l2_limit fs path sha o
            d).files
  after_read-Keeps fs path sha none d p v = λ h. h
  after_read-Keeps fs path sha (some value) d p v =
      if_cases (λ (e : L2State). get p e.files ≡ some v → get p d.files ≡ some v)
        (is_expected content_hash_matches (λ k. none) memory_limit sha value)
        (λ y h. ground (arith, h, touch_file-files path d)) (λ n h. drop_file-Keeps fs path d p v h)

  -- A lookup makes no file.
  pub get_disk-Keeps :
      (fs : FileSystem) (key : String) (sha : Option String) (b : BlockCache)
      → Keeps b.disk.files
          (get_disk content_hash_matches l2_path in_order memory_limit l2_limit fs key sha b).files
  unfolding get_disk
  get_disk-Keeps fs key sha b p v =
      let P = λ (e : L2State). get p e.files ≡ some v → get p b.disk.files ≡ some v in
      if_cases P
        (is_served content_hash_matches l2_path in_order memory_limit l2_limit sha
          (get key b.inner.items))
        (λ y h. h)
        (λ n.
          if_cases P (l2_limit == 0) (λ y h. h)
            (λ n h. rw (sym (load_l2_index-files fs b.disk)) (
              after_read-Keeps fs (l2_path key) sha
                (read_file content_hash_matches l2_path in_order memory_limit l2_limit fs key
                  b.disk)
                (load_l2_index fs b.disk) p v h)))
