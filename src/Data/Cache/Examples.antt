-- ===== src/Data/Cache/Examples.antt =====
-- A cache of three bytes.
use argos_fs.Common.Map.{get, put, del}
use argos_fs.Common.{ℕ, ◌≡◌, refl, Bool, true, false, List, [], ◌∷◌, Option, none, some, arith}
use argos_fs.Data.Cache.{
  CacheInner, empty_cache, put_memory_only, remove_item, evict, invalidate_prefix, keys_with,
  get_block, is_expected,
}
use argos_fs.Data.Cache.Bound.{IsCache}
use argos_fs.Data.Cache.Calls.{run, get_call, put_call, run-IsCache, get_block-is_expected}
use argos_fs.Data.Cache.Kept.{get_block-put_memory_only}
use argos_fs.Data.Cache.Disk.{
  L2Entry, L2State, BlockCache, FileSystem, written, get_cached, put_cached, invalidate_cached,
  put_l2, load_l2_index, index_files, enter_file, prune_l2, read_file,
}
use argos_fs.Data.Cache.Disk.Refined.{get_cached-Run}
use argos_fs.Data.Cache.Disk.Run.{start, stored}
use argos_fs.Data.Cache.Map.{set, Holds}
use Prim.Native.String.{String}

abbrev matches : List ℕ → String → Bool
matches value sha = true

abbrev disk : String → Option (List ℕ)
disk key = some (9 ∷ [])

abbrev filled : CacheInner
filled = run matches 3 (put_call "a" (1 ∷ 2 ∷ []) ∷ []) empty_cache

run-IsCache_example : IsCache 3 (
    run matches 3
      (put_call "a" (1 ∷ 2 ∷ [])
        ∷ put_call "b" (3 ∷ 4 ∷ [])
        ∷ get_call "a" none (some (9 ∷ []))
        ∷ [])
      empty_cache)
run-IsCache_example =
    run-IsCache matches 3 (
      put_call "a" (1 ∷ 2 ∷ [])
      ∷ put_call "b" (3 ∷ 4 ∷ [])
      ∷ get_call "a" none (some (9 ∷ []))
      ∷ [])

from_disk : (get_block matches disk 3 "a" (some "00") empty_cache).0 ≡ some (9 ∷ [])
unfolding get_block get
from_disk = refl

get_block-is_expected_example : is_expected matches disk 3 (some "00") (9 ∷ []) ≡ true
get_block-is_expected_example =
    get_block-is_expected matches disk 3 "a" (some "00") empty_cache (9 ∷ []) from_disk

get_block-put_memory_only_example :
    (get_block matches disk 3 "b" none (put_memory_only 3 "b" (3 ∷ 4 ∷ []) filled)).0
    ≡ some (3 ∷ 4 ∷ [])
get_block-put_memory_only_example =
    get_block-put_memory_only matches disk 3 filled "b" (3 ∷ 4 ∷ []) none
      (run-IsCache matches 3 (put_call "a" (1 ∷ 2 ∷ []) ∷ [])) (omega arith) (omega arith) refl

-- Each key is its own path, and every call of the file system does what it is asked for.
abbrev itself : String → String
itself key = key

abbrev unsorted : List (String × L2Entry) → List (String × L2Entry)
unsorted index = index

abbrev fine : FileSystem
fine = record { walk = []; readable = true; removes = λ path. true; write = written }

abbrev no_files : L2State
no_files = record {
  files = [];
  l2_loaded = false;
  l2_bytes = 0;
  l2_index = [];
  l2_clock = 0;
  l2_writes = 0;
  l2_errors = 0;
}

-- The value of `a` is too long for the memory, so it is on disk only.
abbrev long : List ℕ
long = 1 ∷ 2 ∷ 3 ∷ 4 ∷ []

abbrev at_start : BlockCache
at_start = record { inner = empty_cache; disk = no_files }

abbrev a_put : BlockCache
a_put = put_cached matches itself unsorted 3 100 fine "a" long at_start

a_read : (get_cached matches itself unsorted 3 100 fine "a" none a_put).0 ≡ some long
unfolding get_cached put_cached put_l2 load_l2_index index_files enter_file prune_l2 read_file
    put_memory_only remove_item evict get_block get put del
a_read = refl

get_cached-Run_example : Holds long (set "a" (long ∷ []) (λ k. []) "a")
get_cached-Run_example =
    get_cached-Run matches itself unsorted 3 100 (omega arith)
      (stored (start no_files) fine "a" long) fine "a" none long a_read

-- A value is still found in its file after its key was invalidated.
invalidated_read :
    (get_cached matches itself unsorted 3 100 fine "a" none (invalidate_cached "a" a_put)).0
    ≡ some long
unfolding get_cached put_cached put_l2 load_l2_index index_files enter_file prune_l2 read_file
    put_memory_only remove_item evict get_block get put del invalidate_cached invalidate_prefix
    keys_with
invalidated_read = refl
