-- ===== src/Raw/Allocator/Examples.antt =====
-- The allocator run on a small region: 16 blocks of 4 KiB from offset 16384.
use argos_fs.Common.{ℕ, ◌+◌, ◌≤◌, ◌<◌, ◌≡◌, refl, [], ◌∷◌, arith}
use argos_fs.Error.{ok, err, disk_full, corrupted_metadata}
use argos_fs.Common.Sort.{sort_by_key}
use argos_fs.Raw.Align.{align_up}
use argos_fs.Raw.Allocator.{
  RawAllocatorState, PhysicalExtent, init_allocator, take_free, bump, allocate, free, span,
  validate_allocations, extent_at,
}
use argos_fs.Raw.Allocator.Cover.{cover, covers, IsSeparated}
use argos_fs.Raw.Allocator.Invariant.{
  IsValid, owners, init_allocator-IsValid, allocate-IsValid, free-IsValid,
}
use argos_fs.Raw.Allocator.Validate.{validate_allocations_sound, validate_allocations_accepts}
use argos_fs.Raw.Allocator.History.{
  Pool, Step, Reach, here, next, allocates, frees, fresh, history-IsValid,
}

abbrev region : RawAllocatorState
region = record {
  block_size = 4096;
  data_start = 16384;
  data_end = 81920;
  next_offset = 16384;
  free_extents = [];
}

abbrev first : PhysicalExtent
first = extent_at "disk-0000" 16384 8192 1

abbrev second : PhysicalExtent
second = extent_at "disk-0000" 24576 4096 2

abbrev once : RawAllocatorState
once = record region { next_offset = 24576 }

abbrev twice : RawAllocatorState
twice = record region { next_offset = 28672 }

program : Unit {0}
unfolding init_allocator allocate take_free bump align_up free validate_allocations sort_by_key
program = tt

init_region : init_allocator 16384 65536 4096 ≡ region
unfolding program
init_region = refl

allocate-first : allocate region "disk-0000" 5000 1 ≡ ok (first, once)
unfolding program
allocate-first = refl

allocate-second : allocate once "disk-0000" 1 2 ≡ ok (second, twice)
unfolding program
allocate-second = refl

allocate_full : allocate twice "disk-0000" 65536 3 ≡ err (disk_full "disk-0000" 65536 53248)
unfolding program
allocate_full = refl

-- The freed extents are merged, and the next allocation takes the front of the result.
abbrev freed_first : RawAllocatorState
freed_first = record twice { free_extents = record { offset = 16384; length = 8192 } ∷ [] }

free-first : free twice first ≡ ok freed_first
unfolding program
free-first = refl

free-second :
    free freed_first second
    ≡ ok (record twice { free_extents = record { offset = 16384; length = 12288 } ∷ [] })
unfolding program
free-second = refl

-- Overlapping extents are refused.
validate_overlap :
    validate_allocations twice (first ∷ extent_at "disk-0000" 20480 4096 2 ∷ [])
    ≡ err corrupted_metadata
unfolding program
validate_overlap = refl

region-IsValid : IsValid region []
unfolding init_allocator
region-IsValid = init_allocator-IsValid 16384 65536 4096 (omega arith)

init_allocator-IsValid_example : IsValid (init_allocator 16384 65536 4096) []
init_allocator-IsValid_example = init_allocator-IsValid 16384 65536 4096 (omega arith)

allocate-IsValid_example : (5000 ≤ 8192) × IsValid once (first ∷ [])
allocate-IsValid_example =
    allocate-IsValid region [] region-IsValid "disk-0000" 5000 1 first once (omega arith)
      allocate-first

once-IsValid : IsValid once (first ∷ [])
once-IsValid = allocate-IsValid_example.1

twice-IsValid : IsValid twice (second ∷ first ∷ [])
twice-IsValid =
    (allocate-IsValid once (first ∷ []) once-IsValid "disk-0000" 1 2 second twice (omega arith)
      allocate-second).1

free-IsValid_example :
    (s' : RawAllocatorState) × (free twice first ≡ ok s')
    × IsValid s' (second ∷ [])
    × ((x : ℕ) → cover x s'.free_extents ≡ cover x twice.free_extents + covers x (span first))
    × IsSeparated s'.free_extents
free-IsValid_example = free-IsValid twice (second ∷ []) first [] twice-IsValid

validate_allocations_accepts_example : validate_allocations twice (second ∷ first ∷ []) ≡ ok tt
validate_allocations_accepts_example =
    validate_allocations_accepts twice (second ∷ first ∷ []) twice-IsValid

validate_passes : validate_allocations twice (second ∷ first ∷ []) ≡ ok tt
unfolding program
validate_passes = refl

validate_allocations_sound_example :
    (owners twice (second ∷ first ∷ []) 20000 ≤ 1)
    × (0 < owners twice (second ∷ first ∷ []) 20000 → (16384 ≤ 20000) × (20000 < 81920))
validate_allocations_sound_example =
    validate_allocations_sound twice (second ∷ first ∷ []) (omega arith) validate_passes 20000

abbrev ending : Pool
ending = record { state = freed_first; live = second ∷ [] }

path : Reach (fresh 16384 65536 4096) ending
unfolding init_allocator
path =
    let p1 : Pool = record { state = once; live = first ∷ [] } in
    let p2 : Pool = record { state = twice; live = second ∷ first ∷ [] } in
    let s1 : Step (fresh 16384 65536 4096) p1 =
      allocates "disk-0000" 5000 1 first (omega arith) allocate-first refl in
    let s2 : Step p1 p2 = allocates "disk-0000" 1 2 second (omega arith) allocate-second refl in
    let s3 : Step p2 ending = frees (second ∷ []) first [] refl free-first refl in
    next (next (next here s1) s2) s3

history-IsValid_example :
    IsValid freed_first (second ∷ []) × (validate_allocations freed_first (second ∷ []) ≡ ok tt)
history-IsValid_example = history-IsValid 16384 65536 4096 (omega arith) path
