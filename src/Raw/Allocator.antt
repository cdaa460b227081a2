-- ===== src/Raw/Allocator.antt =====
-- src/storage/raw/allocator.rs, with the records of src/model/types.rs that it works on.
pub mod Cover
pub mod Invariant
pub mod Validate
pub mod History
mod Examples
use argos_fs.Common.Word.{saturating_add, saturating_sub, checked_add}
use argos_fs.Common.Sort.{sort_by_key}
use argos_fs.Common.{
  ℕ, zero, suc, ◌+◌, ◌-◌, ◌%◌, ◌≤◌, ◌<◌, min, max, ◌≡◌, Bool, true, false, ◌&&◌, ◌||◌, List, [],
  ◌∷◌, ◌++◌, map, Option, none, some, arith, ltb, leb, ◌==◌, if◌then◌else◌, unwrap_or,
}
use argos_fs.Error.{
  ArgosError, invalid, disk_full, corrupted_metadata, Result, ok, err, ◌>>=◌, ◌>>◌, fail_if, ok_or,
}
use argos_fs.Raw.Align.{align_up}
use Prim.Native.String.{String}

pub record RawFreeExtent : Type 0 where
  pub offset : ℕ
  pub length : ℕ

pub record RawAllocatorState : Type 0 where
  pub block_size : ℕ
  pub data_start : ℕ
  pub data_end : ℕ
  pub next_offset : ℕ
  pub free_extents : List RawFreeExtent

pub record PhysicalExtent : Type 0 where
  pub disk_id : String
  pub offset : ℕ
  pub length : ℕ
  pub generation : ℕ
  pub flags : ℕ

unfoldable pub init_allocator : (data_start data_length block_size : ℕ) → RawAllocatorState
init_allocator data_start data_length block_size = record {
  block_size = block_size;
  data_start = data_start;
  data_end = saturating_add data_start data_length;
  next_offset = data_start;
  free_extents = [];
}

-- The first free extent that fits, and the list after its front is cut off (or it is removed).
unfoldable pub take_free :
    (block_size length : ℕ) → List RawFreeExtent → Option (ℕ × List RawFreeExtent)
take_free block_size length [] = none
take_free block_size length (free ∷ rest) =
    elim (leb length free.length && free.offset % block_size == 0) [
      | true ↦ some (
        free.offset,
        if free.length == length
            then rest
            else record {
              offset = saturating_add free.offset length;
              length = saturating_sub free.length length;
            }
              ∷ rest,
      )
      | false ↦ elim (take_free block_size length rest) [
        | none ↦ none
        | some (offset, rest') ↦ some (offset, free ∷ rest')
      ]
    ]

abbrev pub extent_at : String → (offset length generation : ℕ) → PhysicalExtent
extent_at disk_id offset length generation = record {
  disk_id = disk_id;
  offset = offset;
  length = length;
  generation = generation;
  flags = 0;
}

-- The part of `allocate` behind the free list: a new extent at `next_offset`.
unfoldable pub bump :
    RawAllocatorState
    → String
    → (block_size length generation : ℕ) → Result (PhysicalExtent × RawAllocatorState)
bump state disk_id block_size length generation = do
  let offset = align_up state.next_offset block_size
  end ← ok_or (checked_add offset length) invalid
  fail_if (ltb state.data_end end) (disk_full disk_id length (saturating_sub state.data_end offset))
  ok (extent_at disk_id offset length generation, record state { next_offset = end })

unfoldable pub allocate :
    RawAllocatorState
    → String
    → (length generation : ℕ) → Result (PhysicalExtent × RawAllocatorState)
allocate state disk_id length generation =
    let block_size = max state.block_size 4096 in
    let aligned = align_up (max length 1) block_size in
    elim (take_free block_size aligned state.free_extents) [
      | some (offset, rest) ↦
          ok (extent_at disk_id offset aligned generation, record state { free_extents = rest })
      | none ↦ bump state disk_id block_size aligned generation
    ]

-- The loop of `coalesce` over the sorted extents, with the last merged extent as an argument.
unfoldable pub merge_from : RawFreeExtent → List RawFreeExtent → List RawFreeExtent
merge_from last [] = last ∷ []
merge_from last (extent ∷ rest) =
    let last_end = saturating_add last.offset last.length in
    let new_end = max last_end (saturating_add extent.offset extent.length) in
    let grown = merge_from (record last { length = saturating_sub new_end last.offset }) rest in
    let apart = last ∷ merge_from extent rest in if leb extent.offset last_end then grown else apart

unfoldable pub merge_all : List RawFreeExtent → List RawFreeExtent
unfolding merge_from
merge_all [] = []
merge_all (extent ∷ rest) = merge_from extent rest

unfoldable pub coalesce : RawAllocatorState → RawAllocatorState
unfolding merge_all
coalesce state = record state {
  free_extents = merge_all (sort_by_key (λ e. e.offset) state.free_extents);
}

-- The test that `free` and `validate_allocations` share.
abbrev pub outside : RawAllocatorState → (offset length : ℕ) → Bool
outside state offset length =
    ltb offset state.data_start || ltb state.data_end (saturating_add offset length)

unfoldable pub free : RawAllocatorState → PhysicalExtent → Result RawAllocatorState
unfolding coalesce
free state extent = do
  fail_if (outside state extent.offset extent.length) invalid
  let freed : RawFreeExtent = record { offset = extent.offset; length = extent.length }
  let pushed = record state { free_extents = state.free_extents ++ freed ∷ [] }
  ok (if extent.length == 0 then state else coalesce pushed)

-- One pass of `validate_allocations`: each extent of the sorted list lies in the region and
-- begins behind the one before.
unfoldable pub check_ordered :
    RawAllocatorState → (previous_end : ℕ) → List RawFreeExtent → Result (Unit {0})
check_ordered state previous_end [] = ok tt
check_ordered state previous_end (e ∷ es) = do
  fail_if (outside state e.offset e.length) corrupted_metadata
  fail_if (ltb e.offset previous_end) corrupted_metadata
  check_ordered state (saturating_add e.offset e.length) es

abbrev pub overlaps : RawFreeExtent → RawFreeExtent → Bool
overlaps a b =
    ltb a.offset (saturating_add b.offset b.length)
    && ltb b.offset (saturating_add a.offset a.length)

unfoldable pub check_apart_one : RawFreeExtent → List RawFreeExtent → Result (Unit {0})
check_apart_one a [] = ok tt
check_apart_one a (b ∷ bs) = do fail_if (overlaps a b) corrupted_metadata; check_apart_one a bs

-- The two nested loops over allocated and free extents.
unfoldable pub check_apart : List RawFreeExtent → List RawFreeExtent → Result (Unit {0})
unfolding check_apart_one
check_apart [] frees = ok tt
check_apart (a ∷ rest) frees = do check_apart_one a frees; check_apart rest frees

-- The offset and the length of an extent, which is all that the checks read.
abbrev pub span : PhysicalExtent → RawFreeExtent
span e = record { offset = e.offset; length = e.length }

unfoldable pub validate_allocations : RawAllocatorState → List PhysicalExtent → Result (Unit {0})
unfolding check_ordered check_apart
validate_allocations state extents = do
  let allocated = sort_by_key (λ e. e.offset) (map span extents)
  check_ordered state state.data_start allocated
  let frees = sort_by_key (λ e. e.offset) state.free_extents
  check_ordered state state.data_start frees
  check_apart allocated frees
