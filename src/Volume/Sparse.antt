-- ===== src/Volume/Sparse.antt =====
-- The data and the holes of a file, of src/volume/helpers.rs: `inode_data_extents`, `seek_data` and
-- `seek_hole`. An extent is the pair of its start and its end.
pub mod Extents
pub mod Seek
mod Examples
use argos_fs.Common.Sort.{sort_by_key}
use argos_fs.Common.Word.{saturating_add}
use argos_fs.Common.{
  ℕ, min, max, Bool, true, false, List, [], ◌∷◌, Option, none, some, ltb, leb, ◌==◌, if◌then◌else◌,
}
use argos_fs.Error.{Result, ok, err, no_data}

pub record FileBlock : Type 0 where
  pub raw_offset : ℕ
  pub raw_size : ℕ

-- The fields of a file's inode that seeking reads.
pub record FileInode : Type 0 where
  pub size : ℕ
  pub inline_data : Option (List ℕ)
  pub blocks : List FileBlock

abbrev pub Extent : Type 0
Extent = ℕ × ℕ

abbrev pub block_start : ℕ → FileBlock → ℕ
block_start size b = min b.raw_offset size

abbrev pub block_end : ℕ → FileBlock → ℕ
block_end size b = min (saturating_add b.raw_offset b.raw_size) size

-- The blocks as extents within the file; those that are empty there are left out.
unfoldable pub block_extents : ℕ → List FileBlock → List Extent
block_extents size [] = []
block_extents size (b ∷ bs) =
    let rest = block_extents size bs in
    if ltb (block_start size b) (block_end size b)
    then (block_start size b, block_end size b) ∷ rest
    else rest

-- The loop that merges, with the last extent of `merged` apart.
unfoldable pub merge_behind : Extent → List Extent → List Extent
merge_behind last [] = last ∷ []
merge_behind (s, e) ((start, end) ∷ rest) =
    let joined = merge_behind (s, max e end) rest in
    let apart = merge_behind (start, end) rest in if leb start e then joined else (s, e) ∷ apart

unfoldable pub merge : List Extent → List Extent
merge [] = []
merge (x ∷ xs) = merge_behind x xs

abbrev pub start_of : Extent → ℕ
start_of x = x.0

unfoldable pub inode_data_extents : FileInode → List Extent
inode_data_extents inode = merge (sort_by_key start_of (block_extents inode.size inode.blocks))

-- The loop of `seek_data`.
unfoldable pub data_from : ℕ → List Extent → Result ℕ
data_from offset [] = err no_data
data_from offset ((start, end) ∷ rest) =
    let later = data_from offset rest in
    if ltb offset start then ok start else if ltb offset end then ok offset else later

abbrev pub is_some : Option (List ℕ) → Bool
is_some none = false
is_some (some bytes) = true

unfoldable pub seek_data : FileInode → ℕ → Result ℕ
seek_data inode offset =
    if leb inode.size offset
    then err no_data
    else if is_some inode.inline_data
    then ok offset
    else data_from offset (inode_data_extents inode)

-- The loop of `seek_hole` and the line behind it.
unfoldable pub hole_from : ℕ → ℕ → List Extent → ℕ
hole_from size cursor [] = min cursor size
hole_from size cursor ((start, end) ∷ rest) =
    let behind = hole_from size end rest in
    let same = hole_from size cursor rest in
    if ltb cursor start then cursor else if ltb cursor end then behind else same

unfoldable pub seek_hole : FileInode → ℕ → Result ℕ
seek_hole inode offset =
    if ltb inode.size offset
    then err no_data
    else if offset == inode.size
    then ok offset
    else if is_some inode.inline_data
    then ok inode.size
    else ok (hole_from inode.size offset (inode_data_extents inode))
