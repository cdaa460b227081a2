-- ===== src/Volume/Sparse/Examples.antt =====
-- Seeking in a file of 100 bytes with two blocks that touch and one that is beyond its size.
use argos_fs.Common.Sort.{sort_by_key}
use argos_fs.Common.{ℕ, ◌≤◌, ◌<◌, ◌≡◌, refl, true, false, [], ◌∷◌, none, arith}
use argos_fs.Error.{ok, err, no_data}
use argos_fs.Volume.Sparse.Extents.{is_data}
use argos_fs.Volume.Sparse.Seek.{IsFirst, seek_data-IsFirst, seek_hole-IsFirst}
use argos_fs.Volume.Sparse.{
  FileBlock, FileInode, block_extents, merge_behind, merge, inode_data_extents, data_from,
  seek_data, hole_from, seek_hole,
}

abbrev block : (start size : ℕ) → FileBlock
block start size = record { raw_offset = start; raw_size = size }

abbrev sparse : FileInode
sparse = record {
  size = 100;
  inline_data = none;
  blocks = block 40 10 ∷ block 20 20 ∷ block 90 50 ∷ block 120 8 ∷ [];
}

sparse_extents : inode_data_extents sparse ≡ (20, 50) ∷ (90, 100) ∷ []
unfolding inode_data_extents block_extents sort_by_key merge merge_behind
sparse_extents = refl

sparse_data : seek_data sparse 60 ≡ ok 90
unfolding seek_data data_from inode_data_extents block_extents sort_by_key merge merge_behind
sparse_data = refl

sparse_hole : seek_hole sparse 25 ≡ ok 50
unfolding seek_hole hole_from inode_data_extents block_extents sort_by_key merge merge_behind
sparse_hole = refl

sparse_end : seek_data sparse 100 ≡ err no_data
unfolding seek_data
sparse_end = refl

seek_data-IsFirst_example : IsFirst (is_data sparse) 60 (seek_data sparse 60)
seek_data-IsFirst_example = seek_data-IsFirst sparse 60 refl

seek_hole-IsFirst_example :
    (r : ℕ) × (seek_hole sparse 25 ≡ ok r)
    × (25 ≤ r)
    × (r ≤ 100)
    × (is_data sparse r ≡ false)
    × ((y : ℕ) → 25 ≤ y → y < r → is_data sparse y ≡ true)
seek_hole-IsFirst_example = seek_hole-IsFirst sparse 25 refl (omega arith)
