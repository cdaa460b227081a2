-- ===== src/Raw/Format/Check.antt =====
-- The checks of src/storage/raw/format.rs that reading a superblock and mounting a device make.
pub mod Aligned
use argos_fs.Common.Word.{checked_add, is_multiple_of}
use argos_fs.Common.{ℕ, ◌+◌, ◌||◌, not, ltb, ◌==◌}
use argos_fs.Error.{Result, ok, ◌>>=◌, ◌>>◌, fail_if, ok_or, invalid, incompatible_format}
use argos_fs.Raw.Format.{
  RawRegion, RawSuperblock, device_label_offset, device_label_size, superblock_size, raw_block_size,
}

unfoldable pub validate_region : RawRegion → Result (Unit {0})
validate_region r = do
  fail_if
      (not (is_multiple_of r.offset 4096) || not (is_multiple_of r.length 4096) || r.length == 0)
      invalid
  end ← ok_or (checked_add r.offset r.length) invalid
  ok tt

-- The end of a region, if a u64 holds it.
abbrev pub region_end : RawRegion → Result ℕ
region_end r = ok_or (checked_add r.offset r.length) incompatible_format

-- The conditions of the test are tried in order; each of them fails with the same error.
unfoldable pub validate_region_order :
    (journal metadata allocator data_region : RawRegion) → ℕ → Result (Unit {0})
validate_region_order journal metadata allocator data_region backup_superblock_offset = do
  fail_if (ltb journal.offset (device_label_offset + device_label_size)) incompatible_format
  journal_end ← region_end journal
  fail_if (ltb metadata.offset journal_end) incompatible_format
  metadata_end ← region_end metadata
  fail_if (ltb allocator.offset metadata_end) incompatible_format
  allocator_end ← region_end allocator
  fail_if (ltb data_region.offset allocator_end) incompatible_format
  data_end ← region_end data_region
  fail_if (ltb backup_superblock_offset data_end) incompatible_format
  fail_if (not (is_multiple_of backup_superblock_offset raw_block_size)) incompatible_format

-- One turn of the loop of `validate_device_capacity`.
unfoldable pub region_fits : ℕ → RawRegion → Result (Unit {0})
region_fits capacity r = do end ← region_end r; fail_if (ltb capacity end) incompatible_format

unfoldable pub validate_device_capacity : RawSuperblock → ℕ → Result (Unit {0})
validate_device_capacity sb capacity = do
  backup_end ←
      ok_or (checked_add sb.backup_superblock_offset (superblock_size + device_label_size))
        incompatible_format
  fail_if (ltb capacity backup_end) incompatible_format
  region_fits capacity sb.journal
  region_fits capacity sb.metadata
  region_fits capacity sb.allocator
  region_fits capacity sb.data_region
