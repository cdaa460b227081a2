-- ===== src/Raw/Format.antt =====
-- src/storage/raw/format.rs: the regions of a raw device, and the superblock that names them. A
-- text is the list of its UTF-8 bytes and a UUID the list of its 16 bytes. The sums of region
-- offsets and lengths that the source does not check are below 2 GiB.
pub mod Check
pub mod Bytes
pub mod Superblock
pub mod Layout
pub mod Create
mod Examples
use argos_fs.Common.Word.{checked_add, checked_add32, saturating_sub, is_multiple_of}
use argos_fs.Common.{
  ℕ, ◌+◌, ◌-◌, ◌*◌, ◌/◌, ◌%◌, min, max, Bool, true, false, ◌&&◌, ◌||◌, not, List, Option, none,
  some, length, ltb, leb, ◌==◌, if◌then◌else◌,
}
use argos_fs.Error.{Result, ok, err, ◌>>=◌, ◌>>◌, fail_if, ok_or, invalid, incompatible_format}
use argos_fs.Raw.Align.{align_down}

abbrev pub device_label_offset : ℕ
device_label_offset = 65536

abbrev pub journal_region_offset : ℕ
journal_region_offset = 1048576

abbrev pub journal_region_size : ℕ
journal_region_size = 2097152

abbrev pub metadata_region_offset : ℕ
metadata_region_offset = 4194304

abbrev pub metadata_region_size : ℕ
metadata_region_size = 8388608

abbrev pub allocator_region_offset : ℕ
allocator_region_offset = 12582912

abbrev pub allocator_region_size : ℕ
allocator_region_size = 4194304

abbrev pub data_region_offset : ℕ
data_region_offset = 16777216

abbrev pub backup_region_size : ℕ
backup_region_size = 1048576

abbrev pub large_layout_min_device_bytes : ℕ
large_layout_min_device_bytes = 134217728

abbrev pub large_journal_region_size : ℕ
large_journal_region_size = 8388608

abbrev pub large_metadata_region_min : ℕ
large_metadata_region_min = 67108864

abbrev pub large_metadata_region_max_size : ℕ
large_metadata_region_max_size = 1073741824

abbrev pub metadata_capacity_divisor : ℕ
metadata_capacity_divisor = 64

abbrev pub superblock_size : ℕ
superblock_size = 4096

abbrev pub device_label_size : ℕ
device_label_size = 4096

abbrev pub min_device_bytes : ℕ
min_device_bytes = 20971520

abbrev pub raw_block_size : ℕ
raw_block_size = 4096

pub record RawRegion : Type 0 where
  pub offset : ℕ
  pub length : ℕ

pub record RawSuperblock : Type 0 where
  pub pool_uuid : List ℕ
  pub device_uuid : List ℕ
  pub disk_id : List ℕ
  pub disk_index : ℕ
  pub k : ℕ
  pub m : ℕ
  pub chunk_size : ℕ
  pub generation : ℕ
  pub clean : Bool
  pub feature_flags : ℕ
  pub required_feature_flags : ℕ
  pub block_size : ℕ
  pub sector_size : ℕ
  pub journal : RawRegion
  pub metadata : RawRegion
  pub allocator : RawRegion
  pub data_region : RawRegion
  pub backup_superblock_offset : ℕ
  pub label : List ℕ
  pub last_mount_time : ℕ
  pub last_clean_unmount_time : ℕ

pub record RawDeviceLabel : Type 0 where
  pub pool_uuid : List ℕ
  pub device_uuid : List ℕ
  pub disk_id : List ℕ
  pub disk_index : ℕ
  pub generation : ℕ
  pub label : List ℕ

pub record RawLayoutRegions : Type 0 where
  pub journal : RawRegion
  pub metadata : RawRegion
  pub allocator : RawRegion
  pub data_region : RawRegion

abbrev pub clamp : (lo hi n : ℕ) → ℕ
clamp lo hi n = max lo (min hi n)

unfoldable pub large_metadata_region_size : ℕ → ℕ
large_metadata_region_size capacity =
    clamp large_metadata_region_min large_metadata_region_max_size
      (align_down (capacity / metadata_capacity_divisor) raw_block_size)

abbrev pub region : ℕ → ℕ → RawRegion
region o n = record { offset = o; length = n }

-- The layout with a metadata region of `size` bytes.
abbrev pub large_regions : ℕ → RawLayoutRegions
large_regions size =
    let journal = region journal_region_offset large_journal_region_size in
    let metadata = region (journal.offset + journal.length) size in
    let allocator = region (metadata.offset + metadata.length) allocator_region_size in
    record {
      journal = journal;
      metadata = metadata;
      allocator = allocator;
      data_region = region (allocator.offset + allocator.length) 0;
    }

abbrev pub small_regions : RawLayoutRegions
small_regions = record {
  journal = region journal_region_offset journal_region_size;
  metadata = region metadata_region_offset metadata_region_size;
  allocator = region allocator_region_offset allocator_region_size;
  data_region = region data_region_offset 0;
}

unfoldable pub raw_regions_for_capacity : ℕ → RawLayoutRegions
raw_regions_for_capacity capacity =
    if leb large_layout_min_device_bytes capacity
    then large_regions (large_metadata_region_size capacity)
    else small_regions

-- `k == 0 || k.checked_add(m).is_none() || chunk_size == 0`.
abbrev pub is_none : Option ℕ → Bool
is_none none = true
is_none (some n) = false

abbrev pub is_invalid_erasure : (k m chunk_size : ℕ) → Bool
is_invalid_erasure k m chunk_size = k == 0 || is_none (checked_add32 k m) || chunk_size == 0

-- What `RawSuperblock::new` is given.
pub record NewDevice : Type 0 where
  pub pool_uuid : List ℕ
  pub device_uuid : List ℕ
  pub disk_id : List ℕ
  pub disk_index : ℕ
  pub k : ℕ
  pub m : ℕ
  pub chunk_size : ℕ
  pub capacity : ℕ
  pub label : List ℕ

abbrev pub new_superblock : NewDevice → RawLayoutRegions → ℕ → RawSuperblock
new_superblock d regions data_end = record {
  pool_uuid = d.pool_uuid;
  device_uuid = d.device_uuid;
  disk_id = d.disk_id;
  disk_index = d.disk_index;
  k = d.k;
  m = d.m;
  chunk_size = d.chunk_size;
  generation = 1;
  clean = true;
  feature_flags = 0;
  required_feature_flags = 0;
  block_size = raw_block_size;
  sector_size = 512;
  journal = regions.journal;
  metadata = regions.metadata;
  allocator = regions.allocator;
  data_region = region regions.data_region.offset (data_end - regions.data_region.offset);
  backup_superblock_offset = data_end;
  label = d.label;
  last_mount_time = 0;
  last_clean_unmount_time = 0;
}

-- `RawSuperblock::new`.
unfoldable pub new : NewDevice → Result RawSuperblock
new d = do
  fail_if (is_invalid_erasure d.k d.m d.chunk_size) invalid
  fail_if (length d.disk_id == 0 || leb 64 (length d.disk_id)) invalid
  fail_if (leb 128 (length d.label)) invalid
  fail_if (ltb d.capacity min_device_bytes) invalid
  let regions = raw_regions_for_capacity d.capacity
  let data_end = align_down (saturating_sub d.capacity backup_region_size) 4096
  fail_if (leb data_end regions.data_region.offset) invalid
  ok (new_superblock d regions data_end)

unfoldable pub device_label : RawSuperblock → RawDeviceLabel
device_label sb = record {
  pool_uuid = sb.pool_uuid;
  device_uuid = sb.device_uuid;
  disk_id = sb.disk_id;
  disk_index = sb.disk_index;
  generation = sb.generation;
  label = sb.label;
}
