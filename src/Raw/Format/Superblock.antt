-- ===== src/Raw/Format/Superblock.antt =====
-- The byte forms of the superblock and of the device label in src/storage/raw/format.rs. The digest
-- `sha256` of a buffer is a parameter.
pub mod Decoded
mod Examples
use argos_fs.Common.{
  ℕ, ◌+◌, ◌-◌, ◌%◌, Bool, true, false, ◌||◌, not, List, ◌++◌, length, ltb, ◌==◌, if◌then◌else◌,
}
use argos_fs.Error.{Result, ok, err, ◌>>=◌, ◌>>◌, fail_if, incompatible_format, checksum}
use argos_fs.Common.Bytes.{take, drop, same_bytes}
use argos_fs.Raw.Format.Bytes.{
  raw_super_magic, raw_label_magic, endian_marker, raw_format_version, zeros, slice, put, put_u32,
  put_u64, put_region, put_fixed_str, get_u32, get_u64, get_region, uuid_from, get_fixed_str,
}
use argos_fs.Raw.Format.Check.{validate_region, validate_region_order}
use argos_fs.Raw.Format.{
  RawRegion, RawSuperblock, RawDeviceLabel, superblock_size, device_label_size, raw_block_size,
  is_invalid_erasure,
}
use Prim.Native.Nat.{bit_and}

-- `sector_size == 0 || !sector_size.is_power_of_two() || block_size % sector_size != 0`.
abbrev pub is_invalid_sector : (sector_size block_size : ℕ) → Bool
is_invalid_sector s b = s == 0 || not (bit_and s (s - 1) == 0) || not (b % s == 0)

-- What the middle of `RawSuperblock::decode` reads and checks.
pub record Geometry : Type 0 where
  pub required_feature_flags : ℕ
  pub block_size : ℕ
  pub sector_size : ℕ
  pub k : ℕ
  pub m : ℕ
  pub chunk_size : ℕ

pub record Regions : Type 0 where
  pub journal : RawRegion
  pub metadata : RawRegion
  pub allocator : RawRegion
  pub data_region : RawRegion
  pub backup_superblock_offset : ℕ

unfoldable pub read_geometry : List ℕ → Result Geometry
read_geometry bytes = do
  required ← get_u64 bytes 48
  fail_if (not (required == 0)) incompatible_format
  block_size ← get_u32 bytes 56
  sector_size ← get_u32 bytes 60
  k ← get_u32 bytes 100
  m ← get_u32 bytes 104
  chunk_size ← get_u64 bytes 112
  fail_if (not (block_size == raw_block_size)) incompatible_format
  fail_if (is_invalid_sector sector_size block_size) incompatible_format
  fail_if (is_invalid_erasure k m chunk_size) incompatible_format
  ok (record {
    required_feature_flags = required;
    block_size = block_size;
    sector_size = sector_size;
    k = k;
    m = m;
    chunk_size = chunk_size;
  })

unfoldable pub read_regions : List ℕ → Result Regions
read_regions bytes = do
  journal ← get_region bytes 128
  metadata ← get_region bytes 144
  allocator ← get_region bytes 160
  data_region ← get_region bytes 176
  validate_region journal
  validate_region metadata
  validate_region allocator
  validate_region data_region
  backup ← get_u64 bytes 192
  validate_region_order journal metadata allocator data_region backup
  ok (record {
    journal = journal;
    metadata = metadata;
    allocator = allocator;
    data_region = data_region;
    backup_superblock_offset = backup;
  })

unfoldable pub finish_superblock : List ℕ → Geometry → Regions → Result RawSuperblock
finish_superblock bytes g r = do
  pool ← uuid_from bytes 64
  device ← uuid_from bytes 80
  disk ← get_fixed_str bytes 256 64
  index ← get_u32 bytes 96
  gen ← get_u64 bytes 32
  clean_flag ← get_u32 bytes 108
  flags ← get_u64 bytes 40
  name ← get_fixed_str bytes 320 128
  mounted ← get_u64 bytes 200
  unmounted ← get_u64 bytes 208
  ok (record {
    pool_uuid = pool;
    device_uuid = device;
    disk_id = disk;
    disk_index = index;
    k = g.k;
    m = g.m;
    chunk_size = g.chunk_size;
    generation = gen;
    clean = not (clean_flag == 0);
    feature_flags = flags;
    required_feature_flags = g.required_feature_flags;
    block_size = g.block_size;
    sector_size = g.sector_size;
    journal = r.journal;
    metadata = r.metadata;
    allocator = r.allocator;
    data_region = r.data_region;
    backup_superblock_offset = r.backup_superblock_offset;
    label = name;
    last_mount_time = mounted;
    last_clean_unmount_time = unmounted;
  })

module _ (sha256 : List ℕ → List ℕ) where
  unfoldable pub checksum_with_zeroed_field : List ℕ → ℕ → ℕ → List ℕ
  checksum_with_zeroed_field bytes offset len =
      sha256 (take offset bytes ++ zeros len ++ drop (offset + len) bytes)

  -- The magic, the versions, the byte order and the checksum of a superblock.
  unfoldable pub check_header : List ℕ → Result (Unit {0})
  check_header bytes = do
    fail_if (ltb (length bytes) superblock_size) incompatible_format
    fail_if (not (same_bytes (take 16 bytes) raw_super_magic)) incompatible_format
    version ← get_u32 bytes 16
    fail_if (not (version == raw_format_version)) incompatible_format
    least ← get_u32 bytes 20
    fail_if (ltb raw_format_version least) incompatible_format
    marker ← get_u32 bytes 24
    fail_if (not (marker == endian_marker)) incompatible_format
    let expected = checksum_with_zeroed_field (take superblock_size bytes) 224 32
    fail_if (not (same_bytes expected (slice 224 32 bytes))) checksum

  -- `RawSuperblock::decode`.
  unfoldable pub decode : List ℕ → Result RawSuperblock
  decode bytes = do
    check_header bytes
    g ← read_geometry bytes
    r ← read_regions bytes
    finish_superblock bytes g r

  -- `RawSuperblock::encode`, up to the checksum.
  unfoldable pub superblock_fields : RawSuperblock → List ℕ
  superblock_fields sb =
      let head = put_u64 48 sb.required_feature_flags (
        put_u64 40 sb.feature_flags (
          put_u64 32 sb.generation (
            put_u32 24 endian_marker (
              put_u32 20 1 (
                put_u32 16 raw_format_version
                  (put 0 raw_super_magic (zeros superblock_size))))))) in
      let identity = put_u32 96 sb.disk_index (
        put 80 sb.device_uuid
          (put 64 sb.pool_uuid (put_u32 60 sb.sector_size (put_u32 56 sb.block_size head)))) in
      let shape =
        put_u64 112 sb.chunk_size (
          put_u32 108 (if sb.clean then 1 else 0) (put_u32 104 sb.m (put_u32 100 sb.k identity))) in
      let regions = put_region 176 sb.data_region (
        put_region 160 sb.allocator
          (put_region 144 sb.metadata (put_region 128 sb.journal shape))) in
      let times =
        put_u64 208 sb.last_clean_unmount_time
          (put_u64 200 sb.last_mount_time (put_u64 192 sb.backup_superblock_offset regions)) in
      put_fixed_str 320 128 sb.label (put_fixed_str 256 64 sb.disk_id times)

  unfoldable pub encode : RawSuperblock → List ℕ
  encode sb = let out = superblock_fields sb in put 224 (checksum_with_zeroed_field out 224 32) out

  -- `RawDeviceLabel::encode`.
  unfoldable pub label_fields : RawDeviceLabel → List ℕ
  label_fields l =
      let head = put 48 l.device_uuid (
        put 32 l.pool_uuid (
          put_u32 20 endian_marker
            (put_u32 16 raw_format_version (put 0 raw_label_magic (zeros device_label_size))))) in
      put_fixed_str 192 128 l.label
        (put_fixed_str 128 64 l.disk_id (put_u64 72 l.generation (put_u32 64 l.disk_index head)))

  unfoldable pub encode_label : RawDeviceLabel → List ℕ
  encode_label l = let out = label_fields l in put 96 (checksum_with_zeroed_field out 96 32) out

  -- The test `a? != .. || b? != ..` reads the second field only if the first one is right.
  unfoldable pub check_label : List ℕ → Result (Unit {0})
  check_label bytes = do
    fail_if (ltb (length bytes) device_label_size) incompatible_format
    fail_if (not (same_bytes (take 16 bytes) raw_label_magic)) incompatible_format
    version ← get_u32 bytes 16
    fail_if (not (version == raw_format_version)) incompatible_format
    marker ← get_u32 bytes 20
    fail_if (not (marker == endian_marker)) incompatible_format
    let expected = checksum_with_zeroed_field (take device_label_size bytes) 96 32
    fail_if (not (same_bytes expected (slice 96 32 bytes))) checksum

  -- `RawDeviceLabel::decode`.
  unfoldable pub decode_label : List ℕ → Result RawDeviceLabel
  decode_label bytes = do
    check_label bytes
    pool ← uuid_from bytes 32
    device ← uuid_from bytes 48
    disk ← get_fixed_str bytes 128 64
    index ← get_u32 bytes 64
    gen ← get_u64 bytes 72
    name ← get_fixed_str bytes 192 128
    ok (record {
      pool_uuid = pool;
      device_uuid = device;
      disk_id = disk;
      disk_index = index;
      generation = gen;
      label = name;
    })
