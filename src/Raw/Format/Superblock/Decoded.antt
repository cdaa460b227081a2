-- ===== src/Raw/Format/Superblock/Decoded.antt =====
-- What `RawSuperblock::decode` of src/storage/raw/format.rs accepts.
use argos_fs.Common.{ℕ, ◌≤◌, ◌≡◌, subst, not, List, length, ltb, ◌==◌, arith}
use argos_fs.Error.{ok, incompatible_format, >>-eq-ok, >>=-eq-ok, ok-injective}
use argos_fs.Common.Bytes.{same_bytes, same_bytes_iff, take}
use argos_fs.Raw.Format.Bytes.{
  get_u32, get_u64, get_region, uuid_from, get_fixed_str, slice, raw_super_magic,
  raw_format_version, endian_marker,
}
use argos_fs.Raw.Format.Check.{validate_region, validate_region_order}
use argos_fs.Raw.Format.Check.Aligned.{
  IsRegion, IsOrdered, IsSector, IsErasure, test, passed, ltb-false, not-false,
  validate_region-IsRegion, validate_region_order-IsOrdered, is_invalid_sector-IsSector,
  is_invalid_erasure-IsErasure,
}
use argos_fs.Raw.Format.Superblock.{
  Geometry, Regions, is_invalid_sector, read_geometry, read_regions, finish_superblock,
  checksum_with_zeroed_field, check_header, decode,
}
use argos_fs.Raw.Format.{RawSuperblock, superblock_size, raw_block_size, is_invalid_erasure}

-- A superblock that the program can serve: the parameters are supported, and the regions are whole
-- blocks, not empty, in order and apart.
pub record IsServed (sb : RawSuperblock) : Type 0 where
  pub flags : sb.required_feature_flags ≡ 0
  pub block : sb.block_size ≡ raw_block_size
  pub sector : IsSector sb.sector_size sb.block_size
  pub erasure : IsErasure sb.k sb.m sb.chunk_size
  pub journal : IsRegion sb.journal
  pub metadata : IsRegion sb.metadata
  pub allocator : IsRegion sb.allocator
  pub data_region : IsRegion sb.data_region
  pub in_order :
      IsOrdered sb.journal sb.metadata sb.allocator sb.data_region sb.backup_superblock_offset

record IsGeometry (g : Geometry) : Type 0 where
  flags : g.required_feature_flags ≡ 0
  block : g.block_size ≡ raw_block_size
  sector : IsSector g.sector_size g.block_size
  erasure : IsErasure g.k g.m g.chunk_size

record IsChecked (r : Regions) : Type 0 where
  journal : IsRegion r.journal
  metadata : IsRegion r.metadata
  allocator : IsRegion r.allocator
  data_region : IsRegion r.data_region
  in_order : IsOrdered r.journal r.metadata r.allocator r.data_region r.backup_superblock_offset

read_regions-IsChecked : (bytes : List ℕ) (r : Regions) → read_regions bytes ≡ ok r → IsChecked r
unfolding read_regions
read_regions-IsChecked bytes r h =
    let (j, _, h1) = >>=-eq-ok (get_region bytes 128) _ h in
    let (m, _, h2) = >>=-eq-ok (get_region bytes 144) _ h1 in
    let (a, _, h3) = >>=-eq-ok (get_region bytes 160) _ h2 in
    let (d, _, h4) = >>=-eq-ok (get_region bytes 176) _ h3 in
    let (vj, h5) = >>-eq-ok (validate_region j) _ h4 in
    let (vm, h6) = >>-eq-ok (validate_region m) _ h5 in
    let (va, h7) = >>-eq-ok (validate_region a) _ h6 in
    let (vd, h8) = >>-eq-ok (validate_region d) _ h7 in
    let (b, _, h9) = >>=-eq-ok (get_u64 bytes 192) _ h8 in
    let (vo, h10) = >>-eq-ok (validate_region_order j m a d b) _ h9 in
    subst IsChecked (ok-injective h10) (record {
      journal = validate_region-IsRegion j vj;
      metadata = validate_region-IsRegion m vm;
      allocator = validate_region-IsRegion a va;
      data_region = validate_region-IsRegion d vd;
      in_order = validate_region_order-IsOrdered j m a d b vo;
    })

read_geometry-IsGeometry :
    (bytes : List ℕ) (g : Geometry) → read_geometry bytes ≡ ok g → IsGeometry g
unfolding read_geometry
read_geometry-IsGeometry bytes g h =
    let (flags, _, h1) = >>=-eq-ok (get_u64 bytes 48) _ h in
    let (t1, h2) = test (not (flags == 0)) incompatible_format _ h1 in
    let (block, _, h3) = >>=-eq-ok (get_u32 bytes 56) _ h2 in
    let (sector, _, h4) = >>=-eq-ok (get_u32 bytes 60) _ h3 in
    let (shards, _, h5) = >>=-eq-ok (get_u32 bytes 100) _ h4 in
    let (parity, _, h6) = >>=-eq-ok (get_u32 bytes 104) _ h5 in
    let (chunk, _, h7) = >>=-eq-ok (get_u64 bytes 112) _ h6 in
    let (t2, h8) = test (not (block == raw_block_size)) incompatible_format _ h7 in
    let (t3, h9) = test (is_invalid_sector sector block) incompatible_format _ h8 in
    let (t4, h10) = test (is_invalid_erasure shards parity chunk) incompatible_format _ h9 in
    subst IsGeometry (ok-injective h10) (record {
      flags = ground (arith, t1);
      block = ground (arith, t2);
      sector = is_invalid_sector-IsSector sector block t3;
      erasure = is_invalid_erasure-IsErasure shards parity chunk t4;
    })

finish_superblock-IsServed :
    (bytes : List ℕ) (g : Geometry) (r : Regions) (sb : RawSuperblock)
    → IsGeometry g
    → IsChecked r
    → finish_superblock bytes g r ≡ ok sb
    → IsServed sb
unfolding finish_superblock
finish_superblock-IsServed bytes g r sb p q h =
    let (pool, _, h1) = >>=-eq-ok (uuid_from bytes 64) _ h in
    let (device, _, h2) = >>=-eq-ok (uuid_from bytes 80) _ h1 in
    let (name, _, h3) = >>=-eq-ok (get_fixed_str bytes 256 64) _ h2 in
    let (index, _, h4) = >>=-eq-ok (get_u32 bytes 96) _ h3 in
    let (gen, _, h5) = >>=-eq-ok (get_u64 bytes 32) _ h4 in
    let (clean_flag, _, h6) = >>=-eq-ok (get_u32 bytes 108) _ h5 in
    let (flags, _, h7) = >>=-eq-ok (get_u64 bytes 40) _ h6 in
    let (text, _, h8) = >>=-eq-ok (get_fixed_str bytes 320 128) _ h7 in
    let (mounted, _, h9) = >>=-eq-ok (get_u64 bytes 200) _ h8 in
    let (unmounted, _, h10) = >>=-eq-ok (get_u64 bytes 208) _ h9 in
    subst IsServed (ok-injective h10) (record {
      flags = p.flags;
      block = p.block;
      sector = p.sector;
      erasure = p.erasure;
      journal = q.journal;
      metadata = q.metadata;
      allocator = q.allocator;
      data_region = q.data_region;
      in_order = q.in_order;
    })

module _ (sha256 : List ℕ → List ℕ) where
  -- The buffer is long enough and carries the digest of the rest of the superblock.
  abbrev pub IsSealed : List ℕ → Type 0
  IsSealed bytes =
      (superblock_size ≤ length bytes)
      × (checksum_with_zeroed_field sha256 (take superblock_size bytes) 224 32 ≡ slice 224 32 bytes)

  check_header-IsSealed : (bytes : List ℕ) → check_header sha256 bytes ≡ ok tt → IsSealed bytes
  unfolding check_header
  check_header-IsSealed bytes h =
      let (t1, h1) = test (ltb (length bytes) superblock_size) incompatible_format _ h in
      let (t2, h2) =
        test (not (same_bytes (take 16 bytes) raw_super_magic)) incompatible_format _ h1 in
      let (version, _, h3) = >>=-eq-ok (get_u32 bytes 16) _ h2 in
      let (t3, h4) = test (not (version == raw_format_version)) incompatible_format _ h3 in
      let (least, _, h5) = >>=-eq-ok (get_u32 bytes 20) _ h4 in
      let (t4, h6) = test (ltb raw_format_version least) incompatible_format _ h5 in
      let (marker, _, h7) = >>=-eq-ok (get_u32 bytes 24) _ h6 in
      let (t5, h8) = test (not (marker == endian_marker)) incompatible_format _ h7 in
      let sealed = passed _ _ h8 in (ltb-false _ _ t1, (same_bytes_iff _ _).0 (not-false _ sealed))

  -- What `decode` accepts is long enough and carries the digest of the rest of the superblock; it asks
  -- for no unknown feature; its sector size is a power of two that divides the block size of 4096; it
  -- has data shards and chunks, and the number of shards fits a u32; each region is made of whole
  -- blocks, is not empty and ends within a u64; and labels, journal, metadata, allocator, data and
  -- second superblock lie behind each other in this order, the last on a block boundary.
  pub decode-IsServed :
      (bytes : List ℕ) (sb : RawSuperblock)
      → decode sha256 bytes ≡ ok sb
      → IsSealed bytes × IsServed sb
  unfolding decode
  decode-IsServed bytes sb h =
      let (c, h1) = >>-eq-ok (check_header sha256 bytes) _ h in
      let (g, rg, h2) = >>=-eq-ok (read_geometry bytes) _ h1 in
      let (r, rr, h3) = >>=-eq-ok (read_regions bytes) _ h2 in
      (
        check_header-IsSealed bytes c,
        finish_superblock-IsServed bytes g r sb (read_geometry-IsGeometry bytes g rg)
            (read_regions-IsChecked bytes r rr) h3,
      )
