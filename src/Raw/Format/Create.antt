-- ===== src/Raw/Format/Create.antt =====
-- `RawSuperblock::new` of src/storage/raw/format.rs: when it succeeds, and what it makes.
use argos_fs.Common.Word.{u32_max, u64_max}
use argos_fs.Common.{
  ℕ, ◌+◌, ◌≤◌, ◌<◌, ◌≡◌, refl, subst, ◌↔◌, Bool, true, false, ◌||◌, length, ltb, leb, ◌==◌, arith,
}
use argos_fs.Error.{Result, ArgosError, ok, ◌>>◌, fail_if, invalid, ok-injective}
use argos_fs.Raw.Format.Check.{validate_region, validate_region_order, validate_device_capacity}
use argos_fs.Raw.Format.Layout.{
  data_end, data_block, raw_regions_for_capacity-IsLayout, validate_region-IsBlock,
  data_block-IsBlock, validate_region_order-IsLayout, region_fits-within,
}
use argos_fs.Raw.Format.{
  RawSuperblock, NewDevice, new_superblock, raw_regions_for_capacity, min_device_bytes,
  is_invalid_erasure, new,
}

-- What the program asks of a new device.
pub record IsAcceptable (d : NewDevice) : Type 0 where
  pub has_data_shards : 0 < d.k
  pub shards : d.k + d.m ≤ u32_max
  pub has_chunks : 0 < d.chunk_size
  pub named : 0 < length d.disk_id
  pub short_id : length d.disk_id < 64
  pub short_label : length d.label < 128
  pub large_enough : min_device_bytes ≤ d.capacity

-- The checks of a superblock that is read, and of the device that it is read from.
pub record Passes (sb : RawSuperblock) (capacity : ℕ) : Type 0 where
  pub journal : validate_region sb.journal ≡ ok tt
  pub metadata : validate_region sb.metadata ≡ ok tt
  pub allocator : validate_region sb.allocator ≡ ok tt
  pub data_region : validate_region sb.data_region ≡ ok tt
  pub in_order :
      validate_region_order sb.journal sb.metadata sb.allocator sb.data_region
        sb.backup_superblock_offset
      ≡ ok tt
  pub fits : validate_device_capacity sb capacity ≡ ok tt

-- A test that is passed, and what comes behind it.
passed :
    (bad : Bool) (e : ArgosError) (next : Result RawSuperblock) {sb : RawSuperblock}
    → (fail_if bad e >> next) ≡ ok sb
    → (bad ≡ false) × (next ≡ ok sb)
passed true e next h = cc
passed false e next h = (refl, h)

made : NewDevice → RawSuperblock
made d = new_superblock d (raw_regions_for_capacity d.capacity) (data_end d.capacity)

new-parts : (d : NewDevice) (sb : RawSuperblock) → new d ≡ ok sb → IsAcceptable d × (made d ≡ sb)
unfolding new made data_end
new-parts d sb h =
    let (a, h1) = passed (is_invalid_erasure d.k d.m d.chunk_size) invalid _ h in
    let (b, h2) = passed (length d.disk_id == 0 || leb 64 (length d.disk_id)) invalid _ h1 in
    let (c, h3) = passed (leb 128 (length d.label)) invalid _ h2 in
    let (e, h4) = passed (ltb d.capacity min_device_bytes) invalid _ h3 in
    let (f, h5) =
      passed (leb (data_end d.capacity) (raw_regions_for_capacity d.capacity).data_region.offset)
        invalid _ h4 in
    (
      record {
        has_data_shards = ground (arith, a);
        shards = ground (arith, a);
        has_chunks = ground (arith, a);
        named = ground (arith, b);
        short_id = ground (arith, b);
        short_label = ground (arith, c);
        large_enough = ground (arith, e);
      },
      ok-injective h5,
    )

new-made : (d : NewDevice) → d.capacity ≤ u64_max → IsAcceptable d → new d ≡ ok (made d)
unfolding new made data_end
new-made d h a =
    let l = raw_regions_for_capacity-IsLayout d.capacity h a.large_enough in
    let t1 : is_invalid_erasure d.k d.m d.chunk_size ≡ false =
      ground (arith, a.has_data_shards, a.shards, a.has_chunks) in
    let t2 : (length d.disk_id == 0 || leb 64 (length d.disk_id)) ≡ false =
      ground (arith, a.named, a.short_id) in
    let t3 : leb 128 (length d.label) ≡ false = ground (arith, a.short_label) in
    let t4 : ltb d.capacity min_device_bytes ≡ false = ground (arith, a.large_enough) in
    let t5 : leb (data_end d.capacity) (raw_regions_for_capacity d.capacity).data_region.offset
        ≡ false =
      ground (arith, l.data_start) in
    rw (t1, t2, t3, t4, t5) refl

made-Passes : (d : NewDevice) → d.capacity ≤ u64_max → IsAcceptable d → Passes (made d) d.capacity
unfolding made data_block validate_device_capacity
made-Passes d h a =
    let c = d.capacity in
    let l = raw_regions_for_capacity-IsLayout c h a.large_enough in
    let b = data_block-IsBlock l in
    let j : (raw_regions_for_capacity c).metadata.offset ≤ c =
      omega (arith, l.metadata.ends, l.allocator.ends, l.data_start, l.backup_fits) in
    let m : (raw_regions_for_capacity c).allocator.offset ≤ c =
      omega (arith, l.allocator.ends, l.data_start, l.backup_fits) in
    let n : (raw_regions_for_capacity c).data_region.offset ≤ c =
      omega (arith, l.data_start, l.backup_fits) in
    let e : data_end c ≤ c = omega (arith, l.backup_fits) in
    let sb = made d in
    let room : leb (data_end c + 8192) u64_max ≡ true = ground (arith, l.backup_fits) in
    let inside : ltb c (data_end c + 8192) ≡ false = ground (arith, l.backup_fits) in
    record {
      journal = validate_region-IsBlock sb.journal _ l.journal (omega (arith, j));
      metadata = validate_region-IsBlock sb.metadata _ l.metadata (omega (arith, m));
      allocator = validate_region-IsBlock sb.allocator _ l.allocator (omega (arith, n));
      data_region = validate_region-IsBlock sb.data_region _ b (omega (arith, e));
      in_order = validate_region_order-IsLayout l h;
      fits =
          rw
            (
              room,
              inside,
              region_fits-within sb.journal c (omega (arith, l.journal.ends, j)) h,
              region_fits-within sb.metadata c (omega (arith, l.metadata.ends, m)) h,
              region_fits-within sb.allocator c (omega (arith, l.allocator.ends, n)) h,
              region_fits-within sb.data_region c (omega (arith, b.ends, e)) h,
            )
            refl;
    }

-- A superblock is made exactly for `k` of at least 1 with `k + m` in u32, a chunk size, an id of 1
-- to 63 bytes, a label of at most 127 bytes, and a device of at least 20 MiB.
pub new_iff :
    (d : NewDevice)
    → d.capacity ≤ u64_max
    → ((sb : RawSuperblock) × (new d ≡ ok sb)) ↔ IsAcceptable d
new_iff d h = (λ (sb, e). (new-parts d sb e).0, λ a. (made d, new-made d h a))

-- A superblock that is made passes the checks of each region and of their order, and fits the device.
pub new-Passes :
    (d : NewDevice) (sb : RawSuperblock)
    → d.capacity ≤ u64_max
    → new d ≡ ok sb
    → Passes sb d.capacity
unfolding made
new-Passes d sb h e =
    let (a, m) = new-parts d sb e in subst (λ sb. Passes sb d.capacity) m (made-Passes d h a)
