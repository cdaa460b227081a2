-- ===== src/Raw/Format/Check/Aligned.antt =====
-- What the checks of a region and of the order of the regions accept.
use argos_fs.Common.Word.{u64_max, u32_max, checked_add, is_multiple_of}
use argos_fs.Common.{
  ℕ, ◌+◌, ◌-◌, ◌%◌, ◌<◌, ◌≤◌, ◌≡◌, refl, subst, Bool, true, false, ◌||◌, not, ltb, ◌==◌, arith,
}
use argos_fs.Error.{
  ArgosError, Result, ok, ◌>>◌, fail_if, ok_or, invalid, incompatible_format, >>-eq-ok, >>=-eq-ok,
}
use argos_fs.Raw.Format.Check.{validate_region, validate_region_order, region_end}
use argos_fs.Raw.Format.Superblock.{is_invalid_sector}
use argos_fs.Raw.Format.{
  RawRegion, device_label_offset, device_label_size, raw_block_size, is_invalid_erasure,
}
use Prim.Native.Nat.{bit_and}

-- A region of whole blocks of 4096 bytes, at least one, whose end a u64 holds.
pub record IsRegion (r : RawRegion) : Type 0 where
  pub offset_aligned : r.offset % 4096 ≡ 0
  pub length_aligned : r.length % 4096 ≡ 0
  pub not_empty : 0 < r.length
  pub bounded : r.offset + r.length ≤ u64_max

-- Each region begins at or behind the end of the one before: the labels, the journal, the metadata,
-- the allocator, the data, the second superblock.
pub record IsOrdered (journal metadata allocator data_region : RawRegion) (backup : ℕ)
    : Type 0 where
  pub behind_labels : device_label_offset + device_label_size ≤ journal.offset
  pub behind_journal : journal.offset + journal.length ≤ metadata.offset
  pub behind_metadata : metadata.offset + metadata.length ≤ allocator.offset
  pub behind_allocator : allocator.offset + allocator.length ≤ data_region.offset
  pub behind_data : data_region.offset + data_region.length ≤ backup
  pub backup_aligned : backup % raw_block_size ≡ 0

-- A sector size that is a power of two and divides the block size.
pub record IsSector (sector block : ℕ) : Type 0 where
  pub not_zero : 0 < sector
  pub one_bit : bit_and sector (sector - 1) ≡ 0
  pub divides : block % sector ≡ 0

-- A layout of data and parity shards.
pub record IsErasure (k m chunk_size : ℕ) : Type 0 where
  pub has_data : 0 < k
  pub shards_bounded : k + m ≤ u32_max
  pub has_chunk : 0 < chunk_size

fail_if-ok : (bad : Bool) (e : ArgosError) → fail_if bad e ≡ ok tt → bad ≡ false
fail_if-ok true e h = cc
fail_if-ok false e h = refl

pub ltb-false : (a b : ℕ) → ltb a b ≡ false → b ≤ a
ltb-false a b h = ground arith

pub not-false : (b : Bool) → not b ≡ false → b ≡ true
not-false b h = ground arith

pub test {ℓ} :
    {T : Type ℓ} (bad : Bool) (e : ArgosError) (k : Result T) {t : T}
    → (fail_if bad e >> k) ≡ ok t
    → (bad ≡ false) × (k ≡ ok t)
test bad e k h = let (a, b) = >>-eq-ok (fail_if bad e) k h in (fail_if-ok bad e a, b)

pub passed : (bad : Bool) (e : ArgosError) → fail_if bad e ≡ ok tt → bad ≡ false
passed bad e h = fail_if-ok bad e h

checked_add-ok :
    (a b : ℕ) (e : ArgosError) (u : ℕ)
    → ok_or (checked_add a b) e ≡ ok u
    → (u ≡ a + b) × (a + b ≤ u64_max)
checked_add-ok a b e u h = ground arith

pub validate_region-IsRegion : (r : RawRegion) → validate_region r ≡ ok tt → IsRegion r
unfolding validate_region
validate_region-IsRegion r h =
    let bad =
      not (is_multiple_of r.offset 4096) || not (is_multiple_of r.length 4096) || r.length == 0 in
    let (t, h1) = test bad invalid _ h in
    let (end, e, h2) =
      >>=-eq-ok (ok_or (checked_add r.offset r.length) invalid) (λ u. ok (tt {0})) h1 in
    record {
      offset_aligned = ground (arith, t);
      length_aligned = ground (arith, t);
      not_empty = ground (arith, t);
      bounded = (checked_add-ok r.offset r.length invalid end e).1;
    }

region_end-eq : (r : RawRegion) (u : ℕ) → region_end r ≡ ok u → u ≡ r.offset + r.length
region_end-eq r u h = (checked_add-ok r.offset r.length incompatible_format u h).0

pub validate_region_order-IsOrdered :
    (j m a d : RawRegion) (b : ℕ) → validate_region_order j m a d b ≡ ok tt → IsOrdered j m a d b
unfolding validate_region_order
validate_region_order-IsOrdered j m a d b h =
    let (t1, h1) = test _ incompatible_format _ h in
    let (u, eu, h2) = >>=-eq-ok (region_end j) _ h1 in
    let (t2, h3) = test _ incompatible_format _ h2 in
    let (v, ev, h4) = >>=-eq-ok (region_end m) _ h3 in
    let (t3, h5) = test _ incompatible_format _ h4 in
    let (w, ew, h6) = >>=-eq-ok (region_end a) _ h5 in
    let (t4, h7) = test _ incompatible_format _ h6 in
    let (x, ex, h8) = >>=-eq-ok (region_end d) _ h7 in
    let (t5, h9) = test _ incompatible_format _ h8 in
    let t6 = fail_if-ok _ incompatible_format h9 in
    record {
      behind_labels = ltb-false _ _ t1;
      behind_journal = subst (λ n. n ≤ m.offset) (region_end-eq j u eu) (ltb-false _ _ t2);
      behind_metadata = subst (λ n. n ≤ a.offset) (region_end-eq m v ev) (ltb-false _ _ t3);
      behind_allocator = subst (λ n. n ≤ d.offset) (region_end-eq a w ew) (ltb-false _ _ t4);
      behind_data = subst (λ n. n ≤ b) (region_end-eq d x ex) (ltb-false _ _ t5);
      backup_aligned = ground (arith, t6);
    }

pub is_invalid_sector-IsSector : (s b : ℕ) → is_invalid_sector s b ≡ false → IsSector s b
is_invalid_sector-IsSector s b h = record {
  not_zero = ground (arith, h);
  one_bit = ground (arith, h);
  divides = ground (arith, h);
}

pub is_invalid_erasure-IsErasure :
    (k m chunk_size : ℕ) → is_invalid_erasure k m chunk_size ≡ false → IsErasure k m chunk_size
is_invalid_erasure-IsErasure k m chunk_size h = record {
  has_data = ground (arith, h);
  shards_bounded = ground (arith, h);
  has_chunk = ground (arith, h);
}
