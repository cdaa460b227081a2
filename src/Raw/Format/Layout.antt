-- ===== src/Raw/Format/Layout.antt =====
-- The layout that `RawSuperblock::new` makes: where it succeeds, and that it passes every check.
use argos_fs.Common.Word.{u64_max, saturating_sub}
use argos_fs.Common.{
  ℕ, ◌+◌, ◌-◌, ◌/◌, ◌%◌, ◌≤◌, ◌<◌, ◌≡◌, refl, ◌∙◌, max, Bool, true, false, ltb, leb, inl, inr,
  Bool-cases, arith,
}
use argos_fs.Error.{Result, ok, ◌>>=◌, ◌>>◌, fail_if, incompatible_format}
use argos_fs.Raw.Align.{align_down}
use argos_fs.Raw.Format.Check.{region_end, validate_region, validate_region_order, region_fits}
use argos_fs.Raw.Format.{
  RawRegion, RawLayoutRegions, large_regions, small_regions, raw_regions_for_capacity,
  large_metadata_region_size, backup_region_size, min_device_bytes,
}

align_down-facts :
    (v : ℕ)
    → v ≤ u64_max
    → (align_down v 4096 ≤ v) × (v < align_down v 4096 + 4096) × (align_down v 4096 % 4096 ≡ 0)
unfolding align_down
align_down-facts v h = (omega arith, omega arith, omega arith)

large_metadata_region_size-facts :
    (c : ℕ)
    → c ≤ u64_max
    → (large_metadata_region_size c % 4096 ≡ 0)
      × (67108864 ≤ large_metadata_region_size c)
      × (large_metadata_region_size c ≤ max 67108864 (c / 64))
      × (large_metadata_region_size c ≤ 1073741824)
unfolding large_metadata_region_size
large_metadata_region_size-facts c h =
    let (a, b, m) = align_down-facts (c / 64) (omega arith) in
    (omega (arith, a, b, m), omega (arith, a, b, m), omega (arith, a, b, m), omega (arith, a, b, m))

-- An aligned region that is not empty and ends at `e` or before.
pub record IsBlock (r : RawRegion) (e : ℕ) : Type 0 where
  pub offset_aligned : r.offset % 4096 ≡ 0
  pub length_aligned : r.length % 4096 ≡ 0
  pub not_empty : 0 < r.length
  pub ends : r.offset + r.length ≤ e

-- Four regions in order, and the end of the last one, which leaves room for the backup.
pub record IsLayout (r : RawLayoutRegions) (e capacity : ℕ) : Type 0 where
  pub behind_label : 69632 ≤ r.journal.offset
  pub journal : IsBlock r.journal r.metadata.offset
  pub metadata : IsBlock r.metadata r.allocator.offset
  pub allocator : IsBlock r.allocator r.data_region.offset
  pub data_aligned : r.data_region.offset % 4096 ≡ 0
  pub data_start : r.data_region.offset < e
  pub end_aligned : e % 4096 ≡ 0
  pub backup_fits : e + 1048576 ≤ capacity

unfoldable pub data_end : ℕ → ℕ
data_end capacity = align_down (saturating_sub capacity backup_region_size) 4096

is_block :
    (r : RawRegion) (e : ℕ)
    → r.offset % 4096 ≡ 0
    → r.length % 4096 ≡ 0
    → 0 < r.length
    → r.offset + r.length ≤ e
    → IsBlock r e
is_block r e a b c d = record { offset_aligned = a; length_aligned = b; not_empty = c; ends = d }

large_regions-IsLayout :
    (c : ℕ)
    → c ≤ u64_max
    → 134217728 ≤ c
    → IsLayout (large_regions (large_metadata_region_size c)) (data_end c) c
unfolding data_end
large_regions-IsLayout c h big =
    let (below, above, aligned) = align_down-facts (c - 1048576) (omega arith) in
    let (s, smin, sratio, smax) = large_metadata_region_size-facts c h in
    record {
      behind_label = omega arith;
      journal = is_block _ _ refl refl (omega arith) (omega arith);
      metadata = is_block _ _ refl s (omega (arith, smin)) (omega arith);
      allocator = is_block _ _ (omega (arith, s)) refl (omega arith) (omega arith);
      data_aligned = omega (arith, s);
      data_start = omega (arith, above, sratio, big);
      end_aligned = aligned;
      backup_fits = omega (arith, below, big);
    }

small_regions-IsLayout :
    (c : ℕ) → c ≤ u64_max → min_device_bytes ≤ c → IsLayout small_regions (data_end c) c
unfolding data_end
small_regions-IsLayout c h low =
    let (below, above, aligned) = align_down-facts (c - 1048576) (omega arith) in
    record {
      behind_label = omega arith;
      journal = is_block _ _ refl refl (omega arith) (omega arith);
      metadata = is_block _ _ refl refl (omega arith) (omega arith);
      allocator = is_block _ _ refl refl (omega arith) (omega arith);
      data_aligned = refl;
      data_start = omega (arith, above, low);
      end_aligned = aligned;
      backup_fits = omega (arith, below, low);
    }

pub raw_regions_for_capacity-IsLayout :
    (c : ℕ)
    → c ≤ u64_max
    → min_device_bytes ≤ c
    → IsLayout (raw_regions_for_capacity c) (data_end c) c
unfolding raw_regions_for_capacity
raw_regions_for_capacity-IsLayout c h low = elim (Bool-cases (leb 134217728 c)) [
  | inl large ↦ rw large (large_regions-IsLayout c h (ground arith))
  | inr small ↦ rw small (small_regions-IsLayout c h low)
]

fail_if_passes :
    (bad : Bool) (k : Result (Unit {0})) → bad ≡ false → (fail_if bad incompatible_format >> k) ≡ k
fail_if_passes bad k h = rw h refl

-- A region that ends where it may passes its test.
region_step :
    (r : RawRegion) (limit : ℕ) (k : Result (Unit {0}))
    → r.offset + r.length ≤ limit
    → limit ≤ u64_max
    → (region_end r >>= λ end. fail_if (ltb limit end) incompatible_format >> k) ≡ k
region_step r limit k h h' =
    let inside : leb (r.offset + r.length) u64_max ≡ true = ground arith in
    let passes : ltb limit (r.offset + r.length) ≡ false = ground arith in rw (inside, passes) refl

pub validate_region-IsBlock :
    (r : RawRegion) (e : ℕ) → IsBlock r e → e ≤ u64_max → validate_region r ≡ ok tt
unfolding validate_region
validate_region-IsBlock r e b h =
    ground (arith, b.offset_aligned, b.length_aligned, b.not_empty, b.ends)

unfoldable pub data_block : {r : RawLayoutRegions} {e c : ℕ} → IsLayout r e c → RawRegion
data_block {r} {e} l = record { offset = r.data_region.offset; length = e - r.data_region.offset }

pub data_block-IsBlock :
    {r : RawLayoutRegions} {e c : ℕ} (l : IsLayout r e c) → IsBlock (data_block l) e
unfolding data_block
data_block-IsBlock l =
    is_block _ _ l.data_aligned (omega (arith, l.data_aligned, l.end_aligned, l.data_start))
      (omega (arith, l.data_start)) (omega (arith, l.data_start))

pub validate_region_order-IsLayout :
    {r : RawLayoutRegions} {e c : ℕ} (l : IsLayout r e c)
    → c ≤ u64_max
    → validate_region_order r.journal r.metadata r.allocator (data_block l) e ≡ ok tt
unfolding validate_region_order data_block
validate_region_order-IsLayout {r} {e} {c} l h =
    let d = data_block-IsBlock l in
    fail_if_passes (ltb r.journal.offset 69632) _ (ground (arith, l.behind_label))
    ∙ region_step r.journal r.metadata.offset _ l.journal.ends
        (omega (arith, l.metadata.ends, l.allocator.ends, l.data_start, l.backup_fits))
    ∙ region_step r.metadata r.allocator.offset _ l.metadata.ends
        (omega (arith, l.allocator.ends, l.data_start, l.backup_fits))
    ∙ region_step r.allocator r.data_region.offset _ l.allocator.ends
        (omega (arith, l.data_start, l.backup_fits))
    ∙ region_step (data_block l) e _ d.ends (omega (arith, l.backup_fits))
    ∙ rw l.end_aligned refl

pub region_fits-within :
    (r : RawRegion) (c : ℕ) → r.offset + r.length ≤ c → c ≤ u64_max → region_fits c r ≡ ok tt
unfolding region_fits
region_fits-within r c h h' =
    let inside : leb (r.offset + r.length) u64_max ≡ true = ground arith in
    let passes : ltb c (r.offset + r.length) ≡ false = ground arith in rw (inside, passes) refl
