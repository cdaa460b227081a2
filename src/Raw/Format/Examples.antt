-- ===== src/Raw/Format/Examples.antt =====
-- New superblocks on a card of 64 MiB and on a disk of 16 GiB.
use argos_fs.Common.Word.{u64_max}
use argos_fs.Common.{ℕ, ◌≤◌, ◌≡◌, refl, ◌↔◌, [], ◌∷◌, arith}
use argos_fs.Error.{ok, err, invalid}
use argos_fs.Raw.Align.{align_down}
use argos_fs.Raw.Format.Create.{IsAcceptable, Passes, new_iff, new-Passes}
use argos_fs.Raw.Format.{
  RawSuperblock, NewDevice, region, new_superblock, raw_regions_for_capacity,
  large_metadata_region_size, new,
}

-- A device with `k` data shards and one parity shard.
abbrev device : (k capacity : ℕ) → NewDevice
device shards bytes = record {
  pool_uuid = [];
  device_uuid = [];
  disk_id = 100 ∷ 48 ∷ [];
  disk_index = 0;
  k = shards;
  m = 1;
  chunk_size = 65536;
  capacity = bytes;
  label = [];
}

abbrev card : NewDevice
card = device 2 67108864

abbrev card_superblock : RawSuperblock
card_superblock = new_superblock card (raw_regions_for_capacity 67108864) 66060288

card_made : new card ≡ ok card_superblock
unfolding new raw_regions_for_capacity align_down
card_made = refl

disk_metadata : (raw_regions_for_capacity 17179869184).metadata ≡ region 9437184 268435456
unfolding raw_regions_for_capacity large_metadata_region_size align_down
disk_metadata = refl

no_data_shards : new (device 0 67108864) ≡ err invalid
unfolding new
no_data_shards = refl

too_small : new (device 2 20971519) ≡ err invalid
unfolding new
too_small = refl

card_fits : 67108864 ≤ u64_max
card_fits = omega arith

new_iff_example : ((sb : RawSuperblock) × (new card ≡ ok sb)) ↔ IsAcceptable card
new_iff_example = new_iff card card_fits

new-Passes_example : Passes card_superblock 67108864
new-Passes_example = new-Passes card card_superblock card_fits card_made
