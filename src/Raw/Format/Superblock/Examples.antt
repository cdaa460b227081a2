-- ===== src/Raw/Format/Superblock/Examples.antt =====
-- A superblock that is written and read back, with a digest of 32 zeros.
use argos_fs.Common.{ℕ, ◌≡◌, refl, List, [], ◌∷◌}
use argos_fs.Error.{ok}
use argos_fs.Common.Bytes.{is_utf8_inside}
use argos_fs.Raw.Format.Bytes.{
  zeros, put_u32, put_u64, put_region, put_fixed_str, get_u32, get_u64, get_region, uuid_from,
  get_fixed_str,
}
use argos_fs.Raw.Format.Check.{validate_region, validate_region_order}
use argos_fs.Raw.Format.Superblock.Decoded.{IsSealed, IsServed, decode-IsServed}
use argos_fs.Raw.Format.Superblock.{
  read_geometry, read_regions, finish_superblock, checksum_with_zeroed_field, check_header, decode,
  superblock_fields, encode,
}
use argos_fs.Raw.Format.{RawSuperblock, NewDevice, new_superblock, raw_regions_for_capacity}

abbrev digest : List ℕ → List ℕ
digest bytes = zeros 32

abbrev card : NewDevice
card = record {
  pool_uuid = zeros 16;
  device_uuid = zeros 16;
  disk_id = 100 ∷ 48 ∷ [];
  disk_index = 0;
  k = 2;
  m = 1;
  chunk_size = 65536;
  capacity = 67108864;
  label = 112 ∷ [];
}

abbrev card_superblock : RawSuperblock
card_superblock = new_superblock card (raw_regions_for_capacity 67108864) 66060288

card_read_back : decode digest (encode digest card_superblock) ≡ ok card_superblock
unfolding decode encode superblock_fields check_header read_geometry read_regions finish_superblock
    checksum_with_zeroed_field put_u32 put_u64 put_region put_fixed_str get_u32 get_u64 get_region
    uuid_from is_utf8_inside get_fixed_str validate_region validate_region_order
    raw_regions_for_capacity
card_read_back = refl

decode-IsServed_example : IsSealed digest (encode digest card_superblock) × IsServed card_superblock
decode-IsServed_example =
    decode-IsServed digest (encode digest card_superblock) card_superblock card_read_back
