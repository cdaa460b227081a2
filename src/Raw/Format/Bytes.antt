-- ===== src/Raw/Format/Bytes.antt =====
-- The fields of a byte buffer in src/storage/raw/format.rs. A buffer is the list of its bytes.
use argos_fs.Common.Bytes.{take, drop, is_utf8}
use argos_fs.Common.{
  ℕ, zero, suc, ◌+◌, ◌-◌, ◌*◌, ◌/◌, ◌%◌, min, not, List, [], ◌∷◌, ◌++◌, Option, none, some, length,
  leb, ◌==◌, if◌then◌else◌,
}
use argos_fs.Error.{Result, ok, ◌>>=◌, ◌>>◌, fail_if, ok_or, corrupted_metadata}
use argos_fs.Raw.Format.{RawRegion, region}

-- `ARGOSFS-RAW-SB\0\0` and `ARGOSFS-RAW-LB\0\0`.
abbrev pub raw_super_magic : List ℕ
raw_super_magic = 65 ∷ 82 ∷ 71 ∷ 79 ∷ 83 ∷ 70 ∷ 83 ∷ 45 ∷ 82 ∷ 65 ∷ 87 ∷ 45 ∷ 83 ∷ 66 ∷ 0 ∷ 0 ∷ []

abbrev pub raw_label_magic : List ℕ
raw_label_magic = 65 ∷ 82 ∷ 71 ∷ 79 ∷ 83 ∷ 70 ∷ 83 ∷ 45 ∷ 82 ∷ 65 ∷ 87 ∷ 45 ∷ 76 ∷ 66 ∷ 0 ∷ 0 ∷ []

abbrev pub endian_marker : ℕ
endian_marker = 0x12345678

abbrev pub raw_format_version : ℕ
raw_format_version = 1

abbrev pub zeros : ℕ → List ℕ
zeros zero = []
zeros (suc n) = 0 ∷ zeros n

-- `bytes.get(offset..offset + len)`.
abbrev pub get : ℕ → ℕ → List ℕ → Option (List ℕ)
get offset len bytes =
    if leb (offset + len) (length bytes) then some (take len (drop offset bytes)) else none

-- `bytes[offset..offset + len]`, where it is in range.
abbrev pub slice : ℕ → ℕ → List ℕ → List ℕ
slice offset len bytes = take len (drop offset bytes)

-- `out[offset..offset + value.len()].copy_from_slice(value)`, where it is in range.
abbrev pub put : ℕ → List ℕ → List ℕ → List ℕ
put offset value out = take offset out ++ value ++ drop (offset + length value) out

-- `to_le_bytes` of that many bytes, and `from_le_bytes`.
abbrev pub to_le_bytes : ℕ → ℕ → List ℕ
to_le_bytes zero n = []
to_le_bytes (suc width) n = n % 256 ∷ to_le_bytes width (n / 256)

abbrev pub from_le_bytes : List ℕ → ℕ
from_le_bytes [] = 0
from_le_bytes (b ∷ bs) = b + 256 * from_le_bytes bs

unfoldable pub put_u32 : ℕ → ℕ → List ℕ → List ℕ
put_u32 offset value out = put offset (to_le_bytes 4 value) out

unfoldable pub put_u64 : ℕ → ℕ → List ℕ → List ℕ
put_u64 offset value out = put offset (to_le_bytes 8 value) out

unfoldable pub put_region : ℕ → RawRegion → List ℕ → List ℕ
put_region offset r out = put_u64 (offset + 8) r.length (put_u64 offset r.offset out)

unfoldable pub put_fixed_str : ℕ → ℕ → List ℕ → List ℕ → List ℕ
put_fixed_str offset len value out = put offset (take (min (length value) (len - 1)) value) out

unfoldable pub get_u32 : List ℕ → ℕ → Result ℕ
get_u32 bytes offset = do
  raw ← ok_or (get offset 4 bytes) corrupted_metadata
  ok (from_le_bytes raw)

unfoldable pub get_u64 : List ℕ → ℕ → Result ℕ
get_u64 bytes offset = do
  raw ← ok_or (get offset 8 bytes) corrupted_metadata
  ok (from_le_bytes raw)

unfoldable pub get_region : List ℕ → ℕ → Result RawRegion
get_region bytes offset = do
  o ← get_u64 bytes offset
  n ← get_u64 bytes (offset + 8)
  ok (region o n)

-- `Uuid::from_slice` takes any 16 bytes.
unfoldable pub uuid_from : List ℕ → ℕ → Result (List ℕ)
uuid_from bytes offset = ok_or (get offset 16 bytes) corrupted_metadata

-- The bytes in front of the first zero.
abbrev pub until_zero : List ℕ → List ℕ
until_zero [] = []
until_zero (b ∷ bs) = let rest = until_zero bs in if b == 0 then [] else b ∷ rest

unfoldable pub get_fixed_str : List ℕ → ℕ → ℕ → Result (List ℕ)
get_fixed_str bytes offset len = do
  raw ← ok_or (get offset len bytes) corrupted_metadata
  fail_if (not (is_utf8 (until_zero raw))) corrupted_metadata
  ok (until_zero raw)
