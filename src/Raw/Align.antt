-- ===== src/Raw/Align.antt =====
-- `align_up` and `align_down` of src/storage/raw/format.rs.
use argos_fs.Common.Word.{u64_max, saturating_mul, div_ceil}
use argos_fs.Common.{ℕ, ◌/◌, ◌≤◌, arith, ◌==◌, if◌then◌else◌}

unfoldable pub align_up : ℕ → ℕ → ℕ
align_up value alignment =
    if alignment == 0 then value else saturating_mul (div_ceil value alignment) alignment

unfoldable pub align_down : ℕ → ℕ → ℕ
align_down value alignment =
    if alignment == 0 then value else saturating_mul (value / alignment) alignment

-- Alignment never moves down, unless the value is beyond u64.
pub le-align_up : (value alignment : ℕ) → value ≤ u64_max → value ≤ align_up value alignment
unfolding align_up
le-align_up value alignment h = grind arith
