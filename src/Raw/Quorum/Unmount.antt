-- ===== src/Raw/Quorum/Unmount.antt =====
-- `clean_unmount_quorum` of src/storage/raw/store.rs.
use argos_fs.Common.{
  ℕ, suc, ◌*◌, ◌<◌, ◌≡◌, ◌↔◌, max, Bool, true, List, [], ◌∷◌, leb, if◌then◌else◌, arith,
}
use argos_fs.Model.{Metadata}
use argos_fs.Raw.Format.{RawSuperblock}
use argos_fs.Raw.Quorum.{metadata_quorum_requirement, voters}

abbrev pub clean_count : List RawSuperblock → ℕ
clean_count [] = 0
clean_count (sb ∷ sbs) = if sb.clean then suc (clean_count sbs) else clean_count sbs

module _ {ℓ} {Content : Type ℓ} where
  unfoldable pub clean_unmount_quorum : List RawSuperblock → Metadata Content → Bool
  clean_unmount_quorum superblocks m = leb (metadata_quorum_requirement m) (clean_count superblocks)

  -- The clean members suffice exactly if they are more than half of the voting disks, and one
  -- at least.
  pub clean_unmount_quorum_iff :
      (superblocks : List RawSuperblock) (m : Metadata Content)
      → (clean_unmount_quorum superblocks m ≡ true)
        ↔ (max (voters m.disks) 1 < 2 * clean_count superblocks)
  unfolding clean_unmount_quorum metadata_quorum_requirement
  clean_unmount_quorum_iff superblocks m = ground arith
