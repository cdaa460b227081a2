-- ===== src/Model.antt =====
-- src/model/types.rs: the parts of the metadata that the modelled code reads. `Content` stands for
-- all further fields of the metadata, which that code copies and never looks into.
use argos_fs.Common.{ℕ, List, Bool, true, false}
use Prim.Native.String.{String}

pub data DiskStatus : Type 0 where
  online degraded draining failed offline removed : DiskStatus

-- The status is the one field of a disk that the commit protocol reads.
pub record Disk : Type 0 where
  pub status : DiskStatus

pub record MetadataIntegrity : Type 0 where
  pub generation : ℕ
  pub previous_meta_hash : String
  pub meta_hash : String

pub record Metadata {ℓ} (Content : Type ℓ) : Type ℓ where
  pub txid : ℕ
  pub integrity : MetadataIntegrity
  pub disks : List (String × Disk)
  pub content : Content

-- `status == DiskStatus::Removed`.
abbrev pub is_removed : DiskStatus → Bool
is_removed removed = true
is_removed _ = false
