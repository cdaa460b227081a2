-- ===== src/Raw/Quorum/Overlap.antt =====
-- Two quorums of one membership have a disk in common.
use argos_fs.Common.StringSet.{IsDistinct, In, common_element}
use argos_fs.Common.{◌≤◌, List, All, length, arith}
use argos_fs.Model.{Metadata}
use argos_fs.Raw.Quorum.{metadata_quorum_requirement, voters}
use Prim.Native.String.{String}

-- Two sets of member disks that are quorums, of one or of two metadata with no fewer voting disks
-- than there are members, share a disk.
pub metadata_quorum_requirement_overlap :
    {Content : Type 0} (m n : Metadata Content) (members us vs : List String)
    → length members ≤ voters m.disks
    → length members ≤ voters n.disks
    → IsDistinct us
    → IsDistinct vs
    → All (In members) us
    → All (In members) vs
    → metadata_quorum_requirement m ≤ length us
    → metadata_quorum_requirement n ≤ length vs
    → (d : String) × In us d × In vs d
unfolding metadata_quorum_requirement
metadata_quorum_requirement_overlap m n members us vs lm ln du dv iu iv qu qv =
    common_element us vs members du dv iu iv (omega arith)
