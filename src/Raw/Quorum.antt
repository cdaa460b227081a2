-- ===== src/Raw/Quorum.antt =====
-- src/storage/raw/store.rs: which metadata a quorum of the member disks agrees on. The selection
-- takes one candidate of each metadata slot of each disk.
pub mod Backing
pub mod Best
pub mod Select
pub mod Overlap
pub mod Journal
pub mod Unmount
mod Examples
use argos_fs.Common.StringSet.{insert, contains}
use argos_fs.Common.{
  ℕ, suc, ◌+◌, ◌/◌, max, Bool, true, false, ◌&&◌, ◌||◌, not, List, [], ◌∷◌, map, Option, none, some,
  length, leb, ltb, if◌then◌else◌,
}
use argos_fs.Common.{◌==◌ as nat_eq}
use argos_fs.Error.{Result, ok, err, ◌>>=◌}
use argos_fs.Model.{Disk, Metadata, MetadataIntegrity, is_removed}
use Prim.Native.Nat.{compare as compare_ℕ, Ordering}
use Prim.Native.String.{String, compare}
use text.Mathlib.Text.{◌==◌}
use mathlib.Core.Option

abbrev get_disk : String → List (String × Disk) → Option Disk
get_disk id [] = none
get_disk id ((j, d) ∷ rest) = if j == id then some d else get_disk id rest

-- The number of disks that are not removed.
abbrev pub voters : List (String × Disk) → ℕ
voters [] = 0
voters ((j, d) ∷ rest) = if is_removed d.status then voters rest else suc (voters rest)

module _ {ℓ} {Content : Type ℓ} where
  unfoldable pub metadata_has_voting_member : Metadata Content → String → Bool
  metadata_has_voting_member m id = elim (get_disk id m.disks) [
    | none ↦ false
    | some d ↦ not (is_removed d.status)
  ]

  unfoldable pub metadata_quorum_requirement : Metadata Content → ℕ
  metadata_quorum_requirement m = max (voters m.disks) 1 / 2 + 1

-- `(u64, u64, String)`, the key of the map of supported metadata.
pub record MetaKey : Type 0 where
  pub txid : ℕ
  pub generation : ℕ
  pub hash : String

unfoldable pub same_key : MetaKey → MetaKey → Bool
same_key a b = nat_eq a.txid b.txid && nat_eq a.generation b.generation && a.hash == b.hash

abbrev string_le : String → String → Bool
string_le s t = elim (compare s t) [ Ordering.gt ↦ false | _ ↦ true ]

-- The order of the keys of the map.
unfoldable pub key_le : MetaKey → MetaKey → Bool
key_le a b =
    ltb a.txid b.txid
    || nat_eq a.txid b.txid
      && (ltb a.generation b.generation
          || nat_eq a.generation b.generation && string_le a.hash b.hash)

-- A metadata slot of a disk; `none` if nothing valid is in it.
pub record Candidate {ℓ} (Content : Type ℓ) : Type ℓ where
  pub disk_id : String
  pub metadata : Option (Metadata Content)

-- An entry of the map: the first metadata seen under the key, and the disks that hold the key.
pub record Support {ℓ} (Content : Type ℓ) : Type ℓ where
  pub key : MetaKey
  pub metadata : Metadata Content
  pub members : List String

module _ {ℓ} {Content : Type ℓ} where
  -- `entry(key).or_insert_with(..).1.insert(disk_id)`.
  unfoldable pub add_support :
      MetaKey → Metadata Content → String → List (Support Content) → List (Support Content)
  add_support k m d [] = record { key = k; metadata = m; members = insert d [] } ∷ []
  add_support k m d (s ∷ ss) =
      if same_key k s.key
      then record s { members = insert d s.members } ∷ ss
      else s ∷ add_support k m d ss

  abbrev pub has_quorum : Support Content → Bool
  has_quorum s = leb (metadata_quorum_requirement s.metadata) (length s.members)

  -- The map is iterated by ascending key, so the last entry of the largest txid and generation is
  -- the one of the largest key.
  abbrev pub better : Option (Support Content) → Support Content → Option (Support Content)
  better none s = some s
  better (some b) s = if key_le b.key s.key then some s else some b

  unfoldable pub best : Option (Support Content) → List (Support Content) → Option (Support Content)
  best cur [] = cur
  best cur (s ∷ ss) = best (if has_quorum s then better cur s else cur) ss

  -- `reload` writes metadata as JSON and parses it again, and `digest` is the SHA-256 of the JSON.
  module _ (reload : Metadata Content → Result (Metadata Content))
      (digest : Metadata Content → Result String) where
    abbrev no_integrity : MetadataIntegrity
    no_integrity = record { generation = 0; previous_meta_hash = ""; meta_hash = "" }

    unfoldable pub canonical_metadata_hash : Metadata Content → Result String
    canonical_metadata_hash m = do
      round_trip ← reload (record m { integrity = no_integrity })
      digest (record round_trip { integrity = no_integrity })

    unfoldable pub metadata_hash_for_replay : Metadata Content → Result String
    metadata_hash_for_replay m =
        if m.integrity.meta_hash == "" then canonical_metadata_hash m else ok m.integrity.meta_hash

    unfoldable pub key_of : Metadata Content → Result MetaKey
    key_of m = do
      h ← metadata_hash_for_replay m
      ok (record { txid = m.txid; generation = m.integrity.generation; hash = h })

    abbrev note :
        List (Support Content) → String → Metadata Content → Result (List (Support Content))
    note acc d m = do k ← key_of m; ok (add_support k m d acc)

    -- The body of the loop over the candidates.
    unfoldable pub visit :
        List (Support Content) → Candidate Content → Result (List (Support Content))
    visit acc c = elim c.metadata [
      | none ↦ ok acc
      | some m ↦ if metadata_has_voting_member m c.disk_id then note acc c.disk_id m else ok acc
    ]

    unfoldable pub collect :
        List (Support Content) → List (Candidate Content) → Result (List (Support Content))
    collect acc [] = ok acc
    collect acc (c ∷ cs) = do acc' ← visit acc c; collect acc' cs

    unfoldable pub select_quorum_metadata_candidate :
        List (Candidate Content) → Result (Option (Metadata Content))
    select_quorum_metadata_candidate candidates = do
      supported ← collect [] candidates
      ok (Option.map (λ (s : Support Content). s.metadata) (best none supported))
