-- ===== src/Raw/Quorum/Examples.antt =====
-- Three disks, one of which missed the last checkpoint.
use argos_fs.Common.StringSet.{contains, insert, In}
use argos_fs.Common.{
  ℕ, ◌*◌, ◌≤◌, ◌<◌, Bool, ◌≡◌, refl, ◌⊎◌, inl, inr, ◌↔◌, true, false, List, [], ◌∷◌, Option, some,
  none, arith,
}
use argos_fs.Error.{Result, ok}
use argos_fs.Model.{Disk, Metadata, online, removed}
use argos_fs.Raw.Quorum.{
  MetaKey, Candidate, same_key, key_le, add_support, best, key_of, visit, collect,
  canonical_metadata_hash, metadata_hash_for_replay, metadata_has_voting_member,
  metadata_quorum_requirement, select_quorum_metadata_candidate,
}
use argos_fs.Raw.Quorum.Backing.{Votes, Backs, Held}
use argos_fs.Raw.Quorum.Best.{NotAfter}
use argos_fs.Raw.Quorum.Select.{
  HasQuorum, select_quorum_metadata_candidate_sound, select_quorum_metadata_candidate_latest,
}
use argos_fs.Raw.Quorum.Overlap.{metadata_quorum_requirement_overlap}
use argos_fs.Raw.Quorum.Journal.{
  RawJournalMemberReport, increment, count_members, raw_journal_quorum, holders,
  raw_journal_quorum_iff,
}
use Prim.Native.String.{String}

abbrev disk : String → String × Disk
disk id = (id, record { status = online })

abbrev meta : ℕ → String → Metadata ℕ
meta txid hash = record {
  txid = txid;
  integrity = record { generation = 1; previous_meta_hash = ""; meta_hash = hash };
  disks = disk "d0" ∷ disk "d1" ∷ disk "d2" ∷ ("d3", record { status = removed }) ∷ [];
  content = 0;
}

abbrev reload : Metadata ℕ → Result (Metadata ℕ)
reload m = ok m

abbrev digest : Metadata ℕ → Result String
digest m = ok "digest"

abbrev slot : String → Option (Metadata ℕ) → Candidate ℕ
slot id m = record { disk_id = id; metadata = m }

abbrev slots : List (Candidate ℕ)
slots =
    slot "d0" (some (meta 5 "aa"))
    ∷ slot "d0" (some (meta 4 "bb"))
    ∷ slot "d1" (some (meta 5 "aa"))
    ∷ slot "d1" none
    ∷ slot "d2" (some (meta 4 "bb"))
    ∷ []

selection : Unit {0}
unfolding select_quorum_metadata_candidate collect visit key_of metadata_hash_for_replay
    canonical_metadata_hash add_support best same_key key_le metadata_has_voting_member
    metadata_quorum_requirement contains insert
selection = tt

requirement : metadata_quorum_requirement (meta 5 "aa") ≡ 2
unfolding selection
requirement = refl

requirement4 : metadata_quorum_requirement (meta 4 "bb") ≡ 2
unfolding selection
requirement4 = refl

selected : select_quorum_metadata_candidate reload digest slots ≡ ok (some (meta 5 "aa"))
unfolding selection
selected = refl

-- One slot is no quorum.
select_none :
    select_quorum_metadata_candidate reload digest (slot "d0" (some (meta 5 "aa")) ∷ []) ≡ ok none
unfolding selection
select_none = refl

-- Two slots of one disk are one vote.
select_one_disk :
    select_quorum_metadata_candidate reload digest
      (slot "d0" (some (meta 5 "aa")) ∷ slot "d0" (some (meta 5 "aa")) ∷ [])
    ≡ ok none
unfolding selection
select_one_disk = refl

select_quorum_metadata_candidate_sound_example :
    (k : MetaKey) × HasQuorum reload digest slots (meta 5 "aa") k
select_quorum_metadata_candidate_sound_example =
    select_quorum_metadata_candidate_sound reload digest slots (meta 5 "aa") selected

abbrev key4 : MetaKey
key4 = record { txid = 4; generation = 1; hash = "bb" }

vote :
    (id : String)
    → metadata_has_voting_member (meta 4 "bb") id ≡ true
    → Votes reload digest key4 id (slot id (some (meta 4 "bb")))
unfolding selection
vote id v = record { metadata = meta 4 "bb"; holds = refl; disk = refl; voting = v; keyed = refl }

backed_d0 : Backs reload digest key4 slots "d0"
unfolding selection
backed_d0 = inr (inl (vote "d0" refl))

backed_d2 : Backs reload digest key4 slots "d2"
unfolding selection
backed_d2 = inr (inr (inr (inr (inl (vote "d2" refl)))))

distinct : contains "d0" ("d2" ∷ []) ≡ false
unfolding contains
distinct = refl

distinct_one : contains "d2" [] ≡ false
unfolding contains
distinct_one = refl

requirement_of :
    (m : Metadata ℕ) (x : Metadata ℕ)
    → ◌≡◌ {A = Option (Metadata ℕ)} (some x) (some m)
    → metadata_quorum_requirement x ≡ 2
    → metadata_quorum_requirement m ≤ 2
requirement_of m x e r = let same : x ≡ m = cc in rw (← same) (omega (arith, r))

enough :
    (m : Metadata ℕ)
    → Held reload digest slots m
    → key_of reload digest m ≡ ok key4
    → metadata_quorum_requirement m ≤ 2
unfolding selection
enough m (inl e) h = requirement_of m (meta 5 "aa") e refl
enough m (inr (inl e)) h = requirement_of m (meta 4 "bb") e refl
enough m (inr (inr (inl e))) h = requirement_of m (meta 5 "aa") e refl
enough m (inr (inr (inr (inl e)))) h = cc
enough m (inr (inr (inr (inr (inl e))))) h = requirement_of m (meta 4 "bb") e refl
enough m (inr (inr (inr (inr (inr e))))) h = absurd e

select_quorum_metadata_candidate_latest_example :
    (m : Metadata ℕ) × (j : MetaKey) × (some (meta 5 "aa") ≡ some m)
    × HasQuorum reload digest slots m j
    × NotAfter key4 j
select_quorum_metadata_candidate_latest_example =
    select_quorum_metadata_candidate_latest reload digest slots key4 ("d0" ∷ "d2" ∷ [])
      (some (meta 5 "aa")) selected (distinct, (distinct_one, tt)) (backed_d0, (backed_d2, tt))
      (omega arith) enough

abbrev members : List String
members = "d0" ∷ "d1" ∷ "d2" ∷ []

member : (In members "d0") × (In members "d1") × (In members "d2")
unfolding contains
member = (refl, refl, refl)

other_distinct : contains "d1" ("d2" ∷ []) ≡ false
unfolding contains
other_distinct = refl

metadata_quorum_requirement_overlap_example :
    (d : String) × In ("d0" ∷ "d2" ∷ []) d × In ("d1" ∷ "d2" ∷ []) d
metadata_quorum_requirement_overlap_example =
    metadata_quorum_requirement_overlap (meta 5 "aa") (meta 4 "bb") members ("d0" ∷ "d2" ∷ [])
      ("d1" ∷ "d2" ∷ []) (omega arith) (omega arith) (distinct, (distinct_one, tt))
      (other_distinct, (distinct_one, tt)) (member.0, (member.2, tt)) (member.1, (member.2, tt))
      (omega (arith, requirement)) (omega (arith, requirement4))

abbrev report : Bool → MetaKey → RawJournalMemberReport
report readable k = record { readable = readable; invalid_entries = 0; last_valid = k }

abbrev reports : List RawJournalMemberReport
reports = report true key4 ∷ report false key4 ∷ report true key4 ∷ []

raw_journal_quorum_two : raw_journal_quorum reports 3 ≡ true
unfolding raw_journal_quorum count_members increment same_key
raw_journal_quorum_two = refl

raw_journal_quorum_five : raw_journal_quorum reports 4 ≡ false
unfolding raw_journal_quorum count_members increment same_key
raw_journal_quorum_five = refl

raw_journal_quorum_iff_example :
    (raw_journal_quorum reports 3 ≡ true)
    ↔ (◌≡◌ {A = ℕ} 3 0 ⊎ ((k : MetaKey) × (3 < 2 * holders k reports)))
raw_journal_quorum_iff_example = raw_journal_quorum_iff reports 3
