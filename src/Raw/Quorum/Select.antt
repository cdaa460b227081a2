-- ===== src/Raw/Quorum/Select.antt =====
-- What `select_quorum_metadata_candidate` selects: metadata that a quorum of distinct voting disks
-- holds, and none older than another such metadata.
use argos_fs.Raw.Quorum.Backing.{same_key→≡, Votes, Backs, Held, Good, collect-Good}
use argos_fs.Raw.Quorum.Best.{OnSome, best-OnSome, NotAfter, BelowOption, best-max}
use argos_fs.Common.StringSet.{contains, IsDistinct, In, contains-insert, length-le_of_subset}
use argos_fs.Common.{
  ℕ, ◌≤◌, ◌<◌, ◌≡◌, refl, sym, subst, ◌⊎◌, inl, inr, true, List, [], ◌∷◌, Option, none, some, arith,
  length, All, All-map, Bool-cases, Option-cases, if◌then◌else◌,
}
use argos_fs.Error.{Result, ok, >>=-eq-ok, ok-injective}
use argos_fs.Model.{Metadata}
use argos_fs.Raw.Quorum.{
  MetaKey, Candidate, Support, same_key, add_support, has_quorum, best, key_of, visit, collect,
  select_quorum_metadata_candidate, metadata_has_voting_member, metadata_quorum_requirement,
}
use mathlib.Core.Option
use Prim.Native.String.{String}
use text.Mathlib.TextEquality.{eq_iff}

module _ {Content : Type 0} (reload : Metadata Content → Result (Metadata Content))
    (digest : Metadata Content → Result String) where
  -- Distinct disks, each of which votes for the metadata's key in one of its slots, in the number
  -- that the metadata requires.
  pub record HasQuorum (cs : List (Candidate Content)) (m : Metadata Content) (k : MetaKey)
      : Type 0 where
    pub held : Held reload digest cs m
    pub keyed : key_of reload digest m ≡ ok k
    pub members : List String
    pub distinct : IsDistinct members
    pub backed : All (Backs reload digest k cs) members
    pub enough : metadata_quorum_requirement m ≤ length members

  abbrev Sound : List (Candidate Content) → Support Content → Type 0
  Sound cs s = HasQuorum cs s.metadata s.key

  Good-Sound :
      (cs : List (Candidate Content)) (ss : List (Support Content))
      → All (Good reload digest (λ k. Backs reload digest k cs) (Held reload digest cs)) ss
      → All (λ s. has_quorum s ≡ true → Sound cs s) ss
  Good-Sound cs ss = All-map _ _ ss λ s g q. record {
    held = g.held;
    keyed = g.keyed;
    members = s.members;
    distinct = g.distinct;
    backed = g.backed;
    enough = ground arith;
  }

  some_eq : {a b : Metadata Content} → some a ≡ some b → a ≡ b
  some_eq h = cc

  selected-Sound :
      (cs : List (Candidate Content)) (m : Metadata Content) (r : Option (Support Content))
      → Option.map (λ (s : Support Content). s.metadata) r ≡ some m
      → OnSome (Sound cs) r
      → (k : MetaKey) × HasQuorum cs m k
  selected-Sound cs m none e h = absurd (cc)
  selected-Sound cs m (some s) e h = (s.key, subst (λ n. HasQuorum cs n s.key) (some_eq e) h)

  -- What is selected has a quorum: its key is held by as many distinct voting disks as its own
  -- list of disks requires.
  pub select_quorum_metadata_candidate_sound :
      (cs : List (Candidate Content)) (m : Metadata Content)
      → select_quorum_metadata_candidate reload digest cs ≡ ok (some m)
      → (k : MetaKey) × HasQuorum cs m k
  unfolding select_quorum_metadata_candidate
  select_quorum_metadata_candidate_sound cs m h =
      let (ss, c, r) = >>=-eq-ok (collect reload digest [] cs) _ h in
      let good =
        collect-Good reload digest (λ k. Backs reload digest k cs) (Held reload digest cs) [] cs ss
          (λ k d b. b) (λ m o. o) c tt in
      let sound = best-OnSome (Sound cs) none ss tt (Good-Sound cs ss good) in
      selected-Sound cs m (best none ss) (ok-injective r) sound

  -- The disks that the map has under a key.
  members_of : MetaKey → List (Support Content) → List String
  members_of k [] = []
  members_of k (s ∷ ss) = if same_key k s.key then s.members else members_of k ss

  same_key_refl : (k : MetaKey) → same_key k k ≡ true
  unfolding same_key
  same_key_refl k = ground (arith, eq_iff k.hash k.hash)

  members_of-add_self :
      (k : MetaKey) (m : Metadata Content) (d : String) (ss : List (Support Content))
      → In (members_of k (add_support k m d ss)) d
  unfolding members_of add_support
  members_of-add_self k m d [] = ground (arith, same_key_refl k, contains-insert d d [], eq_iff d d)
  members_of-add_self k m d (s ∷ ss) = elim (Bool-cases (same_key k s.key)) [
    | inl t ↦ rw (t, t) (ground (arith, contains-insert d d s.members, eq_iff d d))
    | inr t ↦ rw (t, t) (members_of-add_self k m d ss)
  ]

  members_of-add_kept :
      (j k : MetaKey) (m : Metadata Content) (d e : String) (ss : List (Support Content))
      → In (members_of j ss) e
      → In (members_of j (add_support k m d ss)) e
  unfolding members_of add_support
  members_of-add_kept j k m d e [] h = unfold contains in absurd (cc)
  members_of-add_kept j k m d e (s ∷ ss) h = elim (Bool-cases (same_key k s.key)) [
    | inl t ↦ rw t (ground (arith, contains-insert e d s.members))
    | inr t ↦ rw t (ground (arith, members_of-add_kept j k m d e ss))
  ]

  -- A vote is noted in the map, and nothing is lost from it.
  visit-In :
      (k : MetaKey) (d : String) (acc : List (Support Content)) (c : Candidate Content)
      (acc' : List (Support Content))
      → visit reload digest acc c ≡ ok acc'
      → (Votes reload digest k d c ⊎ In (members_of k acc) d)
      → In (members_of k acc') d
  unfolding visit
  visit-In k d acc c acc' e (inl v) =
      let voted = rw (v.holds, visit, v.disk, v.voting, v.keyed) at e in
      subst (λ a. In (members_of k a) d) (ok-injective voted)
        (members_of-add_self k v.metadata d acc)
  visit-In k d acc c acc' e (inr h) = elim (Option-cases c.metadata) [
    | inl n ↦ subst (λ a. In (members_of k a) d) (ok-injective (rw (n, visit) at e)) h
    | inr (m, n) ↦ elim (Bool-cases (metadata_has_voting_member m c.disk_id)) [
      | inl t ↦
          let (j, ke, r) = >>=-eq-ok (key_of reload digest m) _ (rw (n, visit, t) at e) in
          subst (λ a. In (members_of k a) d) (ok-injective r)
            (members_of-add_kept k j m c.disk_id d acc h)
      | inr t ↦ subst (λ a. In (members_of k a) d) (ok-injective (rw (n, visit, t) at e)) h
    ]
  ]

  collect-In :
      (k : MetaKey) (d : String) (acc : List (Support Content)) (cs : List (Candidate Content))
      (acc' : List (Support Content))
      → collect reload digest acc cs ≡ ok acc'
      → (Backs reload digest k cs d ⊎ In (members_of k acc) d)
      → In (members_of k acc') d
  unfolding collect
  collect-In k d acc [] acc' e (inl b) = absurd b
  collect-In k d acc [] acc' e (inr h) = subst (λ a. In (members_of k a) d) (ok-injective e) h
  collect-In k d acc (c ∷ cs) acc' e h =
      let (mid, v, r) = >>=-eq-ok (visit reload digest acc c) _ e in
      collect-In k d mid cs acc' r (elim h [
        | inl (inl w) ↦ inr (visit-In k d acc c mid v (inl w))
        | inl (inr b) ↦ inl b
        | inr i ↦ inr (visit-In k d acc c mid v (inr i))
      ])

  -- An entry of the map with the disks that `members_of` gives.
  entry_below :
      (k : MetaKey) (n : ℕ) (ss : List (Support Content)) (r : Option (Support Content))
      → 0 < n
      → n ≤ length (members_of k ss)
      → All
          (λ s.
            (key_of reload digest s.metadata ≡ ok k → metadata_quorum_requirement s.metadata ≤ n)
            × (key_of reload digest s.metadata ≡ ok s.key))
          ss
      → All (λ s. has_quorum s ≡ true → BelowOption s.key r) ss
      → BelowOption k r
  unfolding members_of
  entry_below k n [] r p l g b = absurd (omega arith)
  entry_below k n (s ∷ ss) r p l g b = elim (Bool-cases (same_key k s.key)) [
    | inl t ↦
        let same = same_key→≡ k s.key t in
        let enough = g.0.0 (rw same g.0.1) in rw same (b.0 (ground arith))
    | inr t ↦ entry_below k n ss r p (ground arith) g.1 b.1
  ]

  latest_of :
      (cs : List (Candidate Content)) (k : MetaKey) (o : Option (Support Content))
      (r : Option (Metadata Content))
      → BelowOption k o
      → OnSome (Sound cs) o
      → Option.map (λ (s : Support Content). s.metadata) o ≡ r
      → (m : Metadata Content) × (j : MetaKey) × (r ≡ some m) × HasQuorum cs m j × NotAfter k j
  latest_of cs k none r b s e = absurd b
  latest_of cs k (some u) r b s e = (u.metadata, u.key, sym e, s, b)

  -- If distinct disks vote for a key, as many as each candidate of that key requires, then metadata
  -- is selected that is not of an earlier transaction or generation.
  pub select_quorum_metadata_candidate_latest :
      (cs : List (Candidate Content)) (k : MetaKey) (ds : List String)
      (r : Option (Metadata Content))
      → select_quorum_metadata_candidate reload digest cs ≡ ok r
      → IsDistinct ds
      → All (Backs reload digest k cs) ds
      → 0 < length ds
      → ((m : Metadata Content)
          → Held reload digest cs m
          → key_of reload digest m ≡ ok k
          → metadata_quorum_requirement m ≤ length ds)
      → (m : Metadata Content) × (j : MetaKey) × (r ≡ some m) × HasQuorum cs m j × NotAfter k j
  unfolding select_quorum_metadata_candidate
  select_quorum_metadata_candidate_latest cs k ds r h distinct backed p enough =
      let (ss, c, e) = >>=-eq-ok (collect reload digest [] cs) _ h in
      let good =
        collect-Good reload digest (λ k. Backs reload digest k cs) (Held reload digest cs) [] cs ss
          (λ k d b. b) (λ m o. o) c tt in
      let held =
        All-map _ (In (members_of k ss)) ds (λ d b. collect-In k d [] cs ss c (inl b)) backed in
      let below =
        entry_below k (length ds) ss (best none ss) p
          (length-le_of_subset ds (members_of k ss) distinct held)
          (All-map _ _ ss (λ s g. (enough s.metadata g.held, g.keyed)) good)
          (best-max none ss (best none ss) refl) in
      let sound = best-OnSome (Sound cs) none ss tt (Good-Sound cs ss good) in
      latest_of cs k (best none ss) r below sound (ok-injective e)
