-- ===== src/Raw/Quorum/Journal.antt =====
-- `raw_journal_quorum` of src/storage/raw/store.rs, and what its answer means.
use argos_fs.Common.{
  ℕ, ◌+◌, ◌*◌, ◌/◌, ◌≤◌, ◌<◌, ◌≡◌, refl, ◌⊎◌, ◌↔◌, inl, inr, Bool, true, false, ◌&&◌, not, List, [],
  ◌∷◌, arith, leb, ltb, ◌==◌, if◌then◌else◌, Bool-cases,
}
use argos_fs.Raw.Quorum.{MetaKey, same_key}
use argos_fs.Raw.Quorum.Backing.{same_key→≡}
use text.Mathlib.TextEquality.{eq_iff}

-- The fields that the test reads; the key is the last valid txid, generation and record hash.
pub record RawJournalMemberReport : Type 0 where
  pub readable : Bool
  pub invalid_entries : ℕ
  pub last_valid : MetaKey

abbrev Counts : Type 0
Counts = List (MetaKey × ℕ)

-- `*counts.entry(key).or_default() += 1`, with the new count.
unfoldable pub increment : MetaKey → Counts → ℕ × Counts
increment k [] = (1, (k, 1) ∷ [])
increment k ((j, n) ∷ rest) =
    let (c, rest') = increment k rest in
    if same_key k j then (n + 1, (j, n + 1) ∷ rest) else (c, (j, n) ∷ rest')

abbrev pub is_counted : RawJournalMemberReport → Bool
is_counted m = m.readable && not (ltb 0 m.invalid_entries)

unfoldable pub count_members : ℕ → Counts → List RawJournalMemberReport → Bool
count_members required counts [] = false
count_members required counts (m ∷ ms) =
    let skipped = count_members required counts ms in
    let (count, counts') = increment m.last_valid counts in
    let later = count_members required counts' ms in
    if is_counted m then (if leb required count then true else later) else skipped

unfoldable pub raw_journal_quorum : List RawJournalMemberReport → ℕ → Bool
raw_journal_quorum members total_members =
    if total_members == 0 then true else count_members (total_members / 2 + 1) [] members

-- How many counted members have the key.
abbrev pub holders : MetaKey → List RawJournalMemberReport → ℕ
holders k [] = 0
holders k (m ∷ ms) = (if is_counted m && same_key k m.last_valid then 1 else 0) + holders k ms

count_of : MetaKey → Counts → ℕ
count_of k [] = 0
count_of k ((j, n) ∷ rest) = if same_key k j then n else count_of k rest

pub same_key_refl : (k : MetaKey) → same_key k k ≡ true
unfolding same_key
same_key_refl k = ground (arith, eq_iff k.hash k.hash)

pub same_key-sym : (a b : MetaKey) → same_key a b ≡ same_key b a
unfolding same_key
same_key-sym a b = ground (arith, eq_iff a.hash b.hash, eq_iff b.hash a.hash)

count_of-nil : (k : MetaKey) → count_of k [] ≡ 0
unfolding count_of
count_of-nil k = refl

increment-count : (k : MetaKey) (c : Counts) → (increment k c).0 ≡ count_of k c + 1
unfolding increment count_of
increment-count k [] = refl
increment-count k ((j, n) ∷ rest) = ground (arith, increment-count k rest)

count_of-increment :
    (i k : MetaKey) (c : Counts)
    → count_of i (increment k c).1 ≡ count_of i c + (if same_key i k then 1 else 0)
unfolding increment count_of
count_of-increment i k [] = ground arith
count_of-increment i k ((j, n) ∷ rest) = elim (Bool-cases (same_key k j)) [
  | inl t ↦ rw (t, ← same_key→≡ k j t) (ground arith)
  | inr t ↦
      rw t (
        ground
          (arith, count_of-increment i k rest, same_key→≡ i j, same_key→≡ i k, same_key_refl i))
]

abbrev Reaches : ℕ → Counts → List RawJournalMemberReport → Type 0
Reaches required c ms = (k : MetaKey) × (required ≤ count_of k c + holders k ms)

-- The last new count is that of its key.
new_count :
    (m : RawJournalMemberReport) (c : Counts)
    → (increment m.last_valid c).0 ≡ count_of m.last_valid (increment m.last_valid c).1
new_count m c = ground (
  arith,
  increment-count m.last_valid c,
  count_of-increment m.last_valid m.last_valid c,
  same_key_refl m.last_valid,
)

count_members-Reaches :
    (required : ℕ) (c : Counts) (ms : List RawJournalMemberReport)
    → count_members required c ms ≡ true
    → Reaches required c ms
unfolding count_members
count_members-Reaches required c [] h = cc
count_members-Reaches required c (m ∷ ms) h = elim (Bool-cases (is_counted m)) [
  | inl t ↦ elim (Bool-cases (leb required (increment m.last_valid c).0)) [
    | inl e ↦ (
      m.last_valid,
      ground (arith, t, e, increment-count m.last_valid c, same_key_refl m.last_valid),
    )
    | inr e ↦
        let (k, r) =
          count_members-Reaches required (increment m.last_valid c).1 ms
            (rw (t, e, count_members) at h) in
        (k, ground (arith, t, r, count_of-increment k m.last_valid c))
  ]
  | inr t ↦
      let (k, r) = count_members-Reaches required c ms (rw (t, count_members) at h) in
      (k, ground (arith, t, r))
]

count_members_complete :
    (required : ℕ) (c : Counts) (ms : List RawJournalMemberReport) (k : MetaKey)
    → ((j : MetaKey) → count_of j c < required)
    → required ≤ count_of k c + holders k ms
    → count_members required c ms ≡ true
unfolding count_members
count_members_complete required c [] k low r = absurd (omega (arith, low k))
count_members_complete required c (m ∷ ms) k low r = elim (Bool-cases (is_counted m)) [
  | inl t ↦ elim (Bool-cases (leb required (increment m.last_valid c).0)) [
    | inl e ↦ rw (t, e) refl
    | inr e ↦
        rw (t, e)
          (count_members_complete required (increment m.last_valid c).1 ms k
            (λ j. ground (
              arith,
              low j,
              count_of-increment j m.last_valid c,
              increment-count m.last_valid c,
              same_key→≡ j m.last_valid,
            ))
            (ground (arith, t, count_of-increment k m.last_valid c)))
  ]
  | inr t ↦ rw t (count_members_complete required c ms k low (ground (arith, t)))
]

-- The answer is yes exactly if there are no members, or if one key of transaction, generation and
-- record hash is the last valid one of a majority of all members, among those whose journal was
-- read without an invalid entry.
pub raw_journal_quorum_iff :
    (members : List RawJournalMemberReport) (total_members : ℕ)
    → (raw_journal_quorum members total_members ≡ true)
      ↔ ((total_members ≡ 0) ⊎ ((k : MetaKey) × (total_members < 2 * holders k members)))
unfolding raw_journal_quorum
raw_journal_quorum_iff members total_members = (sound, complete)
  where
    required : ℕ
    required = total_members / 2 + 1

    sound :
        raw_journal_quorum members total_members ≡ true
        → (total_members ≡ 0) ⊎ ((k : MetaKey) × (total_members < 2 * holders k members))
    sound h = elim (Bool-cases (total_members == 0)) [
      | inl z ↦ inl (ground arith)
      | inr n ↦
          let (k, r) =
            count_members-Reaches required [] members (rw (n, raw_journal_quorum) at h) in
          inr (k, omega (arith, r, count_of-nil k))
    ]

    complete :
        (total_members ≡ 0) ⊎ ((k : MetaKey) × (total_members < 2 * holders k members))
        → raw_journal_quorum members total_members ≡ true
    complete (inl z) = rw z refl
    complete (inr (k, r)) = elim (Bool-cases (total_members == 0)) [
      | inl z ↦ rw z refl
      | inr n ↦ rw n (
          count_members_complete required [] members k (λ j. omega (arith, count_of-nil j))
            (omega (arith, count_of-nil k)))
    ]
