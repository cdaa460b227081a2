-- ===== src/Raw/Quorum/Backing.antt =====
-- The map that `collect` builds: each entry's disks are distinct and hold its key.
use argos_fs.Common.StringSet.{IsDistinct, insert-IsDistinct, insert-All}
use argos_fs.Common.{
  ◌≡◌, refl, subst, ◌⊎◌, inl, inr, true, List, [], ◌∷◌, some, arith, All, Bool-cases, Option-cases,
}
use argos_fs.Error.{Result, ok, >>=-eq-ok, ok-injective}
use argos_fs.Model.{Metadata}
use argos_fs.Raw.Quorum.{
  MetaKey, Candidate, Support, same_key, add_support, key_of, visit, collect,
  metadata_has_voting_member,
}
use Prim.Native.String.{String}
use text.Mathlib.TextEquality.{eq_iff}

pub same_key→≡ : (a b : MetaKey) → same_key a b ≡ true → a ≡ b
unfolding same_key
same_key→≡ a b h = ground (arith, eq_iff a.hash b.hash)

module _ {Content : Type 0} (reload : Metadata Content → Result (Metadata Content))
    (digest : Metadata Content → Result String) where
  -- The candidate is a voting disk `d` with metadata under the key `k`.
  pub record Votes (k : MetaKey) (d : String) (c : Candidate Content) : Type 0 where
    pub metadata : Metadata Content
    pub holds : c.metadata ≡ some metadata
    pub disk : c.disk_id ≡ d
    pub voting : metadata_has_voting_member metadata d ≡ true
    pub keyed : key_of reload digest metadata ≡ ok k

  -- Some candidate is.
  abbrev pub Backs : MetaKey → List (Candidate Content) → String → Type 0
  Backs k [] d = ⊥
  Backs k (c ∷ cs) d = Votes k d c ⊎ Backs k cs d

  -- Some candidate holds the metadata.
  abbrev pub Held : List (Candidate Content) → Metadata Content → Type 0
  Held [] m = ⊥
  Held (c ∷ cs) m = (c.metadata ≡ some m) ⊎ Held cs m

  module _ (B : MetaKey → String → Type 0) (M : Metadata Content → Type 0) where
    -- What each entry of the map says.
    pub record Good (s : Support Content) : Type 0 where
      pub distinct : IsDistinct s.members
      pub backed : All (B s.key) s.members
      pub keyed : key_of reload digest s.metadata ≡ ok s.key
      pub held : M s.metadata

    pub add_support-Good :
        (k : MetaKey) (m : Metadata Content) (d : String) (ss : List (Support Content))
        → key_of reload digest m ≡ ok k
        → B k d
        → M m
        → All Good ss
        → All Good (add_support k m d ss)
    unfolding add_support
    add_support-Good k m d [] e b o h = (
      record {
        distinct = insert-IsDistinct d [] tt;
        backed = insert-All (B k) d [] b tt;
        keyed = e;
        held = o;
      },
      tt,
    )
    add_support-Good k m d (s ∷ ss) e b o h = elim (Bool-cases (same_key k s.key)) [
      | inl t ↦ rw t (
        record {
          distinct = insert-IsDistinct d s.members h.0.distinct;
          backed =
              insert-All (B s.key) d s.members (subst (λ j. B j d) (same_key→≡ k s.key t) b)
                h.0.backed;
          held = h.0.held;
          keyed = h.0.keyed;
        },
        h.1,
      )
      | inr t ↦ rw t (h.0, add_support-Good k m d ss e b o h.1)
    ]

    pub visit-Good :
        (acc : List (Support Content)) (c : Candidate Content) (acc' : List (Support Content))
        → ((k : MetaKey) (d : String) → Votes k d c → B k d)
        → ((m : Metadata Content) → c.metadata ≡ some m → M m)
        → visit reload digest acc c ≡ ok acc'
        → All Good acc
        → All Good acc'
    unfolding visit
    visit-Good acc c acc' f g e h = elim (Option-cases c.metadata) [
      | inl n ↦ subst (All Good) (ok-injective (rw (n, visit) at e)) h
      | inr (m, n) ↦ elim (Bool-cases (metadata_has_voting_member m c.disk_id)) [
        | inl t ↦
            let (k, ke, r) = >>=-eq-ok (key_of reload digest m) _ (rw (n, visit, t) at e) in
            let v : Votes k c.disk_id c = record {
              metadata = m;
              holds = n;
              disk = refl;
              voting = t;
              keyed = ke;
            } in
            subst (All Good) (ok-injective r)
              (add_support-Good k m c.disk_id acc ke (f k c.disk_id v) (g m n) h)
        | inr t ↦ subst (All Good) (ok-injective (rw (n, visit, t) at e)) h
      ]
    ]

    pub collect-Good :
        (acc : List (Support Content)) (cs : List (Candidate Content))
        (acc' : List (Support Content))
        → ((k : MetaKey) (d : String) → Backs k cs d → B k d)
        → ((m : Metadata Content) → Held cs m → M m)
        → collect reload digest acc cs ≡ ok acc'
        → All Good acc
        → All Good acc'
    unfolding collect
    collect-Good acc [] acc' f g e h = subst (All Good) (ok-injective e) h
    collect-Good acc (c ∷ cs) acc' f g e h =
        let (mid, v, r) = >>=-eq-ok (visit reload digest acc c) _ e in
        collect-Good mid cs acc' (λ k d b. f k d (inr b)) (λ m o. g m (inr o)) r
          (visit-Good acc c mid (λ k d w. f k d (inl w)) (λ m o. g m (inl o)) v h)
