-- ===== src/Raw/Quorum/Best.antt =====
-- The entry that `best` takes: one with a quorum, and the latest of those.
use argos_fs.Common.{
  ◌≤◌, ◌<◌, ◌≡◌, subst, ◌⊎◌, inl, inr, true, false, List, [], ◌∷◌, Option, none, some, arith, All,
  Bool-cases,
}
use argos_fs.Raw.Quorum.{MetaKey, Support, key_le, has_quorum, better, best}

module _ {Content : Type 0} where
  abbrev pub OnSome : (Support Content → Type 0) → Option (Support Content) → Type 0
  OnSome P none = Unit
  OnSome P (some s) = P s

  better-OnSome :
      (P : Support Content → Type 0) (cur : Option (Support Content)) (s : Support Content)
      → OnSome P cur
      → P s
      → OnSome P (better cur s)
  better-OnSome P none s f p = p
  better-OnSome P (some c) s f p = elim (Bool-cases (key_le c.key s.key)) [
    | inl t ↦ rw t p
    | inr t ↦ rw t f
  ]

  -- The entry that `best` takes is one of the map and has a quorum.
  pub best-OnSome :
      (P : Support Content → Type 0) (cur : Option (Support Content)) (ss : List (Support Content))
      → OnSome P cur
      → All (λ b. has_quorum b ≡ true → P b) ss
      → OnSome P (best cur ss)
  unfolding best
  best-OnSome P cur [] f h = f
  best-OnSome P cur (b ∷ ss) f h = elim (Bool-cases (has_quorum b)) [
    | inl t ↦ rw t (best-OnSome P (better cur b) ss (better-OnSome P cur b f (h.0 t)) h.1)
    | inr t ↦ rw t (best-OnSome P cur ss f h.1)
  ]

-- Not of a later transaction, nor of a later generation of the same one.
abbrev pub NotAfter : MetaKey → MetaKey → Type 0
NotAfter a b = (a.txid < b.txid) ⊎ (a.txid ≡ b.txid) × (a.generation ≤ b.generation)

key_le→NotAfter : (a b : MetaKey) → key_le a b ≡ true → NotAfter a b
unfolding key_le
key_le→NotAfter a b h = ground arith

not-key_le→NotAfter : (a b : MetaKey) → key_le a b ≡ false → NotAfter b a
unfolding key_le
not-key_le→NotAfter a b h = ground arith

NotAfter-trans : (a b c : MetaKey) → NotAfter a b → NotAfter b c → NotAfter a c
NotAfter-trans a b c h k = ground arith

module _ {Content : Type 0} where
  abbrev pub BelowOption : MetaKey → Option (Support Content) → Type 0
  BelowOption k none = ⊥
  BelowOption k (some s) = NotAfter k s.key

  BelowOption-better :
      (k : MetaKey) (cur : Option (Support Content)) (s : Support Content)
      → BelowOption k cur
      → BelowOption k (better cur s)
  BelowOption-better k (some c) s h = elim (Bool-cases (key_le c.key s.key)) [
    | inl t ↦ rw t (NotAfter-trans k c.key s.key h (key_le→NotAfter c.key s.key t))
    | inr t ↦ rw t h
  ]
  BelowOption-better k none s h = absurd h

  BelowOption-better_new :
      (cur : Option (Support Content)) (s : Support Content) → BelowOption s.key (better cur s)
  BelowOption-better_new none s = ground arith
  BelowOption-better_new (some c) s = elim (Bool-cases (key_le c.key s.key)) [
    | inl t ↦ rw t (ground arith)
    | inr t ↦ rw t (not-key_le→NotAfter c.key s.key t)
  ]

  BelowOption-best :
      (k : MetaKey) (cur : Option (Support Content)) (ss : List (Support Content))
      → BelowOption k cur
      → BelowOption k (best cur ss)
  unfolding best
  BelowOption-best k cur [] h = h
  BelowOption-best k cur (s ∷ ss) h = elim (Bool-cases (has_quorum s)) [
    | inl t ↦ rw t (BelowOption-best k (better cur s) ss (BelowOption-better k cur s h))
    | inr t ↦ rw t (BelowOption-best k cur ss h)
  ]

  -- No entry with a quorum is after the one that `best` takes.
  pub best-max :
      (cur : Option (Support Content)) (ss : List (Support Content)) (r : Option (Support Content))
      → best cur ss ≡ r
      → All (λ s. has_quorum s ≡ true → BelowOption s.key r) ss
  unfolding best
  best-max cur [] r e = tt
  best-max cur (s ∷ ss) r e = elim (Bool-cases (has_quorum s)) [
    | inl t ↦
        let e' : best (better cur s) ss ≡ r = rw (t, best) at e in
        (
          λ _.
              subst (BelowOption s.key) e'
                (BelowOption-best s.key (better cur s) ss (BelowOption-better_new cur s)),
          best-max (better cur s) ss r e',
        )
    | inr t ↦ (λ q. cc, best-max cur ss r (rw (t, best) at e))
  ]
