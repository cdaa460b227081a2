-- ===== src/Volume/Commit/Agreed.antt =====
-- The tree in memory and the tree on the devices after a commit.
use argos_fs.Common.{
  ◌≡◌, refl, sym, ◌∙◌, ap, ◌⊎◌, inl, inr, true, false, ◌&&◌, ◌||◌, not, Option, none, some,
  Bool-cases, if_cases, arith,
}
use argos_fs.Error.{ArgosError, ok, err, handle_cases}
use argos_fs.Volume.Commit.{
  Mount, transaction_error_is_committed, is_conflict, Outcome, restored, rejected, append_failed,
  commit_raw, recovered, commit_host, commit_with_previous,
}
use argos_fs.Volume.Commit.Storage.{
  IsPassed, refused, written, written_with, dropped, Storage, kept_tree,
}
use argos_fs.Volume.Tree.{Tree}

module _ (m : Mount) (before staged after : Tree) (st : Storage m before staged after) where
  -- Nothing was written.
  kept_back :
      (p : Option Tree) (e : ArgosError)
      → ((q : Tree) → p ≡ some q → q ≡ after)
      → kept_tree p (err e, after) ≡ after
  kept_back none e h = refl
  kept_back (some q) e h =
      if_cases (λ u. u ≡ after) (not (transaction_error_is_committed e) && not (is_conflict e))
        (λ y. h q refl) (λ n. refl)

  kept_new :
      (p : Option Tree) (e : ArgosError) (u : Tree)
      → transaction_error_is_committed e ≡ true
      → kept_tree p (err e, u) ≡ u
  kept_new none e u c = refl
  kept_new (some q) e u c = rw c refl

  restored-eq : (e : ArgosError) → restored m e staged ≡ (err e, after)
  restored-eq e = rw st.recovers (rw (st.quotas after) refl)

  recovered-eq : (e : ArgosError) → recovered m e staged ≡ (err e, after)
  recovered-eq e = rw st.recovers (rw (st.quotas after) refl)

  not_refused :
      {A : Type 0} (e : ArgosError)
      → IsPassed m staged
      → m.host ≡ false
      → m.validate_durability staged ≡ err e
      → A
  not_refused e (inl y) h v = absurd (ground (arith, y, h))
  not_refused e (inr y) h v = absurd (ground (arith, y, v))

  after_refused :
      (e : ArgosError) → m.host ≡ false → m.validate_durability staged ≡ err e → after ≡ before
  after_refused e h v = elim st.attempt [
    | refused f k u i ↦ i
    | written y w i ↦ not_refused e y h v
    | written_with f y w c i ↦ not_refused e y h v
    | dropped f y w c i ↦ not_refused e y h v
  ]

  after_written : IsPassed m staged → m.append staged ≡ ok tt → after ≡ staged
  after_written y w = elim st.attempt [
    | refused f k u i ↦ not_refused f y k u
    | written z v i ↦ i
    | written_with f z v c i ↦ i
    | dropped f z v c i ↦ absurd (ground (arith, v, w))
  ]

  after_failed :
      (e : ArgosError)
      → IsPassed m staged
      → m.append staged ≡ err e
      → ((transaction_error_is_committed e ≡ true) × (after ≡ staged))
        ⊎ ((transaction_error_is_committed e ≡ false) × (after ≡ before))
  after_failed e y w = elim st.attempt [
    | refused f k u i ↦ not_refused f y k u
    | written z v i ↦ absurd (ground (arith, v, w))
    | written_with f z v c i ↦ inl (ap transaction_error_is_committed (same e f v w) ∙ c, i)
    | dropped f z v c i ↦ inr (ap transaction_error_is_committed (same e f v w) ∙ c, i)
  ]
    where
      same : (e f : ArgosError) → m.append staged ≡ err f → m.append staged ≡ err e → e ≡ f
      same e f v w = cc

-- A commit that was given the tree before the transaction, or none.
module _ (m : Mount) (before staged after : Tree) (st : Storage m before staged after)
    (p : Option Tree) (back : (q : Tree) → p ≡ some q → q ≡ before) where
  -- What memory holds is what the devices hold.
  abbrev AreAgreed : Outcome (Unit {0}) → Type 0
  AreAgreed o = kept_tree p o ≡ after

  agreed_ok : after ≡ staged → AreAgreed (ok tt, staged)
  agreed_ok i = by_kept p
    where
      by_kept : (p : Option Tree) → kept_tree p (ok tt, staged) ≡ after
      by_kept none = sym i
      by_kept (some q) = sym i

  agreed_new :
      (e : ArgosError)
      → transaction_error_is_committed e ≡ true
      → after ≡ staged
      → AreAgreed (err e, staged)
  agreed_new e c i = kept_new m before staged after st p e staged c ∙ sym i

  agreed_restored : (e : ArgosError) → after ≡ before → AreAgreed (restored m e staged)
  agreed_restored e i =
      rw (restored-eq m before staged after st e)
        (kept_back m before staged after st p e (λ q h. back q h ∙ sym i))

  agreed_recovered : (e : ArgosError) → after ≡ before → AreAgreed (recovered m e staged)
  agreed_recovered e i =
      rw (recovered-eq m before staged after st e)
        (kept_back m before staged after st p e (λ q h. back q h ∙ sym i))

  agreed_host : m.host ≡ true → AreAgreed (commit_host m staged)
  unfolding commit_host
  agreed_host h = rw st.hashed (
      handle_cases AreAgreed (m.append staged)
        (λ e w. elim (after_failed m before staged after st e (inl h) w) [
          | inl (c, i) ↦ rw c (rw (st.quotas staged) (agreed_new e c i))
          | inr (c, i) ↦ rw c (agreed_recovered e i)
        ])
        (λ u w. agreed_ok (after_written m before staged after st (inl h) w)))

-- The two ways of a raw volume to give a transaction up.
agreed_rejected :
    (m : Mount) (before staged after : Tree) (st : Storage m before staged after) (p : Option Tree)
    (back : (q : Tree) → p ≡ some q → q ≡ before) (e : ArgosError)
    → after ≡ before
    → kept_tree p (rejected m p e staged) ≡ after
agreed_rejected m before staged after st none back e i =
    agreed_restored m before staged after st none back e i
agreed_rejected m before staged after st (some q) back e i =
    if_cases (λ u. u ≡ after) (not (transaction_error_is_committed e) && not (is_conflict e))
      (λ y. back q refl ∙ sym i) (λ n. back q refl ∙ sym i)

agreed_append_failed :
    (m : Mount) (before staged after : Tree) (st : Storage m before staged after) (p : Option Tree)
    (back : (q : Tree) → p ≡ some q → q ≡ before) (e : ArgosError)
    → IsPassed m staged
    → m.append staged ≡ err e
    → kept_tree p (append_failed m p e staged) ≡ after
agreed_append_failed m before staged after st p back e y w =
    elim (after_failed m before staged after st e y w) [
      | inl (c, i) ↦ rw c (rw (st.quotas staged) (agreed_new m before staged after st p back e c i))
      | inr (c, i) ↦ dropped_back p back c i
    ]
  where
    dropped_back :
        (p : Option Tree) (back : (q : Tree) → p ≡ some q → q ≡ before)
        → transaction_error_is_committed e ≡ false
        → after ≡ before
        → kept_tree p (append_failed m p e staged) ≡ after
    dropped_back none back c i = rw c (agreed_restored m before staged after st none back e i)
    dropped_back (some q) back c i = elim (Bool-cases (is_conflict e)) [
      | inl k ↦ rw c (rw k (agreed_restored m before staged after st (some q) back e i))
      | inr k ↦ rw c (rw k (rw c (rw k (back q refl ∙ sym i))))
    ]

module _ (m : Mount) (before staged after : Tree) (st : Storage m before staged after)
    (p : Option Tree) (back : (q : Tree) → p ≡ some q → q ≡ before) where
  agreed_raw : m.host ≡ false → kept_tree p (commit_raw m p staged) ≡ after
  unfolding commit_raw
  agreed_raw h =
      let P = AreAgreed m before staged after st p back in
      rw st.hashed (
        rw st.prepared (
          rw st.listed (
            handle_cases P (m.validate_durability staged)
              (λ e v.
                agreed_rejected m before staged after st p back e
                  (after_refused m before staged after st e h v))
              (λ u v. rw st.opened (
                handle_cases P (m.append staged)
                  (λ e w. agreed_append_failed m before staged after st p back e (inr v) w)
                  (λ u w.
                    let new = after_written m before staged after st (inr v) w in
                    handle_cases P (m.apply_report staged)
                      (λ e k.
                        rw (st.quotas staged)
                          (agreed_new m before staged after st p back e (st.reported e k) new))
                      (λ u k. agreed_ok m before staged after st p back new)))))))

  pub commit_with_previous-agreed : kept_tree p (commit_with_previous m p staged) ≡ after
  unfolding commit_with_previous
  commit_with_previous-agreed =
      let P = AreAgreed m before staged after st p back in
      rw st.writable (
        if_cases P (not m.host && (m.bulk_import || m.defer_metadata_commit))
          (λ y. absurd (ground (arith, y, st.immediate)))
          (λ n. if_cases P m.host (λ h. agreed_host m before staged after st p back h) agreed_raw))
