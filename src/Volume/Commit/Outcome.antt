-- ===== src/Volume/Commit/Outcome.antt =====
-- Which tree a commit leaves in memory.
use argos_fs.Common.{◌≡◌, refl, false, ◌&&◌, ◌||◌, not, Option, none, some, if◌then◌else◌, if_cases}
use argos_fs.Error.{ArgosError, Result, ok, err, ◌>>◌, is_ok, handle_cases}
use argos_fs.Volume.Commit.{
  Mount, ensure_block_backend_writable, transaction_error_is_committed, is_conflict, is_none,
  Outcome, restored, rejected, append_failed, commit_raw, recovered, commit_host,
  commit_with_previous,
}
use argos_fs.Volume.Tree.{Tree}

-- The staged tree; or, after an error, the tree before the transaction or the one that recovery read.
pub data Left (m : Mount) (previous : Option Tree) (s : Tree) (r : Outcome (Unit {0}))
    : Type 0 where
  staged : r.1 ≡ s → Left m previous s r
  rolled_back : previous ≡ some r.1 → is_ok r.0 ≡ false → Left m previous s r
  reloaded : m.recover ≡ ok r.1 → is_ok r.0 ≡ false → Left m previous s r

abbrev fails : ArgosError → Result (Unit {0})
fails e = err e

fails_after : (e : ArgosError) (check : Result (Unit {0})) → is_ok (check >> fails e) ≡ false
fails_after e (ok u) = refl
fails_after e (err f) = refl

module _ (m : Mount) (previous : Option Tree) (s : Tree) where
  restored-Left : (e : ArgosError) → Left m previous s (restored m e s)
  restored-Left e =
      handle_cases (Left m previous s) m.recover (λ f h. staged refl)
        (λ u h.
          handle_cases (Left m previous s) (m.rebuild_quotas u) (λ f k. reloaded h refl)
            (λ v k. reloaded h refl))

  recovered-Left : (e : ArgosError) → Left m previous s (recovered m e s)
  recovered-Left e =
      handle_cases (Left m previous s) m.recover (λ f h. staged refl)
        (λ u h. reloaded h (fails_after e (m.rebuild_quotas u)))

  append_failed-Left : (e : ArgosError) → Left m previous s (append_failed m previous e s)
  append_failed-Left e =
      handle_cases (Left m previous s)
        (if transaction_error_is_committed e then m.rebuild_quotas s else ok tt)
        (λ f h. staged refl)
        (λ u h.
          if_cases (Left m previous s)
            (not (transaction_error_is_committed e) && (is_none previous || is_conflict e))
            (λ k. restored-Left e) (λ k. staged refl))

  commit_host-Left : Left m previous s (commit_host m s)
  unfolding commit_host
  commit_host-Left =
      handle_cases (Left m previous s) (m.hash s) (λ f h. staged refl)
        (λ u h.
          handle_cases (Left m previous s) (m.append s)
            (λ e k.
              if_cases (Left m previous s) (transaction_error_is_committed e) (λ y. staged refl)
                (λ y. recovered-Left e))
            (λ v k. staged refl))

rejected-Left :
    (m : Mount) (previous : Option Tree) (s : Tree) (e : ArgosError)
    → Left m previous s (rejected m previous e s)
rejected-Left m none s e = restored-Left m none s e
rejected-Left m (some p) s e = rolled_back refl refl

module _ (m : Mount) (previous : Option Tree) (s : Tree) where
  commit_raw-Left : Left m previous s (commit_raw m previous s)
  unfolding commit_raw
  commit_raw-Left =
      let P = Left m previous s in
      handle_cases P (m.hash s >> m.prepare_integrity s >> m.superblocks s) (λ f h. staged refl)
        (λ u h.
          handle_cases P (m.validate_durability s) (λ f h. rejected-Left m previous s f)
            (λ u h.
              handle_cases P (m.open_backend s) (λ f h. staged refl)
                (λ u h.
                  handle_cases P (m.append s) (λ f h. append_failed-Left m previous s f)
                    (λ u h.
                      handle_cases P (m.apply_report s) (λ f h. staged refl)
                        (λ u h. staged refl)))))

  -- A commit leaves the staged tree, or, only after an error, the tree that the caller passed as the
  -- previous one or the tree that recovery read from the devices.
  pub commit_with_previous-Left : Left m previous s (commit_with_previous m previous s)
  unfolding commit_with_previous
  commit_with_previous-Left =
      let P = Left m previous s in
      handle_cases P (ensure_block_backend_writable m) (λ f h. staged refl)
        (λ u h.
          if_cases P (not m.host && (m.bulk_import || m.defer_metadata_commit)) (λ k. staged refl)
            (λ k. if_cases P m.host (λ i. commit_host-Left m previous s) (λ i. commit_raw-Left)))
