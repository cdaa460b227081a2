-- ===== src/Volume/Commit.antt =====
-- The commit of a staged tree, `commit_locked` of src/volume/mod.rs, as far as it decides which tree
-- stays in memory. What it calls to reach the devices are the fields of `Mount`; the transaction
-- number, the hashes and the runtime flags, which no operation of the namespace reads, are left out.
pub mod Outcome
pub mod Storage
pub mod Agreed
use argos_fs.Common.Map.{Key, string_key}
use argos_fs.Common.{
  ℕ, Bool, true, false, ◌&&◌, ◌||◌, not, List, [], ◌∷◌, Option, none, some, any, if◌then◌else◌,
}
use argos_fs.Error.{
  ArgosError, Result, ok, err, ◌>>=◌, ◌>>◌, handle, fail_if, readonly_required,
  committed_durability_loss, indeterminate_commit, injected_crash, conflict, corrupted_metadata,
}
use argos_fs.Volume.Tree.{Tree}

-- The switches of a mounted volume, its clock, and the calls that leave the namespace.
pub record Mount : Type 0 where
  pub host : Bool
  pub backend_writable : Bool
  pub fenced : Bool
  pub bulk_import : Bool
  pub defer_metadata_commit : Bool
  pub now : ℕ
  pub note_deferred : Tree → Result (Unit {0})
  pub hash : Tree → Result (Unit {0})
  pub prepare_integrity : Tree → Result (Unit {0})
  pub superblocks : Tree → Result (Unit {0})
  pub validate_durability : Tree → Result (Unit {0})
  pub open_backend : Tree → Result (Unit {0})
  pub append : Tree → Result (Unit {0})
  pub apply_report : Tree → Result (Unit {0})
  -- The tree that recovery reads back from the devices.
  pub recover : Result Tree
  pub has_directory_quotas : Bool
  pub validate_quotas : Tree → Result (Unit {0})
  pub rebuild_quotas : Tree → Result (Unit {0})

unfoldable pub ensure_block_backend_writable : Mount → Result (Unit {0})
ensure_block_backend_writable m = do
  fail_if (not m.host && not m.backend_writable) readonly_required
  fail_if (not m.host && m.fenced) readonly_required

unfoldable pub transaction_error_is_committed : ArgosError → Bool
transaction_error_is_committed committed_durability_loss = true
transaction_error_is_committed indeterminate_commit = true
transaction_error_is_committed (injected_crash point) =
    any (λ s. string_key.same point s)
      ("after-journal" ∷ "after-primary-metadata" ∷ "after-secondary-metadata"
        ∷ "after-compatible-metadata" ∷ "after-journal-commit-before-metadata-commit"
        ∷ "after-metadata-commit-before-superblock-update" ∷ [])
transaction_error_is_committed _ = false

abbrev pub is_conflict : ArgosError → Bool
is_conflict conflict = true
is_conflict _ = false

abbrev pub is_none {ℓ} : {A : Type ℓ} → Option A → Bool
is_none none = true
is_none (some a) = false

-- What an operation returns, and the tree that it leaves.
abbrev pub Outcome : Type 0 → Type 0
Outcome A = Result A × Tree

-- `restore_raw_metadata_locked`, after the error.
abbrev pub restored : Mount → ArgosError → Tree → Outcome (Unit {0})
restored m e t =
    handle m.recover (λ r. (err corrupted_metadata, t))
      (λ u. handle (m.rebuild_quotas u) (λ r. (err corrupted_metadata, u)) (λ done. (err e, u)))

-- The tree before the transaction where the caller passed it.
abbrev pub rejected : Mount → Option Tree → ArgosError → Tree → Outcome (Unit {0})
rejected m (some previous) e t = (err e, previous)
rejected m none e t = restored m e t

abbrev pub append_failed : Mount → Option Tree → ArgosError → Tree → Outcome (Unit {0})
append_failed m previous e t =
    let committed = transaction_error_is_committed e in
    handle (if committed then m.rebuild_quotas t else ok tt) (λ r. (err r, t))
      (λ done.
        if not committed && (is_none previous || is_conflict e) then restored m e t else (err e, t))

unfoldable pub commit_raw : Mount → Option Tree → Tree → Outcome (Unit {0})
commit_raw m previous t =
    handle (m.hash t >> m.prepare_integrity t >> m.superblocks t) (λ e. (err e, t))
      (λ u.
        handle (m.validate_durability t) (λ e. rejected m previous e t)
          (λ u.
            handle (m.open_backend t) (λ e. (err e, t))
              (λ u.
                handle (m.append t) (λ e. append_failed m previous e t)
                  (λ u.
                    handle (m.apply_report t) (λ e. (m.rebuild_quotas t >> err e, t))
                      (λ u. (ok tt, t))))))

abbrev pub recovered : Mount → ArgosError → Tree → Outcome (Unit {0})
recovered m e t =
    handle m.recover (λ r. (err corrupted_metadata, t)) (λ u. (m.rebuild_quotas u >> err e, u))

unfoldable pub commit_host : Mount → Tree → Outcome (Unit {0})
commit_host m t =
    handle (m.hash t) (λ e. (err e, t))
      (λ u.
        handle (m.append t)
          (λ e.
            if transaction_error_is_committed e
            then (m.rebuild_quotas t >> err e, t)
            else recovered m e t)
          (λ u. (ok tt, t)))

-- `commit_locked_with_previous`.
unfoldable pub commit_with_previous : Mount → Option Tree → Tree → Outcome (Unit {0})
commit_with_previous m previous t =
    handle (ensure_block_backend_writable m) (λ e. (err e, t))
      (λ u.
        if not m.host && (m.bulk_import || m.defer_metadata_commit)
        then (m.note_deferred t, t)
        else if m.host
        then commit_host m t
        else commit_raw m previous t)

-- `commit_locked`.
unfoldable pub commit : Mount → Tree → Outcome (Unit {0})
commit m t = commit_with_previous m none t
