-- ===== src/Volume/Commit/Storage.antt =====
-- What a commit makes of the devices, and what a volume is taken to do.
use argos_fs.Common.{◌≡◌, ◌⊎◌, true, false, ◌&&◌, ◌||◌, not, Option, none, some, if◌then◌else◌}
use argos_fs.Error.{ArgosError, ok, err}
use argos_fs.Volume.Commit.{
  Mount, ensure_block_backend_writable, transaction_error_is_committed, is_conflict, Outcome,
}
use argos_fs.Volume.Tree.{Tree}

-- The check that goes before the writing of a raw volume passes.
abbrev pub IsPassed : Mount → Tree → Type 0
IsPassed m staged = (m.host ≡ true) ⊎ (m.validate_durability staged ≡ ok tt)

-- What an attempt to commit the staged tree makes of the devices: they held the tree before, and hold
-- the tree after. An error that is said to be committed has written the staged tree.
pub data Attempt (m : Mount) (before staged after : Tree) : Type 0 where
  refused :
      (e : ArgosError)
      → m.host ≡ false
      → m.validate_durability staged ≡ err e
      → after ≡ before
      → Attempt m before staged after
  written :
      IsPassed m staged → m.append staged ≡ ok tt → after ≡ staged → Attempt m before staged after
  written_with :
      (e : ArgosError)
      → IsPassed m staged
      → m.append staged ≡ err e
      → transaction_error_is_committed e ≡ true
      → after ≡ staged
      → Attempt m before staged after
  dropped :
      (e : ArgosError)
      → IsPassed m staged
      → m.append staged ≡ err e
      → transaction_error_is_committed e ≡ false
      → after ≡ before
      → Attempt m before staged after

-- A volume whose commits go to the devices at once, and on which the calls before the writing, the
-- recovery and the count of quotas succeed.
pub record Storage (m : Mount) (before staged after : Tree) : Type 0 where
  pub writable : ensure_block_backend_writable m ≡ ok tt
  pub immediate : (not m.host && (m.bulk_import || m.defer_metadata_commit)) ≡ false
  pub hashed : m.hash staged ≡ ok tt
  pub prepared : m.prepare_integrity staged ≡ ok tt
  pub listed : m.superblocks staged ≡ ok tt
  pub opened : m.open_backend staged ≡ ok tt
  pub quotas : (u : Tree) → m.rebuild_quotas u ≡ ok tt
  -- A report on a transaction that is written fails with an error that says so.
  pub reported :
      (e : ArgosError) → m.apply_report staged ≡ err e → transaction_error_is_committed e ≡ true
  pub attempt : Attempt m before staged after
  -- Recovery reads what the devices hold.
  pub recovers : m.recover ≡ ok after

-- The tree in memory when a caller that kept the tree before the transaction has dealt with an error,
-- as `mknod_locked` does; the other callers keep no tree.
abbrev pub kept_tree : Option Tree → Outcome (Unit {0}) → Tree
kept_tree none (r, u) = u
kept_tree (some before) (ok v, u) = u
kept_tree (some before) (err e, u) =
    if not (transaction_error_is_committed e) && not (is_conflict e) then before else u
