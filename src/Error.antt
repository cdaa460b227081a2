-- ===== src/Error.antt =====
-- src/error.rs: the errors, `errno` and `is_fatal_device_error`. The texts of messages are left
-- out; the numbers that an error carries are kept. An errno is named, not numbered.
use argos_fs.Common.{◌≡◌, refl, ℕ, Bool, true, false, Option, none, some}
use Prim.Native.String.{String}

-- The error numbers of libc that `errno` names; `other` is any further one.
pub data Errno : Type 0 where
  enoent enxio eexist enotdir eisdir enotempty enospc edquot eio einval : Errno
  enametoolong efbig eacces eagain enotsup enodev erofs eremoteio : Errno
  other : ℕ → Errno

pub data ArgosError : Type 0 where
  message json erasure not_found no_data already_exists not_directory is_directory : ArgosError
  directory_not_empty unrecoverable_stripe invalid name_too_long file_too_large : ArgosError
  permission_denied conflict unsupported checksum corrupted_metadata : ArgosError
  incompatible_format missing_device degraded_pool indeterminate_commit : ArgosError
  committed_durability_loss unsafe_mount journal_replay_required readonly_required : ArgosError
  io : Option Errno → ArgosError
  injected_crash : (point : String) → ArgosError
  not_enough_disks : (need have : ℕ) → ArgosError
  disk_full : (disk_id : String) (required available : ℕ) → ArgosError
  quota_exceeded : (inode used limit : ℕ) → ArgosError
  device_timeout : (disk_id : String) (timeout_ms : ℕ) → ArgosError
  device_failed device_busy : (disk_id : String) → ArgosError
  quorum_unavailable retryable_quorum_unavailable : (need have : ℕ) → ArgosError

-- `std::result::Result` with this error.
pub data Result {κ} (T : Type κ) : Type κ where
  err : (error : ArgosError) → Result T
  ok : (value : T) → Result T

infixl 5 ◌>>◌ ◌>>=◌
-- `first?`, and what is done with its value.
abbrev pub ◌>>=◌ {κ μ} : {S : Type κ} {T : Type μ} → Result S → (S → Result T) → Result T
err error >>= next = err error
ok value >>= next = next value

-- `check?;`, and what comes behind it.
abbrev pub ◌>>◌ {μ} : {T : Type μ} → Result (Unit {0}) → Result T → Result T
check >> next = check >>= (λ unit. next)

-- `if bad { return Err(e) }`.
abbrev pub fail_if : Bool → ArgosError → Result (Unit {0})
fail_if true e = err e
fail_if false e = ok tt

-- `ok_or_else`.
abbrev pub ok_or {ℓ} : {A : Type ℓ} → Option A → ArgosError → Result A
ok_or none e = err e
ok_or (some a) e = ok a

fatal_os_error : Option Errno → Bool
fatal_os_error (some eio) = true
fatal_os_error (some enodev) = true
fatal_os_error (some enxio) = true
fatal_os_error (some eremoteio) = true
fatal_os_error _ = false

unfoldable pub is_fatal_device_error : ArgosError → Bool
unfolding fatal_os_error
is_fatal_device_error missing_device = true
is_fatal_device_error (device_timeout d t) = true
is_fatal_device_error (device_failed d) = true
is_fatal_device_error (io e) = fatal_os_error e
is_fatal_device_error _ = false

abbrev raw_os_error_or_eio : Option Errno → Errno
raw_os_error_or_eio (some e) = e
raw_os_error_or_eio none = eio

unfoldable pub errno : ArgosError → Errno
errno not_found = enoent
errno no_data = enxio
errno already_exists = eexist
errno not_directory = enotdir
errno is_directory = eisdir
errno directory_not_empty = enotempty
errno (not_enough_disks n h) = enospc
errno (disk_full d r a) = enospc
errno (quota_exceeded i u l) = edquot
errno unrecoverable_stripe = eio
errno invalid = einval
errno name_too_long = enametoolong
errno file_too_large = efbig
errno permission_denied = eacces
errno conflict = eagain
errno (injected_crash p) = eio
errno unsupported = enotsup
errno checksum = eio
errno corrupted_metadata = eio
errno incompatible_format = einval
errno missing_device = enodev
errno (device_timeout d t) = eio
errno (device_failed d) = eio
errno (device_busy d) = eagain
errno degraded_pool = eio
errno (quorum_unavailable n h) = erofs
errno (retryable_quorum_unavailable n h) = eagain
errno indeterminate_commit = eio
errno committed_durability_loss = eio
errno unsafe_mount = erofs
errno journal_replay_required = eagain
errno readonly_required = erofs
errno (io e) = raw_os_error_or_eio e
errno _ = eio

-- Both parts of a sequence that succeeds.
pub >>-eq-ok {ℓ} :
    {B : Type ℓ} (m : Result (Unit {0})) (k : Result B) {b : B}
    → (m >> k) ≡ ok b
    → (m ≡ ok tt) × (k ≡ ok b)
>>-eq-ok (ok tt) k h = (refl, h)
>>-eq-ok (err e) k h = cc

pub ok-injective {μ} : {T : Type μ} {u v : T} → ok u ≡ ok v → u ≡ v
ok-injective h = cc

-- The steps of a chain that succeeds.
pub >>=-eq-ok {κ μ} :
    {S : Type κ} {T : Type μ} (first : Result S) (next : S → Result T) {v : T}
    → (first >>= next) ≡ ok v
    → (u : S) × (first ≡ ok u) × (next u ≡ ok v)
>>=-eq-ok (err error) next h = cc
>>=-eq-ok (ok u) next h = (u, refl, h)

abbrev pub is_ok {ℓ} : {A : Type ℓ} → Result A → Bool
is_ok (ok a) = true
is_ok (err e) = false

-- `match r { Err(e) => .., Ok(a) => .. }`.
abbrev pub handle {ℓ κ} : {A : Type ℓ} {B : Type κ} → Result A → (ArgosError → B) → (A → B) → B
handle (err e) failed done = failed e
handle (ok a) failed done = done a

-- What holds of both branches.
pub handle_cases {ℓ κ μ} :
    {A : Type ℓ} {B : Type κ} (P : B → Type μ) (r : Result A) {f : ArgosError → B} {g : A → B}
    → ((e : ArgosError) → r ≡ err e → P (f e))
    → ((a : A) → r ≡ ok a → P (g a))
    → P (handle r f g)
handle_cases P (err e) on_err on_ok = on_err e refl
handle_cases P (ok a) on_err on_ok = on_ok a refl

-- What holds of the value, if there is one.
abbrev pub Yields {ℓ κ} : {A : Type ℓ} → (A → Type κ) → Result A → Type κ
Yields P (err e) = Unit
Yields P (ok a) = P a

pub >>=-Yields {ℓ κ μ} :
    {A : Type ℓ} {B : Type κ} (P : B → Type μ) (r : Result A) (k : A → Result B)
    → ((a : A) → r ≡ ok a → Yields P (k a))
    → Yields P (r >>= k)
>>=-Yields P (err e) k h = tt
>>=-Yields P (ok a) k h = h a refl

pub Yields-map {ℓ κ μ} :
    {A : Type ℓ} {P : A → Type κ} {Q : A → Type μ}
    → ((a : A) → P a → Q a)
    → (r : Result A) → Yields P r
    → Yields Q r
Yields-map f (err e) h = tt
Yields-map f (ok a) h = f a h
