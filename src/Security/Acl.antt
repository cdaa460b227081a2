-- ===== src/Security/Acl.antt =====
-- src/security/acl.rs, with the records of src/model/types.rs that it works on. Permission bits
-- are numbers of the u16 range.
pub mod Evaluate
pub mod Counting
pub mod Validate
pub mod Xattr
pub mod Mode
pub mod PermBits
mod Examples
use argos_fs.Common.{
  ℕ, ◌+◌, ◌-◌, ◌*◌, ◌/◌, ◌%◌, Bool, true, false, ◌&&◌, ◌||◌, not, List, [], ◌∷◌, map, Option, none,
  some, ltb, ◌==◌, if◌then◌else◌, any, find, unwrap_or,
}
use argos_fs.Error.{Result, ok, err, ◌>>=◌, ◌>>◌, fail_if, invalid}
use Prim.Native.String.{String}
use mathlib.Core.Option
use Prim.Native.Nat.{bit_or}

pub data PosixAclTag : Type 0 where
  user_obj user group_obj group mask other : PosixAclTag

pub record PosixAclEntry : Type 0 where
  pub tag : PosixAclTag
  pub id : Option ℕ
  pub perms : ℕ

pub record PosixAcl : Type 0 where
  pub entries : List PosixAclEntry

pub data Nfs4AceType : Type 0 where
  allow deny : Nfs4AceType

pub record Nfs4Ace : Type 0 where
  pub ace_type : Nfs4AceType
  pub principal : String
  pub flags : List String
  pub permissions : List String

pub record Nfs4Acl : Type 0 where
  pub entries : List Nfs4Ace

pub data NodeKind : Type 0 where
  file directory symlink special : NodeKind

-- The fields of an inode that access control reads.
pub record Inode : Type 0 where
  pub kind : NodeKind
  pub mode : ℕ
  pub uid : ℕ
  pub gid : ℕ
  pub posix_acl_access : Option PosixAcl
  pub posix_acl_default : Option PosixAcl
  pub nfs4_acl : Option Nfs4Acl

-- `==` on tags.
abbrev pub same_tag : PosixAclTag → PosixAclTag → Bool
same_tag user_obj user_obj = true
same_tag user user = true
same_tag group_obj group_obj = true
same_tag group group = true
same_tag mask mask = true
same_tag other other = true
same_tag _ _ = false

abbrev pub is_directory : NodeKind → Bool
is_directory directory = true
is_directory _ = false

-- `perms & !0o7`.
abbrev pub beyond_rwx : ℕ → ℕ
beyond_rwx perms = perms / 8 * 8

unfoldable pub validate_acl_id : PosixAclTag → Option ℕ → Result (Unit {0})
validate_acl_id user none = err invalid
validate_acl_id group none = err invalid
validate_acl_id user (some id) = ok tt
validate_acl_id group (some id) = ok tt
validate_acl_id tag none = ok tt
validate_acl_id tag (some id) = err invalid

-- The entry that `find` stops at, by its tag.
abbrev pub find_tag : PosixAclTag → List PosixAclEntry → Option PosixAclEntry
find_tag t = find (λ e. same_tag e.tag t)

-- The variables of the loop of `validate_posix_acl`.
pub record Tally : Type 0 where
  pub user_objs : ℕ
  pub group_objs : ℕ
  pub masks : ℕ
  pub others : ℕ
  pub named_users : List ℕ
  pub named_groups : List ℕ

abbrev pub contains : ℕ → List ℕ → Bool
contains n = any (λ x. x == n)

-- `if !set.insert(id) { return Err(..) }`, with what is done to the set.
abbrev add_id : Option ℕ → List ℕ → (List ℕ → Tally) → Result Tally
add_id none ids f = err invalid
add_id (some id) ids f = if contains id ids then err invalid else ok (f (id ∷ ids))

unfoldable pub count_entry : Tally → PosixAclTag → Option ℕ → Result Tally
count_entry t user_obj id = ok (record t { user_objs = t.user_objs + 1 })
count_entry t user id = add_id id t.named_users (λ ids. record t { named_users = ids })
count_entry t group_obj id = ok (record t { group_objs = t.group_objs + 1 })
count_entry t group id = add_id id t.named_groups (λ ids. record t { named_groups = ids })
count_entry t mask id = ok (record t { masks = t.masks + 1 })
count_entry t other id = ok (record t { others = t.others + 1 })

-- The body of the loop over the entries.
unfoldable pub check_entry : Tally → PosixAclEntry → Result Tally
check_entry t e = do
  fail_if (not (beyond_rwx e.perms == 0)) invalid
  validate_acl_id e.tag e.id
  count_entry t e.tag e.id

unfoldable pub check_entries : Tally → List PosixAclEntry → Result Tally
check_entries t [] = ok t
check_entries t (e ∷ es) = do t' ← check_entry t e; check_entries t' es

abbrev pub is_empty : List ℕ → Bool
is_empty [] = true
is_empty (x ∷ xs) = false

-- The tests behind the loop.
unfoldable pub check_tally : Tally → Result (Unit {0})
check_tally t = do
  fail_if (not (t.user_objs == 1)) invalid
  fail_if (not (t.group_objs == 1)) invalid
  fail_if (not (t.others == 1)) invalid
  fail_if (ltb 1 t.masks) invalid
  fail_if ((not (is_empty t.named_users) || not (is_empty t.named_groups)) && not (t.masks == 1))
      invalid

abbrev pub no_entries : Tally
no_entries = record {
  user_objs = 0;
  group_objs = 0;
  masks = 0;
  others = 0;
  named_users = [];
  named_groups = [];
}

unfoldable pub validate_posix_acl : PosixAcl → Result (Unit {0})
validate_posix_acl acl = do t ← check_entries no_entries acl.entries; check_tally t

-- The three permission digits of a mode.
abbrev pub owner_bits : ℕ → ℕ
owner_bits mode = mode / 64 % 8

abbrev pub group_bits : ℕ → ℕ
group_bits mode = mode / 8 % 8

abbrev pub other_bits : ℕ → ℕ
other_bits mode = mode % 8

abbrev pub set_perms : Bool → ℕ → PosixAclEntry → PosixAclTag → PosixAclEntry
set_perms has_mask mode e user_obj = record e { perms = owner_bits mode }
set_perms has_mask mode e mask = record e { perms = group_bits mode }
set_perms has_mask mode e group_obj = if has_mask then e else record e { perms = group_bits mode }
set_perms has_mask mode e other = record e { perms = other_bits mode }
set_perms has_mask mode e _ = e

abbrev pub has_tag : PosixAclTag → List PosixAclEntry → Bool
has_tag t = any (λ e. same_tag e.tag t)

unfoldable pub apply_mode_to_access_acl : PosixAcl → ℕ → PosixAcl
apply_mode_to_access_acl acl mode = record {
  entries = map (λ e. set_perms (has_tag mask acl.entries) mode e e.tag) acl.entries;
}

abbrev pub or_else {ℓ} : {A : Type ℓ} → Option A → Option A → Option A
or_else none o = o
or_else (some a) o = some a

abbrev pub perms_or : ℕ → Option PosixAclEntry → ℕ
perms_or d none = d
perms_or d (some e) = e.perms

-- The bits are put together by `|`; they do not overlap where the digits are below 8.
unfoldable pub mode_from_access_acl : PosixAcl → ℕ → ℕ
mode_from_access_acl acl current_mode =
    let owner = perms_or (owner_bits current_mode) (find_tag user_obj acl.entries) in
    let class = or_else (find_tag mask acl.entries) (find_tag group_obj acl.entries) in
    let group = perms_or (group_bits current_mode) class in
    let others = perms_or (other_bits current_mode) (find_tag other acl.entries) in
    bit_or (bit_or (bit_or (current_mode / 512 * 512) (owner * 64)) (group * 8)) others

unfoldable pub inherited_directory_acl : Inode → Option PosixAcl
inherited_directory_acl parent = if is_directory parent.kind then parent.posix_acl_default else none

unfoldable pub inherited_access_acl : Inode → ℕ → Option PosixAcl
inherited_access_acl parent mode =
    Option.map (λ acl. apply_mode_to_access_acl acl mode) (inherited_directory_acl parent)
