-- ===== src/Security/Acl/Evaluate.antt =====
-- The access decision of src/security/acl.rs: `evaluate_access_with_groups` and what it calls.
pub mod Bits
pub mod Nfs4
pub mod Posix
use argos_fs.Common.{
  ℕ, zero, suc, ◌+◌, ◌-◌, ◌*◌, ◌/◌, ◌%◌, Bool, true, false, ◌&&◌, ◌||◌, not, List, [], ◌∷◌, Option,
  none, some, ltb, ◌==◌, if◌then◌else◌, any, find,
}
use argos_fs.Security.Acl.{
  PosixAclTag, user_obj, user, group_obj, group, mask, other, PosixAclEntry, PosixAcl, Nfs4AceType,
  allow, deny, Nfs4Ace, Nfs4Acl, Inode, is_directory, same_tag, find_tag, perms_or, contains,
  owner_bits, group_bits, other_bits,
}
use Prim.Native.Nat.{bit_and, bit_or}
use Prim.Native.String.{String, ◌++◌}
use text.Mathlib.Text.{◌==◌ as str_eq}

-- `ACL_READ`, `ACL_WRITE`, `ACL_EXECUTE`; libc's `R_OK`, `W_OK`, `X_OK` are the same bits.
abbrev pub acl_read : ℕ
acl_read = 4

abbrev pub acl_write : ℕ
acl_write = 2

abbrev pub acl_execute : ℕ
acl_execute = 1

-- `(n & b) != 0`.
abbrev pub has_bit : ℕ → ℕ → Bool
has_bit n b = not (bit_and n b == 0)

-- `a & b == b`.
abbrev pub grants : ℕ → ℕ → Bool
grants perms requested = bit_and perms requested == requested

-- `(condition as u16) * bit`.
abbrev pub flag : Bool → ℕ → ℕ
flag true b = b
flag false b = 0

unfoldable pub requested_bits : ℕ → ℕ
requested_bits access =
    bit_or (bit_or (flag (has_bit access 4) acl_read) (flag (has_bit access 2) acl_write))
      (flag (has_bit access 1) acl_execute)

-- `n.to_string()`, for numbers of up to `fuel` digits; a u32 has at most ten.
abbrev digit : ℕ → String
digit d =
    if d == 0
    then "0"
    else if d == 1
    then "1"
    else if d == 2
    then "2"
    else if d == 3
    then "3"
    else if d == 4
    then "4"
    else if d == 5
    then "5"
    else if d == 6
    then "6"
    else if d == 7
    then "7"
    else if d == 8
    then "8"
    else "9"

decimal : ℕ → ℕ → String
decimal zero n = ""
decimal (suc fuel) n =
    let front = decimal fuel (n / 10) in if ltb n 10 then digit n else front ++ digit (n % 10)

unfoldable pub to_string : ℕ → String
unfolding decimal
to_string n = decimal 10 n

unfoldable pub nfs4_principal_matches : Nfs4Ace → Inode → ℕ → List ℕ → Bool
nfs4_principal_matches ace inode uid gids =
    str_eq ace.principal "EVERYONE@"
    || str_eq ace.principal "OWNER@" && uid == inode.uid
    || str_eq ace.principal "GROUP@" && contains inode.gid gids
    || str_eq ace.principal ("uid:" ++ to_string uid)
    || any (λ gid. str_eq ace.principal ("gid:" ++ to_string gid)) gids

-- The bit that a permission name stands for; 0 for any other word.
unfoldable pub nfs4_perm_bit : String → ℕ
nfs4_perm_bit p =
    if any (str_eq p) ("r" ∷ "read" ∷ "read-data" ∷ "list-directory" ∷ [])
    then acl_read
    else if any (str_eq p)
        ("w" ∷ "write" ∷ "write-data" ∷ "append-data" ∷ "add-file" ∷ "add-subdirectory" ∷ [])
    then acl_write
    else if any (str_eq p) ("x" ∷ "execute" ∷ [])
    then acl_execute
    else 0

unfoldable pub perm_bits_from : ℕ → List String → ℕ
perm_bits_from acc [] = acc
perm_bits_from acc (p ∷ ps) = perm_bits_from (bit_or acc (nfs4_perm_bit p)) ps

unfoldable pub nfs4_perm_bits : Nfs4Ace → ℕ
nfs4_perm_bits ace = perm_bits_from 0 ace.permissions

unfoldable pub skips : Nfs4Ace → Inode → ℕ → List ℕ → Bool
skips ace inode uid gids =
    any (λ f. str_eq f "inherit-only") ace.flags || not (nfs4_principal_matches ace inode uid gids)

-- `n & !affected`, for u16.
abbrev pub clear_bits : ℕ → ℕ → ℕ
clear_bits n affected = bit_and n (65535 - affected)

-- The loop of `evaluate_nfs4`.
unfoldable pub nfs4_loop : List Nfs4Ace → Inode → ℕ → List ℕ → ℕ → Bool
nfs4_loop [] inode uid gids remaining = false
nfs4_loop (ace ∷ aces) inode uid gids remaining =
    let affected = bit_and (nfs4_perm_bits ace) remaining in
    let remaining' = clear_bits remaining affected in
    let skipped = nfs4_loop aces inode uid gids remaining in
    let later = nfs4_loop aces inode uid gids remaining' in
    if skips ace inode uid gids
    then skipped
    else if affected == 0
    then skipped
    else elim ace.ace_type [ deny ↦ false | allow ↦ if remaining' == 0 then true else later ]

unfoldable pub evaluate_nfs4 : Nfs4Acl → Inode → ℕ → List ℕ → ℕ → Option Bool
evaluate_nfs4 acl inode uid gids requested = elim acl.entries [
  | [] ↦ none
  | ace ∷ aces ↦ some (nfs4_loop (ace ∷ aces) inode uid gids requested)
]

abbrev pub id_in : List ℕ → Option ℕ → Bool
id_in gids none = false
id_in gids (some g) = contains g gids

abbrev pub is_some_id : ℕ → Option ℕ → Bool
is_some_id n none = false
is_some_id n (some id) = id == n

abbrev pub find_user : ℕ → List PosixAclEntry → Option PosixAclEntry
find_user uid = find (λ e. same_tag e.tag user && is_some_id uid e.id)

-- The union of the named groups that match, and whether any does.
unfoldable pub named_groups : List ℕ → List PosixAclEntry → Bool × ℕ → Bool × ℕ
named_groups gids [] acc = acc
named_groups gids (e ∷ es) (matched, perms) = named_groups gids es (
    if same_tag e.tag group && id_in gids e.id
    then (true, bit_or perms e.perms)
    else (matched, perms))

unfoldable pub evaluate_posix : PosixAcl → Inode → ℕ → List ℕ → ℕ → Bool
evaluate_posix acl inode uid gids requested =
    let es = acl.entries in
    let mask_perms = perms_or 7 (find_tag mask es) in
    let owning =
      if contains inode.gid gids
      then (true, perms_or (group_bits inode.mode) (find_tag group_obj es))
      else (false, 0) in
    let (matched, group_perms) = named_groups gids es owning in
    if uid == inode.uid
    then grants (perms_or (owner_bits inode.mode) (find_tag user_obj es)) requested
    else elim (find_user uid es) [
      | some e ↦ grants (bit_and e.perms mask_perms) requested
      | none ↦
          if matched
          then grants (bit_and group_perms mask_perms) requested
          else grants (perms_or (other_bits inode.mode) (find_tag other es)) requested
    ]

unfoldable pub evaluate_mode : Inode → ℕ → List ℕ → ℕ → Bool
evaluate_mode inode uid gids requested =
    let perms =
      if uid == inode.uid
      then owner_bits inode.mode
      else if contains inode.gid gids
      then group_bits inode.mode
      else other_bits inode.mode in
    grants perms requested

-- The ACLs in turn: a decision of the NFSv4 ACL, else the POSIX ACL, else the mode.
unfoldable pub posix_or_mode : Inode → ℕ → List ℕ → ℕ → Bool
posix_or_mode inode uid gids requested = elim inode.posix_acl_access [
  | some acl ↦ evaluate_posix acl inode uid gids requested
  | none ↦ evaluate_mode inode uid gids requested
]

abbrev pub nfs4_decision : Option Nfs4Acl → Inode → ℕ → List ℕ → ℕ → Option Bool
nfs4_decision none inode uid gids requested = none
nfs4_decision (some acl) inode uid gids requested = evaluate_nfs4 acl inode uid gids requested

abbrev pub decided_or : Option Bool → Bool → Bool
decided_or none b = b
decided_or (some allowed) b = allowed

unfoldable pub evaluate_access_with_groups : Inode → ℕ → List ℕ → ℕ → Bool
evaluate_access_with_groups inode uid gids access =
    let requested = requested_bits access in
    if requested == 0
    then true
    else if uid == 0
    then not (has_bit requested acl_execute) || is_directory inode.kind || has_bit inode.mode 0o111
    else decided_or (nfs4_decision inode.nfs4_acl inode uid gids requested)
        (posix_or_mode inode uid gids requested)

unfoldable pub evaluate_access : Inode → ℕ → ℕ → ℕ → Bool
evaluate_access inode uid gid access = evaluate_access_with_groups inode uid (gid ∷ []) access
