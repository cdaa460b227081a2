-- ===== src/Security/Acl/Xattr.antt =====
-- The binary form of a POSIX ACL in src/security/acl.rs: `posix_acl_to_xattr`,
-- `parse_posix_acl_binary` and `is_empty_posix_acl_xattr`. Bytes are numbers below 256.
pub mod RoundTrip
use argos_fs.Common.Word.{u32_max, is_multiple_of}
use argos_fs.Common.{
  ℕ, ◌+◌, ◌-◌, ◌*◌, ◌/◌, ◌%◌, Bool, true, false, ◌&&◌, ◌||◌, not, List, [], ◌∷◌, ◌++◌, Option, none,
  some, length, ltb, ◌==◌, if◌then◌else◌, unwrap_or,
}
use argos_fs.Error.{Result, ok, err, ◌>>=◌, ◌>>◌, fail_if, invalid}
use argos_fs.Security.Acl.{
  PosixAclTag, user_obj, user, group_obj, group, mask, other, PosixAclEntry, PosixAcl, beyond_rwx,
  validate_acl_id, validate_posix_acl,
}

abbrev pub posix_acl_xattr_version : ℕ
posix_acl_xattr_version = 2

-- `ACL_UNDEFINED_ID`.
abbrev pub acl_undefined_id : ℕ
acl_undefined_id = u32_max

-- `to_le_bytes` and `from_le_bytes` of u16 and u32.
abbrev pub u16_to_le_bytes : ℕ → List ℕ
u16_to_le_bytes n = n % 256 ∷ n / 256 % 256 ∷ []

abbrev pub u32_to_le_bytes : ℕ → List ℕ
u32_to_le_bytes n = n % 256 ∷ n / 256 % 256 ∷ n / 65536 % 256 ∷ n / 16777216 % 256 ∷ []

abbrev pub u16_from_le_bytes : ℕ → ℕ → ℕ
u16_from_le_bytes a b = a + b * 256

abbrev pub u32_from_le_bytes : ℕ → ℕ → ℕ → ℕ → ℕ
u32_from_le_bytes a b c d = a + b * 256 + c * 65536 + d * 16777216

-- `ACL_USER_OBJ_TAG` to `ACL_OTHER_TAG`.
abbrev pub tag_code : PosixAclTag → ℕ
tag_code user_obj = 1
tag_code user = 2
tag_code group_obj = 4
tag_code group = 8
tag_code mask = 16
tag_code other = 32

abbrev pub tag_of_code : ℕ → Result PosixAclTag
tag_of_code n =
    if n == 1
    then ok user_obj
    else if n == 2
    then ok user
    else if n == 4
    then ok group_obj
    else if n == 8
    then ok group
    else if n == 16
    then ok mask
    else if n == 32
    then ok other
    else err invalid

unfoldable pub entry_to_bytes : PosixAclEntry → List ℕ
entry_to_bytes e =
    u16_to_le_bytes (tag_code e.tag)
    ++ u16_to_le_bytes e.perms
    ++ u32_to_le_bytes (unwrap_or acl_undefined_id e.id)

unfoldable pub entries_to_bytes : List PosixAclEntry → List ℕ
entries_to_bytes [] = []
entries_to_bytes (e ∷ es) = entry_to_bytes e ++ entries_to_bytes es

unfoldable pub posix_acl_to_xattr : PosixAcl → List ℕ
posix_acl_to_xattr acl = u32_to_le_bytes posix_acl_xattr_version ++ entries_to_bytes acl.entries

-- `(raw_id != ACL_UNDEFINED_ID).then_some(raw_id)`.
abbrev pub id_of_raw : ℕ → Option ℕ
id_of_raw n = if n == acl_undefined_id then none else some n

-- The body of the loop over the chunks.
unfoldable pub parse_entry : ℕ → ℕ → ℕ → Result PosixAclEntry
parse_entry raw_tag raw_perms raw_id = do
  fail_if (not (beyond_rwx raw_perms == 0)) invalid
  tag ← tag_of_code raw_tag
  let id = id_of_raw raw_id
  validate_acl_id tag id
  ok (record { tag = tag; id = id; perms = raw_perms })

-- The loop; as `chunks_exact`, it leaves what is shorter than a chunk.
unfoldable pub parse_chunks : List ℕ → Result (List PosixAclEntry)
parse_chunks (a ∷ b ∷ c ∷ d ∷ e ∷ f ∷ g ∷ h ∷ rest) = do
  entry ← parse_entry (u16_from_le_bytes a b) (u16_from_le_bytes c d) (u32_from_le_bytes e f g h)
  entries ← parse_chunks rest
  ok (entry ∷ entries)
parse_chunks _ = ok []

abbrev pub behind_version : List ℕ → List ℕ
behind_version (a ∷ b ∷ c ∷ d ∷ rest) = rest
behind_version _ = []

-- `value.len() < 4 || !(value.len() - 4).is_multiple_of(8)`.
abbrev pub is_invalid_length : ℕ → Bool
is_invalid_length n = ltb n 4 || not (is_multiple_of (n - 4) 8)

unfoldable pub parse_posix_acl_binary : List ℕ → Result PosixAcl
parse_posix_acl_binary value = do
  fail_if (is_invalid_length (length value)) invalid
  entries ← parse_chunks (behind_version value)
  let acl : PosixAcl = record { entries = entries }
  validate_posix_acl acl
  ok acl

unfoldable pub is_empty_posix_acl_xattr : List ℕ → Bool
is_empty_posix_acl_xattr [] = true
is_empty_posix_acl_xattr (a ∷ b ∷ c ∷ d ∷ []) = a == 2 && b == 0 && c == 0 && d == 0
is_empty_posix_acl_xattr _ = false
