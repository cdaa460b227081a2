-- ===== src/Volume/Names.antt =====
-- Names of src/volume/namespace.rs: directory entries, symbolic links and extended attributes. The
-- crate `hex` is the pair of functions `hex_encode` and `hex_decode`.
pub mod RoundTrip
use argos_fs.Common.Bytes.{bytes_of, same_bytes, strip_prefix, starts_with, is_utf8}
use argos_fs.Common.{
  ℕ, Bool, true, false, ◌||◌, List, [], ◌∷◌, ◌++◌, Option, none, some, length, any, ltb, ◌==◌,
  if◌then◌else◌,
}
use argos_fs.Error.{
  Result, ok, err, ◌>>=◌, ◌>>◌, fail_if, invalid, name_too_long, permission_denied, unsupported,
}

abbrev pub non_utf8_name_prefix : List ℕ
non_utf8_name_prefix = bytes_of ".argosfs-name-nonutf8-v3:"

abbrev pub escaped_utf8_name_prefix : List ℕ
escaped_utf8_name_prefix = bytes_of ".argosfs-name-utf8-v3:"

abbrev pub legacy_non_utf8_name_prefix : List ℕ
legacy_non_utf8_name_prefix = 0 ∷ bytes_of "argosfs-name-hex:"

abbrev pub non_utf8_symlink_target_prefix : List ℕ
non_utf8_symlink_target_prefix = 0 ∷ bytes_of "argosfs-symlink-target-hex:"

-- Empty, `.` or `..`.
abbrev pub is_reserved_name : List ℕ → Bool
is_reserved_name name =
    length name == 0 || same_bytes name (bytes_of ".") || same_bytes name (bytes_of "..")

-- A slash or a zero byte.
abbrev pub is_separator : ℕ → Bool
is_separator b = b == 47 || b == 0

unfoldable pub validate_entry_name : List ℕ → Result (Unit {0})
validate_entry_name name = do
  fail_if (is_reserved_name name) invalid
  fail_if (any is_separator name) invalid

unfoldable pub validate_entry_name_bytes : List ℕ → Result (Unit {0})
validate_entry_name_bytes name = do
  fail_if (ltb 255 (length name)) name_too_long
  fail_if (is_reserved_name name) invalid
  fail_if (any is_separator name) invalid

unfoldable pub boot_critical_name : List ℕ → Bool
boot_critical_name name =
    any (λ s. same_bytes name (bytes_of s))
      ("boot" ∷ "etc" ∷ "bin" ∷ "sbin" ∷ "lib" ∷ "lib64" ∷ "usr" ∷ "init" ∷ [])

module _ (hex_encode : List ℕ → List ℕ) where
  -- The stored form of a name.
  abbrev pub encoded_name : List ℕ → List ℕ
  encoded_name name =
      if is_utf8 name
      then (if starts_with non_utf8_name_prefix name || starts_with escaped_utf8_name_prefix name
          then escaped_utf8_name_prefix ++ hex_encode name
          else name)
      else non_utf8_name_prefix ++ hex_encode name

  unfoldable pub entry_name_from_os : List ℕ → Result (List ℕ)
  entry_name_from_os name = do
    validate_entry_name_bytes name
    if is_utf8 name then validate_entry_name name else ok tt
    ok (encoded_name name)

  unfoldable pub encode_symlink_target : List ℕ → List ℕ
  encode_symlink_target target =
      if is_utf8 target then target else non_utf8_symlink_target_prefix ++ hex_encode target

module _ (hex_decode : List ℕ → Option (List ℕ)) where
  abbrev pub decoded_or : List ℕ → Option (List ℕ) → List ℕ
  decoded_or name none = name
  decoded_or name (some bytes) = bytes

  -- The loop over the prefixes.
  unfoldable pub decode_by : List (List ℕ) → List ℕ → List ℕ
  decode_by [] name = name
  decode_by (prefix ∷ rest) name = elim (strip_prefix prefix name) [
    | some encoded ↦ decoded_or name (hex_decode encoded)
    | none ↦ decode_by rest name
  ]

  unfoldable pub decode_entry_name_bytes : List ℕ → List ℕ
  decode_entry_name_bytes =
      decode_by (escaped_utf8_name_prefix ∷ non_utf8_name_prefix ∷ legacy_non_utf8_name_prefix ∷ [])

  unfoldable pub decode_symlink_target_bytes : List ℕ → List ℕ
  decode_symlink_target_bytes target = elim (strip_prefix non_utf8_symlink_target_prefix target) [
    | none ↦ target
    | some encoded ↦ decoded_or target (hex_decode encoded)
  ]

pub data XattrNamespace : Type 0 where
  user trusted security system argos_system : XattrNamespace

unfoldable pub xattr_namespace : List ℕ → Result XattrNamespace
xattr_namespace name =
    if length name == 0 || any (λ b. b == 0) name
    then err invalid
    else if starts_with (bytes_of "user.") name
    then ok user
    else if starts_with (bytes_of "trusted.") name
    then ok trusted
    else if starts_with (bytes_of "security.") name
    then ok security
    else if starts_with (bytes_of "system.argosfs.") name
    then ok argos_system
    else if starts_with (bytes_of "system.") name
    then ok system
    else err invalid

unfoldable pub is_known_system_xattr : List ℕ → Bool
is_known_system_xattr name =
    any (λ s. same_bytes name (bytes_of s))
      ("system.posix_acl_access" ∷ "system.posix_acl_default" ∷ "system.argosfs.posix_acl_access"
        ∷ "system.argosfs.posix_acl_default" ∷ "system.argosfs.nfs4_acl"
        ∷ "system.argosfs.boot_critical" ∷ "security.capability" ∷ [])

abbrev pub may_write : XattrNamespace → Result (Unit {0})
may_write user = ok tt
may_write trusted = err permission_denied
may_write security = err permission_denied
may_write system = err unsupported
may_write argos_system = err unsupported

abbrev pub may_read : XattrNamespace → Result (Unit {0})
may_read argos_system = err unsupported
may_read _ = ok tt

unfoldable pub validate_xattr_write : List ℕ → Result (Unit {0})
validate_xattr_write name =
    if is_known_system_xattr name then ok tt else xattr_namespace name >>= may_write

unfoldable pub validate_xattr_read : List ℕ → Result (Unit {0})
validate_xattr_read name =
    if is_known_system_xattr name then ok tt else xattr_namespace name >>= may_read
