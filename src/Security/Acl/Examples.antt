-- ===== src/Security/Acl/Examples.antt =====
-- The theorems on ACLs at concrete ACLs and inodes.
use argos_fs.Common.{ℕ, ◌+◌, ◌≡◌, refl, ◌↔◌, true, ◌&&◌, [], ◌∷◌, Option, none, some, arith}
use argos_fs.Common.Word.{u32_max}
use argos_fs.Error.{ok, err, invalid}
use argos_fs.Security.Acl.Evaluate.Bits.{Permission, bit}
use argos_fs.Security.Acl.Evaluate.Nfs4.{Allows, evaluate_access_with_groups_nfs4}
use argos_fs.Security.Acl.Evaluate.Posix.{
  group_class_has, mask_has, evaluate_posix_group_class, evaluate_posix-evaluate_mode,
}
use argos_fs.Security.Acl.Evaluate.{
  has_bit, requested_bits, evaluate_posix, evaluate_mode, evaluate_access_with_groups,
}
use argos_fs.Security.Acl.Mode.{mode_from_access_acl-apply_mode_to_access_acl}
use argos_fs.Security.Acl.PermBits.{
  format_perm_bits, parse_perm_bits, parse_perm_bits-format_perm_bits,
}
use argos_fs.Security.Acl.Validate.{IsWellFormed, validate_posix_acl_iff}
use argos_fs.Security.Acl.Xattr.RoundTrip.{parse_posix_acl_binary-posix_acl_to_xattr}
use argos_fs.Security.Acl.Xattr.{
  parse_posix_acl_binary, posix_acl_to_xattr, entries_to_bytes, entry_to_bytes, parse_chunks,
  parse_entry,
}
use argos_fs.Security.Acl.{
  PosixAclTag, user_obj, user, group_obj, group, mask, other, PosixAclEntry, PosixAcl, allow, deny,
  Nfs4Ace, Nfs4Acl, file, Inode, validate_posix_acl, validate_acl_id, check_entries, check_entry,
  count_entry, check_tally, apply_mode_to_access_acl, mode_from_access_acl,
}

abbrev entry : PosixAclTag → Option ℕ → ℕ → PosixAclEntry
entry t id p = record { tag = t; id = id; perms = p }

abbrev minimal : PosixAcl
minimal = record {
  entries = entry user_obj none 6 ∷ entry group_obj none 4 ∷ entry other none 0 ∷ [];
}

-- user::rw-,user:1000:rwx,group::r--,group:50:-w-,mask::rw-,other::---
abbrev extended : PosixAcl
extended = record {
  entries =
      entry user_obj none 6
      ∷ entry user (some 1000) 7
      ∷ entry group_obj none 4
      ∷ entry group (some 50) 2
      ∷ entry mask none 6
      ∷ entry other none 0
      ∷ [];
}

abbrev everyone_reads : Nfs4Ace
everyone_reads = record {
  ace_type = allow;
  principal = "EVERYONE@";
  flags = [];
  permissions = "read" ∷ [];
}

abbrev user_writes_not : Nfs4Ace
user_writes_not = record {
  ace_type = deny;
  principal = "uid:1000";
  flags = [];
  permissions = "write" ∷ "execute" ∷ [];
}

abbrev nfs4 : Nfs4Acl
nfs4 = record { entries = user_writes_not ∷ everyone_reads ∷ [] }

abbrev inode : Inode
inode = record {
  kind = file;
  mode = 0o640;
  uid = 7;
  gid = 20;
  posix_acl_access = some extended;
  posix_acl_default = none;
  nfs4_acl = some nfs4;
}

extended_valid : validate_posix_acl extended ≡ ok tt
unfolding validate_posix_acl check_entries check_entry validate_acl_id count_entry check_tally
extended_valid = refl

-- An ACL that names the user `u32::MAX` is valid, and its binary form is refused.
abbrev last_user : PosixAcl
last_user = record { entries = entry user (some u32_max) 4 ∷ entry mask none 6 ∷ minimal.entries }

last_user_valid : validate_posix_acl last_user ≡ ok tt
unfolding validate_posix_acl check_entries check_entry validate_acl_id count_entry check_tally
last_user_valid = refl

last_user_refused : parse_posix_acl_binary (posix_acl_to_xattr last_user) ≡ err invalid
unfolding parse_posix_acl_binary posix_acl_to_xattr entries_to_bytes entry_to_bytes parse_chunks
    parse_entry validate_acl_id
last_user_refused = refl

validate_posix_acl_iff_example :
    (validate_posix_acl extended ≡ ok tt) ↔ IsWellFormed extended.entries
validate_posix_acl_iff_example = validate_posix_acl_iff extended

mode_from_access_acl-apply_mode_to_access_acl_example :
    mode_from_access_acl (apply_mode_to_access_acl extended 0o751) 0o4000 ≡ 2048 + 489
mode_from_access_acl-apply_mode_to_access_acl_example =
    mode_from_access_acl-apply_mode_to_access_acl extended 0o751 0o4000 refl refl refl

evaluate_access_with_groups_nfs4_example :
    (evaluate_access_with_groups inode 1000 (50 ∷ []) 4 ≡ true)
    ↔ Allows inode 1000 (50 ∷ []) nfs4.entries (requested_bits 4)
evaluate_access_with_groups_nfs4_example =
    evaluate_access_with_groups_nfs4 inode nfs4 user_writes_not (everyone_reads ∷ []) 1000 (50 ∷ [])
      4 refl refl refl

evaluate_posix_group_class_example :
    (evaluate_posix extended inode 1001 (20 ∷ 50 ∷ []) 6 ≡ true) ↔ (
      (b : Permission)
      → has_bit 6 (bit b) ≡ true
      → (group_class_has extended inode (20 ∷ 50 ∷ []) b && mask_has extended b) ≡ true)
evaluate_posix_group_class_example =
    evaluate_posix_group_class extended inode 1001 (20 ∷ 50 ∷ []) 6
      (omega arith, (omega arith, (omega arith, (omega arith, (omega arith, (omega arith, tt))))))
      (omega arith) refl refl refl

evaluate_posix-evaluate_mode_example :
    evaluate_posix minimal inode 9 (20 ∷ []) 4 ≡ evaluate_mode inode 9 (20 ∷ []) 4
unfolding mode_from_access_acl
evaluate_posix-evaluate_mode_example =
    evaluate_posix-evaluate_mode minimal inode 9 (20 ∷ []) 4 (refl, (refl, (refl, tt)))
      (omega arith, (omega arith, (omega arith, tt))) refl

parse_posix_acl_binary-posix_acl_to_xattr_example :
    parse_posix_acl_binary (posix_acl_to_xattr extended) ≡ ok extended
parse_posix_acl_binary-posix_acl_to_xattr_example =
    parse_posix_acl_binary-posix_acl_to_xattr extended extended_valid
      (tt, (omega arith, (tt, (omega arith, (tt, (tt, tt))))))

parse_perm_bits-format_perm_bits_example : parse_perm_bits (format_perm_bits 5) ≡ ok 5
parse_perm_bits-format_perm_bits_example = parse_perm_bits-format_perm_bits 5 (omega arith)
