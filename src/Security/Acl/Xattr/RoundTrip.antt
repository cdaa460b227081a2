-- ===== src/Security/Acl/Xattr/RoundTrip.antt =====
-- A valid ACL is read back from its binary form.
use argos_fs.Common.Word.{u32_max}
use argos_fs.Common.{
  ℕ, ◌+◌, ◌*◌, ◌/◌, ◌%◌, ◌<◌, ◌≡◌, refl, ◌∙◌, true, false, List, [], ◌∷◌, ◌++◌, Option, none, some,
  length, All, arith, ◌==◌, unwrap_or,
}
use argos_fs.Error.{ok, ◌>>=◌}
use argos_fs.Security.Acl.Counting.{IdFits, validate_acl_id_iff}
use argos_fs.Security.Acl.Validate.{validate_posix_acl_iff}
use argos_fs.Security.Acl.Xattr.{
  acl_undefined_id, u16_from_le_bytes, u32_from_le_bytes, tag_code, tag_of_code, entry_to_bytes,
  entries_to_bytes, posix_acl_to_xattr, is_invalid_length, id_of_raw, parse_entry, parse_chunks,
  parse_posix_acl_binary,
}
use argos_fs.Security.Acl.{
  PosixAclTag, user_obj, user, group_obj, group, mask, other, PosixAclEntry, PosixAcl,
  validate_posix_acl, beyond_rwx,
}

-- An id that is not the value kept for "no id".
abbrev IsDefined : Option ℕ → Type 0
IsDefined none = Unit
IsDefined (some n) = n < u32_max

u16_round_trip : (n : ℕ) → n < 65536 → u16_from_le_bytes (n % 256) (n / 256 % 256) ≡ n
u16_round_trip n h = omega arith

u32_round_trip :
    (n : ℕ)
    → n < 4294967296
    → u32_from_le_bytes (n % 256) (n / 256 % 256) (n / 65536 % 256) (n / 16777216 % 256) ≡ n
u32_round_trip n h = omega arith

tag_round_trip :
    (t : PosixAclTag)
    → tag_of_code (u16_from_le_bytes (tag_code t % 256) (tag_code t / 256 % 256)) ≡ ok t
tag_round_trip user_obj = refl
tag_round_trip user = refl
tag_round_trip group_obj = refl
tag_round_trip group = refl
tag_round_trip mask = refl
tag_round_trip other = refl

id_round_trip : (id : Option ℕ) → IsDefined id → id_of_raw (unwrap_or acl_undefined_id id) ≡ id
id_round_trip none h = refl
id_round_trip (some n) h = ground arith

raw_id : Option ℕ → ℕ
raw_id id = unwrap_or acl_undefined_id id

raw_id-lt : (id : Option ℕ) → IsDefined id → raw_id id < 4294967296
unfolding raw_id
raw_id-lt none h = omega arith
raw_id-lt (some n) h = omega arith

parse_entry-entry :
    (e : PosixAclEntry)
    → e.perms < 8
    → IdFits e.tag e.id
    → IsDefined e.id
    → parse_entry
        (u16_from_le_bytes (tag_code e.tag % 256) (tag_code e.tag / 256 % 256))
        e.perms
        (raw_id e.id)
      ≡ ok e
unfolding parse_entry raw_id
parse_entry-entry e hp hi hd =
    let small : (beyond_rwx e.perms == 0) ≡ true = ground arith in
    simp (small, tag_round_trip e.tag, id_round_trip e.id hd, (validate_acl_id_iff e.tag e.id).1 hi)

parse_chunks-cons :
    (e : PosixAclEntry) (rest : List ℕ)
    → e.perms < 8
    → IdFits e.tag e.id
    → IsDefined e.id
    → parse_chunks (entry_to_bytes e ++ rest) ≡ (parse_chunks rest >>= λ es. ok (e ∷ es))
unfolding parse_chunks entry_to_bytes raw_id
parse_chunks-cons e rest hp hi hd =
    rw
      (
        u16_round_trip e.perms (omega arith),
        u32_round_trip (raw_id e.id) (raw_id-lt e.id hd),
        parse_entry-entry e hp hi hd,
      )
      refl

parse_chunks-entries_to_bytes :
    (es : List PosixAclEntry)
    → All (λ e. e.perms < 8) es
    → All (λ e. IdFits e.tag e.id) es
    → All (λ e. IsDefined e.id) es
    → parse_chunks (entries_to_bytes es) ≡ ok es
unfolding entries_to_bytes parse_chunks
parse_chunks-entries_to_bytes [] p i d = refl
parse_chunks-entries_to_bytes (e ∷ es) (p, ps) (i, is) (d, ds) =
    parse_chunks-cons e (entries_to_bytes es) p i d
    ∙ rw (parse_chunks-entries_to_bytes es ps is ds) refl

length-entry_to_bytes :
    (e : PosixAclEntry) (rest : List ℕ) → length (entry_to_bytes e ++ rest) ≡ 8 + length rest
unfolding entry_to_bytes
length-entry_to_bytes e rest = omega arith

length-entries_to_bytes : (es : List PosixAclEntry) → length (entries_to_bytes es) ≡ length es * 8
unfolding entries_to_bytes
length-entries_to_bytes [] = refl
length-entries_to_bytes (e ∷ es) =
    omega (arith, length-entry_to_bytes e (entries_to_bytes es), length-entries_to_bytes es)

length-posix_acl_to_xattr :
    (acl : PosixAcl) → length (posix_acl_to_xattr acl) ≡ 4 + length acl.entries * 8
unfolding posix_acl_to_xattr
length-posix_acl_to_xattr acl = omega (arith, length-entries_to_bytes acl.entries)

is_invalid_length-false : (n m : ℕ) → n ≡ 4 + m * 8 → is_invalid_length n ≡ false
is_invalid_length-false n m h = ground arith

-- A valid ACL whose ids are all below `u32::MAX` is read back from its binary form unchanged.
pub parse_posix_acl_binary-posix_acl_to_xattr :
    (acl : PosixAcl)
    → validate_posix_acl acl ≡ ok tt
    → All (λ e. IsDefined e.id) acl.entries
    → parse_posix_acl_binary (posix_acl_to_xattr acl) ≡ ok acl
unfolding parse_posix_acl_binary posix_acl_to_xattr
parse_posix_acl_binary-posix_acl_to_xattr acl valid defined =
    let w = (validate_posix_acl_iff acl).0 valid in
    let es = acl.entries in
    rw
      (
        is_invalid_length-false _ (length es) (length-posix_acl_to_xattr acl),
        parse_chunks-entries_to_bytes es w.perms w.ids defined,
        valid,
      )
      refl
