-- ===== src/Security/Acl/Validate.antt =====
-- `validate_posix_acl` decides whether an ACL is well formed.
use argos_fs.Common.{ℕ, ◌+◌, ◌≤◌, ◌<◌, ◌≡◌, ◌↔◌, List, arith, length, All}
use argos_fs.Error.{ok, >>=-eq-ok}
use argos_fs.Security.Acl.{
  user_obj, user, group_obj, group, mask, other, PosixAclEntry, PosixAcl, Tally, no_entries,
  check_entries, check_tally, validate_posix_acl,
}
use argos_fs.Security.Acl.Counting.{
  count_tag, count_id, IdFits, Tallied, check_entries-Tallied, check_entries_total,
}

pub record IsWellFormed (es : List PosixAclEntry) : Type 0 where
  pub perms : All (λ e. e.perms < 8) es
  pub ids : All (λ e. IdFits e.tag e.id) es
  pub one_owner : count_tag user_obj es ≡ 1
  pub one_group : count_tag group_obj es ≡ 1
  pub one_other : count_tag other es ≡ 1
  pub one_mask : count_tag mask es ≤ 1
  pub users_once : (n : ℕ) → count_id user n es ≤ 1
  pub groups_once : (n : ℕ) → count_id group n es ≤ 1
  pub masked : 0 < count_tag user es + count_tag group es → count_tag mask es ≡ 1

check_tally_parts :
    (t : Tally)
    → (check_tally t ≡ ok tt) ↔ (
        (t.user_objs ≡ 1)
        × (t.group_objs ≡ 1)
        × (t.others ≡ 1)
        × (t.masks ≤ 1)
        × (0 < length t.named_users + length t.named_groups → t.masks ≡ 1))
unfolding check_tally
check_tally_parts t =
    let u = t.named_users in let g = t.named_groups in (λ h. ground arith, λ h. ground arith)

well_formed :
    (es : List PosixAclEntry) (t : Tally)
    → Tallied no_entries es t
    → check_tally t ≡ ok tt
    → IsWellFormed es
well_formed es t c h =
    let (a, b, d, e, f) = (check_tally_parts t).0 h in
    record {
      perms = c.perms;
      ids = c.ids;
      one_owner = omega (arith, c.user_objs);
      one_group = omega (arith, c.group_objs);
      one_other = omega (arith, c.others);
      one_mask = omega (arith, c.masks);
      users_once = λ n. omega (arith, c.users n, c.users_once (λ m. omega arith) n);
      groups_once = λ n. omega (arith, c.groups n, c.groups_once (λ m. omega arith) n);
      masked = λ p. omega (arith, c.masks, f (omega (arith, c.user_count, c.group_count)));
    }

-- The test passes exactly for the ACLs with permissions of three bits, an id on the named entries
-- and on no others, one owner, one owning-group and one other entry, no id named twice for users
-- or for groups, at most one mask, and a mask where any user or group is named.
pub validate_posix_acl_iff :
    (acl : PosixAcl) → (validate_posix_acl acl ≡ ok tt) ↔ IsWellFormed acl.entries
unfolding validate_posix_acl
validate_posix_acl_iff acl = (
  λ h.
      let (t, c, k) = >>=-eq-ok (check_entries no_entries acl.entries) _ h in
      well_formed acl.entries t (check_entries-Tallied no_entries t acl.entries c) k,
  λ w.
      let (t, c) =
        check_entries_total no_entries acl.entries w.perms w.ids
          (λ n. omega (arith, w.users_once n)) (λ n. omega (arith, w.groups_once n)) in
      let k = check_entries-Tallied no_entries t acl.entries c in
      rw c (
        (check_tally_parts t).1 (
          omega (arith, k.user_objs, w.one_owner),
          omega (arith, k.group_objs, w.one_group),
          omega (arith, k.others, w.one_other),
          omega (arith, k.masks, w.one_mask),
          λ p. omega (arith, k.masks, w.masked (omega (arith, k.user_count, k.group_count))),
        )),
)
