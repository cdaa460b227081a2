-- ===== src/Security/Acl/Counting.antt =====
-- What the loop of `validate_posix_acl` counts, and when it runs to its end.
use argos_fs.Common.{
  ℕ, ◌+◌, ◌/◌, ◌≤◌, ◌<◌, ◌≡◌, refl, sym, subst, ◌↔◌, Bool, false, ◌&&◌, List, [], ◌∷◌, Option, none,
  some, arith, length, All, ◌==◌, if◌then◌else◌,
}
use argos_fs.Error.{ok, >>=-eq-ok, ok-injective}
use argos_fs.Security.Acl.{
  PosixAclTag, user_obj, user, group_obj, group, mask, other, PosixAclEntry, Tally, same_tag,
  contains, validate_acl_id, count_entry, check_entry, check_entries, add_id,
}

-- How many entries have the tag.
abbrev pub count_tag : PosixAclTag → List PosixAclEntry → ℕ
count_tag t [] = 0
count_tag t (e ∷ es) = (if same_tag e.tag t then 1 else 0) + count_tag t es

abbrev pub is_id : ℕ → Option ℕ → Bool
is_id n none = false
is_id n (some id) = id == n

-- How many entries have the tag and the id.
abbrev pub count_id : PosixAclTag → ℕ → List PosixAclEntry → ℕ
count_id t n [] = 0
count_id t n (e ∷ es) = (if same_tag e.tag t && is_id n e.id then 1 else 0) + count_id t n es

-- Named entries have an id, the others none.
abbrev pub IdFits : PosixAclTag → Option ℕ → Type 0
IdFits user id = (n : ℕ) × (id ≡ some n)
IdFits group id = (n : ℕ) × (id ≡ some n)
IdFits _ id = id ≡ none

abbrev pub occurrences : ℕ → List ℕ → ℕ
occurrences n [] = 0
occurrences n (x ∷ xs) = (if x == n then 1 else 0) + occurrences n xs

not_contains : (n : ℕ) (xs : List ℕ) → contains n xs ≡ false → occurrences n xs ≡ 0
not_contains n [] h = refl
not_contains n (x ∷ xs) h = ground (arith, not_contains n xs)

not_occurs : (n : ℕ) (xs : List ℕ) → occurrences n xs ≡ 0 → contains n xs ≡ false
not_occurs n [] h = refl
not_occurs n (x ∷ xs) h = ground (arith, not_occurs n xs)

-- What the loop has counted between two states.
pub record Tallied (t : Tally) (es : List PosixAclEntry) (u : Tally) : Type 0 where
  pub perms : All (λ e. e.perms < 8) es
  pub ids : All (λ e. IdFits e.tag e.id) es
  pub user_objs : u.user_objs ≡ t.user_objs + count_tag user_obj es
  pub group_objs : u.group_objs ≡ t.group_objs + count_tag group_obj es
  pub masks : u.masks ≡ t.masks + count_tag mask es
  pub others : u.others ≡ t.others + count_tag other es
  pub users :
      (n : ℕ) → occurrences n u.named_users ≡ occurrences n t.named_users + count_id user n es
  pub groups :
      (n : ℕ) → occurrences n u.named_groups ≡ occurrences n t.named_groups + count_id group n es
  pub users_once :
      ((n : ℕ) → occurrences n t.named_users ≤ 1) → (n : ℕ) → occurrences n u.named_users ≤ 1
  pub groups_once :
      ((n : ℕ) → occurrences n t.named_groups ≤ 1) → (n : ℕ) → occurrences n u.named_groups ≤ 1
  pub user_count : length u.named_users ≡ length t.named_users + count_tag user es
  pub group_count : length u.named_groups ≡ length t.named_groups + count_tag group es

abbrev entry : PosixAclTag → Option ℕ → ℕ → PosixAclEntry
entry tag id perms = record { tag = tag; id = id; perms = perms }

entry_parts :
    (t u : Tally) (e : PosixAclEntry)
    → check_entry t e ≡ ok u
    → (e.perms < 8) × (validate_acl_id e.tag e.id ≡ ok tt) × (count_entry t e.tag e.id ≡ ok u)
unfolding check_entry
entry_parts t u e h = ground arith

check_entry_passes :
    (t u : Tally) (e : PosixAclEntry)
    → e.perms < 8
    → validate_acl_id e.tag e.id ≡ ok tt
    → count_entry t e.tag e.id ≡ ok u
    → check_entry t e ≡ ok u
unfolding check_entry
check_entry_passes t u e p i c = let low : e.perms / 8 ≡ 0 = omega arith in rw (low, i) c

pub validate_acl_id_iff :
    (t : PosixAclTag) (id : Option ℕ) → (validate_acl_id t id ≡ ok tt) ↔ IdFits t id
unfolding validate_acl_id
validate_acl_id_iff user none = (λ h. cc, λ h. absurd (cc))
validate_acl_id_iff user (some n) = (λ h. (n, refl), λ h. refl)
validate_acl_id_iff group none = (λ h. cc, λ h. absurd (cc))
validate_acl_id_iff group (some n) = (λ h. (n, refl), λ h. refl)
validate_acl_id_iff t none = (λ h. refl, λ h. refl)
validate_acl_id_iff t (some n) = (λ h. cc, λ h. cc)

-- A new id in one of the sets.
add_once :
    (n m : ℕ) (xs : List ℕ)
    → contains n xs ≡ false
    → occurrences m xs ≤ 1
    → occurrences m (n ∷ xs) ≤ 1
add_once n m xs h o = ground (arith, not_contains n xs h)

add_id_cases :
    (n : ℕ) (xs : List ℕ) (f : List ℕ → Tally) (u : Tally)
    → add_id (some n) xs f ≡ ok u
    → (contains n xs ≡ false) × (f (n ∷ xs) ≡ u)
add_id_cases n xs f u h = ground arith

-- The state after an entry that carries no id.
counted : Tally → PosixAclTag → Tally
counted t user_obj = record t { user_objs = t.user_objs + 1 }
counted t group_obj = record t { group_objs = t.group_objs + 1 }
counted t mask = record t { masks = t.masks + 1 }
counted t other = record t { others = t.others + 1 }
counted t _ = t

count_entry-Tallied :
    (t u : Tally) (tag : PosixAclTag) (id : Option ℕ) (perms : ℕ)
    → perms < 8
    → IdFits tag id
    → count_entry t tag id ≡ ok u
    → Tallied t (entry tag id perms ∷ []) u
unfolding count_entry counted
count_entry-Tallied t u user id perms p (n, i) h =
    let (new, e) =
      add_id_cases n t.named_users (λ ids. record t { named_users = ids }) u (rw i at h) in
    subst (λ j. Tallied t (entry user j perms ∷ []) u) (sym i)
      (let v : Tally = record t { named_users = n ∷ t.named_users } in
        let made : Tallied t (entry user (some n) perms ∷ []) v = record {
          perms = (p, tt);
          ids = ((n, refl), tt);
          user_objs = omega arith;
          group_objs = omega arith;
          masks = omega arith;
          others = omega arith;
          users = λ m. omega arith;
          groups = λ m. omega arith;
          users_once = λ f m. add_once n m t.named_users new (f m);
          groups_once = λ f. f;
          user_count = omega arith;
          group_count = omega arith;
        } in
        subst (Tallied t (entry user (some n) perms ∷ [])) e made)
count_entry-Tallied t u group id perms p (n, i) h =
    let (new, e) =
      add_id_cases n t.named_groups (λ ids. record t { named_groups = ids }) u (rw i at h) in
    subst (λ j. Tallied t (entry group j perms ∷ []) u) (sym i)
      (let v : Tally = record t { named_groups = n ∷ t.named_groups } in
        let made : Tallied t (entry group (some n) perms ∷ []) v = record {
          perms = (p, tt);
          ids = ((n, refl), tt);
          user_objs = omega arith;
          group_objs = omega arith;
          masks = omega arith;
          others = omega arith;
          users = λ m. omega arith;
          groups = λ m. omega arith;
          users_once = λ f. f;
          groups_once = λ f m. add_once n m t.named_groups new (f m);
          user_count = omega arith;
          group_count = omega arith;
        } in
        subst (Tallied t (entry group (some n) perms ∷ [])) e made)
count_entry-Tallied t u tag id perms p i h =
    let made : Tallied t (entry tag id perms ∷ []) (counted t tag) = record {
      perms = (p, tt);
      ids = (i, tt);
      user_objs = omega arith;
      group_objs = omega arith;
      masks = omega arith;
      others = omega arith;
      users = λ m. omega arith;
      groups = λ m. omega arith;
      users_once = λ f. f;
      groups_once = λ f. f;
      user_count = omega arith;
      group_count = omega arith;
    } in
    subst (Tallied t (entry tag id perms ∷ [])) (ok-injective h) made

pub check_entries-Tallied :
    (t u : Tally) (es : List PosixAclEntry) → check_entries t es ≡ ok u → Tallied t es u
unfolding check_entries
check_entries-Tallied t u [] h =
    let made : Tallied t [] t = record {
      perms = tt;
      ids = tt;
      user_objs = omega arith;
      group_objs = omega arith;
      masks = omega arith;
      others = omega arith;
      users = λ m. omega arith;
      groups = λ m. omega arith;
      users_once = λ f. f;
      groups_once = λ f. f;
      user_count = omega arith;
      group_count = omega arith;
    } in
    subst (Tallied t []) (ok-injective h) made
check_entries-Tallied t u (e ∷ es) h =
    let (v, c, r) = >>=-eq-ok (check_entry t e) _ h in
    let (p, i, k) = entry_parts t v e c in
    let one =
      count_entry-Tallied t v e.tag e.id e.perms p ((validate_acl_id_iff e.tag e.id).0 i) k in
    let rest = check_entries-Tallied v u es r in
    record {
      perms = (p, rest.perms);
      ids = (one.ids.0, rest.ids);
      user_objs = omega (arith, one.user_objs, rest.user_objs);
      group_objs = omega (arith, one.group_objs, rest.group_objs);
      masks = omega (arith, one.masks, rest.masks);
      others = omega (arith, one.others, rest.others);
      users = λ m. omega (arith, one.users m, rest.users m);
      groups = λ m. omega (arith, one.groups m, rest.groups m);
      users_once = λ f. rest.users_once (one.users_once f);
      groups_once = λ f. rest.groups_once (one.groups_once f);
      user_count = omega (arith, one.user_count, rest.user_count);
      group_count = omega (arith, one.group_count, rest.group_count);
    }

add_id_total :
    (n : ℕ) (xs : List ℕ) (f : List ℕ → Tally)
    → occurrences n xs ≡ 0
    → (u : Tally) × (add_id (some n) xs f ≡ ok u)
add_id_total n xs f h = (f (n ∷ xs), ground (arith, not_occurs n xs h))

count_entry_total :
    (t : Tally) (tag : PosixAclTag) (id : Option ℕ) (perms : ℕ)
    → IdFits tag id
    → ((n : ℕ) → occurrences n t.named_users + count_id user n (entry tag id perms ∷ []) ≤ 1)
    → ((n : ℕ) → occurrences n t.named_groups + count_id group n (entry tag id perms ∷ []) ≤ 1)
    → (u : Tally) × (count_entry t tag id ≡ ok u)
unfolding count_entry counted
count_entry_total t user id perms (n, i) us gs =
    let fresh : occurrences n t.named_users ≡ 0 = ground (arith, us n, i) in
    rw i (add_id_total n t.named_users (λ ids. record t { named_users = ids }) fresh)
count_entry_total t group id perms (n, i) us gs =
    let fresh : occurrences n t.named_groups ≡ 0 = ground (arith, gs n, i) in
    rw i (add_id_total n t.named_groups (λ ids. record t { named_groups = ids }) fresh)
count_entry_total t tag id perms i us gs = (counted t tag, refl)

-- The loop ends with a state if no id comes twice.
pub check_entries_total :
    (t : Tally) (es : List PosixAclEntry)
    → All (λ e. e.perms < 8) es
    → All (λ e. IdFits e.tag e.id) es
    → ((n : ℕ) → occurrences n t.named_users + count_id user n es ≤ 1)
    → ((n : ℕ) → occurrences n t.named_groups + count_id group n es ≤ 1)
    → (u : Tally) × (check_entries t es ≡ ok u)
unfolding check_entries
check_entries_total t [] p i us gs = (t, refl)
check_entries_total t (e ∷ es) p i us gs =
    let (v, c) =
      count_entry_total t e.tag e.id e.perms i.0 (λ n. omega (arith, us n))
        (λ n. omega (arith, gs n)) in
    let one = count_entry-Tallied t v e.tag e.id e.perms p.0 i.0 c in
    let (u, rest) =
      check_entries_total v es p.1 i.1 (λ n. omega (arith, us n, one.users n))
        (λ n. omega (arith, gs n, one.groups n)) in
    (u, rw (check_entry_passes t v e p.0 ((validate_acl_id_iff e.tag e.id).1 i.0) c) rest)
