-- ===== src/Security/Acl/Mode.antt =====
-- A mode and the access ACL: `chmod` on an ACL, and the mode that an ACL shows.
use argos_fs.Common.Bits.{bit_or-shift, bit_or_low}
use argos_fs.Common.{
  ℕ, ◌+◌, ◌*◌, ◌/◌, ◌%◌, ◌<◌, ◌≡◌, refl, sym, subst, ◌∙◌, inl, inr, Bool, true, false, ◌||◌, List,
  [], ◌∷◌, map, none, some, arith, Bool-cases,
}
use argos_fs.Security.Acl.{
  PosixAclTag, user_obj, group_obj, mask, other, PosixAclEntry, PosixAcl, same_tag, find_tag,
  has_tag, set_perms, or_else, owner_bits, group_bits, other_bits, apply_mode_to_access_acl,
  mode_from_access_acl,
}
use Prim.Native.Nat.{bit_or}

-- Four digits put together by `|`.
join_bits :
    (high owner group others : ℕ)
    → owner < 8
    → group < 8
    → others < 8
    → bit_or (bit_or (bit_or (high * 512) (owner * 64)) (group * 8)) others
      ≡ high * 512 + owner * 64 + group * 8 + others
join_bits h o g t ho hg ht =
    let e1 : bit_or (h * 512) (o * 64) ≡ (h * 8 + o) * 64 =
      let a : h * 512 ≡ h * 8 * 8 * 8 = omega arith in
      let b : o * 64 ≡ o * 8 * 8 = omega arith in
      rw (a, b)
        (omega
          (arith, bit_or-shift (h * 8 * 8) (o * 8), bit_or-shift (h * 8) o, bit_or_low h o ho)) in
    let e2 : bit_or ((h * 8 + o) * 64) (g * 8) ≡ ((h * 8 + o) * 8 + g) * 8 =
      let a : (h * 8 + o) * 64 ≡ (h * 8 + o) * 8 * 8 = omega arith in
      rw a (omega (arith, bit_or-shift ((h * 8 + o) * 8) g, bit_or_low (h * 8 + o) g hg)) in
    rw (e1, e2) (omega (arith, bit_or_low ((h * 8 + o) * 8 + g) t ht))

-- The digits of a mode that is put together from them.
pub joined_digits :
    (mode owner group others : ℕ)
    → owner < 8
    → group < 8
    → others < 8
    → bit_or (bit_or (bit_or (mode / 512 * 512) (owner * 64)) (group * 8)) others ≡ mode
    → (owner ≡ owner_bits mode) × (group ≡ group_bits mode) × (others ≡ other_bits mode)
joined_digits mode o g t ho hg ht e =
    let joined = join_bits (mode / 512) o g t ho hg ht in
    (omega (arith, joined, e), omega (arith, joined, e), omega (arith, joined, e))

pub same_tag→≡ : (s t : PosixAclTag) → same_tag s t ≡ true → s ≡ t
same_tag→≡ s t h = ground arith

find_tag-hit :
    (t : PosixAclTag) (e : PosixAclEntry) (es : List PosixAclEntry)
    → same_tag e.tag t ≡ true
    → find_tag t (e ∷ es) ≡ some e
find_tag-hit t e es h = rw h refl

find_tag-miss :
    (t : PosixAclTag) (e : PosixAclEntry) (es : List PosixAclEntry)
    → same_tag e.tag t ≡ false
    → find_tag t (e ∷ es) ≡ find_tag t es
find_tag-miss t e es h = rw h refl

module _ (b : Bool) (mode : ℕ) where
  apply : List PosixAclEntry → List PosixAclEntry
  apply = map (λ e. set_perms b mode e e.tag)

  set_perms-tag : (e : PosixAclEntry) (t : PosixAclTag) → (set_perms b mode e t).tag ≡ e.tag
  set_perms-tag e t = ground arith

  -- What the entry of a tag holds afterwards, if there is one.
  Shows : PosixAclTag → ℕ → List PosixAclEntry → Type 0
  Shows t n es = (e : PosixAclEntry) × (find_tag t es ≡ some e) × (e.perms ≡ n)

  find_tag-apply :
      (t : PosixAclTag) (n : ℕ) (es : List PosixAclEntry)
      → ((e : PosixAclEntry) → (set_perms b mode e t).perms ≡ n)
      → has_tag t es ≡ true
      → Shows t n (apply es)
  unfolding apply Shows
  find_tag-apply t n [] f h = cc
  find_tag-apply t n (e ∷ es) f h = elim (Bool-cases (same_tag e.tag t)) [
    | inl s ↦
        let e' = set_perms b mode e e.tag in
        let tagged : same_tag e'.tag t ≡ true = rw (set_perms-tag e e.tag) s in
        (
          e',
          find_tag-hit t e' (apply es) tagged,
          subst (λ u. (set_perms b mode e u).perms ≡ n) (sym (same_tag→≡ e.tag t s)) (f e),
        )
    | inr s ↦
        let e' = set_perms b mode e e.tag in
        let tagged : same_tag e'.tag t ≡ false = rw (set_perms-tag e e.tag) s in
        let (x, found, p) = find_tag-apply t n es f (ground (arith, s)) in
        (x, find_tag-miss t e' (apply es) tagged ∙ found, p)
  ]

  find_tag-apply-none :
      (t : PosixAclTag) (es : List PosixAclEntry)
      → has_tag t es ≡ false
      → find_tag t (apply es) ≡ none
  unfolding apply
  find_tag-apply-none t [] h = refl
  find_tag-apply-none t (e ∷ es) h =
      let e' = set_perms b mode e e.tag in
      let tagged : same_tag e'.tag t ≡ false = rw (set_perms-tag e e.tag) (ground arith) in
      find_tag-miss t e' (apply es) tagged ∙ find_tag-apply-none t es (ground arith)

-- The mode that an ACL shows, by the entries that the code looks up.
mode_of_entries :
    (acl : PosixAcl) (mode current_mode : ℕ) (u g o : PosixAclEntry)
    → find_tag user_obj acl.entries ≡ some u
    → or_else (find_tag mask acl.entries) (find_tag group_obj acl.entries) ≡ some g
    → find_tag other acl.entries ≡ some o
    → u.perms ≡ owner_bits mode
    → g.perms ≡ group_bits mode
    → o.perms ≡ other_bits mode
    → mode_from_access_acl acl current_mode ≡ current_mode / 512 * 512 + mode % 512
unfolding mode_from_access_acl
mode_of_entries acl mode cur u g o fu fg fo pu pg po =
    rw (fu, fg, fo, pu, pg, po)
      (omega (
        arith,
        join_bits (cur / 512) (owner_bits mode) (group_bits mode) (other_bits mode) (omega arith)
            (omega arith) (omega arith),
      ))

-- After `apply_mode_to_access_acl` the ACL shows the nine permission bits of that mode, and the
-- higher bits of the current one, if it has an owner, an other, and a mask or an owning-group entry.
pub mode_from_access_acl-apply_mode_to_access_acl :
    (acl : PosixAcl) (mode current_mode : ℕ)
    → has_tag user_obj acl.entries ≡ true
    → (has_tag mask acl.entries || has_tag group_obj acl.entries) ≡ true
    → has_tag other acl.entries ≡ true
    → mode_from_access_acl (apply_mode_to_access_acl acl mode) current_mode
      ≡ current_mode / 512 * 512 + mode % 512
unfolding apply_mode_to_access_acl apply Shows
mode_from_access_acl-apply_mode_to_access_acl acl mode cur hu hg ho =
    let b = has_tag mask acl.entries in
    let es = acl.entries in
    let (u, fu, pu) = find_tag-apply b mode user_obj (owner_bits mode) es (λ e. refl) hu in
    let (o, fo, po) = find_tag-apply b mode other (other_bits mode) es (λ e. refl) ho in
    let acl' = apply_mode_to_access_acl acl mode in
    elim (Bool-cases b) [
      | inl m ↦
          let (g, fg, pg) = find_tag-apply b mode mask (group_bits mode) es (λ e. refl) m in
          mode_of_entries acl' mode cur u g o fu (ground (arith, fg)) fo pu pg po
      | inr m ↦
          let (g, fg, pg) =
            find_tag-apply b mode group_obj (group_bits mode) es (λ e. ground (arith, m))
              (ground arith) in
          let missing = find_tag-apply-none b mode mask es m in
          mode_of_entries acl' mode cur u g o fu (ground (arith, fg, missing)) fo pu pg po
    ]
