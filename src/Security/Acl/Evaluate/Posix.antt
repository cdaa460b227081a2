-- ===== src/Security/Acl/Evaluate/Posix.antt =====
-- The POSIX ACL decision of src/security/acl.rs: the bits of the file's group class, and the ACL
-- that says no more than a mode.
use argos_fs.Common.{
  ℕ, ◌*◌, ◌<◌, ◌≡◌, refl, sym, subst, ◌∙◌, ◌↔◌, inl, inr, Bool-cases, Bool, true, false, ◌&&◌, ◌||◌,
  List, [], ◌∷◌, none, arith, ◌==◌, if◌then◌else◌, any, All, ◌/◌,
}
use argos_fs.Security.Acl.Evaluate.Bits.{
  Permission, bit, read, write, execute, bit_or-lt, has_bit-bit_or, grants_iff, has_bit-bit_and,
  bit_and-lt, bit_and-all_bits,
}
use argos_fs.Security.Acl.Evaluate.{
  has_bit, grants, id_in, find_user, named_groups, evaluate_posix, evaluate_mode,
}
use argos_fs.Security.Acl.{
  PosixAclTag, user_obj, user, group_obj, group, mask, other, PosixAclEntry, PosixAcl, Inode,
  same_tag, find_tag, perms_or, contains, or_else, mode_from_access_acl, group_bits, owner_bits,
  other_bits,
}
use argos_fs.Security.Acl.Mode.{joined_digits}
use Prim.Native.Nat.{bit_and, bit_or}

-- A matching named group entry that has the bit.
abbrev group_entry_with : List ℕ → Permission → PosixAclEntry → Bool
group_entry_with gids b e = same_tag e.tag group && id_in gids e.id && has_bit e.perms (bit b)

abbrev group_entry_for : List ℕ → PosixAclEntry → Bool
group_entry_for gids e = same_tag e.tag group && id_in gids e.id

abbrev IsSmall : PosixAclEntry → Type 0
IsSmall e = e.perms < 8

named_groups-take :
    (gids : List ℕ) (e : PosixAclEntry) (es : List PosixAclEntry) (m : Bool) (p : ℕ)
    → group_entry_for gids e ≡ true
    → named_groups gids (e ∷ es) (m, p) ≡ named_groups gids es (true, bit_or p e.perms)
unfolding named_groups
named_groups-take gids e es m p h = rw (named_groups, h) refl

named_groups-pass :
    (gids : List ℕ) (e : PosixAclEntry) (es : List PosixAclEntry) (m : Bool) (p : ℕ)
    → group_entry_for gids e ≡ false
    → named_groups gids (e ∷ es) (m, p) ≡ named_groups gids es (m, p)
unfolding named_groups
named_groups-pass gids e es m p h = rw (named_groups, h) refl

named_groups-matched :
    (gids : List ℕ) (es : List PosixAclEntry) (m : Bool) (p : ℕ)
    → (named_groups gids es (m, p)).0 ≡ m || any (group_entry_for gids) es
unfolding named_groups
named_groups-matched gids [] m p = ground arith
named_groups-matched gids (e ∷ es) m p = elim (Bool-cases (group_entry_for gids e)) [
  | inl h ↦
      rw (named_groups-take gids e es m p h, named_groups-matched gids es true (bit_or p e.perms))
        (ground (arith, h))
  | inr h ↦
      rw (named_groups-pass gids e es m p h, named_groups-matched gids es m p) (ground (arith, h))
]

named_groups-lt :
    (gids : List ℕ) (es : List PosixAclEntry) (m : Bool) (p : ℕ)
    → All IsSmall es
    → p < 8
    → (named_groups gids es (m, p)).1 < 8
unfolding named_groups
named_groups-lt gids [] m p a h = h
named_groups-lt gids (e ∷ es) m p (s, a) h = elim (Bool-cases (group_entry_for gids e)) [
  | inl g ↦
      rw (named_groups-take gids e es m p g)
        (named_groups-lt gids es true (bit_or p e.perms) a (bit_or-lt p e.perms h s))
  | inr g ↦ rw (named_groups-pass gids e es m p g) (named_groups-lt gids es m p a h)
]

named_groups-bit :
    (gids : List ℕ) (es : List PosixAclEntry) (m : Bool) (p : ℕ) (b : Permission)
    → All IsSmall es
    → p < 8
    → has_bit (named_groups gids es (m, p)).1 (bit b)
      ≡ has_bit p (bit b) || any (group_entry_with gids b) es
unfolding named_groups
named_groups-bit gids [] m p b a h = ground arith
named_groups-bit gids (e ∷ es) m p b (s, a) h = elim (Bool-cases (group_entry_for gids e)) [
  | inl g ↦ rw (named_groups-take gids e es m p g) (
      named_groups-bit gids es true (bit_or p e.perms) b a (bit_or-lt p e.perms h s)
      ∙ ground (arith, has_bit-bit_or b p e.perms h s, g))
  | inr g ↦
      rw (named_groups-pass gids e es m p g)
        (named_groups-bit gids es m p b a h ∙ ground (arith, g))
]

perms_or-lt :
    (d : ℕ) (t : PosixAclTag) (es : List PosixAclEntry)
    → d < 8
    → All IsSmall es
    → perms_or d (find_tag t es) < 8
perms_or-lt d t [] h a = h
perms_or-lt d t (e ∷ es) h (s, a) = elim (Bool-cases (same_tag e.tag t)) [
  | inl y ↦ rw y s
  | inr n ↦ rw n (perms_or-lt d t es h a)
]

-- The owning group's permissions, if the user is in the group.
abbrev owning_perms : PosixAcl → Inode → ℕ
owning_perms acl inode = perms_or (group_bits inode.mode) (find_tag group_obj acl.entries)

-- An entry of the group class matches the user.
abbrev pub in_group_class : PosixAcl → Inode → List ℕ → Bool
in_group_class acl inode gids = contains inode.gid gids || any (group_entry_for gids) acl.entries

-- A matching entry of the group class has the permission.
abbrev pub group_class_has : PosixAcl → Inode → List ℕ → Permission → Bool
group_class_has acl inode gids b =
    contains inode.gid gids && has_bit (owning_perms acl inode) (bit b)
    || any (group_entry_with gids b) acl.entries

-- The mask has the permission, or there is no mask.
abbrev pub mask_has : PosixAcl → Permission → Bool
mask_has acl b = has_bit (perms_or 7 (find_tag mask acl.entries)) (bit b)

no_bits : (b : Permission) (x : Bool) → has_bit 0 (bit b) || x ≡ x
no_bits read x = refl
no_bits write x = refl
no_bits execute x = refl

module _ (acl : PosixAcl) (inode : Inode) (gids : List ℕ) (small : All IsSmall acl.entries) where
  abbrev class : Bool × ℕ
  class =
      named_groups gids acl.entries
        (if contains inode.gid gids then (true, owning_perms acl inode) else (false, 0))

  class_facts :
      (class.0 ≡ in_group_class acl inode gids)
      × (class.1 < 8)
      × ((b : Permission) → has_bit class.1 (bit b) ≡ group_class_has acl inode gids b)
  class_facts =
      let owning : owning_perms acl inode < 8 =
        perms_or-lt (group_bits inode.mode) group_obj acl.entries (omega arith) small in
      elim (Bool-cases (contains inode.gid gids)) [
        | inl y ↦
            let p = owning_perms acl inode in
            rw y (
              named_groups-matched gids acl.entries true p,
              named_groups-lt gids acl.entries true p small owning,
              λ b. named_groups-bit gids acl.entries true p b small owning,
            )
        | inr n ↦ rw n (
          named_groups-matched gids acl.entries false 0,
          named_groups-lt gids acl.entries false 0 small (omega arith),
          λ b. named_groups-bit gids acl.entries false 0 b small (omega arith) ∙ no_bits b _,
        )
      ]

-- A user who is neither the owner nor named, but is in the owning group or in a named group, is granted
-- a request of at most three bits, on an ACL with permissions below 8, exactly if each permission of the
-- request is in the mask and in some entry that matches (the owning group's or that of a named group
-- of the user). The permissions may come from different entries: no single entry need have them all.
pub evaluate_posix_group_class :
    (acl : PosixAcl) (inode : Inode) (uid : ℕ) (gids : List ℕ) (r : ℕ)
    → All IsSmall acl.entries
    → r < 8
    → (uid == inode.uid) ≡ false
    → find_user uid acl.entries ≡ none
    → in_group_class acl inode gids ≡ true
    → (evaluate_posix acl inode uid gids r ≡ true) ↔ (
        (b : Permission)
        → has_bit r (bit b) ≡ true
        → (group_class_has acl inode gids b && mask_has acl b) ≡ true)
unfolding evaluate_posix
evaluate_posix_group_class acl inode uid gids r small hr hu hn hg =
    let (matched, lt, bits) = class_facts acl inode gids small in
    let c = class acl inode gids small in
    let m = perms_or 7 (find_tag mask acl.entries) in
    let ml : m < 8 = perms_or-lt 7 mask acl.entries (omega arith) small in
    let granted = grants_iff (bit_and c.1 m) r (bit_and-lt c.1 m lt ml) hr in
    let each : (b : Permission)
        → has_bit (bit_and c.1 m) (bit b) ≡ group_class_has acl inode gids b && mask_has acl b =
      λ b. has_bit-bit_and b c.1 m lt ml ∙ rw (bits b) refl in
    let run : evaluate_posix acl inode uid gids r ≡ grants (bit_and c.1 m) r =
      rw (hu, hn, matched ∙ hg) refl in
    (
      λ h b hb. sym (each b) ∙ granted.0 (sym run ∙ h) b hb,
      λ f. run ∙ granted.1 (λ b hb. each b ∙ f b hb),
    )

-- No entry adds to what a mode says.
abbrev is_minimal_entry : PosixAclTag → Bool
is_minimal_entry user_obj = true
is_minimal_entry group_obj = true
is_minimal_entry other = true
is_minimal_entry _ = false

abbrev IsMinimal : List PosixAclEntry → Type 0
IsMinimal = All (λ e. is_minimal_entry e.tag ≡ true)

find_user-minimal : (uid : ℕ) (es : List PosixAclEntry) → IsMinimal es → find_user uid es ≡ none
find_user-minimal uid [] h = refl
find_user-minimal uid (e ∷ es) (h, hs) =
    let n : same_tag e.tag user ≡ false = ground arith in rw n (find_user-minimal uid es hs)

find_mask-minimal : (es : List PosixAclEntry) → IsMinimal es → find_tag mask es ≡ none
find_mask-minimal [] h = refl
find_mask-minimal (e ∷ es) (h, hs) =
    let n : same_tag e.tag mask ≡ false = ground arith in rw n (find_mask-minimal es hs)

named_groups-minimal :
    (gids : List ℕ) (es : List PosixAclEntry) (m : Bool) (p : ℕ)
    → IsMinimal es
    → named_groups gids es (m, p) ≡ (m, p)
unfolding named_groups
named_groups-minimal gids [] m p h = refl
named_groups-minimal gids (e ∷ es) m p (h, hs) =
    let n : same_tag e.tag group ≡ false = ground arith in
    named_groups-pass gids e es m p (rw n refl) ∙ named_groups-minimal gids es m p hs

-- An ACL without named entries and mask whose permissions are those that the mode shows grants
-- what the mode grants.
pub evaluate_posix-evaluate_mode :
    (acl : PosixAcl) (inode : Inode) (uid : ℕ) (gids : List ℕ) (r : ℕ)
    → IsMinimal acl.entries
    → All IsSmall acl.entries
    → mode_from_access_acl acl inode.mode ≡ inode.mode
    → evaluate_posix acl inode uid gids r ≡ evaluate_mode inode uid gids r
unfolding evaluate_posix evaluate_mode mode_from_access_acl
evaluate_posix-evaluate_mode acl inode uid gids r min small sync =
    let mode = inode.mode in
    let es = acl.entries in
    let no_mask = find_mask-minimal es min in
    let o = perms_or (owner_bits mode) (find_tag user_obj es) in
    let g = owning_perms acl inode in
    let t = perms_or (other_bits mode) (find_tag other es) in
    let gl : g < 8 = perms_or-lt (group_bits mode) group_obj es (omega arith) small in
    let synced : bit_or (bit_or (bit_or (mode / 512 * 512) (o * 64)) (g * 8)) t ≡ mode =
      subst
        (λ x.
          bit_or
            (bit_or (bit_or (mode / 512 * 512) (o * 64))
              (perms_or (group_bits mode) (or_else x (find_tag group_obj es)) * 8))
            t
          ≡ mode)
        no_mask sync in
    let (eo, eg, et) =
      joined_digits mode o g t (perms_or-lt (owner_bits mode) user_obj es (omega arith) small) gl
        (perms_or-lt (other_bits mode) other es (omega arith) small) synced in
    elim (Bool-cases (uid == inode.uid)) [
      | inl y ↦ rw (y, eo) refl
      | inr n ↦ elim (Bool-cases (contains inode.gid gids)) [
        | inl y ↦
            rw
              (
                n,
                find_user-minimal uid es min,
                no_mask,
                y,
                named_groups-minimal gids es true g min,
                bit_and-all_bits g gl,
                eg,
              )
              refl
        | inr out ↦
            rw (n, find_user-minimal uid es min, out, named_groups-minimal gids es false 0 min, et)
              refl
      ]
    ]
