-- ===== src/Security/Acl/Evaluate/Nfs4.antt =====
-- The NFSv4 loop of src/security/acl.rs, bit by bit: the first entry that applies and names a
-- permission decides it.
use argos_fs.Common.{
  ℕ, ◌<◌, ◌≡◌, refl, sym, subst, ◌∙◌, ◌↔◌, ◌⊎◌, inl, inr, Bool-cases, Bool, true, false, ◌&&◌, ◌||◌,
  not, List, [], ◌∷◌, Option, none, some, arith, ◌==◌, ==_iff, if◌then◌else◌,
}
use argos_fs.Security.Acl.Evaluate.Bits.{
  Permission, bit, read, write, execute, no_common_bit, some_common_bit, has_bit-clear_bits,
  clear_bits-lt, bit_or-lt, has_some_bit,
}
use argos_fs.Security.Acl.Evaluate.{
  has_bit, clear_bits, nfs4_perm_bit, nfs4_perm_bits, perm_bits_from, skips, nfs4_loop, flag,
  requested_bits, evaluate_access_with_groups, evaluate_nfs4,
}
use argos_fs.Security.Acl.{Nfs4AceType, allow, deny, Nfs4Ace, Nfs4Acl, Inode}
use Prim.Native.Nat.{bit_and, bit_or}
use Prim.Native.String.{String}

nfs4_perm_bit-lt : (p : String) → nfs4_perm_bit p < 8
unfolding nfs4_perm_bit
nfs4_perm_bit-lt p = ground arith

perm_bits_from-lt : (acc : ℕ) (ps : List String) → acc < 8 → perm_bits_from acc ps < 8
unfolding perm_bits_from
perm_bits_from-lt acc [] h = h
perm_bits_from-lt acc (p ∷ ps) h =
    perm_bits_from-lt (bit_or acc (nfs4_perm_bit p)) ps
      (bit_or-lt acc (nfs4_perm_bit p) h (nfs4_perm_bit-lt p))

nfs4_perm_bits-lt : (ace : Nfs4Ace) → nfs4_perm_bits ace < 8
unfolding nfs4_perm_bits
nfs4_perm_bits-lt ace = perm_bits_from-lt 0 ace.permissions (omega arith)

ace_type_cases : (t : Nfs4AceType) → (t ≡ allow) ⊎ (t ≡ deny)
ace_type_cases allow = inl refl
ace_type_cases deny = inr refl

through {ℓ ℓ'} :
    {a b : Bool} {P : Type ℓ} {Q : Type ℓ'} → a ≡ b → (b ≡ true) ↔ P → P ↔ Q → (a ≡ true) ↔ Q
through e p q = (λ h. q.0 (p.0 (sym e ∙ h)), λ y. e ∙ p.1 (q.1 y))

no_bit : (b : Permission) → has_bit 0 (bit b) ≡ true → ⊥
no_bit read h = cc
no_bit write h = cc
no_bit execute h = cc

module _ (inode : Inode) (uid : ℕ) (gids : List ℕ) where
  -- The type of the first entry that applies and names the permission.
  unfoldable pub decision : Permission → List Nfs4Ace → Option Nfs4AceType
  decision b [] = none
  decision b (ace ∷ aces) =
      let later = decision b aces in
      if skips ace inode uid gids
      then later
      else if has_bit (nfs4_perm_bits ace) (bit b)
      then some ace.ace_type
      else later

  decision-skip :
      (b : Permission) (ace : Nfs4Ace) (aces : List Nfs4Ace)
      → skips ace inode uid gids ≡ true
      → decision b (ace ∷ aces) ≡ decision b aces
  unfolding decision
  decision-skip b ace aces h = rw h refl

  decision-hit :
      (b : Permission) (ace : Nfs4Ace) (aces : List Nfs4Ace)
      → skips ace inode uid gids ≡ false
      → has_bit (nfs4_perm_bits ace) (bit b) ≡ true
      → decision b (ace ∷ aces) ≡ some ace.ace_type
  unfolding decision
  decision-hit b ace aces h h' = rw (h, h') refl

  decision-miss :
      (b : Permission) (ace : Nfs4Ace) (aces : List Nfs4Ace)
      → has_bit (nfs4_perm_bits ace) (bit b) ≡ false
      → decision b (ace ∷ aces) ≡ decision b aces
  unfolding decision
  decision-miss b ace aces h = ground (arith, h)

  -- Each requested permission is allowed by the entry that decides it.
  unfoldable pub Allows : List Nfs4Ace → ℕ → Type 0
  Allows aces r = (b : Permission) → has_bit r (bit b) ≡ true → decision b aces ≡ some allow

  allow≢deny : some allow ≡ some deny → ⊥
  allow≢deny h = cc

  Allows-end : (r : ℕ) → r < 8 → (r == 0) ≡ false → Allows [] r → ⊥
  unfolding Allows decision
  Allows-end r hr z f = let (b, h) = has_some_bit r hr z in cc (f b h)

  -- An entry that decides none of the requested permissions changes nothing.
  Allows-pass :
      (ace : Nfs4Ace) (aces : List Nfs4Ace) (r : ℕ)
      → ((b : Permission) → has_bit r (bit b) ≡ true → decision b (ace ∷ aces) ≡ decision b aces)
      → Allows aces r ↔ Allows (ace ∷ aces) r
  unfolding Allows
  Allows-pass ace aces r same = (λ f b h. same b h ∙ f b h, λ f b h. sym (same b h) ∙ f b h)

  Allows-deny :
      (ace : Nfs4Ace) (aces : List Nfs4Ace) (r : ℕ)
      → r < 8
      → skips ace inode uid gids ≡ false
      → (bit_and (nfs4_perm_bits ace) r == 0) ≡ false
      → ace.ace_type ≡ deny
      → Allows (ace ∷ aces) r
      → ⊥
  unfolding Allows
  Allows-deny ace aces r hr s z d f =
      let (b, hb, pb) = some_common_bit (nfs4_perm_bits ace) r (nfs4_perm_bits-lt ace) hr z in
      cc (f b hb, decision-hit b ace aces s pb, d)

  -- An allowing entry leaves the permissions that it does not name to the later ones.
  Allows-allow :
      (ace : Nfs4Ace) (aces : List Nfs4Ace) (r : ℕ)
      → r < 8
      → skips ace inode uid gids ≡ false
      → ace.ace_type ≡ allow
      → Allows aces (clear_bits r (bit_and (nfs4_perm_bits ace) r)) ↔ Allows (ace ∷ aces) r
  unfolding Allows
  Allows-allow ace aces r hr s a =
      let p = nfs4_perm_bits ace in
      let left : (b : Permission)
          → has_bit (clear_bits r (bit_and p r)) (bit b)
            ≡ has_bit r (bit b) && not (has_bit p (bit b)) =
        λ b. has_bit-clear_bits b p r (nfs4_perm_bits-lt ace) hr in
      (
        λ f b h. elim (Bool-cases (has_bit p (bit b))) [
          | inl y ↦ decision-hit b ace aces s y ∙ rw a refl
          | inr n ↦ decision-miss b ace aces n ∙ f b (left b ∙ ground (arith, h, n))
        ],
        λ f b h.
            let n : has_bit p (bit b) ≡ false = ground (arith, left b) in
            sym (decision-miss b ace aces n) ∙ f b (ground (arith, left b)),
      )

  Allows-zero : (aces : List Nfs4Ace) (r : ℕ) → (r == 0) ≡ true → Allows aces r
  unfolding Allows
  Allows-zero aces r z b h =
      let e : r ≡ 0 = (==_iff r 0).0 z in
      absurd (no_bit b (subst (λ r. has_bit r (bit b) ≡ true) e h))

  nfs4_loop-pass :
      (ace : Nfs4Ace) (aces : List Nfs4Ace) (r : ℕ)
      → (skips ace inode uid gids || bit_and (nfs4_perm_bits ace) r == 0) ≡ true
      → nfs4_loop (ace ∷ aces) inode uid gids r ≡ nfs4_loop aces inode uid gids r
  unfolding nfs4_loop
  nfs4_loop-pass ace aces r h = ground (arith, h)

  nfs4_loop-deny :
      (ace : Nfs4Ace) (aces : List Nfs4Ace) (r : ℕ)
      → skips ace inode uid gids ≡ false
      → (bit_and (nfs4_perm_bits ace) r == 0) ≡ false
      → ace.ace_type ≡ deny
      → nfs4_loop (ace ∷ aces) inode uid gids r ≡ false
  unfolding nfs4_loop
  nfs4_loop-deny ace aces r s z d = rw (s, z, d) refl

  nfs4_loop-allow :
      (ace : Nfs4Ace) (aces : List Nfs4Ace) (r : ℕ)
      → skips ace inode uid gids ≡ false
      → (bit_and (nfs4_perm_bits ace) r == 0) ≡ false
      → ace.ace_type ≡ allow
      → nfs4_loop (ace ∷ aces) inode uid gids r ≡ (
          let rest = clear_bits r (bit_and (nfs4_perm_bits ace) r) in
          if rest == 0 then true else nfs4_loop aces inode uid gids rest)
  unfolding nfs4_loop
  nfs4_loop-allow ace aces r s z a = simp (s, z, a)

  Allows-passed :
      (ace : Nfs4Ace) (aces : List Nfs4Ace) (r : ℕ)
      → r < 8
      → (skips ace inode uid gids || bit_and (nfs4_perm_bits ace) r == 0) ≡ true
      → Allows aces r ↔ Allows (ace ∷ aces) r
  Allows-passed ace aces r hr h = Allows-pass ace aces r (λ b hb.
      elim (Bool-cases (skips ace inode uid gids)) [
        | inl s ↦ decision-skip b ace aces s
        | inr s ↦ decision-miss b ace aces (
            no_common_bit b (nfs4_perm_bits ace) r (nfs4_perm_bits-lt ace) hr (ground (arith, s))
              hb)
      ])

  -- The loop, started with some permissions, grants exactly if each of them is allowed by the
  -- first entry that applies to the user and names it.
  pub nfs4_loop_iff :
      (aces : List Nfs4Ace) (r : ℕ)
      → r < 8
      → (r == 0) ≡ false
      → (nfs4_loop aces inode uid gids r ≡ true) ↔ Allows aces r
  unfolding nfs4_loop
  nfs4_loop_iff [] r hr z = (λ h. cc, λ f. absurd (Allows-end r hr z f))
  nfs4_loop_iff (ace ∷ aces) r hr z =
      let affected = bit_and (nfs4_perm_bits ace) r in
      let rest = clear_bits r affected in
      let rec = nfs4_loop_iff aces r hr z in
      let passed = λ (h : (skips ace inode uid gids || affected == 0) ≡ true).
        through (nfs4_loop-pass ace aces r h) rec (Allows-passed ace aces r hr h) in
      elim (Bool-cases (skips ace inode uid gids)) [
        | inl s ↦ passed (ground (arith, s))
        | inr s ↦ elim (Bool-cases (affected == 0)) [
          | inl e ↦ passed (ground (arith, e))
          | inr e ↦ elim (ace_type_cases ace.ace_type) [
            | inr d ↦ (
              λ h. cc (h, nfs4_loop-deny ace aces r s e d),
              λ f. absurd (Allows-deny ace aces r hr s e d f),
            )
            | inl a ↦
                let step = nfs4_loop-allow ace aces r s e a in
                let later = Allows-allow ace aces r hr s a in
                elim (Bool-cases (rest == 0)) [
                  | inl done ↦ (λ h. later.0 (Allows-zero aces rest done), λ f. step ∙ rw done refl)
                  | inr more ↦
                      through (step ∙ rw more refl)
                        (nfs4_loop_iff aces rest
                          (clear_bits-lt (nfs4_perm_bits ace) r (nfs4_perm_bits-lt ace) hr) more)
                        later
                ]
          ]
        ]
      ]

flag-lt : (b : Bool) (n : ℕ) → n < 8 → flag b n < 8
flag-lt true n h = h
flag-lt false n h = omega (arith, h)

pub requested_bits-lt : (access : ℕ) → requested_bits access < 8
unfolding requested_bits
requested_bits-lt access =
    bit_or-lt _ _
      (bit_or-lt _ _ (flag-lt (has_bit access 4) 4 (omega arith))
        (flag-lt (has_bit access 2) 2 (omega arith)))
      (flag-lt (has_bit access 1) 1 (omega arith))

-- On an inode with NFSv4 entries, a request of a user other than root is granted exactly if each
-- requested permission is allowed by the first entry that applies to the user and names it.
pub evaluate_access_with_groups_nfs4 :
    (inode : Inode) (acl : Nfs4Acl) (ace : Nfs4Ace) (aces : List Nfs4Ace) (uid : ℕ) (gids : List ℕ)
    (access : ℕ)
    → inode.nfs4_acl ≡ some acl
    → acl.entries ≡ ace ∷ aces
    → (uid == 0) ≡ false
    → (evaluate_access_with_groups inode uid gids access ≡ true)
      ↔ Allows inode uid gids (ace ∷ aces) (requested_bits access)
unfolding evaluate_access_with_groups evaluate_nfs4
evaluate_access_with_groups_nfs4 inode acl ace aces uid gids access ha he hu =
    let r = requested_bits access in
    elim (Bool-cases (r == 0)) [
      | inl z ↦ (λ h. Allows-zero inode uid gids (ace ∷ aces) r z, λ f. rw z refl)
      | inr z ↦
          through (rw (z, hu, ha, he) refl)
            (nfs4_loop_iff inode uid gids (ace ∷ aces) r (requested_bits-lt access) z)
            (λ x. x, λ x. x)
    ]
