-- ===== src/Volume/Sparse/Seek.antt =====
-- `seek_data` and `seek_hole` of src/volume/helpers.rs against the bytes of the blocks.
use argos_fs.Common.{
  ℕ, ◌≤◌, ◌<◌, ◌≡◌, refl, sym, subst, ◌∙◌, min, inl, inr, Bool, true, false, List, [], ◌∷◌, none,
  All, ltb, leb, ◌==◌, arith, Bool-cases,
}
use argos_fs.Error.{Result, ok, err, no_data}
use argos_fs.Volume.Sparse.Extents.{
  covers, is_data, IsApart, inode_data_extents-IsApart, inode_data_extents-covers,
}
use argos_fs.Volume.Sparse.{
  FileInode, Extent, start_of, inode_data_extents, data_from, seek_data, hole_from, seek_hole,
}

-- The first byte from an offset on for which the test holds, or the error where there is none.
pub IsFirst : (ℕ → Bool) → ℕ → Result ℕ → Type 0
IsFirst test offset (ok r) =
    (offset ≤ r) × (test r ≡ true) × ((y : ℕ) → offset ≤ y → y < r → test y ≡ false)
IsFirst test offset (err e) = (e ≡ no_data) × ((y : ℕ) → offset ≤ y → test y ≡ false)

not_covered :
    (y n : ℕ) (es : List Extent) → y ≤ n → All (λ d. n < start_of d) es → covers y es ≡ false
not_covered y n [] h a = refl
not_covered y n (x ∷ xs) h (p, a) = ground (arith, not_covered y n xs h a)

IsFirst-later :
    (offset : ℕ) (x : Extent) (xs : List Extent) (r : Result ℕ)
    → x.1 ≤ offset
    → IsFirst (λ y. covers y xs) offset r
    → IsFirst (λ y. covers y (x ∷ xs)) offset r
unfolding IsFirst
IsFirst-later o x xs (ok r) h (a, b, c) = (a, ground (arith, b), λ y p q. ground (arith, c y p q))
IsFirst-later o x xs (err e) h (a, c) = (a, λ y p. ground (arith, c y p))

data_from-IsFirst :
    (size offset : ℕ) (es : List Extent)
    → IsApart size es
    → IsFirst (λ y. covers y es) offset (data_from offset es)
unfolding data_from IsFirst
data_from-IsFirst size o [] a = (refl, λ y p. refl)
data_from-IsFirst size o (x ∷ xs) (p, q, gap, rest) = elim (Bool-cases (ltb o x.0)) [
  | inl h ↦ rw h (
    ground arith,
    ground arith,
    λ y l u. ground (arith, not_covered y x.1 xs (omega (arith, p, u)) gap),
  )
  | inr h ↦ elim (Bool-cases (ltb o x.1)) [
    | inl h' ↦ rw (h, h') (omega arith, ground arith, λ y l u. absurd (omega arith))
    | inr h' ↦
        rw (h, h')
          (IsFirst-later o x xs (data_from o xs) (ground arith) (data_from-IsFirst size o xs rest))
  ]
]

IsFirst-agree :
    (p q : ℕ → Bool) (offset : ℕ) (r : Result ℕ)
    → ((x : ℕ) → p x ≡ q x)
    → IsFirst p offset r
    → IsFirst q offset r
unfolding IsFirst
IsFirst-agree p q o (ok r) same (a, b, c) = (a, sym (same r) ∙ b, λ y l u. sym (same y) ∙ c y l u)
IsFirst-agree p q o (err e) same (a, c) = (a, λ y l. sym (same y) ∙ c y l)

-- For a file that is not stored inline, `seek_data` gives the first byte from the offset on that is
-- in a block and below the size, and the error `no_data` exactly where there is none.
pub seek_data-IsFirst :
    (inode : FileInode) (offset : ℕ)
    → inode.inline_data ≡ none
    → IsFirst (is_data inode) offset (seek_data inode offset)
unfolding seek_data IsFirst
seek_data-IsFirst inode o h = elim (Bool-cases (leb inode.size o)) [
  | inl beyond ↦ rw beyond (refl, λ y l. ground arith)
  | inr inside ↦
      let es = inode_data_extents inode in
      let run : seek_data inode o ≡ data_from o es = rw (inside, h) refl in
      subst (IsFirst (is_data inode) o) (sym run) (
        IsFirst-agree (λ y. covers y es) (is_data inode) o (data_from o es)
          (inode_data_extents-covers inode)
          (data_from-IsFirst inode.size o es (inode_data_extents-IsApart inode)))
]

-- What the loop of `seek_hole` finds.
IsHole : ℕ → ℕ → List Extent → ℕ → Type 0
IsHole size cursor es r =
    (cursor ≤ r)
    × (r ≤ size)
    × (covers r es ≡ false)
    × ((y : ℕ) → cursor ≤ y → y < r → covers y es ≡ true)

hole_from-IsHole :
    (size cursor : ℕ) (es : List Extent)
    → IsApart size es
    → cursor ≤ size
    → IsHole size cursor es (hole_from size cursor es)
unfolding hole_from IsHole
hole_from-IsHole size c [] a h =
    let e : min c size ≡ c = omega arith in
    rw e (omega arith, h, refl, λ y l u. absurd (omega arith))
hole_from-IsHole size c (x ∷ xs) (p, q, gap, rest) h = elim (Bool-cases (ltb c x.0)) [
  | inl t ↦
      let run : hole_from size c (x ∷ xs) ≡ c = rw t refl in
      let far : covers c xs ≡ false = not_covered c x.1 xs (ground arith) gap in
      subst (IsHole size c (x ∷ xs)) (sym run)
        (omega arith, h, ground (arith, far), λ y l u. absurd (omega arith))
  | inr t ↦ elim (Bool-cases (ltb c x.1)) [
    | inl t' ↦
        let (a, b, d, f) = hole_from-IsHole size x.1 xs rest q in
        let run : hole_from size c (x ∷ xs) ≡ hole_from size x.1 xs = rw (t, t') refl in
        subst (IsHole size c (x ∷ xs)) (sym run) (
          ground (arith, a),
          b,
          ground (arith, a, d),
          λ y l u. elim (Bool-cases (ltb y x.1)) [
            | inl before ↦ ground arith
            | inr behind ↦ ground (arith, f y (ground arith) u)
          ],
        )
    | inr t' ↦
        let (a, b, d, f) = hole_from-IsHole size c xs rest h in
        let run : hole_from size c (x ∷ xs) ≡ hole_from size c xs = rw (t, t') refl in
        subst (IsHole size c (x ∷ xs)) (sym run)
          (a, b, ground (arith, a, d), λ y l u. ground (arith, f y l u))
  ]
]

-- For a file that is not stored inline and an offset within its size, `seek_hole` gives the first
-- offset from there on, up to the size, that holds no data.
pub seek_hole-IsFirst :
    (inode : FileInode) (offset : ℕ)
    → inode.inline_data ≡ none
    → offset ≤ inode.size
    → (r : ℕ) × (seek_hole inode offset ≡ ok r)
      × (offset ≤ r)
      × (r ≤ inode.size)
      × (is_data inode r ≡ false)
      × ((y : ℕ) → offset ≤ y → y < r → is_data inode y ≡ true)
unfolding seek_hole IsHole
seek_hole-IsFirst inode o h within =
    let es = inode_data_extents inode in
    let same = inode_data_extents-covers inode in
    let inside : ltb inode.size o ≡ false = ground arith in
    elim (Bool-cases (o == inode.size)) [
      | inl at_end ↦ (
        o,
        rw (inside, at_end) refl,
        omega arith,
        within,
        ground arith,
        λ y l u. absurd (omega arith),
      )
      | inr before ↦
          let (a, b, d, f) =
            hole_from-IsHole inode.size o es (inode_data_extents-IsApart inode) within in
          (
            hole_from inode.size o es,
            rw (inside, before, h) refl,
            a,
            b,
            sym (same _) ∙ d,
            λ y l u. sym (same y) ∙ f y l u,
          )
    ]
