-- ===== src/Volume/Sparse/Extents.antt =====
-- The extents of a file are in order and apart, and hold the bytes of its blocks.
use argos_fs.Common.Sort.{
  total, sort_by_key, IsSorted, sort_by_key-IsSorted, sort_by_key-All, total-sort_by_key,
}
use argos_fs.Common.Word.{saturating_add}
use argos_fs.Common.{
  ℕ, ◌≤◌, ◌<◌, ◌≡◌, refl, ◌∙◌, max, inl, inr, Bool, ◌&&◌, ◌||◌, List, [], ◌∷◌, All, ltb, leb, any,
  arith, if◌then◌else◌, Bool-cases,
}
use argos_fs.Volume.Sparse.{
  FileBlock, FileInode, Extent, block_start, block_end, block_extents, merge_behind, merge,
  start_of, inode_data_extents,
}

abbrev pub holds : ℕ → Extent → Bool
holds x e = leb e.0 x && ltb x e.1

abbrev pub covers : ℕ → List Extent → Bool
covers x es = any (holds x) es

-- The byte is in a block, below the file's size.
abbrev pub in_block : ℕ → FileBlock → Bool
in_block x b = leb b.raw_offset x && ltb x (saturating_add b.raw_offset b.raw_size)

abbrev pub is_data : FileInode → ℕ → Bool
is_data inode x = ltb x inode.size && any (in_block x) inode.blocks

block_extents-covers :
    (x size : ℕ) (bs : List FileBlock)
    → covers x (block_extents size bs) ≡ ltb x size && any (in_block x) bs
unfolding block_extents
block_extents-covers x size [] = ground arith
block_extents-covers x size (b ∷ bs) = ground (arith, block_extents-covers x size bs)

abbrev weight : ℕ → Extent → ℕ
weight x e = if holds x e then 1 else 0

covers-total : (x : ℕ) (es : List Extent) → covers x es ≡ ltb 0 (total (weight x) es)
covers-total x [] = refl
covers-total x (e ∷ es) = ground (arith, covers-total x es)

covers-sort_by_key : (x : ℕ) (es : List Extent) → covers x (sort_by_key start_of es) ≡ covers x es
covers-sort_by_key x es =
    let a = covers-total x (sort_by_key start_of es) in
    let b = covers-total x es in ground (arith, a, b, total-sort_by_key start_of (weight x) es)

merge_behind-covers :
    (x s e : ℕ) (es : List Extent)
    → All (λ d. s ≤ start_of d) es
    → IsSorted start_of es
    → covers x (merge_behind (s, e) es) ≡ holds x (s, e) || covers x es
unfolding merge_behind
merge_behind-covers x s e [] low sorted = refl
merge_behind-covers x s e ((start, end) ∷ es) low sorted = ground (
  arith,
  merge_behind-covers x s (max e end) es low.1 sorted.1,
  merge_behind-covers x start end es sorted.0 sorted.1,
)

-- In order, none empty, none touching the next, none beyond `size`.
abbrev pub IsApart : ℕ → List Extent → Type 0
IsApart size [] = Unit {0}
IsApart size (x ∷ xs) =
    (x.0 < x.1) × (x.1 ≤ size) × All (λ d. x.1 < start_of d) xs × IsApart size xs

-- Inside the file, and not empty.
abbrev pub IsPart : ℕ → Extent → Type 0
IsPart size x = (x.0 < x.1) × (x.1 ≤ size)

block_extents-IsPart : (size : ℕ) (bs : List FileBlock) → All (IsPart size) (block_extents size bs)
unfolding block_extents
block_extents-IsPart size [] = tt
block_extents-IsPart size (b ∷ bs) =
    elim (Bool-cases (ltb (block_start size b) (block_end size b))) [
      | inl h ↦ rw h ((ground arith, omega arith), block_extents-IsPart size bs)
      | inr h ↦ rw h (block_extents-IsPart size bs)
    ]

merge_behind-All :
    (P : ℕ → Type 0) (s e : ℕ) (es : List Extent)
    → P s
    → All (λ d. P (start_of d)) es
    → All (λ d. P (start_of d)) (merge_behind (s, e) es)
unfolding merge_behind
merge_behind-All P s e [] p ps = (p, tt)
merge_behind-All P s e ((start, end) ∷ es) p (q, ps) = elim (Bool-cases (leb start e)) [
  | inl h ↦ rw h (merge_behind-All P s (max e end) es p ps)
  | inr h ↦ rw h (p, merge_behind-All P start end es q ps)
]

above :
    (e start : ℕ) (es : List Extent)
    → e < start
    → All (λ d. start ≤ start_of d) es
    → All (λ d. e < start_of d) es
above e start [] h a = tt
above e start (x ∷ xs) h (p, a) = (omega arith, above e start xs h a)

merge_behind-IsApart :
    (size s e : ℕ) (es : List Extent)
    → IsPart size (s, e)
    → All (IsPart size) es
    → All (λ d. s ≤ start_of d) es
    → IsSorted start_of es
    → IsApart size (merge_behind (s, e) es)
unfolding merge_behind
merge_behind-IsApart size s e [] p ps low sorted = (p.0, p.1, tt, tt)
merge_behind-IsApart size s e ((start, end) ∷ es) p (q, qs) low sorted =
    elim (Bool-cases (leb start e)) [
      | inl h ↦ rw h (
          merge_behind-IsApart size s (max e end) es (omega (arith, p), omega (arith, p, q)) qs
            low.1 sorted.1)
      | inr h ↦
          let gap : e < start = ground arith in
          rw h (
            p.0,
            p.1,
            merge_behind-All (λ n. e < n) start end es gap (above e start es gap sorted.0),
            merge_behind-IsApart size start end es q qs sorted.0 sorted.1,
          )
    ]

merge-covers : (x : ℕ) (es : List Extent) → IsSorted start_of es → covers x (merge es) ≡ covers x es
unfolding merge
merge-covers x [] s = refl
merge-covers x ((a, b) ∷ es) s = merge_behind-covers x a b es s.0 s.1

merge-IsApart :
    (size : ℕ) (es : List Extent)
    → All (IsPart size) es
    → IsSorted start_of es
    → IsApart size (merge es)
unfolding merge
merge-IsApart size [] p s = tt
merge-IsApart size ((a, b) ∷ es) (p, ps) s = merge_behind-IsApart size a b es p ps s.0 s.1

pub inode_data_extents-IsApart : (inode : FileInode) → IsApart inode.size (inode_data_extents inode)
unfolding inode_data_extents
inode_data_extents-IsApart inode =
    let es = block_extents inode.size inode.blocks in
    merge-IsApart inode.size (sort_by_key start_of es)
      (sort_by_key-All start_of (IsPart inode.size) es
        (block_extents-IsPart inode.size inode.blocks))
      (sort_by_key-IsSorted start_of es)

pub inode_data_extents-covers :
    (inode : FileInode) (x : ℕ) → covers x (inode_data_extents inode) ≡ is_data inode x
unfolding inode_data_extents
inode_data_extents-covers inode x =
    let es = block_extents inode.size inode.blocks in
    merge-covers x (sort_by_key start_of es) (sort_by_key-IsSorted start_of es)
    ∙ covers-sort_by_key x es
    ∙ block_extents-covers x inode.size inode.blocks
