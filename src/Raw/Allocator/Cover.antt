-- ===== src/Raw/Allocator/Cover.antt =====
-- How often a byte offset is covered by a list of extents, and what the allocator's list
-- operations do to that number.
use argos_fs.Common.Word.{u64_max, saturating_add}
use argos_fs.Common.Sort.{
  IsAtLeast, IsSorted, sort_by_key, sort_by_key-IsSorted, sort_by_key-All, total, total-sort_by_key,
}
use argos_fs.Common.{
  ℕ, ◌+◌, ◌-◌, ◌%◌, ◌≤◌, ◌<◌, min, max, true, false, ◌≡◌, refl, ◌⊎◌, inl, inr, Bool, ◌&&◌, List, [],
  ◌∷◌, ◌++◌, some, arith, ltb, leb, ◌==◌, if◌then◌else◌, All, Bool-cases,
}
use argos_fs.Raw.Allocator.{RawFreeExtent, take_free, merge_from, merge_all}

abbrev pub covers : ℕ → RawFreeExtent → ℕ
covers x e = if leb e.offset x && ltb x (e.offset + e.length) then 1 else 0

abbrev pub cover : ℕ → List RawFreeExtent → ℕ
cover x = total (covers x)

-- The end of the extent is a u64.
abbrev pub Fits : RawFreeExtent → Type 0
Fits e = e.offset + e.length ≤ u64_max

abbrev pub IsBehind : ℕ → List RawFreeExtent → Type 0
IsBehind = IsAtLeast (λ e. e.offset)

abbrev pub IsOrdered : List RawFreeExtent → Type 0
IsOrdered = IsSorted (λ e. e.offset)

pub cover-append :
    (x : ℕ) (xs ys : List RawFreeExtent) → cover x (xs ++ ys) ≡ cover x xs + cover x ys
cover-append x [] ys = omega arith
cover-append x (e ∷ xs) ys = omega (arith, cover-append x xs ys)

pub cover_before : (x n : ℕ) (xs : List RawFreeExtent) → x < n → IsBehind n xs → cover x xs ≡ 0
cover_before x n [] h b = refl
cover_before x n (e ∷ xs) h b = ground (arith, cover_before x n xs h b.1)

pub IsBehind-mono : (m n : ℕ) (xs : List RawFreeExtent) → m ≤ n → IsBehind n xs → IsBehind m xs
IsBehind-mono m n [] h a = tt
IsBehind-mono m n (x ∷ xs) h a = (omega arith, IsBehind-mono m n xs h a.1)

abbrev grow : RawFreeExtent → RawFreeExtent → RawFreeExtent
grow last e =
    let last_end = saturating_add last.offset last.length in
    record last { length = max last_end (saturating_add e.offset e.length) - last.offset }

abbrev reaches : RawFreeExtent → RawFreeExtent → Bool
reaches last e = leb e.offset (saturating_add last.offset last.length)

merge_cases {ℓ} :
    (P : List RawFreeExtent → Type ℓ) (last e : RawFreeExtent) (rest : List RawFreeExtent)
    → (reaches last e ≡ true → P (merge_from (grow last e) rest))
    → (reaches last e ≡ false → P (last ∷ merge_from e rest))
    → P (merge_from last (e ∷ rest))
unfolding merge_from
merge_cases P last e rest grown apart = elim (Bool-cases (reaches last e)) [
  | inl h ↦ rw h (grown h)
  | inr h ↦ rw h (apart h)
]

-- Merging covers the same bytes, each once.
pub cover-merge_from :
    (x : ℕ) (last : RawFreeExtent) (rest : List RawFreeExtent)
    → Fits last
    → All Fits rest
    → IsBehind last.offset rest
    → IsOrdered rest
    → cover x (merge_from last rest) ≡ min 1 (covers x last + cover x rest)
cover-merge_from x last [] fl fr b o = unfold merge_from in ground arith
cover-merge_from x last (e ∷ rest) fl fr b o =
    merge_cases (λ m. cover x m ≡ min 1 (covers x last + cover x (e ∷ rest))) last e rest
      (λ h. ground (arith, cover-merge_from x (grow last e) rest (ground arith) fr.1 b.1 o.1))
      (λ h.
        ground (arith, cover-merge_from x e rest fr.0 fr.1 o.0 o.1, cover_before x e.offset rest))

-- Neighbours do not touch.
abbrev pub IsSeparated : List RawFreeExtent → Type 0
IsSeparated [] = Unit {0}
IsSeparated (e ∷ es) = IsBehind (e.offset + e.length + 1) es × IsSeparated es

IsBehind-merge_from :
    (n : ℕ) (last : RawFreeExtent) (rest : List RawFreeExtent)
    → n ≤ last.offset
    → IsBehind n rest
    → IsBehind n (merge_from last rest)
unfolding merge_from
IsBehind-merge_from n last [] h b = (h, tt)
IsBehind-merge_from n last (e ∷ rest) h b =
    merge_cases (IsBehind n) last e rest (λ _. IsBehind-merge_from n (grow last e) rest h b.1)
      (λ _. (h, IsBehind-merge_from n e rest b.0 b.1))

merge_from-IsSeparated :
    (last : RawFreeExtent) (rest : List RawFreeExtent)
    → Fits last
    → All Fits rest
    → IsBehind last.offset rest
    → IsOrdered rest
    → IsSeparated (merge_from last rest)
unfolding merge_from
merge_from-IsSeparated last [] fl fr b o = (tt, tt)
merge_from-IsSeparated last (e ∷ rest) fl fr b o =
    merge_cases IsSeparated last e rest
      (λ h. merge_from-IsSeparated (grow last e) rest (ground arith) fr.1 b.1 o.1)
      (λ h. (
        IsBehind-merge_from (last.offset + last.length + 1) e rest (ground arith)
            (IsBehind-mono _ e.offset rest (ground arith) o.0),
        merge_from-IsSeparated e rest fr.0 fr.1 o.0 o.1,
      ))

abbrev pub IsLong : RawFreeExtent → Type 0
IsLong e = 0 < e.length

merge_from-IsLong :
    (last : RawFreeExtent) (rest : List RawFreeExtent)
    → IsLong last
    → Fits last
    → All Fits rest
    → All IsLong rest
    → All IsLong (merge_from last rest)
unfolding merge_from
merge_from-IsLong last [] h f fr a = (h, tt)
merge_from-IsLong last (e ∷ rest) h f fr a =
    merge_cases (All IsLong) last e rest
      (λ r. merge_from-IsLong (grow last e) rest (ground arith) (ground arith) fr.1 a.1)
      (λ _. (h, merge_from-IsLong e rest a.0 fr.0 fr.1 a.1))

merge_from-Fits :
    (last : RawFreeExtent) (rest : List RawFreeExtent)
    → Fits last
    → All Fits rest
    → All Fits (merge_from last rest)
unfolding merge_from
merge_from-Fits last [] f fr = (f, tt)
merge_from-Fits last (e ∷ rest) f fr =
    merge_cases (All Fits) last e rest (λ r. merge_from-Fits (grow last e) rest (ground arith) fr.1)
      (λ _. (f, merge_from-Fits e rest fr.0 fr.1))

-- What `coalesce` does to the free list.
pub record Coalesced (xs ys : List RawFreeExtent) : Type 0 where
  pub same : (x : ℕ) → cover x ys ≡ min 1 (cover x xs)
  pub separated : IsSeparated ys
  pub long : All IsLong xs → All IsLong ys
  pub fits : All Fits ys

merge_all-Coalesced :
    (xs : List RawFreeExtent) → All Fits xs → IsOrdered xs → Coalesced xs (merge_all xs)
unfolding merge_all
merge_all-Coalesced [] f o = record { same = λ x. refl; separated = tt; long = λ a. a; fits = tt }
merge_all-Coalesced (e ∷ rest) f o = record {
  same = λ x. cover-merge_from x e rest f.0 f.1 o.0 o.1;
  separated = merge_from-IsSeparated e rest f.0 f.1 o.0 o.1;
  long = λ a. merge_from-IsLong e rest a.0 f.0 f.1 a.1;
  fits = merge_from-Fits e rest f.0 f.1;
}

pub merge_sorted-Coalesced :
    (xs : List RawFreeExtent)
    → All Fits xs
    → Coalesced xs (merge_all (sort_by_key (λ e. e.offset) xs))
merge_sorted-Coalesced xs f =
    let key : RawFreeExtent → ℕ = λ e. e.offset in
    let c =
      merge_all-Coalesced (sort_by_key key xs) (sort_by_key-All key Fits xs f)
        (sort_by_key-IsSorted key xs) in
    record {
      same = λ x. omega (arith, c.same x, total-sort_by_key key (covers x) xs);
      separated = c.separated;
      long = λ a. c.long (sort_by_key-All key IsLong xs a);
      fits = c.fits;
    }

-- What a hit of `take_free` does: the bytes at `offset` leave the list, and no others.
pub record Taken (block_size length offset : ℕ) (xs ys : List RawFreeExtent) : Type 0 where
  pub aligned : offset % block_size ≡ 0
  pub split :
      (x : ℕ) → cover x xs ≡ covers x (record { offset = offset; length = length }) + cover x ys
  pub long : All IsLong xs → All IsLong ys
  pub fits : All Fits ys

-- A hit at the head of the list, or further on.
take_cases :
    (bs l o : ℕ) (e : RawFreeExtent) (rest ys : List RawFreeExtent)
    → take_free bs l (e ∷ rest) ≡ some (o, ys)
    → ((l ≤ e.length)
        × (e.offset % bs ≡ 0)
        × (o ≡ e.offset)
        × (ys ≡ (
            if e.length == l
            then rest
            else record { offset = saturating_add e.offset l; length = e.length - l } ∷ rest)))
      ⊎ ((zs : List RawFreeExtent) × (take_free bs l rest ≡ some (o, zs)) × (ys ≡ e ∷ zs))
unfolding take_free
take_cases bs l o e rest ys h = ground arith

pub take_free-Taken :
    (bs l o : ℕ) (xs ys : List RawFreeExtent)
    → All Fits xs
    → take_free bs l xs ≡ some (o, ys)
    → Taken bs l o xs ys
take_free-Taken bs l o [] ys f h = unfold take_free in cc
take_free-Taken bs l o (e ∷ rest) ys f h = elim (take_cases bs l o e rest ys h) [
  | inl (fit, al, eo, ey) ↦
      rw (eo, ey)
        (elim (Bool-cases (e.length == l)) [
          | inl t ↦
              rw t (record { aligned = al; split = λ x. ground arith; long = λ a. a.1; fits = f.1 })
          | inr t ↦ rw t (record {
            aligned = al;
            split = λ x. ground arith;
            long = λ a. (ground arith, a.1);
            fits = (ground arith, f.1);
          })
        ])
  | inr (zs, hz, ey) ↦
      let t = take_free-Taken bs l o rest zs f.1 hz in
      rw ey (record {
        aligned = t.aligned;
        split = λ x. omega (arith, t.split x);
        long = λ a. (a.0, t.long a.1);
        fits = (f.0, t.fits);
      })
]
