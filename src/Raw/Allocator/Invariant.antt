-- ===== src/Raw/Allocator/Invariant.antt =====
-- The invariant of the allocator against the list of extents that are in use, for one call of
-- `allocate` or `free` and for every history of calls.
use argos_fs.Common.Word.{u64_max}
use argos_fs.Common.{
  ℕ, ◌+◌, ◌-◌, ◌%◌, ◌≤◌, ◌<◌, max, ◌≡◌, ap, ◌⊎◌, inl, inr, List, [], ◌∷◌, ◌++◌, map, some, arith,
  All, All-append, Option-cases,
}
use argos_fs.Error.{Result, ok}
use argos_fs.Raw.Align.{align_up, le-align_up}
use argos_fs.Raw.Allocator.{
  RawFreeExtent, RawAllocatorState, PhysicalExtent, take_free, bump, allocate, span, free, coalesce,
  init_allocator, extent_at,
}
use argos_fs.Raw.Allocator.Cover.{
  covers, cover, Fits, IsLong, cover-append, Coalesced, merge_sorted-Coalesced, take_free-Taken,
  IsSeparated,
}
use mathlib.Core.List.{map-append}
use Prim.Native.String.{String}

-- How many free and used extents hold the byte at offset `x`.
abbrev pub owners : RawAllocatorState → List PhysicalExtent → ℕ → ℕ
owners s live x = cover x s.free_extents + cover x (map span live)

-- Free and used extents do not overlap, and lie between `data_start` and `next_offset`.
pub record IsValid (s : RawAllocatorState) (live : List PhysicalExtent) : Type 0 where
  pub once : (x : ℕ) → owners s live x ≤ 1
  pub within : (x : ℕ) → 0 < owners s live x → (s.data_start ≤ x) × (x < s.next_offset)
  pub start_le : s.data_start ≤ s.next_offset
  pub next_le : s.next_offset ≤ s.data_end
  pub end_le : s.data_end ≤ u64_max
  pub fits : All Fits s.free_extents
  pub long : All IsLong s.free_extents
  pub live_fits : All Fits (map span live)
  pub live_long : All IsLong (map span live)

-- A new allocator is valid, with nothing in use.
pub init_allocator-IsValid :
    (data_start data_length block_size : ℕ)
    → data_start ≤ u64_max
    → IsValid (init_allocator data_start data_length block_size) []
unfolding init_allocator
init_allocator-IsValid a n b h = record {
  once = λ x. omega arith;
  within = λ x p. absurd (omega arith);
  start_le = omega arith;
  next_le = omega arith;
  end_le = omega arith;
  fits = tt;
  long = tt;
  live_fits = tt;
  live_long = tt;
}

-- The two ways in which `allocate` succeeds.
abbrev FromFree : RawAllocatorState → (bs l : ℕ) → PhysicalExtent → RawAllocatorState → Type 0
FromFree s bs l e s' =
    (rest : List RawFreeExtent) × (take_free bs l s.free_extents ≡ some (e.offset, rest))
    × (s' ≡ record s { free_extents = rest })

abbrev FromEnd : RawAllocatorState → (bs l : ℕ) → PhysicalExtent → RawAllocatorState → Type 0
FromEnd s bs l e s' =
    (e.offset ≡ align_up s.next_offset bs)
    × (e.offset + l ≤ s.data_end)
    × (s' ≡ record s { next_offset = e.offset + l })

bump-FromEnd :
    (s : RawAllocatorState) (d : String) (bs l g : ℕ) (e : PhysicalExtent) (s' : RawAllocatorState)
    → bump s d bs l g ≡ ok (e, s')
    → (span e ≡ record { offset = align_up s.next_offset bs; length = l }) × FromEnd s bs l e s'
unfolding bump
bump-FromEnd s d bs l g e s' h = ground arith

hit_parts :
    (s : RawAllocatorState) (d : String) (o l g : ℕ) (rest : List RawFreeExtent)
    (e : PhysicalExtent) (s' : RawAllocatorState)
    → ◌≡◌ {A = Result (PhysicalExtent × RawAllocatorState)}
        (ok (extent_at d o l g, record s { free_extents = rest }))
        (ok (e, s'))
    → (e.offset ≡ o) × (e.length ≡ l) × (s' ≡ record s { free_extents = rest })
hit_parts s d o l g rest e s' h = ground arith

pub allocate_cases :
    (s : RawAllocatorState) (d : String) (length g : ℕ) (e : PhysicalExtent)
    (s' : RawAllocatorState)
    → allocate s d length g ≡ ok (e, s')
    → let bs = max s.block_size 4096 in
      let l = align_up (max length 1) bs in
      (e.length ≡ l) × (FromFree s bs l e s' ⊎ FromEnd s bs l e s')
unfolding allocate
allocate_cases s d length g e s' h =
    let bs = max s.block_size 4096 in
    let l = align_up (max length 1) bs in
    elim (Option-cases (take_free bs l s.free_extents)) [
      | inl n ↦
          let b = bump-FromEnd s d bs l g e s' (rw (n, allocate) at h) in
          (ap (λ (r : RawFreeExtent). r.length) b.0, inr b.1)
      | inr ((o, rest), m) ↦
          let p = hit_parts s d o l g rest e s' (rw (m, allocate) at h) in
          (p.1, inl (rest, rw p.0 m, p.2))
    ]

module _ (s : RawAllocatorState) (live : List PhysicalExtent) (v : IsValid s live) where
  FromFree-IsValid :
      (bs l : ℕ) (e : PhysicalExtent) (s' : RawAllocatorState)
      → 0 < l
      → e.length ≡ l
      → FromFree s bs l e s'
      → (e.offset % bs ≡ 0) × IsValid s' (e ∷ live)
  FromFree-IsValid bs l e s' p n (rest, hit, es) =
      let t = take_free-Taken bs l e.offset s.free_extents rest v.fits hit in
      rw es (
        t.aligned,
        record {
          once = λ x. ground (arith, v.once x, t.split x);
          within = λ x o. ground (arith, v.within x, t.split x);
          start_le = v.start_le;
          next_le = v.next_le;
          end_le = v.end_le;
          fits = t.fits;
          long = t.long v.long;
          live_fits = (
            ground (
              arith,
              t.split (e.offset + l - 1),
              v.within (e.offset + l - 1),
              v.next_le,
              v.end_le,
            ),
            v.live_fits,
          );
          live_long = (omega arith, v.live_long);
        },
      )

  FromEnd-IsValid :
      (bs l : ℕ) (e : PhysicalExtent) (s' : RawAllocatorState)
      → 0 < l
      → e.length ≡ l
      → FromEnd s bs l e s'
      → IsValid s' (e ∷ live)
  FromEnd-IsValid bs l e s' p n (eo, le, es) =
      let up : s.next_offset ≤ e.offset =
        omega (arith, v.next_le, v.end_le, eo, le-align_up s.next_offset bs) in
      rw es (record {
        once = λ x. ground (arith, v.once x, v.within x);
        within = λ x o. ground (arith, v.within x, v.start_le);
        start_le = omega (arith, v.start_le);
        next_le = omega arith;
        end_le = v.end_le;
        fits = v.fits;
        long = v.long;
        live_fits = (omega (arith, v.end_le), v.live_fits);
        live_long = (omega arith, v.live_long);
      })

  -- On a well-formed (IsValid) state with its extents in use, an `allocate` of a length within u64 that
  -- succeeds hands out an extent that is long enough, and leaves a well-formed state with that extent in
  -- use too: it shares no byte with the free extents and those in use, all of them within the region.
  pub allocate-IsValid :
      (d : String) (length g : ℕ) (e : PhysicalExtent) (s' : RawAllocatorState)
      → length ≤ u64_max
      → allocate s d length g ≡ ok (e, s')
      → (length ≤ e.length) × IsValid s' (e ∷ live)
  allocate-IsValid d length g e s' h a =
      let (n, c) = allocate_cases s d length g e s' a in
      let bs = max s.block_size 4096 in
      let l = align_up (max length 1) bs in
      let up : max length 1 ≤ l = le-align_up (max length 1) bs (omega arith) in
      (
        omega arith,
        elim c [
          | inl f ↦ (FromFree-IsValid bs l e s' (omega arith) n f).1
          | inr f ↦ FromEnd-IsValid bs l e s' (omega arith) n f
        ],
      )

All-middle_map :
    (P : RawFreeExtent → Type 0) (before : List PhysicalExtent) (e : PhysicalExtent)
    (after : List PhysicalExtent)
    → All P (map span (before ++ e ∷ after))
    → P (span e) × All P (map span (before ++ after))
All-middle_map P [] e after h = h
All-middle_map P (b ∷ bs) e after h = let r = All-middle_map P bs e after h.1 in (r.0, (h.0, r.1))

module _ (s : RawAllocatorState) (before : List PhysicalExtent) (e : PhysicalExtent)
    (after : List PhysicalExtent) where
  owners_middle :
      (x : ℕ) → owners s (before ++ e ∷ after) x ≡ covers x (span e) + owners s (before ++ after) x
  owners_middle x = omega (
    arith,
    ap (cover x) (map-append span before (e ∷ after)),
    ap (cover x) (map-append span before after),
    cover-append x (map span before) (map span (e ∷ after)),
    cover-append x (map span before) (map span after),
  )

  -- The free list of `free` before it is coalesced.
  abbrev pushed : List RawFreeExtent
  pushed = s.free_extents ++ span e ∷ []

  free_inside :
      (s.data_start ≤ e.offset)
      → (e.offset + e.length ≤ s.data_end)
      → 0 < e.length
      → free s e ≡ ok (coalesce (record s { free_extents = pushed }))
  unfolding free
  free_inside a b c = ground arith

  -- All of the extent's bytes lie in the region, since the first and the last do.
  free_succeeds :
      IsValid s (before ++ e ∷ after)
      → 0 < e.length
      → free s e ≡ ok (coalesce (record s { free_extents = pushed }))
  free_succeeds v n =
      let first = owners_middle e.offset in
      let last = owners_middle (e.offset + e.length - 1) in
      free_inside (ground (arith, first, v.within e.offset))
        (ground (arith, last, v.within (e.offset + e.length - 1), v.next_le)) n

  coalesce-IsValid :
      IsValid s (before ++ e ∷ after)
      → Coalesced pushed (coalesce (record s { free_extents = pushed })).free_extents
      → Fits (span e) × All Fits (map span (before ++ after))
      → IsLong (span e) × All IsLong (map span (before ++ after))
      → IsValid (coalesce (record s { free_extents = pushed })) (before ++ after)
  unfolding coalesce
  coalesce-IsValid v c f l = record {
    once = λ x. omega (arith, v.once x, c.same x, owners_middle x, added x);
    within = λ x p. v.within x (omega (arith, v.once x, c.same x, owners_middle x, added x));
    start_le = v.start_le;
    next_le = v.next_le;
    end_le = v.end_le;
    fits = c.fits;
    long = c.long (All-append IsLong s.free_extents (span e ∷ []) v.long (l.0, tt));
    live_fits = f.1;
    live_long = l.1;
  }
    where
      added : (x : ℕ) → cover x pushed ≡ cover x s.free_extents + covers x (span e)
      added x = omega (arith, cover-append x s.free_extents (span e ∷ []))

  -- Freeing an extent that is in use succeeds. Its bytes and no others become free, and the free
  -- list is ordered with no two extents that touch.
  pub free-IsValid :
      IsValid s (before ++ e ∷ after)
      → (s' : RawAllocatorState) × (free s e ≡ ok s')
        × IsValid s' (before ++ after)
        × ((x : ℕ) → cover x s'.free_extents ≡ cover x s.free_extents + covers x (span e))
        × IsSeparated s'.free_extents
  free-IsValid v =
      let s' = coalesce (record s { free_extents = pushed }) in
      let f = All-middle_map Fits before e after v.live_fits in
      let l = All-middle_map IsLong before e after v.live_long in
      let c : Coalesced pushed s'.free_extents =
        unfold coalesce in
        merge_sorted-Coalesced pushed
          (All-append Fits s.free_extents (span e ∷ []) v.fits (f.0, tt)) in
      (
        s',
        free_succeeds v l.0,
        coalesce-IsValid v c f l,
        λ x. omega (
          arith,
          c.same x,
          v.once x,
          owners_middle x,
          cover-append x s.free_extents (span e ∷ []),
        ),
        c.separated,
      )
