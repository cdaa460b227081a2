-- ===== src/Raw/Allocator/Validate.antt =====
-- `validate_allocations` decides whether extents overlap: it accepts what is apart and within the
-- data region, and nothing else.
use argos_fs.Common.Word.{u64_max, saturating_add}
use argos_fs.Common.Sort.{sort_by_key, sort_by_key-IsSorted, sort_by_key-All, total-sort_by_key}
use argos_fs.Common.{ℕ, ◌+◌, ◌-◌, ◌≤◌, ◌<◌, max, ◌≡◌, refl, List, [], ◌∷◌, map, arith, All}
use argos_fs.Error.{ok, >>-eq-ok}
use argos_fs.Raw.Allocator.{
  RawFreeExtent, RawAllocatorState, PhysicalExtent, span, check_ordered, check_apart_one,
  check_apart, validate_allocations,
}
use argos_fs.Raw.Allocator.Cover.{covers, cover, Fits, IsLong, IsBehind, IsOrdered, IsBehind-mono}
use argos_fs.Raw.Allocator.Invariant.{owners, IsValid}

abbrev offset_of : RawFreeExtent → ℕ
offset_of e = e.offset

module _ (s : RawAllocatorState) where
  -- What a passed check of one ordered list says.
  record Checked (prev : ℕ) (es : List RawFreeExtent) : Type 0 where
    once : (x : ℕ) → cover x es ≤ 1
    low : (x : ℕ) → x < prev → cover x es ≡ 0
    high : (x : ℕ) → s.data_end ≤ x → cover x es ≡ 0
    fits : All Fits es

  check_ordered-Checked :
      (prev : ℕ) (es : List RawFreeExtent)
      → s.data_end < u64_max
      → check_ordered s prev es ≡ ok tt
      → Checked prev es
  unfolding check_ordered
  check_ordered-Checked prev [] h c = record {
    once = λ x. omega arith;
    low = λ x p. refl;
    high = λ x p. refl;
    fits = tt;
  }
  check_ordered-Checked prev (e ∷ es) h c =
      let r = check_ordered-Checked (saturating_add e.offset e.length) es h (ground arith) in
      let a : prev ≤ e.offset = ground arith in
      let b : e.offset + e.length ≤ s.data_end = ground arith in
      record {
        once = λ x. ground (arith, r.once x, r.low x);
        low = λ x p. ground (arith, r.low x);
        high = λ x p. ground (arith, r.high x);
        fits = (omega arith, r.fits);
      }

  -- An ordered list of extents that do not overlap passes.
  IsBehind-end :
      (e : RawFreeExtent) (es : List RawFreeExtent)
      → IsBehind e.offset es
      → All IsLong es
      → ((x : ℕ) → covers x e + cover x es ≤ 1)
      → IsBehind (e.offset + e.length) es
  IsBehind-end e [] b l o = tt
  IsBehind-end e (f ∷ es) b l o =
      (ground (arith, o f.offset), IsBehind-end e es b.1 l.1 (λ x. omega (arith, o x)))

  check_ordered_accepts :
      (prev : ℕ) (es : List RawFreeExtent)
      → s.data_end ≤ u64_max
      → IsOrdered es
      → IsBehind prev es
      → All IsLong es
      → ((x : ℕ) → cover x es ≤ 1)
      → ((x : ℕ) → 0 < cover x es → (s.data_start ≤ x) × (x < s.data_end))
      → check_ordered s prev es ≡ ok tt
  unfolding check_ordered
  check_ordered_accepts prev [] h o b l n w = refl
  check_ordered_accepts prev (e ∷ es) h o b l n w =
      let first = w e.offset (ground arith) in
      let last = w (e.offset + e.length - 1) (ground arith) in
      let rest =
        check_ordered_accepts (saturating_add e.offset e.length) es h o.1
          (IsBehind-mono _ (e.offset + e.length) es (omega arith) (IsBehind-end e es o.0 l.1 n)) l.1
          (λ x. omega (arith, n x)) (λ x p. w x (omega arith)) in
      ground (arith, rest)

  -- Two extents that pass share no byte, and the other way round.
  check_apart_one_sound :
      (x : ℕ) (a : RawFreeExtent) (fs : List RawFreeExtent)
      → Fits a
      → All Fits fs
      → check_apart_one a fs ≡ ok tt
      → covers x a + cover x fs ≤ max (covers x a) (cover x fs)
  unfolding check_apart_one
  check_apart_one_sound x a [] fa ff c = omega arith
  check_apart_one_sound x a (f ∷ fs) fa ff c = ground (arith, check_apart_one_sound x a fs fa ff.1)

  check_apart_sound :
      (x : ℕ) (es fs : List RawFreeExtent)
      → All Fits es
      → All Fits fs
      → check_apart es fs ≡ ok tt
      → cover x es + cover x fs ≤ max (cover x es) (cover x fs)
  unfolding check_apart
  check_apart_sound x [] fs fe ff c = omega arith
  check_apart_sound x (e ∷ es) fs fe ff c =
      let (one, rest) = >>-eq-ok (check_apart_one e fs) (check_apart es fs) c in
      ground
        (arith, check_apart_one_sound x e fs fe.0 ff one, check_apart_sound x es fs fe.1 ff rest)

check_apart_one_accepts :
    (a : RawFreeExtent) (fs : List RawFreeExtent)
    → IsLong a
    → All IsLong fs
    → ((x : ℕ) → covers x a + cover x fs ≤ 1)
    → check_apart_one a fs ≡ ok tt
unfolding check_apart_one
check_apart_one_accepts a [] la lf n = refl
check_apart_one_accepts a (f ∷ fs) la lf n =
    let rest = check_apart_one_accepts a fs la lf.1 (λ x. omega (arith, n x)) in
    ground (arith, rest, n (max a.offset f.offset))

check_apart_accepts :
    (es fs : List RawFreeExtent)
    → All IsLong es
    → All IsLong fs
    → ((x : ℕ) → cover x es + cover x fs ≤ 1)
    → check_apart es fs ≡ ok tt
unfolding check_apart
check_apart_accepts [] fs le lf n = refl
check_apart_accepts (e ∷ es) fs le lf n =
    let one = check_apart_one_accepts e fs le.0 lf (λ x. omega (arith, n x)) in
    rw one (check_apart_accepts es fs le.1 lf (λ x. omega (arith, n x)))

IsBehind-start :
    (a : ℕ) (es : List RawFreeExtent)
    → All IsLong es
    → ((x : ℕ) → 0 < cover x es → a ≤ x)
    → IsBehind a es
IsBehind-start a [] l w = tt
IsBehind-start a (e ∷ es) l w =
    (w e.offset (ground arith), IsBehind-start a es l.1 (λ x p. w x (omega arith)))

module _ (s : RawAllocatorState) (live : List PhysicalExtent) where
  abbrev used : List RawFreeExtent
  used = sort_by_key offset_of (map span live)

  abbrev frees : List RawFreeExtent
  frees = sort_by_key offset_of s.free_extents

  cover-used : (x : ℕ) → cover x used ≡ cover x (map span live)
  cover-used x = total-sort_by_key offset_of (covers x) (map span live)

  cover-frees : (x : ℕ) → cover x frees ≡ cover x s.free_extents
  cover-frees x = total-sort_by_key offset_of (covers x) s.free_extents

  -- Extents and a free list that pass the check share no byte, each among themselves too, and lie
  -- in the data region, if the region ends below the largest u64.
  pub validate_allocations_sound :
      s.data_end < u64_max
      → validate_allocations s live ≡ ok tt
      → (x : ℕ)
      → (owners s live x ≤ 1) × (0 < owners s live x → (s.data_start ≤ x) × (x < s.data_end))
  unfolding validate_allocations
  validate_allocations_sound h c x =
      let (c1, r1) = >>-eq-ok (check_ordered s s.data_start used) _ c in
      let (c2, c3) = >>-eq-ok (check_ordered s s.data_start frees) _ r1 in
      let u = check_ordered-Checked s s.data_start used h c1 in
      let f = check_ordered-Checked s s.data_start frees h c2 in
      let a = check_apart_sound s x used frees u.fits f.fits c3 in
      (
        omega (arith, a, u.once x, f.once x, cover-used x, cover-frees x),
        λ p. (
          ground (arith, u.low x, f.low x, cover-used x, cover-frees x),
          ground (arith, u.high x, f.high x, cover-used x, cover-frees x),
        ),
      )

  -- Extents in use and a free list for which the allocator's invariant holds pass the check.
  pub validate_allocations_accepts : IsValid s live → validate_allocations s live ≡ ok tt
  unfolding validate_allocations
  validate_allocations_accepts v =
      let lu = sort_by_key-All offset_of IsLong (map span live) v.live_long in
      let lf = sort_by_key-All offset_of IsLong s.free_extents v.long in
      let within : (x : ℕ) → 0 < owners s live x → (s.data_start ≤ x) × (x < s.data_end) =
        λ x p. let w = v.within x p in (w.0, omega (arith, w.1, v.next_le)) in
      let wu : (x : ℕ) → 0 < cover x used → (s.data_start ≤ x) × (x < s.data_end) =
        λ x p. within x (omega (arith, cover-used x)) in
      let wf : (x : ℕ) → 0 < cover x frees → (s.data_start ≤ x) × (x < s.data_end) =
        λ x p. within x (omega (arith, cover-frees x)) in
      let both : (x : ℕ) → cover x used + cover x frees ≤ 1 =
        λ x. omega (arith, v.once x, cover-used x, cover-frees x) in
      let c1 =
        check_ordered_accepts s s.data_start used v.end_le
          (sort_by_key-IsSorted offset_of (map span live))
          (IsBehind-start s.data_start used lu (λ x p. (wu x p).0)) lu (λ x. omega (arith, both x))
          wu in
      let c2 =
        check_ordered_accepts s s.data_start frees v.end_le
          (sort_by_key-IsSorted offset_of s.free_extents)
          (IsBehind-start s.data_start frees lf (λ x p. (wf x p).0)) lf (λ x. omega (arith, both x))
          wf in
      rw (c1, c2) (check_apart_accepts used frees lu lf both)
