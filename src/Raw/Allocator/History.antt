-- ===== src/Raw/Allocator/History.antt =====
-- Every history of `allocate` and `free` calls, in which only extents in use are freed.
use argos_fs.Common.Word.{u64_max}
use argos_fs.Common.{subst, ℕ, ◌≤◌, ◌≡◌, List, [], ◌∷◌, ◌++◌}
use argos_fs.Error.{ok}
use argos_fs.Raw.Allocator.{
  RawAllocatorState, PhysicalExtent, init_allocator, allocate, free, validate_allocations,
}
use argos_fs.Raw.Allocator.Invariant.{
  IsValid, init_allocator-IsValid, allocate-IsValid, free-IsValid,
}
use argos_fs.Raw.Allocator.Validate.{validate_allocations_accepts}
use Prim.Native.String.{String}

-- The allocator, and the extents that it handed out and did not get back.
pub record Pool : Type 0 where
  pub state : RawAllocatorState
  pub live : List PhysicalExtent

pub data Step (p q : Pool) : Type 0 where
  allocates :
      (disk_id : String) (length generation : ℕ) (e : PhysicalExtent)
      → length ≤ u64_max
      → allocate p.state disk_id length generation ≡ ok (e, q.state)
      → q.live ≡ e ∷ p.live
      → Step p q
  frees :
      (before : List PhysicalExtent) (e : PhysicalExtent) (after : List PhysicalExtent)
      → p.live ≡ before ++ e ∷ after
      → free p.state e ≡ ok q.state
      → q.live ≡ before ++ after
      → Step p q

pub data Reach (p : Pool) : Pool → Type 0 where
  here : Reach p p
  next : {q r : Pool} → Reach p q → Step q r → Reach p r

Step-IsValid : (p q : Pool) → Step p q → IsValid p.state p.live → IsValid q.state q.live
Step-IsValid p q (allocates d l g e h a n) v =
    rw n (allocate-IsValid p.state p.live v d l g e q.state h a).1
Step-IsValid p q (frees before e after n f m) v =
    let (s', ok', valid, _, _) =
      free-IsValid p.state before e after (subst (IsValid p.state) n v) in
    let same : s' ≡ q.state = cc in rw (← same, m) valid

Reach-IsValid : {p q : Pool} → IsValid p.state p.live → Reach p q → IsValid q.state q.live
Reach-IsValid v here = v
Reach-IsValid v (next {q} {r} path step) = Step-IsValid q r step (Reach-IsValid v path)

abbrev pub fresh : (data_start data_length block_size : ℕ) → Pool
fresh a n b = record { state = init_allocator a n b; live = [] }

-- After any history of allocations and of frees of whole extents in use, on a new allocator whose
-- region fits a u64, no byte belongs to two extents, free or in use, every extent lies between the
-- region's start and `next_offset`, and the allocator's own check passes.
pub history-IsValid :
    (data_start data_length block_size : ℕ) {q : Pool}
    → data_start ≤ u64_max
    → Reach (fresh data_start data_length block_size) q
    → IsValid q.state q.live × (validate_allocations q.state q.live ≡ ok tt)
history-IsValid a n b {q} h path =
    let v = Reach-IsValid (init_allocator-IsValid a n b h) path in
    (v, validate_allocations_accepts q.state q.live v)
