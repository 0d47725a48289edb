-- ===== src/Alloc/Bump/Trait.antt =====
-- `impl BoundaryAlloc for Mutex<BumpAllocator>` of kernel-lib/src/allocator/bump_allocator.rs.
use lemola_osv.Base.{ℕ, ◌≡◌, ◌≢◌, inl, inr, ok, arith}
use lemola_osv.Alloc.{Layout}
use lemola_osv.Alloc.Boundary.{place}
use lemola_osv.Alloc.Place.{IsPlaced, place-IsPlaced}
use lemola_osv.Alloc.Api.{BoundaryAlloc}
use lemola_osv.Alloc.Bump.{BumpAllocator, alloc}
use lemola_osv.Alloc.Bump.Heap.{IsRequest, alloc_cases}

pub alloc-IsPlaced :
    (s s' : BumpAllocator) (layout : Layout) (boundary p : ℕ)
    → IsRequest s layout boundary
    → alloc s layout boundary ≡ ok (p, s')
    → p ≢ 0
    → IsPlaced s.next layout.size layout.align boundary p
alloc-IsPlaced s s' layout boundary p q e nz = elim (alloc_cases s layout boundary q) [
  | inl (full, found) ↦ absurd (nz (ground (arith, e, found)))
  | inr (room, found) ↦
      let at : p ≡ place s.next layout.size layout.align boundary = ground (arith, e, found) in
      rw at (place-IsPlaced s.next layout.size layout.align boundary q.pow2 q.bounded)
]

abbrev pub bump_alloc : BoundaryAlloc
bump_alloc = record {
  State = BumpAllocator;
  Admits = IsRequest;
  alloc = alloc;
  alloc_aligned =
      λ s s' layout boundary p q e nz. (alloc-IsPlaced s s' layout boundary p q e nz).aligned;
  alloc_inside =
      λ s s' layout boundary p q e nz. (alloc-IsPlaced s s' layout boundary p q e nz).inside;
}
