-- ===== src/Alloc/Fixed/Trait.antt =====
-- `impl BoundaryAlloc for FixedLengthAllocator` of
-- kernel-lib/src/allocator/fixed_length_allocator.rs.
use lemola_osv.Base.{ℕ, ◌+◌, ◌≤◌, ◌≡◌, inl, inr, ok, arith}
use lemola_osv.Alloc.{Layout}
use lemola_osv.Alloc.Boundary.{place}
use lemola_osv.Alloc.Place.{IsPlaced, place-IsPlaced}
use lemola_osv.Alloc.Api.{BoundaryAlloc}
use lemola_osv.Alloc.Fixed.{alloc}
use lemola_osv.Alloc.Fixed.Blocks.{IsRequest, alloc_cases}

module _ (base capacity : ℕ) where
  abbrev pub Admits : ℕ → Layout → ℕ → Type 0
  Admits next layout boundary = (next ≤ capacity) × IsRequest base capacity layout boundary

  pub alloc-IsPlaced :
      (next next' : ℕ) (layout : Layout) (boundary p : ℕ)
      → Admits next layout boundary
      → alloc base capacity next layout boundary ≡ ok (p, next')
      → IsPlaced (base + next) layout.size layout.align boundary p
  alloc-IsPlaced next next' layout boundary p (le, q) e =
      elim (alloc_cases base capacity next layout boundary le q) [
        | inl (full, stop) ↦ absurd (ground (arith, e, stop))
        | inr (room, found) ↦
            let at : p ≡ place (base + next) layout.size layout.align boundary =
              ground (arith, e, found) in
            rw at (place-IsPlaced (base + next) layout.size layout.align boundary q.pow2 q.bounded)
      ]

  abbrev pub fixed_alloc : BoundaryAlloc
  fixed_alloc = record {
    State = ℕ;
    Admits = Admits;
    alloc = alloc base capacity;
    alloc_aligned =
        λ s s' layout boundary p q e nz. (alloc-IsPlaced s s' layout boundary p q e).aligned;
    alloc_inside =
        λ s s' layout boundary p q e nz. (alloc-IsPlaced s s' layout boundary p q e).inside;
  }
