-- ===== src/Alloc/Fixed/Blocks.antt =====
-- The blocks of kernel-lib/src/allocator/fixed_length_allocator.rs.
use lemola_osv.Base.{
  ℕ, ◌+◌, ◌-◌, ◌≤◌, ◌<◌, ◌≡◌, ◌⊎◌, inl, inr, List, [], ◌∷◌, ok, panic, leb, word, arith, Bool-cases,
  Run-cases,
}
use lemola_osv.Alloc.{Layout, Range}
use lemola_osv.Alloc.Boundary.{IsPow2, IsBoundary, place, align_and_boundary_to-eq-place}
use lemola_osv.Alloc.Place.{place-IsPlaced}
use lemola_osv.Alloc.Bump.Live.{Within, All, Apart, Within-Disjoint, All-Within_mono}
use lemola_osv.Alloc.Fixed.{alloc, alloc_all, take_range, heap_end}

module _ (base capacity : ℕ) where
  -- The requests that the callers may make, where no address overflows.
  pub record IsRequest (layout : Layout) (boundary : ℕ) : Type 0 where
    pub pow2 : IsPow2 layout.align
    pub bounded : IsBoundary boundary layout.size
    pub small : base + capacity + layout.align + boundary + layout.size < word

  -- Both branches of `alloc`: the next fitting block, or a panic where that would reach the end.
  pub alloc_cases :
      (next : ℕ) (layout : Layout) (boundary : ℕ)
      → next ≤ capacity
      → IsRequest layout boundary
      → let p = place (base + next) layout.size layout.align boundary in
        ((base + capacity ≤ p + layout.size) × (alloc base capacity next layout boundary ≡ panic))
        ⊎ ((p + layout.size < base + capacity)
            × (alloc base capacity next layout boundary ≡ ok (p, p + layout.size - base)))
  unfolding alloc take_range heap_end
  alloc_cases next layout boundary le q =
      let p = place (base + next) layout.size layout.align boundary in
      let found =
        align_and_boundary_to-eq-place (base + next) layout.size layout.align boundary q.pow2
          q.bounded (omega (arith, q.small)) in
      let lower =
        (place-IsPlaced (base + next) layout.size layout.align boundary q.pow2 q.bounded).lower in
      let small = q.small in
      elim (Bool-cases (leb (base + capacity) (p + layout.size))) [
        | inl full ↦ inl (ground arith, ground (arith, found))
        | inr room ↦ inr (ground arith, ground (arith, found))
      ]

  abbrev pub AllRequests : List (Layout × ℕ) → Type 0
  AllRequests [] = Unit {0}
  AllRequests ((layout, boundary) ∷ rest) = IsRequest layout boundary × AllRequests rest

  -- What the history has built.
  pub record IsHeap (blocks : List Range) (next : ℕ) : Type 0 where
    pub fits : next ≤ capacity
    pub within : All (Within base (base + next)) blocks
    pub apart : Apart blocks

  alloc-IsHeap :
      (blocks : List Range) (next : ℕ) (layout : Layout) (boundary p next' : ℕ)
      → IsRequest layout boundary
      → IsHeap blocks next
      → alloc base capacity next layout boundary ≡ ok (p, next')
      → IsHeap (record { start = p; end = p + layout.size } ∷ blocks) next'
  alloc-IsHeap blocks next layout boundary p next' q v e =
      let start = place (base + next) layout.size layout.align boundary in
      let lower =
        (place-IsPlaced (base + next) layout.size layout.align boundary q.pow2 q.bounded).lower in
      elim (alloc_cases next layout boundary v.fits q) [
        | inl (full, stop) ↦ absurd (ground (arith, e, stop))
        | inr (room, found) ↦
            let at : p ≡ start = ground (arith, e, found) in
            let end : next' ≡ start + layout.size - base = ground (arith, e, found) in
            record {
              fits = omega arith;
              within = (
                omega arith,
                All-Within_mono base (base + next) (base + next') blocks (omega arith) v.within,
              );
              apart = (Within-Disjoint base (base + next) _ blocks (omega arith) v.within, v.apart);
            }
      ]

  -- A history of requests as `IsRequest` has them that ends without a panic has returned blocks that
  -- lie in the array and do not overlap.
  pub alloc_all-IsHeap :
      (requests : List (Layout × ℕ)) (blocks : List Range) (next : ℕ)
      → AllRequests requests
      → alloc_all base capacity requests ≡ ok (blocks, next)
      → IsHeap blocks next
  unfolding alloc_all
  alloc_all-IsHeap [] blocks next q e =
      let no_block : blocks ≡ [] = ground (arith, e) in
      let at_start : next ≡ 0 = ground (arith, e) in
      rw (no_block, at_start) (record { fits = omega arith; within = tt; apart = tt })
  alloc_all-IsHeap ((layout, boundary) ∷ rest) blocks next q e =
      elim (Run-cases (alloc_all base capacity rest)) [
        | inl ((older, n), f) ↦ elim (Run-cases (alloc base capacity n layout boundary)) [
          | inl ((p, n'), g) ↦
              let now : blocks ≡ record { start = p; end = p + layout.size } ∷ older =
                ground (arith, e, f, g) in
              let at : next ≡ n' = ground (arith, e, f, g) in
              rw (now, at)
                (alloc-IsHeap older n layout boundary p n' q.0 (alloc_all-IsHeap rest older n q.1 f)
                  g)
          | inr g ↦ absurd (ground (arith, e, f, g))
        ]
        | inr f ↦ absurd (ground (arith, e, f))
      ]
