-- ===== src/Alloc/Boxes/Arrays.antt =====
-- Arrays from the bump allocator: `alloc_array_with_boundary_with_default_else` of
-- kernel-lib/src/allocator.rs over kernel-lib/src/allocator/bump_allocator.rs.
use lemola_osv.Base.{
  ℕ, ◌+◌, ◌-◌, ◌*◌, ◌^◌, ◌<◌, ◌≤◌, ◌≡◌, ◌⊎◌, inl, inr, refl, none, some, ok, word, leb, lt→ltb,
  ◌==◌, true, false, replicate, arith,
}
use lemola_osv.Alloc.{Layout}
use lemola_osv.Alloc.Boundary.{place, pow2_test}
use lemola_osv.Alloc.Place.{IsPlaced, place-IsPlaced}
use lemola_osv.Alloc.Bump.{BumpAllocator}
use lemola_osv.Alloc.Bump.Heap.{IsRequest, alloc_cases, taken}
use lemola_osv.Alloc.Bump.Trait.{bump_alloc}
use lemola_osv.Alloc.Boxes.{
  alloc_layout, alloc_array_with_boundary, filled, alloc_array_with_boundary_with_default_else,
}
use lemola_osv.Alloc.Boxes.Filled.{filled_lem}

module _ {ℓ} {T : Type ℓ} (s : BumpAllocator) (len size_of alignment boundary : ℕ)
    (default : T) where
  abbrev pub layout : Layout
  layout = record { size = len * size_of; align = alignment }

  abbrev pub start : ℕ
  start = place s.next (len * size_of) alignment boundary

  -- What `alloc_array_with_boundary_with_default_else` does with a request that the bump allocator, whose
  -- next block does not begin at 0, can serve without an overflow: where the next block that is aligned and keeps the boundary would reach the
  -- end of the heap, it fails and changes nothing; else it takes that block, and every one of its `len`
  -- elements is the default. It does not panic and reads no element that was not written.
  pub alloc_array_lem :
      0 < s.next
      → IsRequest s layout boundary
      → len * size_of ≤ 2 ^ 63 - alignment
      → ((s.heap_end ≤ start + len * size_of)
          × (alloc_array_with_boundary_with_default_else bump_alloc s len size_of alignment boundary
                default
              ≡ ok (none, s)))
        ⊎ ((start + len * size_of < s.heap_end)
            × (alloc_array_with_boundary_with_default_else bump_alloc s len size_of alignment
                  boundary default
                ≡ ok (
                  some (record { ptr = start; contents = replicate len default }),
                  taken s layout start,
                ))
            × IsPlaced s.next (len * size_of) alignment boundary start)
  unfolding alloc_array_with_boundary_with_default_else alloc_array_with_boundary alloc_layout
      filled
  alloc_array_lem pos q fits =
      let power = pow2_test alignment q.pow2 in
      let room : leb (len * size_of) (2 ^ 63 - alignment) ≡ true = ground arith in
      let small : len * size_of < word = omega arith in
      let total = lt→ltb (len * size_of) word small in
      let placed = place-IsPlaced s.next (len * size_of) alignment boundary q.pow2 q.bounded in
      elim (alloc_cases s layout boundary q) [
        | inl (full, found) ↦ inl (full, (rw (total, power, room, found) refl))
        | inr (below, found) ↦
            let real : (start == 0) ≡ false = let lower = placed.lower in ground arith in
            inr (
              below,
              (rw (total, power, room, found, real, filled_lem bump_alloc len start default) refl),
              placed,
            )
      ]
