-- ===== src/Alloc/Tests.antt =====
-- Runs of the allocators, some from the tests in kernel-lib/src/allocator.rs, and the theorems at
-- concrete inputs.
use lemola_osv.Base.{ℕ, ◌+◌, ◌≤◌, ◌≡◌, inl, inr, refl, [], ◌∷◌, some, ok, arith, ◌<◌, ◌⊎◌, none}
use lemola_osv.Alloc.{Layout, Range, ceil, align_and_boundary_to}
use lemola_osv.Alloc.Boundary.{IsPow2, IsBoundary}
use lemola_osv.Alloc.Place.{IsPlaced, align_and_boundary_to_places, align_and_boundary_to_least}
use lemola_osv.Alloc.Bump.{BumpAllocator, init, alloc, dealloc}
use lemola_osv.Alloc.Bump.Live.{here}
use lemola_osv.Alloc.Bump.Heap.{
  World, IsRequest, taken, IsSafe, gets, Reach, start, next, fresh_world, history-IsSafe,
  history_gives_back,
}
use lemola_osv.Alloc.Bump.Trait.{bump_alloc}
use lemola_osv.Alloc.Fixed.{alloc_all}
use lemola_osv.Alloc.Fixed
use lemola_osv.Alloc.Fixed.Blocks.{IsHeap, alloc_all-IsHeap}
use lemola_osv.Alloc.Boxes.{alloc_array_with_boundary_with_default_else}
use lemola_osv.Alloc.Boxes.Arrays
use lemola_osv.Alloc.Boxes.Arrays.{alloc_array_lem}

ceil_test : (ceil 100 4 ≡ ok 100) × (ceil 101 4 ≡ ok 104)
unfolding ceil
ceil_test = (refl, refl)

align_and_boundary_to_test :
    align_and_boundary_to 0x1111 (record { size = 0x100; align = 0x2000 }) 0x400
    ≡ ok (some (record { start = 0x2000; end = 0x2100 }))
unfolding align_and_boundary_to ceil
align_and_boundary_to_test = refl

abbrev four : IsPow2 4
four = (2, omega arith, refl)

abbrev sixteen : IsPow2 16
sixteen = (4, omega arith, refl)

align_and_boundary_to_places_example :
    (r : Range) × (align_and_boundary_to 13 (record { size = 6; align = 4 }) 16 ≡ ok (some r))
    × IsPlaced 13 6 4 16 r.start
    × (r.end ≡ r.start + 6)
align_and_boundary_to_places_example =
    align_and_boundary_to_places 13 6 4 16 four (inr (sixteen, omega arith)) (omega arith)

align_and_boundary_to_least_example : 16 ≤ 32
unfolding align_and_boundary_to ceil
align_and_boundary_to_least_example =
    align_and_boundary_to_least 9 10 4 16 32 {r = record { start = 16; end = 26 }} four
      (inr (sixteen, omega arith)) (omega arith) refl (omega arith) refl (inr (omega arith))

abbrev small : Layout
small = record { size = 6; align = 4 }

abbrev heap : BumpAllocator
heap = record { heap_start = 32; heap_end = 40; next = 32; n_allocations = 0 }

abbrev heap_used : BumpAllocator
heap_used = record { heap_start = 32; heap_end = 40; next = 38; n_allocations = 1 }

heap-IsRequest : IsRequest heap small 16
heap-IsRequest = record {
  pow2 = four;
  bounded = inr (sixteen, omega arith);
  small = omega arith;
  countable = omega arith;
}

used-IsRequest : IsRequest heap_used small 16
used-IsRequest = record {
  pow2 = four;
  bounded = inr (sixteen, omega arith);
  small = omega arith;
  countable = omega arith;
}

abbrev one_held : World
one_held = record { heap = heap_used; live = record { start = 32; end = 38 } ∷ [] }

one_held-Reach : Reach (fresh_world 32 40) one_held
unfolding init alloc align_and_boundary_to ceil
one_held-Reach =
    next start (gets small 16 32 heap_used heap-IsRequest refl (λ e. absurd (omega arith)))

history-IsSafe_example : IsSafe 32 40 one_held
history-IsSafe_example = history-IsSafe 32 40 (omega arith) (omega arith) one_held-Reach

history_gives_back_example : (s : BumpAllocator) × (dealloc heap_used ≡ ok s) × (s.next ≡ 32)
history_gives_back_example =
    history_gives_back 32 40 (omega arith) (omega arith) (record { start = 32; end = 38 }) []
      one_held-Reach here

array-IsRequest :
    (boundary : ℕ)
    → IsBoundary boundary 6
    → boundary ≤ 16
    → Fixed.Blocks.IsRequest 32 64 small boundary
array-IsRequest boundary b le = record { pow2 = four; bounded = b; small = omega arith }

alloc_all-IsHeap_example :
    IsHeap 32 64 (record { start = 40; end = 46 } ∷ record { start = 32; end = 38 } ∷ []) 14
unfolding alloc_all Fixed.alloc align_and_boundary_to ceil
alloc_all-IsHeap_example =
    alloc_all-IsHeap 32 64 ((small, 0) ∷ (small, 16) ∷ []) _ 14
      (
        array-IsRequest 0 (inl refl) (omega arith),
        (array-IsRequest 16 (inr (sixteen, omega arith)) (omega arith), tt),
      )
      refl

alloc_array_lem_example :
    let p = Arrays.start {T = ℕ} heap 3 2 4 16 7 in
    let default : ℕ = 7 in
    ((heap.heap_end ≤ p + 6)
      × (alloc_array_with_boundary_with_default_else bump_alloc heap 3 2 4 16 default
          ≡ ok (none, heap)))
    ⊎ ((p + 6 < heap.heap_end)
        × (alloc_array_with_boundary_with_default_else bump_alloc heap 3 2 4 16 default
            ≡ ok (
              some (record { ptr = p; contents = 7 ∷ 7 ∷ 7 ∷ [] }),
              taken heap (record { size = 6; align = 4 }) p,
            ))
        × IsPlaced heap.next 6 4 16 p)
alloc_array_lem_example = alloc_array_lem heap 3 2 4 16 7 (omega arith) heap-IsRequest (omega arith)
