-- ===== src/Alloc/Fixed.antt =====
-- kernel-lib/src/allocator/fixed_length_allocator.rs: blocks one after another in an array of
-- `capacity` bytes (`SIZE`), never freed. `base` is the array's address, which the code reads as
-- `heap.as_ptr()`; the array's contents play no part.
pub mod Blocks
pub mod Trait
use lemola_osv.Base.{
  ℕ, ◌+◌, ◌≤◌, ◌<◌, ◌≡◌, List, [], ◌∷◌, none, some, true, false, Run, ok, panic, ◌>>=◌, leb,
  if◌then◌else◌, add64, sub64, word, arith, refl,
}
use lemola_osv.Alloc.{Layout, Range, align_and_boundary_to}
use lemola_osv.Alloc.Boundary.{IsPow2, IsBoundary}
use lemola_osv.Alloc.Bump.Live.{Within, All, Apart, Within-Disjoint}

module _ (base capacity : ℕ) where
  pub heap_end : Run ℕ
  heap_end = add64 base capacity

  -- The part of `alloc` behind `let Ok(..) else`; the state is `next`.
  take_range : ℕ → Range → Run (ℕ × ℕ)
  unfolding heap_end
  take_range next r = do
    end ← heap_end
    elim (leb end r.end) [ true ↦ panic | false ↦ do next' ← sub64 r.end base; ok (r.start, next') ]

  unfoldable pub alloc : ℕ → Layout → ℕ → Run (ℕ × ℕ)
  unfolding take_range heap_end
  alloc next layout boundary = do
    range ← align_and_boundary_to (base + next) layout boundary
    elim range [ none ↦ panic | some r ↦ take_range next r ]

  -- A history of allocations, with the blocks that it returned, the last one first.
  unfoldable pub alloc_all : List (Layout × ℕ) → Run (List Range × ℕ)
  alloc_all [] = ok ([], 0)
  alloc_all ((layout, boundary) ∷ rest) = do
    (blocks, next) ← alloc_all rest
    (start, next') ← alloc next layout boundary
    ok (record { start = start; end = start + layout.size } ∷ blocks, next')
