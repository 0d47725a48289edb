-- ===== src/Alloc/Bump.antt =====
-- kernel-lib/src/allocator/bump_allocator.rs: blocks from one end of the heap, freed all at once
-- when the last of them is given back. The lock is held throughout each method, so a method is one
-- step on the state; the null pointer is 0. kernel/src/alloc/alloc.rs keeps one such allocator.
pub mod Live
pub mod Heap
pub mod Trait
use lemola_osv.Base.{
  ℕ, none, some, Run, ok, true, false, ◌>>=◌, leb, ◌==◌, if◌then◌else◌, add64, sub64,
}
use lemola_osv.Alloc.{Layout, Range, align_and_boundary_to}

pub record BumpAllocator : Type 0 where
  pub heap_start : ℕ
  pub heap_end : ℕ
  pub next : ℕ
  pub n_allocations : ℕ

abbrev pub new : BumpAllocator
new = record { heap_start = 0; heap_end = 0; next = 0; n_allocations = 0 }

unfoldable pub init : BumpAllocator → ℕ → ℕ → BumpAllocator
init s heap_start heap_end = record s {
  heap_start = heap_start;
  heap_end = heap_end;
  next = heap_start;
}

-- The part of `alloc` behind `let Ok(..) else`.
take_range : BumpAllocator → Range → Run (ℕ × BumpAllocator)
take_range s r = elim (leb s.heap_end r.end) [
  | true ↦ ok (0, s)
  | false ↦ do
    n ← add64 s.n_allocations 1
    ok (r.start, record s { next = r.end; n_allocations = n })
]

unfoldable pub alloc : BumpAllocator → Layout → ℕ → Run (ℕ × BumpAllocator)
unfolding take_range
alloc s layout boundary = do
  range ← align_and_boundary_to s.next layout boundary
  elim range [ none ↦ ok (0, s) | some r ↦ take_range s r ]

-- The pointer and the layout are not looked at.
unfoldable pub dealloc : BumpAllocator → Run BumpAllocator
dealloc s = do
  n ← sub64 s.n_allocations 1
  ok (
      if n == 0
      then record s { n_allocations = n; next = s.heap_start }
      else record s { n_allocations = n })
