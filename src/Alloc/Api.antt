-- ===== src/Alloc/Api.antt =====
-- The trait `BoundaryAlloc` of kernel-lib/src/allocator.rs, with what its users may expect of `alloc`.
use lemola_osv.Base.{ℕ, ◌≡◌, ◌≢◌, ◌%◌, Run, ok}
use lemola_osv.Alloc.{Layout}
use lemola_osv.Alloc.Boundary.{InBlock}

-- `Admits` are the requests that the implementation is specified for.
pub record BoundaryAlloc : Type 1 where
  pub State : Type 0
  pub Admits : State → Layout → ℕ → Type 0
  pub alloc : State → Layout → ℕ → Run (ℕ × State)
  pub alloc_aligned :
      (s s' : State) (layout : Layout) (boundary p : ℕ)
      → Admits s layout boundary
      → alloc s layout boundary ≡ ok (p, s')
      → p ≢ 0
      → p % layout.align ≡ 0
  pub alloc_inside :
      (s s' : State) (layout : Layout) (boundary p : ℕ)
      → Admits s layout boundary
      → alloc s layout boundary ≡ ok (p, s')
      → p ≢ 0
      → InBlock boundary p layout.size
