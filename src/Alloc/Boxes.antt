-- ===== src/Alloc/Boxes.antt =====
-- The functions of kernel-lib/src/allocator.rs that allocate boxes and arrays, for any allocator.
-- kernel/src/alloc/alloc.rs calls them with the global one.
pub mod Filled
pub mod Arrays
use lemola_osv.Base.{
  ℕ, ◌-◌, ◌*◌, ◌%◌, ◌^◌, ◌≡◌, ◌≢◌, ◌+◌, zero, suc, List, [], ◌∷◌, unwrap, get_elem?, set, Option,
  none, some, Run, ok, ◌>>=◌, leb, ◌==◌, ◌&&◌, if◌then◌else◌, mul64, replicate, Run-cases, inl, inr,
  refl, arith,
}
use lemola_osv.Alloc.{Layout, is_power_of_two}
use lemola_osv.Alloc.Boundary.{InBlock}
use lemola_osv.Alloc.Api.{BoundaryAlloc}

-- `Layout::from_size_align` of the language's library: `Err` for an alignment that is no power of
-- two, and for a size that overflows `isize` when it is rounded up to the alignment.
pub from_size_align : ℕ → ℕ → Option Layout
from_size_align size align =
    if is_power_of_two align && leb size (2 ^ 63 - align)
    then some (record { size = size; align = align })
    else none

-- A boxed slice: its address and its elements.
pub record Boxed {ℓ} (T : Type ℓ) : Type ℓ where
  pub ptr : ℕ
  pub contents : List T

module _ (A : BoundaryAlloc) where
  open A use {State, Admits, alloc}

  -- `GlobalAlloc::alloc` as `impl_global_alloc_for_boundary_alloc` has it: no boundary.
  pub global_alloc : State → Layout → Run (ℕ × State)
  global_alloc s layout = alloc s layout 0

  -- `Allocator::allocate`: a slice, as its address and its length, or `AllocError` for null.
  pub allocate : State → Layout → Run (Option (ℕ × ℕ) × State)
  unfolding global_alloc
  allocate s layout = do
    (ptr, s') ← global_alloc s layout
    ok (if ptr == 0 then none else some (ptr, layout.size), s')

  -- The address of the block, `none` for `AllocationError`.
  alloc_layout : State → Option Layout → ℕ → Run (Option ℕ × State)
  alloc_layout s none boundary = ok (none, s)
  alloc_layout s (some layout) boundary = do
    (p, s') ← alloc s layout boundary
    ok (if p == 0 then none else some p, s')

  pub alloc_with_boundary : State → ℕ → ℕ → ℕ → Run (Option ℕ × State)
  unfolding alloc_layout
  alloc_with_boundary s size_of alignment boundary =
      alloc_layout s (from_size_align size_of alignment) boundary

  pub alloc_array_with_boundary : State → ℕ → ℕ → ℕ → ℕ → Run (Option ℕ × State)
  unfolding alloc_layout
  alloc_array_with_boundary s len size_of alignment boundary = do
    size ← mul64 len size_of
    alloc_layout s (from_size_align size alignment) boundary

  module _ {ℓ} {T : Type ℓ} where
    -- The loop over the elements, with so many rounds left, from an index on; an element that nothing
    -- was written to is `none`.
    pub write_defaults : ℕ → ℕ → T → List (Option T) → Run (List (Option T))
    write_defaults zero i default vals = ok vals
    write_defaults (suc n) i default vals = do
      old ← unwrap (get_elem? vals i)
      write_defaults n (i + 1) default (set vals i (some default))

    -- `assume_init`, which must not meet an element that nothing was written to.
    pub assume_init : List (Option T) → Run (List T)
    assume_init [] = ok []
    assume_init (val ∷ vals) = do first ← unwrap val; rest ← assume_init vals; ok (first ∷ rest)

    -- The elements of a block just allocated, written and read as initialised.
    pub filled : ℕ → T → Option ℕ → Run (Option (Boxed T))
    filled len default none = ok none
    filled len default (some p) = do
      vals ← write_defaults len 0 default (replicate len none)
      contents ← assume_init vals
      ok (some (record { ptr = p; contents = contents }))

    pub alloc_with_boundary_with_default_else :
        State → ℕ → ℕ → ℕ → T → Run (Option (Boxed T) × State)
    unfolding alloc_with_boundary
    alloc_with_boundary_with_default_else s size_of alignment boundary default = do
      (p, s') ← alloc_with_boundary s size_of alignment boundary
      boxed ← filled 1 default p
      ok (boxed, s')

    pub alloc_array_with_boundary_with_default_else :
        State → ℕ → ℕ → ℕ → ℕ → T → Run (Option (Boxed T) × State)
    unfolding alloc_array_with_boundary from_size_align
    alloc_array_with_boundary_with_default_else s len size_of alignment boundary default = do
      (p, s') ← alloc_array_with_boundary s len size_of alignment boundary
      boxed ← filled len default p
      ok (boxed, s')
