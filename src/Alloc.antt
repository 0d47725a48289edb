-- ===== src/Alloc.antt =====
-- kernel-lib/src/allocator.rs: rounding up, and the place of a block that must not step over a
-- boundary. Addresses are `usize`; the debug profile's overflow checks are kept.
pub mod Ceil
pub mod Boundary
pub mod Place
pub mod Api
pub mod Bump
pub mod Fixed
pub mod Boxes
mod Tests
use lemola_osv.Base.{
  ℕ, ◌-◌, Option, none, some, Run, ok, ◌>>=◌, ◌>>◌, assert, ltb, leb, ◌==◌, ◌&&◌, ◌||◌,
  if◌then◌else◌, add64, sub64, not64, checked_add, bit_and, Bool,
}

-- `core::alloc::Layout`: `from_size_align` admits only powers of two as alignments.
pub record Layout : Type 0 where
  pub size : ℕ
  pub align : ℕ

-- `core::ops::Range<usize>`
pub record Range : Type 0 where
  pub start : ℕ
  pub end : ℕ

pub ceil : ℕ → ℕ → Run ℕ
ceil value alignment = do
  sum ← add64 value alignment
  top ← sub64 sum 1
  mask ← sub64 alignment 1
  ok (bit_and top (not64 mask))

-- `usize::is_power_of_two`, from the language's library.
abbrev pub is_power_of_two : ℕ → Bool
is_power_of_two n = ltb 0 n && bit_and n (n - 1) == 0

-- The range from `start` on, `Err` being `none`.
range_from : ℕ → ℕ → Option Range
range_from start size = elim (checked_add start size) [
  | none ↦ none
  | some end ↦ some (record { start = start; end = end })
]

-- The body of `if boundary > 0`: the start of the block, or the early `Err`.
start_within : ℕ → ℕ → ℕ → Run (Option ℕ)
start_within alloc_ptr size boundary = do
  next_boundary ← ceil alloc_ptr boundary
  ok (elim (checked_add alloc_ptr size) [
    | none ↦ none
    | some end ↦ some (if ltb next_boundary end then next_boundary else alloc_ptr)
  ])

pub align_and_boundary_to : ℕ → Layout → ℕ → Run (Option Range)
unfolding start_within range_from
align_and_boundary_to from_ptr layout boundary = do
  assert (boundary == 0 || is_power_of_two boundary)
  assert (boundary == 0 || leb layout.size boundary)
  alloc_ptr ← ceil from_ptr layout.align
  start ←
      if ltb 0 boundary then start_within alloc_ptr layout.size boundary else ok (some alloc_ptr)
  ok (elim start [ none ↦ none | some s ↦ range_from s layout.size ])
