-- ===== src/Alloc/Boundary.antt =====
-- `align_and_boundary_to` of kernel-lib/src/allocator.rs: where it places a block.
use native.Mathlib.Nat.{one-le-pow}
use lemola_osv.Base.{
  ℕ, ◌+◌, ◌%◌, ◌^◌, ◌≤◌, ◌<◌, ◌≡◌, ◌⊎◌, inl, inr, some, ok, word, arith, true, ltb, if◌then◌else◌,
}
use lemola_osv.Base.Bits.{bit_and_pow_pred}
use lemola_osv.Alloc.{ceil, range_from, start_within, align_and_boundary_to, is_power_of_two}
use lemola_osv.Alloc.Ceil.{round_up, round_up-IsCeil, ceil-eq-round_up}

abbrev pub IsPow2 : ℕ → Type 0
IsPow2 a = (k : ℕ) × (k < 64) × (a ≡ 2 ^ k)

-- A block of `size` bytes at `start` does not step over a multiple of `b`.
abbrev pub InBlock : ℕ → ℕ → ℕ → Type 0
InBlock b start size = (b ≡ 0) ⊎ (start % b + size ≤ b)

-- The boundaries that the callers may pass.
abbrev pub IsBoundary : ℕ → ℕ → Type 0
IsBoundary b size = (b ≡ 0) ⊎ (IsPow2 b × (size ≤ b))

-- The start that the code computes, free of overflow.
unfoldable pub place : ℕ → ℕ → ℕ → ℕ → ℕ
place from size a b =
    let p = round_up from a in
    if ltb 0 b then (if ltb (round_up p b) (p + size) then round_up p b else p) else p

pow_pos : (k : ℕ) → 0 < 2 ^ k
pow_pos k = one-le-pow k 2 (omega arith)

pub pow2_pos : (a : ℕ) → IsPow2 a → 0 < a
pow2_pos a (k, hk, e) = rw e (pow_pos k)

ceil_ok : (v a : ℕ) → IsPow2 a → v + a < word → ceil v a ≡ ok (round_up v a)
ceil_ok v a (k, hk, e) h = rw e (ceil-eq-round_up v k hk (rw e at h))

pub pow2_test : (a : ℕ) → IsPow2 a → is_power_of_two a ≡ true
pow2_test a (k, hk, e) = rw e (ground (arith, pow_pos k, bit_and_pow_pred k))

pub align_and_boundary_to-eq-place :
    (from size a b : ℕ)
    → IsPow2 a
    → IsBoundary b size
    → from + a + b + size < word
    → align_and_boundary_to from (record { size = size; align = a }) b
      ≡ ok (some (record { start = place from size a b; end = place from size a b + size }))
unfolding align_and_boundary_to start_within range_from place
align_and_boundary_to-eq-place from size a b pa (inl e) h =
    let first = ceil_ok from a pa (omega arith) in
    let c = round_up-IsCeil from a (pow2_pos a pa) in ground (arith, first, c.near)
align_and_boundary_to-eq-place from size a b pa (inr (pb, fits)) h =
    let c = round_up-IsCeil from a (pow2_pos a pa) in
    let d = round_up-IsCeil (round_up from a) b (pow2_pos b pb) in
    let first = ceil_ok from a pa (omega arith) in
    let second = ceil_ok (round_up from a) b pb (omega (arith, c.near)) in
    ground (arith, first, second, c.near, d.near, pow2_pos b pb, pow2_test b pb)
