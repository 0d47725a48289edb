-- ===== src/Alloc/Place.antt =====
-- What `align_and_boundary_to` of kernel-lib/src/allocator.rs promises of the block that it places.
use Prim.Native.Nat.{◌∣◌}
use native.Mathlib.Nat.{
  pow-suc, zero-add, dvd_refl, dvd-mul_right_of_dvd, dvd_trans, dvd_of_mod-eq-zero,
  mod-eq-zero_of_dvd, div-add-mod', mul-mod_left, mod-lt, le_antisymm,
}
use lemola_osv.Base.{
  ℕ, zero, suc, ◌+◌, ◌-◌, ◌*◌, ◌/◌, ◌%◌, ◌^◌, ◌≤◌, ◌<◌, ◌≡◌, ◌⊎◌, inl, inr, some, ok, word, arith,
  dec_le, refl,
}
use lemola_osv.Alloc.{Range, align_and_boundary_to}
use lemola_osv.Alloc.Ceil.{IsCeil, round_up, round_up-IsCeil, multiple_le}
use lemola_osv.Alloc.Boundary.{
  IsPow2, InBlock, IsBoundary, place, pow2_pos, align_and_boundary_to-eq-place,
}

pow_dvd : (k d : ℕ) → 2 ^ k ∣ 2 ^ (d + k)
pow_dvd k zero = rw zero-add (dvd_refl _)
pow_dvd k (suc d) =
    let e : suc d + k ≡ suc (d + k) = omega arith in
    rw (e, pow-suc) (dvd-mul_right_of_dvd _ (pow_dvd k d) 2)

pow2_chain : (a b : ℕ) → IsPow2 a → IsPow2 b → (a ∣ b) ⊎ (b ∣ a)
pow2_chain a b (k, hk, e) (j, hj, f) = elim (dec_le k j) [
  | yes p ↦ let d : j - k + k ≡ j = omega arith in rw (e, f) (inl (rw d at (pow_dvd k (j - k))))
  | no p ↦ let d : k - j + j ≡ k = omega arith in rw (e, f) (inr (rw d at (pow_dvd j (k - j))))
]

module _ (from size a b : ℕ) (pa : IsPow2 a) (pb : IsPow2 b) (fits : size ≤ b) where
  first : IsCeil from a (round_up from a)
  first = round_up-IsCeil from a (pow2_pos a pa)

  second : IsCeil (round_up from a) b (round_up (round_up from a) b)
  second = round_up-IsCeil (round_up from a) b (pow2_pos b pb)

  -- The next multiple of the boundary keeps the alignment.
  second_aligned : round_up (round_up from a) b % a ≡ 0
  second_aligned = elim (pow2_chain a b pa pb) [
    | inl h ↦ mod-eq-zero_of_dvd a (dvd_trans a h (dvd_of_mod-eq-zero b second.aligned))
    | inr h ↦
        let same : round_up (round_up from a) b ≡ round_up from a =
          le_antisymm
            (second.least (round_up from a) (omega arith)
              (mod-eq-zero_of_dvd b (dvd_trans b h (dvd_of_mod-eq-zero a first.aligned))))
            second.above in
        rw same first.aligned
  ]

  -- A block that ends before the next multiple stays in its own.
  below_next :
      round_up from a + size ≤ round_up (round_up from a) b → round_up from a % b + size ≤ b
  below_next h =
      let p = round_up from a in
      let whole : p / b * b + p % b ≡ p = div-add-mod' p b in
      let rest : p % b < b = mod-lt p (pow2_pos b pb) in
      let next : (p / b + 1) * b % b ≡ 0 = mul-mod_left (p / b + 1) b in
      let least = second.least ((p / b + 1) * b) (omega arith) next in omega (arith, least)

  -- No block from `q` on fits before the next multiple, if the first candidate does not.
  none_before :
      (q : ℕ)
      → round_up from a ≤ q
      → round_up (round_up from a) b < round_up from a + size
      → q % b + size ≤ b
      → round_up (round_up from a) b ≤ q
  none_before q le over inside = elim (dec_le (round_up (round_up from a) b) q) [
    | yes p ↦ p
    | no n ↦
        let whole : q / b * b + q % b ≡ q = div-add-mod' q b in
        absurd (
          omega (
            arith,
            multiple_le (q / b + 1) (round_up (round_up from a) b) (q + 1) b (omega arith)
                (omega arith) second.aligned,
          ))
  ]

-- What a caller learns of the block: it starts at or after `from`, is aligned, and does not step
-- over the boundary.
pub record IsPlaced (from size a b start : ℕ) : Type 0 where
  pub lower : from ≤ start
  pub aligned : start % a ≡ 0
  pub inside : InBlock b start size

pub place-IsPlaced :
    (from size a b : ℕ)
    → IsPow2 a
    → IsBoundary b size
    → IsPlaced from size a b (place from size a b)
unfolding place
place-IsPlaced from size a b pa (inl e) =
    let c = round_up-IsCeil from a (pow2_pos a pa) in
    record { lower = ground (arith, c.above); aligned = ground (arith, c.aligned); inside = inl e }
place-IsPlaced from size a b pa (inr (pb, fits)) =
    let c = first from size a b pa pb fits in
    let d = second from size a b pa pb fits in
    let pos = pow2_pos b pb in
    record {
      lower = ground (arith, c.above, d.above);
      aligned = ground (arith, c.aligned, second_aligned from size a b pa pb fits, pos);
      inside = inr (ground (arith, d.aligned, below_next from size a b pa pb fits, pos));
    }

pub place_least :
    (from size a b q : ℕ)
    → IsPow2 a
    → IsBoundary b size
    → from ≤ q
    → q % a ≡ 0
    → InBlock b q size
    → place from size a b ≤ q
unfolding place
place_least from size a b q pa (inl e) le al inside =
    ground (arith, (round_up-IsCeil from a (pow2_pos a pa)).least q le al)
place_least from size a b q pa (inr (pb, fits)) le al (inl e) =
    absurd (omega (arith, pow2_pos b pb))
place_least from size a b q pa (inr (pb, fits)) le al (inr inside) = ground (
  arith,
  (round_up-IsCeil from a (pow2_pos a pa)).least q le al,
  none_before from size a b pa pb fits q,
)

-- For an alignment that is a power of two, a boundary that is 0 or a power of two not below the
-- size, and addresses that stay below 2 ^ 64, `align_and_boundary_to` neither panics nor fails: it
-- returns a range of the layout's size that starts at or after `from`, at a multiple of the
-- alignment, and that does not step over a multiple of the boundary (if that is not 0).
pub align_and_boundary_to_places :
    (from size a b : ℕ)
    → IsPow2 a
    → IsBoundary b size
    → from + a + b + size < word
    → (r : Range) × (align_and_boundary_to from (record { size = size; align = a }) b ≡ ok (some r))
      × IsPlaced from size a b r.start
      × (r.end ≡ r.start + size)
align_and_boundary_to_places from size a b pa pb h = (
  record { start = place from size a b; end = place from size a b + size },
  align_and_boundary_to-eq-place from size a b pa pb h,
  place-IsPlaced from size a b pa pb,
  refl,
)

-- Under the same conditions no other start is earlier: whatever `q` at or after `from` is aligned
-- and keeps the block within the boundary is not below the start that the code returns.
pub align_and_boundary_to_least :
    (from size a b q : ℕ) {r : Range}
    → IsPow2 a
    → IsBoundary b size
    → from + a + b + size < word
    → align_and_boundary_to from (record { size = size; align = a }) b ≡ ok (some r)
    → from ≤ q
    → q % a ≡ 0
    → InBlock b q size
    → r.start ≤ q
align_and_boundary_to_least from size a b q {r} pa pb h e le al inside = ground (
  arith,
  align_and_boundary_to-eq-place from size a b pa pb h,
  place_least from size a b q pa pb le al inside,
)
