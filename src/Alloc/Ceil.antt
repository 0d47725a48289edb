-- ===== src/Alloc/Ceil.antt =====
-- `ceil` of kernel-lib/src/allocator.rs, against its arithmetic meaning.
use native.Mathlib.Nat.{
  one-le-pow, mul-mod_left, div-mul-le_self, lt-div-mul-add, div-add-mod', mul-le-mul_right,
  lt_of_mul-lt-mul_right,
}
use lemola_osv.Base.{
  ℕ, ◌+◌, ◌-◌, ◌*◌, ◌/◌, ◌%◌, ◌^◌, ◌≤◌, ◌<◌, ◌≡◌, ok, word, bit_and, not64, arith, dec_le,
}
use lemola_osv.Base.Bits.{bit_and_high}
use lemola_osv.Alloc.{ceil}

-- `c` is the least multiple of `a` that is not below `v`.
pub record IsCeil (v a c : ℕ) : Type 0 where
  pub above : v ≤ c
  pub aligned : c % a ≡ 0
  pub near : c < v + a
  pub least : (q : ℕ) → v ≤ q → q % a ≡ 0 → c ≤ q

pub round_up : ℕ → ℕ → ℕ
round_up v a = (v + a - 1) / a * a

-- A multiple of `a` below `v + a` is not above any multiple from `v` on.
pub multiple_le : (m q v a : ℕ) → m * a < v + a → v ≤ q → q % a ≡ 0 → m * a ≤ q
multiple_le m q v a near le e = elim (dec_le (m * a) q) [
  | yes p ↦ p
  | no n ↦
      let whole : q / a * a + q % a ≡ q = div-add-mod' q a in
      let fewer : q / a < m = lt_of_mul-lt-mul_right a (omega arith) in
      absurd (omega (arith, mul-le-mul_right a fewer))
]

pub round_up-IsCeil : (v a : ℕ) → 0 < a → IsCeil v a (round_up v a)
unfolding round_up
round_up-IsCeil v a h = record {
  above = omega (arith, lt-div-mul-add {a = v + a - 1} h);
  aligned = mul-mod_left ((v + a - 1) / a) a;
  near = omega (arith, div-mul-le_self (v + a - 1) a);
  least = λ q le e.
      multiple_le ((v + a - 1) / a) q v a (omega (arith, div-mul-le_self (v + a - 1) a)) le e;
}

-- With a power of two that the word holds and no overflow, `ceil` rounds up.
pub ceil-eq-round_up :
    (v k : ℕ) → k < 64 → v + 2 ^ k < word → ceil v (2 ^ k) ≡ ok (round_up v (2 ^ k))
unfolding ceil round_up
ceil-eq-round_up v k hk h =
    let pos : 1 ≤ 2 ^ k = one-le-pow k 2 (omega arith) in
    let w : 64 - k + k ≡ 64 = omega arith in
    let masked : bit_and (v + 2 ^ k - 1) (word - 2 ^ k) ≡ round_up v (2 ^ k) =
      rw w at (bit_and_high k (64 - k) (v + 2 ^ k - 1) (rw w (omega arith))) in
    let mask : not64 (2 ^ k - 1) ≡ word - 2 ^ k = omega arith in ground (arith, masked, mask)
