-- ===== src/Base/Digits.antt =====
-- The binary digits of a number above a power of two.
use Prim.Native.Nat.{
  ℕ, zero, suc, ◌+◌, ◌-◌, ◌*◌, ◌/◌, ◌%◌, ◌^◌, ◌≤◌, ◌<◌, max, bit_and, bit_or, digits,
  bit_or-bitwise,
}
use mathlib.Core.Path.{◌≡◌, refl, sym, ap, ◌∙◌}
use native.Mathlib.Nat.{
  zero-add, suc-add, pow-suc, div-div-eq-div-mul, mul_comm, mul-one, div-one, le_refl,
}
use native.Mathlib.Omega.{arith}
use lemola_osv.Base.Bits.{bit_and_step}

-- The recursion on digits that `bit_or` stands for.
abbrev join : ℕ → ℕ → ℕ → ℕ
join = digits (λ b. b) max

join_more : (n x y : ℕ) → x ≤ n → join (suc n) x y ≡ join n x y
join_more zero zero y h = refl
join_more zero (suc x) y h = absurd (omega arith)
join_more (suc n) zero y h = refl
join_more (suc n) (suc x) y h = omega (arith, join_more n (suc x / 2) (y / 2) (omega arith))

join_plenty : (extra n x y : ℕ) → x ≤ n → join (extra + n) x y ≡ join n x y
join_plenty zero n x y h = rw zero-add
join_plenty (suc extra) n x y h =
    rw suc-add (join_more (extra + n) x y (omega arith) ∙ join_plenty extra n x y h)

bit_or-join : (n x y : ℕ) → x ≤ n → bit_or x y ≡ join n x y
bit_or-join n x y h =
    let whole : n - x + x ≡ n = omega arith in
    bit_or-bitwise x y ∙ sym (rw whole at (join_plenty (n - x) x x y (omega arith)))

-- The law of the lowest digit.
bit_or_step : (x y : ℕ) → bit_or x y ≡ bit_or (x / 2) (y / 2) * 2 + max (x % 2) (y % 2)
bit_or_step zero y =
    omega (arith, bit_or-join 0 0 y (omega arith), bit_or-join 0 0 (y / 2) (omega arith))
bit_or_step (suc x) y = omega (
  arith,
  bit_or-join (suc x) (suc x) y (omega arith),
  bit_or-join x (suc x / 2) (y / 2) (omega arith),
)

-- A number below a power of two and a multiple of it share no digit.
pub bit_or_above : (k low high : ℕ) → low < 2 ^ k → bit_or low (high * 2 ^ k) ≡ low + high * 2 ^ k
bit_or_above zero low high h =
    let none_set : low ≡ 0 = omega arith in
    rw none_set (omega (arith, bit_or-join 0 0 (high * 1) (omega arith)))
bit_or_above (suc k) low high h =
    let p : 2 ^ suc k ≡ 2 ^ k * 2 = pow-suc 2 k in
    let e : high * 2 ^ suc k ≡ high * 2 ^ k * 2 = omega (arith, ap (λ (t : ℕ). high * t) p) in
    let half : high * 2 ^ suc k / 2 ≡ high * 2 ^ k = omega arith in
    omega (
      arith,
      rw half at (bit_or_step low (high * 2 ^ suc k)),
      bit_or_above k (low / 2) high (omega arith),
    )

-- A mask above a power of two reads the digits above it.
pub bit_and_above : (k x mask : ℕ) → bit_and x (mask * 2 ^ k) ≡ bit_and (x / 2 ^ k) mask * 2 ^ k
bit_and_above zero x mask = rw (mul-one, mul-one, div-one) refl
bit_and_above (suc k) x mask =
    let p : 2 ^ suc k ≡ 2 ^ k * 2 = pow-suc 2 k in
    let e : mask * 2 ^ suc k ≡ mask * 2 ^ k * 2 = omega (arith, ap (λ (t : ℕ). mask * t) p) in
    let half : mask * 2 ^ suc k / 2 ≡ mask * 2 ^ k = omega arith in
    let halves : x / 2 / 2 ^ k ≡ x / 2 ^ suc k = rw (div-div-eq-div-mul, p, mul_comm 2 (2 ^ k)) in
    omega (
      arith,
      rw half at (bit_and_step x (mask * 2 ^ suc k)),
      rw halves at (bit_and_above k (x / 2) mask),
      ap (λ (t : ℕ). bit_and (x / 2 ^ suc k) mask * t) p,
    )

bit_and_zero : (n x : ℕ) → x ≤ n → bit_and x 0 ≡ 0
bit_and_zero zero zero h = refl
bit_and_zero zero (suc x) h = absurd (omega arith)
bit_and_zero (suc n) x h = omega (arith, bit_and_step x 0, bit_and_zero n (x / 2) (omega arith))

-- The four lowest digits.
pub bit_and_nibble : (x : ℕ) → bit_and x 15 ≡ x % 16
bit_and_nibble x = omega (
  arith,
  bit_and_step x 15,
  bit_and_step (x / 2) 7,
  bit_and_step (x / 2 / 2) 3,
  bit_and_step (x / 2 / 2 / 2) 1,
  bit_and_zero _ (x / 2 / 2 / 2 / 2) (le_refl _),
)
