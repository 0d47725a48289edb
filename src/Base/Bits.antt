-- ===== src/Base/Bits.antt =====
-- `bit_and` with a mask of high ones rounds down to a multiple of a power of two.
use Prim.Native.Nat.{
  ℕ, zero, suc, ◌+◌, ◌-◌, ◌*◌, ◌/◌, ◌%◌, ◌^◌, ◌≤◌, ◌<◌, min, bit_and, digits, bit_and-bitwise,
}
use mathlib.Core.Path.{◌≡◌, refl, sym, ap, ◌∙◌}
use native.Mathlib.Nat.{
  add-suc, zero-add, suc-add, mul_comm, pow-suc, div-div-eq-div-mul, one-le-pow,
}
use native.Mathlib.Omega.{arith}

-- The recursion on digits that `bit_and` stands for; the first argument is its fuel.
abbrev meet : ℕ → ℕ → ℕ → ℕ
meet = digits (λ _. zero) min

-- Once the fuel is not below the number, one more unit changes nothing.
meet_more : (n x y : ℕ) → x ≤ n → meet (suc n) x y ≡ meet n x y
meet_more zero zero y h = refl
meet_more zero (suc x) y h = absurd (omega arith)
meet_more (suc n) zero y h = refl
meet_more (suc n) (suc x) y h = omega (arith, meet_more n (suc x / 2) (y / 2) (omega arith))

meet_plenty : (extra n x y : ℕ) → x ≤ n → meet (extra + n) x y ≡ meet n x y
meet_plenty zero n x y h = rw zero-add
meet_plenty (suc extra) n x y h =
    rw suc-add (meet_more (extra + n) x y (omega arith) ∙ meet_plenty extra n x y h)

bit_and-meet : (n x y : ℕ) → x ≤ n → bit_and x y ≡ meet n x y
bit_and-meet n x y h =
    let whole : n - x + x ≡ n = omega arith in
    bit_and-bitwise x y ∙ sym (rw whole at (meet_plenty (n - x) x x y (omega arith)))

-- The law of the lowest digit.
pub bit_and_step : (x y : ℕ) → bit_and x y ≡ bit_and (x / 2) (y / 2) * 2 + min (x % 2) (y % 2)
bit_and_step zero y = omega (arith, bit_and-meet 0 0 y, bit_and-meet 0 0 (y / 2))
bit_and_step (suc x) y = omega (
  arith,
  bit_and-meet (suc x) (suc x) y (omega arith),
  bit_and-meet x (suc x / 2) (y / 2) (omega arith),
)

bit_and_step_at :
    (a b q r : ℕ) → b / 2 ≡ q → b % 2 ≡ r → bit_and a b ≡ bit_and (a / 2) q * 2 + min (a % 2) r
bit_and_step_at a b q r e f = rw (← e, ← f) (bit_and_step a b)

bit_and_ones : (d x : ℕ) → x < 2 ^ d → bit_and x (2 ^ d - 1) ≡ x
bit_and_ones zero zero h = refl
bit_and_ones zero (suc x) h = absurd (omega arith)
bit_and_ones (suc d) x h =
    let p : 2 ^ suc d ≡ 2 ^ d * 2 = pow-suc 2 d in
    let pos : 1 ≤ 2 ^ d = one-le-pow d 2 (omega arith) in
    omega (
      arith,
      bit_and_step_at x (2 ^ suc d - 1) (2 ^ d - 1) 1 (omega arith) (omega arith),
      bit_and_ones d (x / 2) (omega arith),
    )

-- The mask has ones from bit `k` up to bit `k + d`.
pub bit_and_high :
    (k d x : ℕ) → x < 2 ^ (d + k) → bit_and x (2 ^ (d + k) - 2 ^ k) ≡ x / 2 ^ k * 2 ^ k
bit_and_high zero d x h =
    let e : d + 0 ≡ d = omega arith in rw e (omega (arith, bit_and_ones d x (rw e at h)))
bit_and_high (suc k) d x h =
    let e : 2 ^ (d + suc k) ≡ 2 ^ (d + k) * 2 = rw add-suc (pow-suc 2 (d + k)) in
    let p : 2 ^ suc k ≡ 2 ^ k * 2 = pow-suc 2 k in
    let halves : x / 2 / 2 ^ k ≡ x / 2 ^ suc k = rw (div-div-eq-div-mul, p, mul_comm 2 (2 ^ k)) in
    omega (
      arith,
      bit_and_step_at x (2 ^ (d + suc k) - 2 ^ suc k) (2 ^ (d + k) - 2 ^ k) 0 (omega arith)
          (omega arith),
      bit_and_high k d (x / 2) (omega arith),
      ap (λ (t : ℕ). t * 2 ^ k) halves,
      ap (λ (t : ℕ). x / 2 ^ suc k * t) p,
    )

-- A power of two and the number below it have no common bit.
pub bit_and_pow_pred : (d : ℕ) → bit_and (2 ^ d) (2 ^ d - 1) ≡ 0
bit_and_pow_pred zero = refl
bit_and_pow_pred (suc d) =
    let p : 2 ^ suc d ≡ 2 ^ d * 2 = pow-suc 2 d in
    let pos : 1 ≤ 2 ^ d = one-le-pow d 2 (omega arith) in
    let half : 2 ^ suc d / 2 ≡ 2 ^ d = omega arith in
    let first =
      bit_and_step_at (2 ^ suc d) (2 ^ suc d - 1) (2 ^ d - 1) 1 (omega arith) (omega arith) in
    omega (arith, rw half at first, bit_and_pow_pred d)
