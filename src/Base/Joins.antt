-- ===== src/Base/Joins.antt =====
-- `bit_or` of numbers without a common bit is their sum.
use Prim.Native.Nat.{
  ℕ, zero, suc, ◌+◌, ◌-◌, ◌*◌, ◌/◌, ◌%◌, ◌^◌, ◌≤◌, ◌<◌, max, bit_or, digits, bit_or-bitwise,
}
use mathlib.Core.Path.{◌≡◌, refl, sym, ap, ◌∙◌}
use native.Mathlib.Nat.{pow-suc, suc-add, zero-add}
use native.Mathlib.Omega.{arith}

abbrev join : ℕ → ℕ → ℕ → ℕ
join = digits (λ y. y) max

join_more : (n x y : ℕ) → x ≤ n → join (suc n) x y ≡ join n x y
join_more zero zero y h = refl
join_more zero (suc x) y h = absurd (omega arith)
join_more (suc n) zero y h = refl
join_more (suc n) (suc x) y h = omega (arith, join_more n (suc x / 2) (y / 2) (omega arith))

join_plenty : (extra n x y : ℕ) → x ≤ n → join (extra + n) x y ≡ join n x y
join_plenty zero n x y h = rw zero-add
join_plenty (suc extra) n x y h =
    rw suc-add (join_more (extra + n) x y (omega arith) ∙ join_plenty extra n x y h)

bit_or-join : (n x y : ℕ) → x ≤ n → bit_or x y ≡ join n x y
bit_or-join n x y h =
    let whole : n - x + x ≡ n = omega arith in
    bit_or-bitwise x y ∙ sym (rw whole at (join_plenty (n - x) x x y (omega arith)))

bit_or_step : (x y : ℕ) → bit_or x y ≡ bit_or (x / 2) (y / 2) * 2 + max (x % 2) (y % 2)
bit_or_step zero y = omega (arith, bit_or-join 0 0 y, bit_or-join 0 0 (y / 2))
bit_or_step (suc x) y = omega (
  arith,
  bit_or-join (suc x) (suc x) y (omega arith),
  bit_or-join x (suc x / 2) (y / 2) (omega arith),
)

join_zero : (n x : ℕ) → x ≤ n → join n x 0 ≡ x
join_zero zero zero h = refl
join_zero zero (suc x) h = absurd (omega arith)
join_zero (suc n) zero h = refl
join_zero (suc n) (suc x) h = omega (arith, join_zero n (suc x / 2) (omega arith))

-- `h << k | l`
pub bit_or_shifted : (k h l : ℕ) → l < 2 ^ k → bit_or (h * 2 ^ k) l ≡ h * 2 ^ k + l
bit_or_shifted zero h zero less =
    let one : h * 2 ^ 0 ≡ h = omega arith in
    rw one (omega (arith, bit_or-join h h 0 (omega arith), join_zero h h (omega arith)))
bit_or_shifted zero h (suc l) less = absurd (omega arith)
bit_or_shifted (suc k) h l less =
    let p : 2 ^ suc k ≡ 2 ^ k * 2 = pow-suc 2 k in
    let q : h * 2 ^ suc k ≡ h * 2 ^ k * 2 = omega (arith, ap (λ t. h * t) p) in
    let half : h * 2 ^ suc k / 2 ≡ h * 2 ^ k = omega arith in
    omega
      (arith, rw half at (bit_or_step (h * 2 ^ suc k) l), bit_or_shifted k h (l / 2) (omega arith))

-- `l | h << k`
pub bit_or_below : (k h l : ℕ) → l < 2 ^ k → bit_or l (h * 2 ^ k) ≡ h * 2 ^ k + l
bit_or_below zero h zero less =
    let one : h * 2 ^ 0 ≡ h = omega arith in rw one (omega (arith, bit_or-join 0 0 h (omega arith)))
bit_or_below zero h (suc l) less = absurd (omega arith)
bit_or_below (suc k) h l less =
    let p : 2 ^ suc k ≡ 2 ^ k * 2 = pow-suc 2 k in
    let q : h * 2 ^ suc k ≡ h * 2 ^ k * 2 = omega (arith, ap (λ t. h * t) p) in
    let half : h * 2 ^ suc k / 2 ≡ h * 2 ^ k = omega arith in
    omega
      (arith, rw half at (bit_or_step l (h * 2 ^ suc k)), bit_or_below k h (l / 2) (omega arith))
