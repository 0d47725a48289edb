-- ===== src/Base/Panics.antt =====
-- Code that may panic, and `usize` arithmetic as the debug profile (the Makefile's default)
-- compiles it: an overflow is a panic.
use Prim.Native.Nat.{ℕ, ◌+◌, ◌-◌, ◌*◌, ◌^◌}
use mathlib.Core.Path.{◌≡◌, refl}
use mathlib.Core.Bool.{Bool, true, false}
use mathlib.Core.Option.{Option, none, some}
use mathlib.Core.Logic.{◌⊎◌, inl, inr}
use lemola_osv.Base.Tests.{ltb, leb, if◌then◌else◌}

pub data Run {ℓ} (A : Type ℓ) : Type ℓ where
  ok : A → Run A
  panic : Run A

infixl 5 ◌>>=◌ ◌>>◌
abbrev pub ◌>>=◌ {ℓ κ} : {A : Type ℓ} {B : Type κ} → Run A → (A → Run B) → Run B
ok a >>= f = f a
panic >>= f = panic

abbrev pub ◌>>◌ {ℓ} : {B : Type ℓ} → Run (Unit {0}) → Run B → Run B
m >> k = m >>= λ _. k

-- `assert!` and `debug_assert!`.
abbrev pub assert : Bool → Run (Unit {0})
assert true = ok tt
assert false = panic

-- `unwrap`, `expect` and the check of an index.
abbrev pub unwrap {ℓ} : {A : Type ℓ} → Option A → Run A
unwrap none = panic
unwrap (some a) = ok a

-- 2 ^ 64, the number of values of `usize` and of `u64`.
abbrev pub word : ℕ
word = 2 ^ 64

abbrev pub add64 : ℕ → ℕ → Run ℕ
add64 a b = if ltb (a + b) word then ok (a + b) else panic

abbrev pub sub64 : ℕ → ℕ → Run ℕ
sub64 a b = if leb b a then ok (a - b) else panic

abbrev pub mul64 : ℕ → ℕ → Run ℕ
mul64 a b = if ltb (a * b) word then ok (a * b) else panic

-- `usize::checked_add`.
abbrev pub checked_add : ℕ → ℕ → Option ℕ
checked_add a b = if ltb (a + b) word then some (a + b) else none

-- `!a` on 64 bits.
abbrev pub not64 : ℕ → ℕ
not64 a = word - 1 - a

pub Run-cases {ℓ} : {A : Type ℓ} (m : Run A) → ((a : A) × (m ≡ ok a)) ⊎ (m ≡ panic)
Run-cases (ok a) = inl (a, refl)
Run-cases panic = inr refl

-- `+` on `u8`.
abbrev pub add8 : ℕ → ℕ → Run ℕ
add8 a b = if ltb (a + b) 256 then ok (a + b) else panic
