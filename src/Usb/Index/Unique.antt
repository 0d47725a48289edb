-- ===== src/Usb/Index/Unique.antt =====
-- An index belongs to one endpoint: kernel/src/usb/device.rs.
use lemola_osv.Base.{
  ℕ, ◌+◌, ◌*◌, ◌/◌, ◌%◌, ◌<◌, ◌≤◌, ◌≡◌, ◌∙◌, ◌↔◌, ◌≢◌, inl, inr, refl, Run, ok, panic, ltb, lt→ltb,
  ltb→lt, ltb→le, arith, if◌then◌else◌, ◌==◌, ==_iff, Bool-cases, ap,
}
use lemola_osv.Usb.Host.{Direction, host_to_device, device_to_host}
use lemola_osv.Usb.Index.{
  EndpointId, in_bit, calc_dci, checked_new, new_index, from_endpoint_address, dci_of,
}

-- The number that an endpoint has.
abbrev pub index_value : ℕ → Direction → ℕ
index_value n d = n * 2 + (if n == 0 then 1 else in_bit d)

in_bit-le : (d : Direction) → in_bit d ≤ 1
in_bit-le host_to_device = omega arith
in_bit-le device_to_host = omega arith

low_bit-le : (n : ℕ) (d : Direction) → (if n == 0 then 1 else in_bit d) ≤ 1
low_bit-le n d = elim (Bool-cases (n == 0)) [
  | inl h ↦ rw h (omega arith)
  | inr h ↦ rw h (in_bit-le d)
]

one-le-index_value : (n : ℕ) (d : Direction) → 1 ≤ index_value n d
one-le-index_value n d = elim (Bool-cases (n == 0)) [
  | inl h ↦ rw h (omega arith)
  | inr h ↦ rw h (ground arith)
]

calc_dci_lem : (n : ℕ) (d : Direction) → n < 16 → calc_dci n d ≡ ok (index_value n d)
unfolding calc_dci
calc_dci_lem n d h =
    let small = low_bit-le n d in
    let twice : n * 2 < 256 = omega arith in
    let whole : index_value n d < 256 = omega arith in rw (lt→ltb _ _ twice, lt→ltb _ _ whole) refl

-- The index of an endpoint lies between 1 and 31, and `DeviceContextIndex::new` does not refuse it.
new_index_lem :
    (id : EndpointId)
    → id.endpoint_number < 16
    → (k : ℕ) × (dci_of id ≡ ok k)
      × (new_index id.endpoint_number id.direct ≡ ok k)
      × (1 ≤ k)
      × (k ≤ 31)
unfolding dci_of new_index checked_new
new_index_lem id h =
    let n = id.endpoint_number in
    let d = id.direct in
    let value = calc_dci_lem n d h in
    let small = low_bit-le n d in
    let whole : index_value n d < 32 = omega arith in
    (
      index_value n d,
      value,
      (rw (value, lt→ltb _ _ whole) refl),
      one-le-index_value n d,
      omega arith,
    )

from_endpoint_address_lem : (a : ℕ) → a < 256 → from_endpoint_address a ≡ ok (a % 16 * 2 + a / 128)
unfolding from_endpoint_address checked_new
from_endpoint_address_lem a h =
    let twice : a % 16 * 2 < 256 = omega arith in
    let whole : a % 16 * 2 + a / 128 < 256 = omega arith in
    let below : a % 16 * 2 + a / 128 < 32 = omega arith in
    rw (lt→ltb _ _ twice, lt→ltb _ _ whole, lt→ltb _ _ below) refl

-- Bit 7 of an endpoint's address.
abbrev pub direction_of : ℕ → Direction
direction_of a = if ltb a 128 then host_to_device else device_to_host

direction_bit : (a : ℕ) → a < 256 → in_bit (direction_of a) ≡ a / 128
direction_bit a h = elim (Bool-cases (ltb a 128)) [
  | inl e ↦ rw e (let small = ltb→lt _ _ e in omega arith)
  | inr e ↦ rw e (let large = ltb→le _ _ e in omega arith)
]

in_bit-injective : (d e : Direction) → in_bit d ≡ in_bit e → d ≡ e
in_bit-injective host_to_device host_to_device h = refl
in_bit-injective host_to_device device_to_host h = absurd (omega (arith, h))
in_bit-injective device_to_host host_to_device h = absurd (omega (arith, h))
in_bit-injective device_to_host device_to_host h = refl

index_value_nonzero : (n : ℕ) (d : Direction) → n ≢ 0 → index_value n d ≡ n * 2 + in_bit d
index_value_nonzero n d h = elim (Bool-cases (n == 0)) [
  | inl e ↦ absurd (h ((==_iff n 0).0 e))
  | inr e ↦ rw e refl
]

abbrev value_or : Run ℕ → ℕ
value_or (ok a) = a
value_or panic = 0

-- Two sums of an even number and a bit, of which the first is not below 2.
same_parts :
    (m b n : ℕ) (d : Direction)
    → m ≢ 0
    → b ≤ 1
    → m * 2 + b ≡ index_value n d
    → (m ≡ n) × (b ≡ in_bit d)
same_parts m b n d nonzero small e = elim (Bool-cases (n == 0)) [
  | inl z ↦
      let e' : m * 2 + b ≡ n * 2 + 1 = rw z at e in
      absurd (let zero = (==_iff n 0).0 z in ground arith)
  | inr z ↦
      let e' : m * 2 + b ≡ n * 2 + in_bit d = rw z at e in
      let bit = in_bit-le d in (omega arith, omega arith)
]

-- The index of an endpoint's address, whose number is not 0, is that of an endpoint, as a transfer finds it,
-- exactly if both have the same number and the same direction.
index_lem :
    (a : ℕ) (id : EndpointId)
    → a < 256
    → id.endpoint_number < 16
    → a % 16 ≢ 0
    → (from_endpoint_address a ≡ dci_of id)
      ↔ ((a % 16 ≡ id.endpoint_number) × (direction_of a ≡ id.direct))
unfolding dci_of
index_lem a id ha h nonzero =
    let n = id.endpoint_number in
    let left = from_endpoint_address_lem a ha in
    let right = calc_dci_lem n id.direct h in
    let bit = direction_bit a ha in
    (
      (λ e.
          let parts =
            same_parts (a % 16) (a / 128) n id.direct nonzero (omega arith)
              (ap value_or (rw (left, right) at e)) in
          (parts.0, in_bit-injective (direction_of a) id.direct (bit ∙ parts.1))),
      (λ (same, way).
          let value = index_value_nonzero (a % 16) (direction_of a) nonzero in
          rw (left, right, ← same, ← way, value, bit) refl),
    )
