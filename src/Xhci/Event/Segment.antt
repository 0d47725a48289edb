-- ===== src/Xhci/Event/Segment.antt =====
-- `EventRingSegmentTableEntry` of kernel/src/xhci/event_ring.rs. The crate `bit_field` is a parameter.
use native.Mathlib.Nat.{pow-suc}
use lemola_osv.Base.{
  ℕ, zero, suc, ◌*◌, ◌/◌, ◌%◌, ◌^◌, ◌≤◌, ◌<◌, ◌≡◌, ap, bit_or, Run, ok, ◌>>=◌, ◌>>◌, assert, leb,
  ◌==◌, arith, true, false, word,
}
use lemola_osv.Base.Joins.{bit_or_shifted}

-- `get_bits(0..16)` and `set_bits(0..16, _)` of the crate `bit_field`, on a `u32`.
pub record BitField : Type 0 where
  pub get_bits : ℕ → ℕ
  pub set_bits : ℕ → ℕ → ℕ
  pub get-set : (d v : ℕ) → v < 2 ^ 16 → get_bits (set_bits d v) ≡ v

-- `data: [u32; 4]`; the fourth word is not used.
pub record Entry : Type 0 where
  pub data0 : ℕ
  pub data1 : ℕ
  pub data2 : ℕ

-- `u64::trailing_zeros`, for at most `n` bits.
pub trailing_zeros : ℕ → ℕ → ℕ
trailing_zeros zero a = 0
trailing_zeros (suc n) a =
    let rest = trailing_zeros n (a / 2) in elim (a % 2 == 0) [ true ↦ suc rest | false ↦ 0 ]

pub set_ring_segment_base_address : Entry → ℕ → Run Entry
set_ring_segment_base_address entry address =
    assert (leb 6 (trailing_zeros 64 address))
    >> ok (record entry { data1 = (address / 2 ^ 32) % 2 ^ 32; data0 = address % 2 ^ 32 })

unfoldable pub ring_segment_base_address : Entry → ℕ
ring_segment_base_address entry = bit_or (entry.data1 * 2 ^ 32) entry.data0

module _ (B : BitField) where
  pub set_ring_segment_size : Entry → ℕ → Entry
  set_ring_segment_size entry size = record entry { data2 = B.set_bits entry.data2 size }

  unfoldable pub ring_segment_size : Entry → ℕ
  ring_segment_size entry = B.get_bits entry.data2

  -- `EventRingSegmentTableEntry::new`
  pub new_entry : ℕ → ℕ → Run Entry
  new_entry address size = do
    entry ← set_ring_segment_base_address (record { data0 = 0; data1 = 0; data2 = 0 }) address
    ok (set_ring_segment_size entry size)

trailing_zeros_of : (k n q : ℕ) → k ≤ n → k ≤ trailing_zeros n (q * 2 ^ k)
unfolding trailing_zeros
trailing_zeros_of zero n q h = omega arith
trailing_zeros_of (suc k) zero q h = absurd (omega arith)
trailing_zeros_of (suc k) (suc n) q h =
    let p : 2 ^ suc k ≡ 2 ^ k * 2 = pow-suc 2 k in
    let e : q * 2 ^ suc k ≡ q * 2 ^ k * 2 = omega (arith, ap (λ t. q * t) p) in
    let even : q * 2 ^ suc k % 2 ≡ 0 = omega arith in
    let half : q * 2 ^ suc k / 2 ≡ q * 2 ^ k = omega arith in
    ground (arith, trailing_zeros_of k n q (omega arith), half, even)

-- An entry of an address at a multiple of 64 and a size of 16 bits gives both back.
new_entry-roundtrip :
    (B : BitField) (address size : ℕ)
    → address < word
    → address % 64 ≡ 0
    → size < 2 ^ 16
    → (entry : Entry) × (new_entry B address size ≡ ok entry)
      × (ring_segment_base_address entry ≡ address)
      × (ring_segment_size B entry ≡ size)
unfolding new_entry set_ring_segment_base_address ring_segment_base_address ring_segment_size
    set_ring_segment_size
new_entry-roundtrip B address size small aligned short =
    let whole : address / 64 * 2 ^ 6 ≡ address = omega arith in
    let zeros : 6 ≤ trailing_zeros 64 address =
      rw whole at (trailing_zeros_of 6 64 (address / 64) (omega arith)) in
    (
      record {
        data0 = address % 2 ^ 32;
        data1 = (address / 2 ^ 32) % 2 ^ 32;
        data2 = B.set_bits 0 size;
      },
      ground (arith, zeros),
      omega
          (arith, bit_or_shifted 32 ((address / 2 ^ 32) % 2 ^ 32) (address % 2 ^ 32) (omega arith)),
      B.get-set 0 size short,
    )
