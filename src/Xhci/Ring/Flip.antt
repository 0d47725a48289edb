-- ===== src/Xhci/Ring/Flip.antt =====
-- `flip_cycle_bit_at` of kernel/src/xhci/transfer_ring.rs: the slot of a block that the controller
-- has finished is given to it once more.
use mathlib.Core.Bool.{not-not}
use lemola_osv.Base.{
  eqb_refl, ℕ, ◌+◌, ◌*◌, ◌/◌, ◌<◌, ◌≡◌, ◌∙◌, ap, sym, List, [], ◌∷◌, ◌++◌, some, Bool, not, false,
  ok, ◌>>=◌, word, arith, length, get_elem?, ◌==◌, if◌then◌else◌,
}
use lemola_osv.Xhci.Trb.{LinkApi, cycle_bit, toggle_cycle_bit}
use lemola_osv.Xhci.Ring.{
  Ring, TransferRing, store, position, count_lap, flip_cycle_bit_at, trb_size,
}
use lemola_osv.Xhci.Ring.Consumer.{Position}
use lemola_osv.Xhci.Ring.Slots.{IsRing}
use lemola_osv.Xhci.Ring.Fifo.{Pending, store_appends}

module _ (L : LinkApi) where
  toggled-cycle :
      (t : L.Raw) (bit : Bool) → cycle_bit L t ≡ not bit → cycle_bit L (toggle_cycle_bit L t) ≡ bit
  unfolding toggle_cycle_bit
  toggled-cycle t bit e = L.cycle_bit-set_bit t (not (cycle_bit L t)) ∙ ap not e ∙ not-not bit

  position-slot :
      (r : Ring L) (i : ℕ)
      → i < length r.trb_buffer
      → position L r (r.ptr + trb_size * i) ≡ some (trb_size * i)
  unfolding position
  position-slot r i h = ground arith

  -- The lap that ends with the slot in turn is counted.
  pub laps_after : ℕ → Ring L → ℕ → ℕ
  laps_after m r count = if r.write_index + 1 == m then count + 1 else count

  -- On the slot in turn, `flip_cycle_bit_at` is the write of the block with its cycle bit turned.
  flip_is_store :
      (m : ℕ) (t : TransferRing L) (old : L.Raw)
      → IsRing L m t.ring
      → t.cycle_count + 1 < word
      → get_elem? t.ring.trb_buffer t.ring.write_index ≡ some old
      → cycle_bit L old ≡ not t.ring.cycle_bit
      → flip_cycle_bit_at L t (t.ring.ptr + trb_size * t.ring.write_index) (not t.ring.cycle_bit)
        ≡ (store L t.ring (toggle_cycle_bit L old) >>= λ ring.
            ok (record { ring = ring; cycle_count = laps_after m t.ring t.cycle_count }))
  unfolding flip_cycle_bit_at store count_lap laps_after
  flip_is_store m t old v count held bit =
      let small = v.small in
      let inside = v.inside in
      let slot : (trb_size * t.ring.write_index) / trb_size ≡ t.ring.write_index = omega arith in
      ground (
        arith,
        position-slot t.ring t.ring.write_index (omega (arith, v.size, v.inside)),
        slot,
        held,
        bit,
        v.size,
        eqb_refl (not t.ring.cycle_bit),
      )

  -- `flip_cycle_bit_at` on the slot in turn does not panic, and the controller has the block of that
  -- slot once more: with the ring's cycle bit, behind the blocks it has not fetched.
  pub flip_cycle_bit_at-resubmits :
      (m : ℕ) (t : TransferRing L) (p : Position) (old : L.Raw) (ts : List L.Raw)
      → IsRing L m t.ring
      → t.cycle_count + 1 < word
      → get_elem? t.ring.trb_buffer t.ring.write_index ≡ some old
      → L.is_link (toggle_cycle_bit L old) ≡ false
      → Pending L m t.ring p ts
      → length ts < m
      → (t' : TransferRing L) × (flip_cycle_bit_at L t
            (t.ring.ptr + trb_size * t.ring.write_index)
            (not t.ring.cycle_bit)
          ≡ ok t')
        × IsRing L m t'.ring
        × Pending L m t'.ring p (ts ++ toggle_cycle_bit L old ∷ [])
  flip_cycle_bit_at-resubmits m t p old ts v count held plain wait room =
      let slot = v.free t.ring.write_index (omega arith) (omega (arith, v.inside)) in
      let same : some slot.trb ≡ some old = sym slot.held ∙ held in
      let bit : cycle_bit L old ≡ not t.ring.cycle_bit = ground (arith, same, slot.bit_of) in
      let (ring, run, v', wait') =
        store_appends L m t.ring (toggle_cycle_bit L old) p ts v
          (toggled-cycle old t.ring.cycle_bit bit) plain wait room in
      (
        record { ring = ring; cycle_count = laps_after m t.ring t.cycle_count },
        flip_is_store m t old v count held bit
            ∙ ap
                (λ run. run >>= λ ring.
                  ok (record { ring = ring; cycle_count = laps_after m t.ring t.cycle_count }))
                run,
        v',
        wait',
      )
