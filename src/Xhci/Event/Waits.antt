-- ===== src/Xhci/Event/Waits.antt =====
-- The blocks that the controller has written into the event ring of kernel/src/xhci/event_ring.rs
-- and the driver has not popped, over the end of the segment too.
use lemola_osv.Base.{
  eqb_refl, eqb-not, ℕ, ◌+◌, ◌-◌, ◌*◌, ◌/◌, ◌%◌, ◌<◌, ◌≡◌, ◌∙◌, refl, List, [], ◌∷◌, some, Run, ok,
  Bool, true, false, not, ◌==◌, if◌then◌else◌, eqb, word, arith, get_elem?, ℕ_discrete,
}
use lemola_osv.Xhci.Trb.{LinkApi, cycle_bit}
use lemola_osv.Xhci.Ring.Slots.{Slot}
use lemola_osv.Xhci.Event.Segment.{BitField, ring_segment_base_address, ring_segment_size}
use lemola_osv.Xhci.Event.{
  EventApi, World, Poll, pending, Popped, read_volatile, try_from_raw, pop, has_front, poll_front,
}

unfoldable pub next_slot : ℕ → ℕ → ℕ
next_slot n i = if i + 1 == n then 0 else i + 1

unfoldable pub next_bit : ℕ → ℕ → Bool → Bool
next_bit n i c = if i + 1 == n then not c else c

-- From slot `i` and cycle bit `c` on, the blocks `ts` wait, and the slot behind them is not written.
abbrev pub Waits : (L : LinkApi) → ℕ → List L.Raw → ℕ → Bool → List L.Raw → Type 0
Waits L n b i c [] = Slot L b i (not c)
Waits L n b i c (t ∷ ts) =
    ((get_elem? b i ≡ some t) × (cycle_bit L t ≡ c))
    × Waits L n b (next_slot n i) (next_bit n i c) ts

module _ (B : BitField) (L : LinkApi) (V : EventApi L) (n : ℕ) where
  -- The dequeue pointer stands at slot `i` of a segment of `n` slots.
  pub record IsAt (i : ℕ) (w : World B L V) : Type 0 where
    pub inside : i < n
    pub dequeue : V.event_ring_dequeue_pointer w.erdp ≡ w.trb_buffer + 16 * i
    pub aligned : w.trb_buffer % 16 ≡ 0
    pub fits : w.trb_buffer + 16 * n < word
    pub base : ring_segment_base_address w.ring.event_ring_segment_table ≡ w.trb_buffer
    pub size : ring_segment_size B w.ring.event_ring_segment_table ≡ n

  -- The state after the block at slot `i` is popped.
  abbrev pub popped_world : ℕ → World B L V → World B L V
  popped_world i w = record w {
    ring = record w.ring { cycle_bit = next_bit n i w.ring.cycle_bit; n_pop = w.ring.n_pop + 1 };
    erdp =
        V.clear_event_handler_busy
          (V.set_event_ring_dequeue_pointer w.erdp (w.trb_buffer + 16 * next_slot n i));
  }

  pub popped_world-IsAt :
      (i : ℕ) (w : World B L V) → IsAt i w → IsAt (next_slot n i) (popped_world i w)
  unfolding next_slot
  popped_world-IsAt i w v = record {
    inside = ground (arith, v.inside);
    dequeue = V.pointer-clear _ ∙ V.pointer-set w.erdp _ (omega (arith, v.aligned));
    aligned = v.aligned;
    fits = v.fits;
    base = v.base;
    size = v.size;
  }

  read_volatile_at :
      (i : ℕ) (w : World B L V) (t : L.Raw)
      → IsAt i w
      → get_elem? w.trbs i ≡ some t
      → read_volatile B L V w (V.event_ring_dequeue_pointer w.erdp) ≡ ok t
  unfolding read_volatile
  read_volatile_at i w t v held =
      let slot : (w.trb_buffer + 16 * i - w.trb_buffer) / 16 ≡ i = omega arith in
      let even : (w.trb_buffer + 16 * i - w.trb_buffer) % 16 ≡ 0 = omega arith in
      rw v.dequeue (ground (arith, slot, even, held))

  pop_at :
      (i : ℕ) (w : World B L V) (t : L.Raw)
      → IsAt i w
      → get_elem? w.trbs i ≡ some t
      → w.ring.n_pop + 1 < word
      → pop B L V w ≡ ok (try_from_raw B L V t, popped_world i w)
  unfolding pop next_slot next_bit
  pop_at i w t v held few =
      let inside = v.inside in
      let fits = v.fits in
      let read = read_volatile_at i w t v held in
      elim (ℕ_discrete (i + 1) n) [
        | yes e ↦
            let wraps : (w.trb_buffer + 16 * i + 16 == w.trb_buffer + 16 * n) ≡ true =
              ground arith in
            let start : w.trb_buffer + 16 * 0 ≡ w.trb_buffer = omega arith in
            ground (arith, e, wraps, start, read, v.dequeue, v.base, v.size)
        | no ne ↦
            let stays : (w.trb_buffer + 16 * i + 16 == w.trb_buffer + 16 * n) ≡ false =
              ground arith in
            let step : w.trb_buffer + 16 * (i + 1) ≡ w.trb_buffer + 16 * i + 16 = omega arith in
            ground (arith, ne, stays, step, read, v.dequeue, v.base, v.size)
      ]

  -- The front of the ring is a block that waits.
  pub poll_waiting :
      {A : Type 0} (handle : Popped V.Event L.Raw → World B L V → Run (Poll A × World B L V))
      (i : ℕ) (w : World B L V) (t : L.Raw)
      → IsAt i w
      → get_elem? w.trbs i ≡ some t
      → cycle_bit L t ≡ w.ring.cycle_bit
      → w.ring.n_pop + 1 < word
      → poll_front B L V handle w ≡ handle (try_from_raw B L V t) (popped_world i w)
  unfolding has_front
  poll_waiting handle i w t v held bit few =
      let read = read_volatile_at i w t v held in
      let run = pop_at i w t v held few in
      let mine : eqb (cycle_bit L t) w.ring.cycle_bit ≡ true = rw bit (eqb_refl w.ring.cycle_bit) in
      simp (read, mine, run) refl

  pub poll_idle :
      {A : Type 0} (handle : Popped V.Event L.Raw → World B L V → Run (Poll A × World B L V))
      (i : ℕ) (w : World B L V)
      → IsAt i w
      → Slot L w.trbs i (not w.ring.cycle_bit)
      → poll_front B L V handle w ≡ ok (pending, w)
  unfolding has_front
  poll_idle handle i w v s =
      let read = read_volatile_at i w s.trb v s.held in
      let other : eqb (cycle_bit L s.trb) w.ring.cycle_bit ≡ false =
        rw s.bit_of (eqb-not w.ring.cycle_bit) in
      simp (read, other) refl
