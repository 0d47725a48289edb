-- ===== src/Xhci/Ring/Laps.antt =====
-- `store` of kernel/src/xhci/transfer_ring.rs and command_ring.rs on the slots of the ring.
use mathlib.Core.Bool.{not-not}
use lemola_osv.Base.{
  ℕ, ◌+◌, ◌≤◌, ◌<◌, ◌≡◌, ◌∙◌, List, not, ok, arith, length-set, get_elem?-set_ne, set, ℕ_discrete,
  sym,
}
use lemola_osv.Xhci.Trb.{LinkApi, cycle_bit}
use lemola_osv.Xhci.Ring.{Ring, link_trb, advance, store}
use lemola_osv.Xhci.Ring.Slots.{Slot, Slot-set_self, Slot-set_ne, IsRing, link_trb-cycle}

module _ (L : LinkApi) (m : ℕ) where
  -- `store` with a slot to spare before the link.
  pub store_inner :
      (r : Ring L) (t : L.Raw)
      → IsRing L m r
      → r.write_index + 1 < m
      → store L r t
        ≡ ok (record r {
          trb_buffer = set r.trb_buffer r.write_index (t);
          write_index = r.write_index + 1;
        })
  unfolding store advance
  store_inner r t v h =
      let slot = v.free r.write_index (omega arith) (omega (arith, v.inside)) in
      let small = v.small in
      ground (arith, slot.held, v.size, length-set r.trb_buffer r.write_index (t))

  abbrev pub stored : Ring L → L.Raw → List L.Raw
  stored r t = set r.trb_buffer r.write_index (t)

  -- `store` into the last slot before the link.
  pub store_last :
      (r : Ring L) (t : L.Raw)
      → IsRing L m r
      → r.write_index + 1 ≡ m
      → store L r t
        ≡ ok (record r {
          trb_buffer = set (stored r t) m (link_trb L r.ptr r.cycle_bit);
          write_index = 0;
          cycle_bit = not r.cycle_bit;
        })
  unfolding store advance
  store_last r t v h =
      let slot = v.free r.write_index (omega arith) (omega (arith, v.inside)) in
      let last = v.free m (omega arith) (omega arith) in
      let small = v.small in
      ground (
        arith,
        slot.held,
        last.held,
        v.size,
        length-set r.trb_buffer r.write_index (t),
        get_elem?-set_ne r.trb_buffer r.write_index m (t),
      )

  stored_old :
      (r : Ring L) (t : L.Raw) (j : ℕ)
      → IsRing L m r
      → cycle_bit L t ≡ r.cycle_bit
      → j < r.write_index + 1
      → Slot L (stored r t) j r.cycle_bit
  stored_old r t j v bit h = elim (ℕ_discrete j r.write_index) [
    | yes e ↦ rw e (
        Slot-set_self L r.trb_buffer r.write_index (t) r.cycle_bit (omega (arith, v.size, v.inside))
          (bit))
    | no ne ↦
        Slot-set_ne L r.trb_buffer r.write_index j (t) r.cycle_bit (λ e. ne (sym e))
          (v.old j (omega arith))
  ]

  stored_free :
      (r : Ring L) (t : L.Raw) (j : ℕ)
      → IsRing L m r
      → r.write_index < j
      → j ≤ m
      → Slot L (stored r t) j (not r.cycle_bit)
  stored_free r t j v h k =
      Slot-set_ne L r.trb_buffer r.write_index j (t) (not r.cycle_bit) (omega arith)
        (v.free j (omega arith) k)

  -- The two states after `store`.
  abbrev pub after_inner : Ring L → L.Raw → Ring L
  after_inner r t = record r { trb_buffer = stored r t; write_index = r.write_index + 1 }

  abbrev pub after_last : Ring L → L.Raw → Ring L
  after_last r t = record r {
    trb_buffer = set (stored r t) m (link_trb L r.ptr r.cycle_bit);
    write_index = 0;
    cycle_bit = not r.cycle_bit;
  }

  pub after_inner-IsRing :
      (r : Ring L) (t : L.Raw)
      → IsRing L m r
      → cycle_bit L t ≡ r.cycle_bit
      → r.write_index + 1 < m
      → IsRing L m (after_inner r t)
  after_inner-IsRing r t v bit h = record {
    size = length-set r.trb_buffer r.write_index (t) ∙ v.size;
    small = v.small;
    inside = h;
    old = λ j k. stored_old r t j v bit k;
    free = λ j k l. stored_free r t j v (omega arith) l;
  }

  -- After the link every slot has the cycle bit of the lap that ends.
  after_last_all :
      (r : Ring L) (t : L.Raw) (j : ℕ)
      → IsRing L m r
      → cycle_bit L t ≡ r.cycle_bit
      → r.write_index + 1 ≡ m
      → j ≤ m
      → Slot L (after_last r t).trb_buffer j r.cycle_bit
  after_last_all r t j v bit h k = elim (ℕ_discrete j m) [
    | yes e ↦ rw e (
        Slot-set_self L (stored r t) m (link_trb L r.ptr r.cycle_bit) r.cycle_bit
          (omega (arith, v.size, length-set r.trb_buffer r.write_index (t)))
          (link_trb-cycle L r.ptr r.cycle_bit))
    | no ne ↦
        Slot-set_ne L (stored r t) m j (link_trb L r.ptr r.cycle_bit) r.cycle_bit (λ e. ne (sym e))
          (stored_old r t j v bit (omega arith))
  ]

  pub after_last-IsRing :
      (r : Ring L) (t : L.Raw)
      → IsRing L m r
      → cycle_bit L t ≡ r.cycle_bit
      → r.write_index + 1 ≡ m
      → IsRing L m (after_last r t)
  after_last-IsRing r t v bit h = record {
    size =
        length-set (stored r t) m (link_trb L r.ptr r.cycle_bit)
        ∙ length-set r.trb_buffer r.write_index (t)
        ∙ v.size;
    small = v.small;
    inside = omega arith;
    old = λ j k. absurd (omega arith);
    free = λ j k l. rw not-not (after_last_all r t j v bit h l);
  }
