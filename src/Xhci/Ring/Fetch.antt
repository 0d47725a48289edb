-- ===== src/Xhci/Ring/Fetch.antt =====
-- The controller on a ring of kernel/src/xhci: what it fetches from the blocks pending.
use mathlib.Core.Bool.{not-not}
use native.Mathlib.Numerals.{unary_clauses}
use lemola_osv.Base.{
  eqb_refl, eqb-not, ℕ, suc, ◌+◌, ◌-◌, ◌/◌, ◌≡◌, ◌∙◌, ap, List, [], ◌∷◌, ◌++◌, some, none, Bool,
  not, false, true, arith, length, get_elem?,
}
use lemola_osv.Xhci.Trb.{LinkApi, cycle_bit}
use lemola_osv.Xhci.Ring.{Ring, link_trb, trb_size}
use lemola_osv.Xhci.Ring.Consumer.{Position, fetch, follow}
use lemola_osv.Xhci.Ring.Slots.{Slot, IsRing, link_trb-cycle}
use lemola_osv.Xhci.Ring.Fifo.{SameLap, LapBehind, Pending, same_lap, lap_behind}

module _ (L : LinkApi) where
  open L use {Raw, is_link}

  fetch_mine :
      (base : ℕ) (b : List Raw) (p : Position) (t : Raw)
      → get_elem? b p.index ≡ some t
      → cycle_bit L t ≡ p.cycle
      → fetch L base b p ≡ some (t, follow L base b (record p { index = p.index + 1 }))
  unfolding fetch
  fetch_mine base b p t held bit = ground (arith, held, bit, eqb_refl p.cycle)

  follow_plain :
      (base : ℕ) (b : List Raw) (p : Position) (t : Raw)
      → get_elem? b p.index ≡ some t
      → cycle_bit L t ≡ p.cycle
      → is_link t ≡ false
      → follow L base b p ≡ p
  unfolding follow
  follow_plain base b p t held bit plain = ground (arith, held, bit, plain, eqb_refl p.cycle)

  follow_other :
      (base : ℕ) (b : List Raw) (p : Position)
      → Slot L b p.index (not p.cycle)
      → follow L base b p ≡ p
  unfolding follow
  follow_other base b p s = ground (arith, s.held, s.bit_of, eqb-not p.cycle)

  fetch_other :
      (base : ℕ) (b : List Raw) (p : Position)
      → Slot L b p.index (not p.cycle)
      → fetch L base b p ≡ none
  unfolding fetch
  fetch_other base b p s = ground (arith, s.held, s.bit_of, eqb-not p.cycle)

  link_toggle : (ptr : ℕ) (bit : Bool) → L.toggle_cycle (L.of_raw (link_trb L ptr bit)) ≡ true
  unfolding link_trb
  link_toggle ptr true =
      ap L.toggle_cycle (L.of_raw-into_raw _) ∙ L.toggle_cycle-set_cycle _ ∙ L.toggle_cycle-set _
  link_toggle ptr false =
      ap L.toggle_cycle (L.of_raw-into_raw _) ∙ L.toggle_cycle-clear_cycle _ ∙ L.toggle_cycle-set _

  link_pointer :
      (ptr : ℕ) (bit : Bool) → L.ring_segment_pointer (L.of_raw (link_trb L ptr bit)) ≡ ptr
  unfolding link_trb
  link_pointer ptr true =
      ap L.ring_segment_pointer (L.of_raw-into_raw _)
      ∙ L.pointer-set_cycle _
      ∙ L.pointer-set_toggle _
      ∙ L.pointer-set _ ptr
  link_pointer ptr false =
      ap L.ring_segment_pointer (L.of_raw-into_raw _)
      ∙ L.pointer-clear_cycle _
      ∙ L.pointer-set_toggle _
      ∙ L.pointer-set _ ptr

  link_is : (ptr : ℕ) (bit : Bool) → is_link (link_trb L ptr bit) ≡ true
  unfolding link_trb
  link_is ptr bit = L.is_link-into_raw _

  at_start : (base : ℕ) → (base - base) / trb_size ≡ 0
  at_start base = omega arith

  follow_link :
      (base : ℕ) (b : List Raw) (p : Position)
      → get_elem? b p.index ≡ some (link_trb L base p.cycle)
      → follow L base b p ≡ record { index = 0; cycle = not p.cycle }
  unfolding follow
  follow_link base b p held = ground (
    arith,
    held,
    link_trb-cycle L base p.cycle,
    link_is base p.cycle,
    link_toggle base p.cycle,
    link_pointer base p.cycle,
    eqb_refl p.cycle,
    at_start base,
  )

  -- Where the controller goes from slot `p.index` on.
  abbrev pub next : List Raw → ℕ → Position → Position
  next b base p = follow L base b (record p { index = p.index + 1 })

  same_next :
      (m : ℕ) (r : Ring L) (p : Position) (t : Raw) (ts : List Raw)
      → IsRing L m r
      → SameLap L r p (t ∷ ts)
      → next r.trb_buffer r.ptr p ≡ record p { index = p.index + 1 }
  same_next m r p t [] v s =
      follow_other r.ptr r.trb_buffer (record p { index = p.index + 1 })
        (rw s.lap (v.free (p.index + 1) (omega (arith, s.span)) (omega (arith, s.span, v.inside))))
  same_next m r p t (t2 ∷ ts) v s =
      let (_, ((held, bit, plain), _)) = s.seg in
      let e : suc p.index ≡ p.index + 1 = omega arith in
      follow_plain r.ptr r.trb_buffer (record p { index = p.index + 1 }) t2 (rw e at held) bit plain

  behind_next :
      (m : ℕ) (r : Ring L) (p : Position) (t t2 : Raw) (ts us : List Raw)
      → LapBehind L m r p (t ∷ t2 ∷ ts) us
      → next r.trb_buffer r.ptr p ≡ record p { index = p.index + 1 }
  behind_next m r p t t2 ts us s =
      let (_, ((held, bit, plain), _)) = s.seg in
      let e : suc p.index ≡ p.index + 1 = omega arith in
      follow_plain r.ptr r.trb_buffer (record p { index = p.index + 1 }) t2 (rw e at held) bit plain

  behind_wraps :
      (m : ℕ) (r : Ring L) (p : Position) (t : Raw) (us : List Raw)
      → LapBehind L m r p (t ∷ []) us
      → next r.trb_buffer r.ptr p ≡ record { index = 0; cycle = not p.cycle }
  behind_wraps m r p t us s =
      let e : p.index + 1 ≡ m = omega (arith, s.span) in
      follow_link r.ptr r.trb_buffer (record p { index = p.index + 1 }) (rw e s.link)

  SameLap-wrapped :
      (m : ℕ) (r : Ring L) (p : Position) (x : Raw) (us all : List Raw)
      → us ≡ all
      → LapBehind L m r p (x ∷ []) us
      → SameLap L r (record { index = 0; cycle = not p.cycle }) all
  SameLap-wrapped m r p x us all e s =
      let cycle : not p.cycle ≡ r.cycle_bit = ap not s.lap ∙ not-not r.cycle_bit in
      record {
        lap = cycle;
        span = omega (arith, s.wrapped, ap length e);
        seg = rw cycle (rw e at s.start);
      }

  -- If blocks are pending, the controller fetches the oldest, over the link at the end of the ring too,
  -- and the others stay pending.
  pub fetch_oldest :
      (m : ℕ) (r : Ring L) (p : Position) (t : Raw) (ts : List Raw)
      → IsRing L m r
      → Pending L m r p (t ∷ ts)
      → (p' : Position) × (fetch L r.ptr r.trb_buffer p ≡ some (t, p')) × Pending L m r p' ts
  fetch_oldest m r p t ts v (same_lap s) =
      let ((held, bit, _), rest) = s.seg in
      (
        record p { index = p.index + 1 },
        fetch_mine r.ptr r.trb_buffer p t held bit
            ∙ ap (λ q. some (t, q)) (same_next m r p t ts v s),
        same_lap
            (record { lap = s.lap; span = omega (arith, s.span); seg = simp unary_clauses rest }),
      )
  fetch_oldest m r p t all v (lap_behind [] us e s) = absurd (omega (arith, s.early, s.span))
  fetch_oldest m r p t all v (lap_behind (x ∷ []) us e s) =
      let ((held, bit, _), _) = s.seg in
      let head : x ≡ t = cc in
      let tail : us ≡ all = cc in
      (
        record { index = 0; cycle = not p.cycle },
        fetch_mine r.ptr r.trb_buffer p t (rw head at held) (rw head at bit)
            ∙ ap (λ q. some (t, q)) (behind_wraps m r p x us s),
        same_lap (SameLap-wrapped m r p x us all tail s),
      )
  fetch_oldest m r p t all v (lap_behind (x ∷ x2 ∷ ts) us e s) =
      let ((held, bit, _), rest) = s.seg in
      let head : x ≡ t = cc in
      let tail : all ≡ (x2 ∷ ts) ++ us = cc in
      (
        record p { index = p.index + 1 },
        fetch_mine r.ptr r.trb_buffer p t (rw head at held) (rw head at bit)
            ∙ ap (λ q. some (t, q)) (behind_next m r p x x2 ts us s),
        lap_behind (x2 ∷ ts) us tail (record {
          lap = s.lap;
          wrapped = s.wrapped;
          link = s.link;
          start = s.start;
          early = omega (arith, s.span);
          span = omega (arith, s.span);
          room = omega (arith, s.room);
          seg = simp unary_clauses rest;
        }),
      )
