-- ===== src/Xhci/Ring/Consumer.antt =====
-- The consumer's side of a ring as the xHCI specification has it: the controller takes blocks whose
-- cycle bit is its own, and follows a link as soon as it reaches it, to the address in it, turning
-- its cycle bit round if the link says so. This is what the driver's rings are checked against.
use lemola_osv.Base.{
  ℕ, ◌+◌, ◌-◌, ◌/◌, List, Option, none, some, Bool, not, ◌&&◌, if◌then◌else◌, get_elem?, eqb,
}
use lemola_osv.Xhci.Trb.{LinkApi, cycle_bit}
use lemola_osv.Xhci.Ring.{trb_size}

pub record Position : Type 0 where
  pub index : ℕ
  pub cycle : Bool

module _ (L : LinkApi) where
  open L use {Raw, of_raw, is_link}

  abbrev pub is_mine : Position → Raw → Bool
  is_mine p r = eqb (cycle_bit L r) p.cycle

  unfoldable pub follow : ℕ → List Raw → Position → Position
  follow base buffer p = elim (get_elem? buffer p.index) [
    | none ↦ p
    | some r ↦
        if is_mine p r && is_link r
        then record {
          index = (L.ring_segment_pointer (of_raw r) - base) / trb_size;
          cycle = if L.toggle_cycle (of_raw r) then not p.cycle else p.cycle;
        }
        else p
  ]

  -- The next block for the controller, and where it goes on.
  unfoldable pub fetch : ℕ → List Raw → Position → Option (Raw × Position)
  fetch base buffer p = elim (get_elem? buffer p.index) [
    | none ↦ none
    | some r ↦
        if is_mine p r
        then some (r, follow base buffer (record p { index = p.index + 1 }))
        else none
  ]
