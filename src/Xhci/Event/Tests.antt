-- ===== src/Xhci/Event/Tests.antt =====
-- Tests of the event ring of kernel/src/xhci/event_ring.rs.
use lemola_osv.Base.{
  ℕ, suc, ◌+◌, ◌≡◌, refl, [], ◌∷◌, ◌++◌, Option, none, some, Bool, false, true, ok, arith, length,
  zero,
}
use lemola_osv.Xhci.Ring.Tests.{Word4, blocks}
use lemola_osv.Xhci.Event.Segment.{BitField, ring_segment_base_address, ring_segment_size}
use lemola_osv.Xhci.Event.{EventApi, World, ready, pending, poll_command, is_completion_of}
use lemola_osv.Xhci.Event.Waits.{IsAt, Waits, next_slot, next_bit}
use lemola_osv.Xhci.Event.Await.{poll_times, events, poll_command-delivers, poll_command-steals}

abbrev bits : BitField
bits = record { get_bits = λ d. d; set_bits = λ d v. v; get-set = λ d v h. refl }

-- A block whose pointer is not 0 is the completion of the command at that address.
abbrev parse : ℕ → Option ℕ
parse zero = none
parse (suc n) = some n

abbrev xhci : EventApi blocks
xhci = record {
  Event = ℕ;
  Transfer = ℕ;
  Completion = ℕ;
  Erdp = ℕ;
  try_from = λ r. parse r.block.pointer;
  transfer_event = λ e. none;
  command_completion = λ e. some e;
  slot_id = λ t. t;
  trb_pointer = λ t. t;
  command_trb_pointer = λ c. c;
  event_ring_dequeue_pointer = λ e. e;
  set_event_ring_dequeue_pointer = λ e a. a;
  clear_event_handler_busy = λ e. e;
  pointer-set = λ e a h. refl;
  pointer-clear = λ e. refl;
}

abbrev block : Bool → ℕ → Word4
block bit p = record { kind = false; block = record { cycle = bit; toggle = false; pointer = p } }

-- Two slots; the driver stands at the second, and the controller has begun its next lap.
abbrev world : World bits blocks xhci
world = record {
  ring = record {
    popped = [];
    event_ring_segment_table = record { data0 = 640; data1 = 0; data2 = 2 };
    cycle_bit = true;
    n_pop = 1;
  };
  erdp = 656;
  trb_buffer = 640;
  trbs = block false 9 ∷ block true 5 ∷ [];
}

world-IsAt : IsAt bits blocks xhci 2 1 world
unfolding ring_segment_base_address ring_segment_size
world-IsAt = record {
  inside = omega arith;
  dequeue = refl;
  aligned = refl;
  fits = omega arith;
  base = refl;
  size = refl;
}

abbrev after_block : Word4
after_block = block false 9

world-Waits :
    Waits blocks 2 world.trbs 1 world.ring.cycle_bit ((block true 5 ∷ []) ++ after_block ∷ [])
unfolding next_slot next_bit
world-Waits =
    ((refl, refl), ((refl, refl), record { trb = block true 5; held = refl; bit_of = refl }))

poll_command-delivers_example :
    (w' : World bits blocks xhci) × (i' : ℕ) × (poll_times bits blocks xhci
        (poll_command bits blocks xhci 8)
        (length (block true 5 ∷ []) + 1)
        world
      ≡ ok (ready 8, w'))
    × (w'.ring.popped ≡ world.ring.popped ++ events bits blocks xhci (block true 5 ∷ []))
    × IsAt bits blocks xhci 2 i' w'
    × Waits blocks 2 w'.trbs i' w'.ring.cycle_bit []
unfolding is_completion_of
poll_command-delivers_example =
    poll_command-delivers bits blocks xhci 2 8 1 world (block true 5 ∷ []) [] after_block 8 8
      world-IsAt world-Waits (omega arith) ((λ e h. ground (arith, h)), tt) refl refl refl

-- Only the block at the second slot waits.
abbrev lone : World bits blocks xhci
lone = record world { trbs = block true 9 ∷ block true 5 ∷ [] }

lone-IsAt : IsAt bits blocks xhci 2 1 lone
unfolding ring_segment_base_address ring_segment_size
lone-IsAt = record {
  inside = omega arith;
  dequeue = refl;
  aligned = refl;
  fits = omega arith;
  base = refl;
  size = refl;
}

lone-Waits : Waits blocks 2 lone.trbs 1 lone.ring.cycle_bit (block true 5 ∷ [])
unfolding next_slot next_bit
lone-Waits = ((refl, refl), record { trb = block true 9; held = refl; bit_of = refl })

poll_command-steals_example :
    (w' : World bits blocks xhci) × (poll_command bits blocks xhci 8 lone ≡ ok (pending, w'))
    × ((k : ℕ)
        → poll_times bits blocks xhci (poll_command bits blocks xhci 4) k w' ≡ ok (pending, w'))
unfolding is_completion_of
poll_command-steals_example =
    poll_command-steals bits blocks xhci 2 8 4 1 lone (block true 5) lone-IsAt lone-Waits
      (omega arith) ((λ e h. ground (arith, h)), tt)
