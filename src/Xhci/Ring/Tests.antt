-- ===== src/Xhci/Ring/Tests.antt =====
-- Tests of the rings of kernel/src/xhci, with blocks that hold what the proofs rely on.
use lemola_osv.Base.{ℕ, ◌+◌, ◌*◌, ◌≡◌, refl, [], ◌∷◌, ◌++◌, some, Bool, not, false, true, ok, arith}
use lemola_osv.Xhci.Trb.{LinkApi, CommandApi, toggle_cycle_bit}
use lemola_osv.Xhci.Ring.{Ring, TransferRing, new_ring, push, stamped, flip_cycle_bit_at, trb_size}
use lemola_osv.Xhci.Ring.Consumer.{Position, fetch}
use lemola_osv.Xhci.Ring.Slots.{IsRing, new_ring-IsRing}
use lemola_osv.Xhci.Ring.Laps.{after_last, after_last-IsRing}
use lemola_osv.Xhci.Ring.Fifo.{Pending, lap_behind, new_ring-Pending, push_appends}
use lemola_osv.Xhci.Ring.Fetch.{fetch_oldest}
use lemola_osv.Xhci.Ring.Flip.{flip_cycle_bit_at-resubmits}

pub record Block : Type 0 where
  pub cycle : Bool
  pub toggle : Bool
  pub pointer : ℕ

pub record Word4 : Type 0 where
  pub kind : Bool
  pub block : Block

abbrev pub blocks : LinkApi
blocks = record {
  Raw = Word4;
  Link = Block;
  new = record { cycle = false; toggle = false; pointer = 0 };
  set_ring_segment_pointer = λ l a. record l { pointer = a };
  set_toggle_cycle = λ l. record l { toggle = true };
  set_cycle_bit = λ l. record l { cycle = true };
  clear_cycle_bit = λ l. record l { cycle = false };
  ring_segment_pointer = λ l. l.pointer;
  toggle_cycle = λ l. l.toggle;
  cycle_bit = λ l. l.cycle;
  into_raw = λ l. record { kind = true; block = l };
  of_raw = λ r. r.block;
  is_link = λ r. r.kind;
  zeros = record { kind = false; block = record { cycle = false; toggle = false; pointer = 0 } };
  set_bit_zero = λ r b. record r { block = record r.block { cycle = b } };
  cycle_bit-set = λ l. refl;
  cycle_bit-clear = λ l. refl;
  toggle_cycle-set = λ l. refl;
  toggle_cycle-set_cycle = λ l. refl;
  toggle_cycle-clear_cycle = λ l. refl;
  pointer-set = λ l a. refl;
  pointer-set_toggle = λ l. refl;
  pointer-set_cycle = λ l. refl;
  pointer-clear_cycle = λ l. refl;
  of_raw-into_raw = λ l. refl;
  is_link-into_raw = λ l. refl;
  cycle_bit-set_bit = λ r b. refl;
  cycle_bit-zeros = refl;
}

abbrev pub commands : CommandApi blocks
commands = record {
  Command = Block;
  set_cycle_bit = λ l. record l { cycle = true };
  clear_cycle_bit = λ l. record l { cycle = false };
  into_raw = λ l. record { kind = false; block = l };
  cycle_bit-set = λ l. refl;
  cycle_bit-clear = λ l. refl;
}

-- A ring of one slot for commands and one for the link.
abbrev ring : Ring blocks
ring = new_ring blocks 4096 2

abbrev start : Position
start = record { index = 0; cycle = true }

abbrev command : Block
command = record { cycle = false; toggle = false; pointer = 7 }

abbrev trb : Word4
trb = record { kind = false; block = record { cycle = true; toggle = false; pointer = 7 } }

ring-IsRing : IsRing blocks 1 ring
ring-IsRing = new_ring-IsRing blocks 4096 1 (omega arith) (omega arith)

push_appends_example :
    (r' : Ring blocks) × (push blocks commands ring command
      ≡ ok (ring.ptr + trb_size * ring.write_index, r'))
    × IsRing blocks 1 r'
    × Pending blocks 1 r' start ([] ++ stamped blocks commands command ring.cycle_bit ∷ [])
unfolding new_ring stamped
push_appends_example =
    push_appends blocks commands 1 ring start [] command ring-IsRing
      (new_ring-Pending blocks 1 4096) (omega arith) refl

abbrev full : Ring blocks
full = after_last blocks 1 ring trb

full-IsRing : IsRing blocks 1 full
unfolding new_ring
full-IsRing = after_last-IsRing blocks 1 ring trb ring-IsRing refl refl

full-Pending : Pending blocks 1 full start (trb ∷ [])
unfolding new_ring
full-Pending = lap_behind (trb ∷ []) [] refl (record {
  lap = refl;
  early = omega arith;
  span = refl;
  wrapped = refl;
  room = omega arith;
  seg = ((refl, refl, refl), tt);
  link = refl;
  start = tt;
})

fetch_oldest_example :
    (p' : Position) × (fetch blocks full.ptr full.trb_buffer start ≡ some (trb, p'))
    × Pending blocks 1 full p' []
fetch_oldest_example = fetch_oldest blocks 1 full start trb [] full-IsRing full-Pending

abbrev transfer : TransferRing blocks
transfer = record { ring = ring; cycle_count = 0 }

flip_cycle_bit_at-resubmits_example :
    (t' : TransferRing blocks) × (flip_cycle_bit_at blocks transfer
        (ring.ptr + trb_size * ring.write_index)
        (not ring.cycle_bit)
      ≡ ok t')
    × IsRing blocks 1 t'.ring
    × Pending blocks 1 t'.ring start ([] ++ toggle_cycle_bit blocks blocks.zeros ∷ [])
unfolding new_ring toggle_cycle_bit
flip_cycle_bit_at-resubmits_example =
    flip_cycle_bit_at-resubmits blocks 1 transfer start blocks.zeros [] ring-IsRing (omega arith)
      refl refl (new_ring-Pending blocks 1 4096) (omega arith)
