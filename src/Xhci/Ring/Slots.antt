-- ===== src/Xhci/Ring/Slots.antt =====
-- Slots of a ring buffer of kernel/src/xhci, and stretches of blocks in it.
use lemola_osv.Base.{
  ℕ, suc, ◌+◌, ◌≤◌, ◌<◌, ◌≡◌, ◌≢◌, ◌∙◌, ◌⊎◌, ap, List, [], ◌∷◌, ◌++◌, some, Bool, not, false, true,
  word, arith, length, get_elem?, get_elem?-set_self, get_elem?-set_ne, get_elem?-replicate,
  length-replicate, set,
}
use lemola_osv.Xhci.Trb.{LinkApi, CommandApi, cycle_bit}
use lemola_osv.Xhci.Ring.{Ring, new_ring, link_trb, stamped}

module _ (L : LinkApi) where
  open L use {Raw, is_link}

  -- Slot `j` holds a block with that cycle bit.
  pub record Slot (b : List Raw) (j : ℕ) (bit : Bool) : Type 0 where
    pub trb : Raw
    pub held : get_elem? b j ≡ some trb
    pub bit_of : cycle_bit L trb ≡ bit

  -- The blocks from slot `i` on are `ts`: no links, with that cycle bit.
  abbrev pub Seg : List Raw → ℕ → Bool → List Raw → Type 0
  Seg b i bit [] = Unit {0}
  Seg b i bit (t ∷ ts) =
      ((get_elem? b i ≡ some t) × (cycle_bit L t ≡ bit) × (is_link t ≡ false))
      × Seg b (suc i) bit ts

  pub Slot-set_self :
      (b : List Raw) (j : ℕ) (t : Raw) (bit : Bool)
      → j < length b
      → cycle_bit L t ≡ bit
      → Slot (set b j t) j bit
  Slot-set_self b j t bit h e = record { trb = t; held = get_elem?-set_self b j t h; bit_of = e }

  pub Slot-set_ne :
      (b : List Raw) (i j : ℕ) (t : Raw) (bit : Bool)
      → i ≢ j
      → Slot b j bit
      → Slot (set b i t) j bit
  Slot-set_ne b i j t bit h s = record {
    trb = s.trb;
    held = get_elem?-set_ne b i j t h ∙ s.held;
    bit_of = s.bit_of;
  }

  -- A write outside a stretch leaves it.
  pub Seg-set :
      (b : List Raw) (i j : ℕ) (t : Raw) (bit : Bool) (ts : List Raw)
      → (j < i) ⊎ (i + length ts ≤ j)
      → Seg b i bit ts
      → Seg (set b j t) i bit ts
  Seg-set b i j t bit [] away s = tt
  Seg-set b i j t bit (x ∷ ts) away ((held, bit_of, plain), rest) = (
    (get_elem?-set_ne b j i t (λ e. absurd (ground (arith, away))) ∙ held, bit_of, plain),
    Seg-set b (suc i) j t bit ts (ground (arith, away)) rest,
  )

  -- A block behind a stretch makes it longer.
  pub Seg-snoc :
      (b : List Raw) (i : ℕ) (t : Raw) (bit : Bool) (ts : List Raw)
      → Seg b i bit ts
      → get_elem? b (i + length ts) ≡ some t
      → cycle_bit L t ≡ bit
      → is_link t ≡ false
      → Seg b i bit (ts ++ t ∷ [])
  Seg-snoc b i t bit [] s held bit_of plain =
      let e : i + 0 ≡ i = omega arith in ((rw e at held, bit_of, plain), tt)
  Seg-snoc b i t bit (x ∷ ts) (first, rest) held bit_of plain =
      let e : i + suc (length ts) ≡ suc i + length ts = omega arith in
      (first, Seg-snoc b (suc i) t bit ts rest (rw e at held) bit_of plain)

  -- A ring of `m` slots for commands and one for the link, as `push` keeps it: the slots written in
  -- this lap have the ring's cycle bit, and the others do not.
  pub record IsRing (m : ℕ) (r : Ring L) : Type 0 where
    pub size : length r.trb_buffer ≡ suc m
    pub small : suc m < word
    pub inside : r.write_index < m
    pub old : (j : ℕ) → j < r.write_index → Slot r.trb_buffer j r.cycle_bit
    pub free : (j : ℕ) → r.write_index ≤ j → j ≤ m → Slot r.trb_buffer j (not r.cycle_bit)

  pub new_ring-IsRing : (ptr m : ℕ) → 0 < m → suc m < word → IsRing m (new_ring L ptr (suc m))
  unfolding new_ring
  new_ring-IsRing ptr m pos small = record {
    size = length-replicate (suc m) L.zeros;
    small = small;
    inside = pos;
    old = λ j h. absurd (omega arith);
    free = λ j h k. record {
      trb = L.zeros;
      held = get_elem?-replicate (suc m) j L.zeros (omega arith);
      bit_of = L.cycle_bit-zeros;
    };
  }

  pub link_trb-cycle : (ptr : ℕ) (bit : Bool) → cycle_bit L (link_trb L ptr bit) ≡ bit
  unfolding link_trb
  link_trb-cycle ptr true = ap L.cycle_bit (L.of_raw-into_raw _) ∙ L.cycle_bit-set _
  link_trb-cycle ptr false = ap L.cycle_bit (L.of_raw-into_raw _) ∙ L.cycle_bit-clear _

  pub stamped-cycle :
      (C : CommandApi L) (cmd : C.Command) (bit : Bool) → cycle_bit L (stamped L C cmd bit) ≡ bit
  unfolding stamped
  stamped-cycle C cmd true = C.cycle_bit-set cmd
  stamped-cycle C cmd false = C.cycle_bit-clear cmd
