-- ===== src/Usb/Transfer/Sent.antt =====
-- What the controller finds on a ring behind a control transfer: kernel/src/usb/device.rs.
use mathlib.Core.List.{append_assoc, append-nil}
use lemola_osv.Base.{
  ℕ, zero, suc, ◌+◌, ◌*◌, ◌<◌, ◌≡◌, refl, sym, ap, List, [], ◌∷◌, ◌++◌, length, length-append, Run,
  ok, Bool, false, ltb, lt→ltb, le→ltb, if◌then◌else◌, dec_lt, panic, arith,
}
use lemola_osv.Xhci.Trb.{LinkApi, CommandApi}
use lemola_osv.Xhci.Ring.{Ring, push, stamped, trb_size}
use lemola_osv.Xhci.Ring.Consumer.{Position}
use lemola_osv.Xhci.Ring.Slots.{IsRing}
use lemola_osv.Xhci.Ring.Laps.{store_inner, store_last}
use lemola_osv.Xhci.Ring.Fifo.{Pending, push_appends}

module _ (L : LinkApi) (C : CommandApi L) where
  -- The raw blocks of these commands, each with some cycle bit.
  pub data Stamps : List C.Command → List L.Raw → Type 0 where
    nothing : Stamps [] []
    block :
        {cmds : List C.Command} {raws : List L.Raw} (cmd : C.Command) (bit : Bool)
        → Stamps cmds raws
        → Stamps (cmd ∷ cmds) (stamped L C cmd bit ∷ raws)

  Stamps-snoc :
      {cmds : List C.Command} {raws : List L.Raw} (cmd : C.Command) (bit : Bool)
      → Stamps cmds raws
      → Stamps (cmds ++ cmd ∷ []) (raws ++ stamped L C cmd bit ∷ [])
  Stamps-snoc cmd bit nothing = block cmd bit nothing
  Stamps-snoc cmd bit (block first its rest) = block first its (Stamps-snoc cmd bit rest)

  length-Stamps :
      {cmds : List C.Command} {raws : List L.Raw} → Stamps cmds raws → length raws ≡ length cmds
  length-Stamps nothing = refl
  length-Stamps (block cmd bit rest) = ap suc (length-Stamps rest)

  -- A ring whose controller has these commands' blocks behind the blocks of before.
  pub record Sent (m : ℕ) (p : Position) (before : List L.Raw) (cmds : List C.Command) (r : Ring L)
      : Type 0 where
    pub raws : List L.Raw
    pub stamps : Stamps cmds raws
    pub ring : IsRing L m r
    pub pending : Pending L m r p (before ++ raws)

  abbrev pub Plain : C.Command → Type 0
  Plain cmd = (bit : Bool) → L.is_link (stamped L C cmd bit) ≡ false

  module _ (m : ℕ) (p : Position) where
    pub start :
        (r : Ring L) (ts : List L.Raw) → IsRing L m r → Pending L m r p ts → Sent m p ts [] r
    start r ts v wait = record {
      raws = [];
      stamps = nothing;
      ring = v;
      pending = rw (append-nil ts) wait;
    }

    -- One block more, at the address that `push` gives.
    pub send :
        (r : Ring L) (ts : List L.Raw) (cmds : List C.Command) (cmd : C.Command)
        → Plain cmd
        → Sent m p ts cmds r
        → length ts + length cmds < m
        → (r' : Ring L) × (push L C r cmd ≡ ok (r.ptr + trb_size * r.write_index, r'))
          × Sent m p ts (cmds ++ cmd ∷ []) r'
    send r ts cmds cmd plain sent room =
        let total = length-append ts sent.raws in
        let many = length-Stamps sent.stamps in
        let (r', run, v, wait) =
          push_appends L C m r p (ts ++ sent.raws) cmd sent.ring sent.pending (omega arith)
            (plain r.cycle_bit) in
        (
          r',
          run,
          record {
            raws = sent.raws ++ stamped L C cmd r.cycle_bit ∷ [];
            stamps = Stamps-snoc cmd r.cycle_bit sent.stamps;
            ring = v;
            pending = rw append_assoc at wait;
          },
        )

    -- The slot behind this one, of those before the link.
    abbrev pub next_slot : ℕ → ℕ
    next_slot slot = if ltb (slot + 1) m then slot + 1 else 0

    -- The addresses of so many slots from this one on.
    abbrev pub addresses : ℕ → ℕ → ℕ → List ℕ
    addresses ptr slot zero = []
    addresses ptr slot (suc n) = (ptr + trb_size * slot) ∷ addresses ptr (next_slot slot) n

    field_of : (Ring L → ℕ) → Run (ℕ × Ring L) → ℕ
    field_of f (ok (_, r)) = f r
    field_of f panic = 0

    -- `push` goes on to the next slot, at the same address.
    pub push_place :
        (r r' : Ring L) (cmd : C.Command) (a : ℕ)
        → IsRing L m r
        → push L C r cmd ≡ ok (a, r')
        → (r'.ptr ≡ r.ptr) × (r'.write_index ≡ next_slot r.write_index)
    unfolding push field_of
    push_place r r' cmd a v run = elim (dec_lt (r.write_index + 1) m) [
      | yes inner ↦
          let e = rw (store_inner L m r (stamped L C cmd r.cycle_bit) v inner) at run in
          (
            sym (ap (field_of (λ r. r.ptr)) e),
            (rw (lt→ltb (r.write_index + 1) m inner) (sym (ap (field_of (λ r. r.write_index)) e))),
          )
      | no edge ↦
          let last : r.write_index + 1 ≡ m = omega (arith, v.inside) in
          let e = rw (store_last L m r (stamped L C cmd r.cycle_bit) v last) at run in
          (
            sym (ap (field_of (λ r. r.ptr)) e),
            (rw (le→ltb (r.write_index + 1) m (omega arith))
                (sym (ap (field_of (λ r. r.write_index)) e))),
          )
    ]
