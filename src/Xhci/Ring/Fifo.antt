-- ===== src/Xhci/Ring/Fifo.antt =====
-- The rings of kernel/src/xhci between the driver, which pushes, and the controller, which fetches:
-- a queue of at most `m` blocks.
use mathlib.Core.Bool.{not-not}
use mathlib.Core.List.{append-nil, append_assoc}
use lemola_osv.Base.{
  ℕ, suc, ◌+◌, ◌*◌, ◌≤◌, ◌<◌, ◌≡◌, ◌∙◌, inl, inr, refl, ap, List, [], ◌∷◌, ◌++◌, some, not, false,
  true, ok, ◌>>=◌, arith, length, length-append, length-set, get_elem?, get_elem?-set_self,
  get_elem?-set_ne, sym, dec_lt,
}
use lemola_osv.Xhci.Trb.{LinkApi, CommandApi, cycle_bit}
use lemola_osv.Xhci.Ring.{Ring, new_ring, link_trb, stamped, push, store, trb_size}
use lemola_osv.Xhci.Ring.Consumer.{Position}
use lemola_osv.Xhci.Ring.Slots.{Seg, Seg-set, Seg-snoc, IsRing, stamped-cycle}
use lemola_osv.Xhci.Ring.Laps.{
  stored, store_inner, store_last, after_inner, after_last, after_inner-IsRing, after_last-IsRing,
}

module _ (L : LinkApi) where
  -- The controller is in the producer's lap; the blocks before it are `ts`.
  pub record SameLap (r : Ring L) (p : Position) (ts : List L.Raw) : Type 0 where
    pub lap : p.cycle ≡ r.cycle_bit
    pub span : p.index + length ts ≡ r.write_index
    pub seg : Seg L r.trb_buffer p.index p.cycle ts

  -- The controller is one lap behind: `ts` up to the link, `us` from the start of the ring on.
  pub record LapBehind (m : ℕ) (r : Ring L) (p : Position) (ts us : List L.Raw) : Type 0 where
    pub lap : p.cycle ≡ not r.cycle_bit
    pub early : p.index < m
    pub span : p.index + length ts ≡ m
    pub wrapped : length us ≡ r.write_index
    pub room : r.write_index ≤ p.index
    pub seg : Seg L r.trb_buffer p.index p.cycle ts
    pub link : get_elem? r.trb_buffer m ≡ some (link_trb L r.ptr p.cycle)
    pub start : Seg L r.trb_buffer 0 r.cycle_bit us

  -- The blocks that the controller has not fetched.
  pub data Pending (m : ℕ) (r : Ring L) (p : Position) (all : List L.Raw) : Type 0 where
    same_lap : SameLap r p all → Pending m r p all
    lap_behind : (ts us : List L.Raw) → all ≡ ts ++ us → LapBehind m r p ts us → Pending m r p all

  pub new_ring-Pending :
      (m ptr : ℕ) → Pending m (new_ring L ptr (suc m)) (record { index = 0; cycle = true }) []
  unfolding new_ring
  new_ring-Pending m ptr = same_lap (record { lap = refl; span = refl; seg = tt })

  -- The controller has one block more.
  abbrev pub Stored : ℕ → Ring L → Position → L.Raw → List L.Raw → Type 0
  Stored m r p t ts =
      (r' : Ring L) × (store L r t ≡ ok r') × IsRing L m r' × Pending m r' p (ts ++ t ∷ [])

  module _ (m : ℕ) (r : Ring L) (t : L.Raw) (v : IsRing L m r)
      (bit : cycle_bit L t ≡ r.cycle_bit) where
    -- The block that `store` writes makes the stretch before it longer.
    Seg-stored :
        (i : ℕ) (ts : List L.Raw)
        → i + length ts ≡ r.write_index
        → L.is_link t ≡ false
        → Seg L r.trb_buffer i r.cycle_bit ts
        → Seg L (stored L m r t) i r.cycle_bit (ts ++ t ∷ [])
    Seg-stored i ts span plain seg =
        Seg-snoc L (stored L m r t) i t r.cycle_bit ts
          (Seg-set L r.trb_buffer i r.write_index t r.cycle_bit ts (inr (omega arith)) seg)
          (rw span
            (get_elem?-set_self r.trb_buffer r.write_index t (omega (arith, v.size, v.inside))))
          (bit) plain

    module _ (p : Position) (plain : L.is_link t ≡ false) where
      SameLap-inner :
          (ts : List L.Raw) → SameLap r p ts → SameLap (after_inner L m r t) p (ts ++ t ∷ [])
      SameLap-inner ts s = record {
        lap = s.lap;
        span = omega (arith, s.span, length-append ts (t ∷ []));
        seg = rw s.lap (Seg-stored p.index ts s.span plain (rw s.lap at s.seg));
      }

      LapBehind-last :
          (ts : List L.Raw)
          → r.write_index + 1 ≡ m
          → SameLap r p ts
          → LapBehind m (after_last L m r t) p (ts ++ t ∷ []) []
      LapBehind-last ts last s =
          let size = length-append ts (t ∷ []) in
          record {
            lap = s.lap ∙ sym (not-not r.cycle_bit);
            early = omega (arith, s.span);
            span = omega (arith, s.span);
            wrapped = refl;
            room = omega arith;
            seg =
                Seg-set L (stored L m r t) p.index m (link_trb L r.ptr r.cycle_bit) p.cycle
                  (ts ++ t ∷ []) (inr (omega (arith, s.span)))
                  (rw s.lap (Seg-stored p.index ts s.span plain (rw s.lap at s.seg)));
            link = rw s.lap (
                get_elem?-set_self (stored L m r t) m (link_trb L r.ptr r.cycle_bit)
                  (omega (arith, v.size, length-set r.trb_buffer r.write_index t)));
            start = tt;
          }

      LapBehind-inner :
          (ts us : List L.Raw)
          → r.write_index < p.index
          → LapBehind m r p ts us
          → LapBehind m (after_inner L m r t) p ts (us ++ t ∷ [])
      LapBehind-inner ts us room s = record {
        lap = s.lap;
        early = s.early;
        span = s.span;
        wrapped = omega (arith, s.wrapped, length-append us (t ∷ []));
        room = omega arith;
        seg = Seg-set L r.trb_buffer p.index r.write_index t p.cycle ts (inl room) s.seg;
        link =
            get_elem?-set_ne r.trb_buffer r.write_index m t (λ e. absurd (omega (arith, v.inside)))
            ∙ s.link;
        start = Seg-stored 0 us (omega (arith, s.wrapped)) plain s.start;
      }

      store_same : (ts : List L.Raw) → SameLap r p ts → Stored m r p t ts
      store_same ts s = elim (dec_lt (r.write_index + 1) m) [
        | yes inner ↦ (
          after_inner L m r t,
          store_inner L m r t v inner,
          after_inner-IsRing L m r t v bit inner,
          same_lap (SameLap-inner ts s),
        )
        | no edge ↦
            let last : r.write_index + 1 ≡ m = omega (arith, v.inside) in
            (
              after_last L m r t,
              store_last L m r t v last,
              after_last-IsRing L m r t v bit last,
              lap_behind (ts ++ t ∷ []) [] (sym (append-nil _)) (LapBehind-last ts last s),
            )
      ]

      store_behind :
          (ts us : List L.Raw)
          → length ts + length us < m
          → LapBehind m r p ts us
          → Stored m r p t (ts ++ us)
      store_behind ts us room s =
          let ahead : r.write_index < p.index = omega (arith, s.span, s.wrapped) in
          let inner : r.write_index + 1 < m = omega (arith, s.early) in
          (
            after_inner L m r t,
            store_inner L m r t v inner,
            after_inner-IsRing L m r t v bit inner,
            lap_behind ts (us ++ t ∷ []) (append_assoc ts us _) (LapBehind-inner ts us ahead s),
          )

  -- The write of a block with the ring's cycle bit, on a ring with room for it.
  pub store_appends :
      (m : ℕ) (r : Ring L) (t : L.Raw) (p : Position) (ts : List L.Raw)
      → IsRing L m r
      → cycle_bit L t ≡ r.cycle_bit
      → L.is_link t ≡ false
      → Pending m r p ts
      → length ts < m
      → Stored m r p t ts
  store_appends m r t p ts v bit plain (same_lap s) room = store_same m r t v bit p plain ts s
  store_appends m r t p all v bit plain (lap_behind ts us e s) room = rw e (
      store_behind m r t v bit p plain ts us (omega (arith, ap length e, length-append ts us, room))
        s)

  -- `push` on a ring with room for the block does not panic: it returns the address of the slot
  -- written, keeps the ring's invariant, and the blocks that the controller has not fetched are those
  -- of before and the new one.
  pub push_appends :
      (C : CommandApi L) (m : ℕ) (r : Ring L) (p : Position) (ts : List L.Raw) (cmd : C.Command)
      → IsRing L m r
      → Pending m r p ts
      → length ts < m
      → L.is_link (stamped L C cmd r.cycle_bit) ≡ false
      → (r' : Ring L) × (push L C r cmd ≡ ok (r.ptr + trb_size * r.write_index, r'))
        × IsRing L m r'
        × Pending m r' p (ts ++ stamped L C cmd r.cycle_bit ∷ [])
  unfolding push
  push_appends C m r p ts cmd v wait room plain =
      let (r', run, v', wait') =
        store_appends m r (stamped L C cmd r.cycle_bit) p ts v (stamped-cycle L C cmd r.cycle_bit)
          plain wait room in
      (r', ap (λ run. run >>= λ r'. ok (r.ptr + trb_size * r.write_index, r')) run, v', wait')
