-- ===== src/Xhci/Event.antt =====
-- The event ring of kernel/src/xhci/event_ring.rs, the driver's side, over the crate `xhci`: its
-- event blocks and its register ERDP are parameters. The controller writes the memory `trbs`.
pub mod Segment
pub mod Waits
pub mod Await
pub mod Tests
use lemola_osv.Base.{
  ℕ, ◌+◌, ◌-◌, ◌*◌, ◌/◌, ◌%◌, ◌≡◌, List, [], ◌∷◌, ◌++◌, Option, none, some, Run, ok, panic, ◌>>=◌,
  Bool, true, false, not, unwrap, leb, ◌==◌, ◌&&◌, if◌then◌else◌, eqb, add64, get_elem?,
}
use lemola_osv.Xhci.Trb.{LinkApi, cycle_bit}
use lemola_osv.Xhci.Event.Segment.{BitField, Entry, ring_segment_base_address, ring_segment_size}

-- `event::Allowed` and the register ERDP of the crate `xhci`.
pub record EventApi (L : LinkApi) : Type 1 where
  pub Event : Type 0
  pub Transfer : Type 0
  pub Completion : Type 0
  pub Erdp : Type 0
  -- `event::Allowed::try_from`
  pub try_from : L.Raw → Option Event
  pub transfer_event : Event → Option Transfer
  pub command_completion : Event → Option Completion
  pub slot_id : Transfer → ℕ
  pub trb_pointer : Transfer → ℕ
  pub command_trb_pointer : Completion → ℕ
  pub event_ring_dequeue_pointer : Erdp → ℕ
  pub set_event_ring_dequeue_pointer : Erdp → ℕ → Erdp
  pub clear_event_handler_busy : Erdp → Erdp
  -- The low four bits of the register are not the pointer's.
  pub pointer-set :
      (e : Erdp) (a : ℕ)
      → a % 16 ≡ 0
      → event_ring_dequeue_pointer (set_event_ring_dequeue_pointer e a) ≡ a
  pub pointer-clear :
      (e : Erdp)
      → event_ring_dequeue_pointer (clear_event_handler_busy e) ≡ event_ring_dequeue_pointer e

-- `Poll` of the core library.
pub data Poll (A : Type 0) : Type 0 where
  ready : A → Poll A
  pending : Poll A

-- The result of `pop`: an event, or a block that is none.
pub data Popped (E R : Type 0) : Type 0 where
  event : E → Popped E R
  unknown : R → Popped E R

module _ (B : BitField) (L : LinkApi) (V : EventApi L) where
  open V use {Event, Transfer, Completion, Erdp}

  pub record EventRing : Type 0 where
    pub popped : List Event
    pub event_ring_segment_table : Entry
    pub cycle_bit : Bool
    pub n_pop : ℕ

  -- The ring, the register ERDP, and the memory of the segment from its address on.
  pub record World : Type 0 where
    pub ring : EventRing
    pub erdp : Erdp
    pub trb_buffer : ℕ
    pub trbs : List L.Raw

  -- `read_volatile` of a block; outside of the segment it is undefined.
  pub read_volatile : World → ℕ → Run L.Raw
  read_volatile w a =
      if leb w.trb_buffer a && (a - w.trb_buffer) % 16 == 0
      then unwrap (get_elem? w.trbs ((a - w.trb_buffer) / 16))
      else panic

  pub try_from_raw : L.Raw → Popped Event L.Raw
  try_from_raw raw = elim (V.try_from raw) [ none ↦ unknown raw | some e ↦ event e ]

  unfoldable pub pop : World → Run (Popped Event L.Raw × World)
  pop w = do
    n_pop ← add64 w.ring.n_pop 1
    let dequeue_pointer = V.event_ring_dequeue_pointer w.erdp
    popped ← read_volatile w dequeue_pointer
    next ← add64 dequeue_pointer 16
    let segment_begin = ring_segment_base_address w.ring.event_ring_segment_table
    segment_end ← add64 segment_begin (16 * ring_segment_size B w.ring.event_ring_segment_table)
    let wraps = next == segment_end
    let next = if wraps then segment_begin else next
    let bit = if wraps then not w.ring.cycle_bit else w.ring.cycle_bit
    let erdp = V.clear_event_handler_busy (V.set_event_ring_dequeue_pointer w.erdp next)
    ok (
      try_from_raw popped,
      record w { ring = record w.ring { cycle_bit = bit; n_pop = n_pop }; erdp = erdp },
    )

  -- `EventRing::push`
  abbrev pub push : World → Event → World
  push w e = record w { ring = record w.ring { popped = w.ring.popped ++ e ∷ [] } }

  -- Whether the block at the dequeue pointer is one that the driver has not popped.
  pub has_front : World → Run Bool
  has_front w = do
    trb ← read_volatile w (V.event_ring_dequeue_pointer w.erdp)
    ok (eqb (cycle_bit L trb) w.ring.cycle_bit)

  -- A poll that takes the front and hands it on.
  abbrev pub poll_front :
      {A : Type 0}
      → (Popped Event L.Raw → World → Run (Poll A × World))
      → World
      → Run (Poll A × World)
  poll_front handle w = do
    front ← has_front w
    elim front [ false ↦ ok (pending, w) | true ↦ do (popped, w) ← pop w; handle popped w ]

  -- What the two futures do with a popped block, for a test that says whether it is the one awaited.
  pub deliver :
      {A : Type 0} → (Event → Option A) → Popped Event L.Raw → World → Run (Poll A × World)
  deliver match (unknown raw) w = ok (pending, w)
  deliver match (event e) w = elim (match e) [
    | some a ↦ ok (ready a, w)
    | none ↦ ok (pending, push w e)
  ]

  pub is_completion_of : ℕ → Event → Option Completion
  is_completion_of wait_on e = elim (V.command_completion e) [
    | none ↦ none
    | some c ↦ if V.command_trb_pointer c == wait_on then some c else none
  ]

  pub is_transfer : (Transfer → Bool) → Event → Option Transfer
  is_transfer test e = elim (V.transfer_event e) [
    | none ↦ none
    | some t ↦ if test t then some t else none
  ]

  -- `CommandCompletionFuture::poll`
  pub poll_command : ℕ → World → Run (Poll Completion × World)
  poll_command wait_on = poll_front (deliver (is_completion_of wait_on))

  pub data TransferEventWaitKind : Type 0 where
    on_slot_id : ℕ → TransferEventWaitKind
    on_trb_ptr : ℕ → TransferEventWaitKind
    on_trb_ptrs : List ℕ → TransferEventWaitKind

  -- The loop over `ptrs`; behind it, an unknown block makes `unwrap` panic.
  pub deliver_any : List ℕ → Popped Event L.Raw → World → Run (Poll Transfer × World)
  deliver_any [] (event e) w = ok (pending, push w e)
  deliver_any [] (unknown raw) w = panic
  deliver_any (ptr ∷ ptrs) (unknown raw) w = ok (pending, w)
  deliver_any (ptr ∷ ptrs) (event e) w =
      let rest = deliver_any ptrs (event e) w in
      elim (is_transfer (λ t. V.trb_pointer t == ptr) e) [ some t ↦ ok (ready t, w) | none ↦ rest ]

  pub deliver_transfer :
      TransferEventWaitKind → Popped Event L.Raw → World → Run (Poll Transfer × World)
  deliver_transfer (on_slot_id slot) = deliver (is_transfer (λ t. V.slot_id t == slot))
  deliver_transfer (on_trb_ptr ptr) = deliver (is_transfer (λ t. V.trb_pointer t == ptr))
  deliver_transfer (on_trb_ptrs ptrs) = deliver_any ptrs

  -- `TransferEventFuture::poll`
  pub poll_transfer : TransferEventWaitKind → World → Run (Poll Transfer × World)
  poll_transfer wait_on = poll_front (deliver_transfer wait_on)
