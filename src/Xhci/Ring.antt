-- ===== src/Xhci/Ring.antt =====
-- The producer's side of a ring: kernel/src/xhci/transfer_ring.rs and
-- kernel/src/xhci/command_ring.rs. `ptr` is the address of the buffer.
pub mod Consumer
pub mod Slots
pub mod Laps
pub mod Fifo
pub mod Fetch
pub mod Flip
pub mod Tests
use lemola_osv.Base.{
  ℕ, ◌+◌, ◌-◌, ◌*◌, ◌/◌, ◌≤◌, ◌<◌, List, [], ◌∷◌, Option, none, some, Run, ok, panic, ◌>>=◌, ◌>>◌,
  Bool, true, false, not, assert, unwrap, ltb, leb, ◌==◌, ◌&&◌, ◌||◌, if◌then◌else◌, eqb, add64,
  sub64, length, get_elem?, set, replicate,
}
use lemola_osv.Xhci.Trb.{LinkApi, CommandApi, cycle_bit, toggle_cycle_bit}

-- `self.trb_buffer[i].write_in_order(trb)`
abbrev pub write_at {ℓ} : {A : Type ℓ} → List A → ℕ → A → Run (List A)
write_at buffer i trb = do old ← unwrap (get_elem? buffer i); ok (set buffer i trb)

-- `core::mem::size_of::<TrbRaw>()`
abbrev pub trb_size : ℕ
trb_size = 16

module _ (L : LinkApi) where
  open L use {Raw, new, set_ring_segment_pointer, set_toggle_cycle, zeros}

  pub record Ring : Type 0 where
    pub ptr : ℕ
    pub trb_buffer : List Raw
    pub write_index : ℕ
    pub cycle_bit : Bool

  -- The state after `new`, with the address that the allocator gave.
  unfoldable pub new_ring : ℕ → ℕ → Ring
  new_ring ptr buf_size = record {
    ptr = ptr;
    trb_buffer = replicate buf_size zeros;
    write_index = 0;
    cycle_bit = true;
  }

  -- The link block at the end of the ring.
  pub link_trb : ℕ → Bool → Raw
  link_trb ptr bit =
      let link = set_toggle_cycle (set_ring_segment_pointer new ptr) in
      L.into_raw (if bit then L.set_cycle_bit link else L.clear_cycle_bit link)

  -- What `push` does behind its write: one slot on, and at the last slot a link and a new lap.
  unfoldable pub advance : Ring → Run Ring
  advance r = do
    next ← add64 r.write_index 1
    last ← sub64 (length r.trb_buffer) 1
    elim (next == last) [
      | true ↦ do
        buffer ← write_at r.trb_buffer next (link_trb r.ptr r.cycle_bit)
        ok (record r { trb_buffer = buffer; write_index = 0; cycle_bit = not r.cycle_bit })
      | false ↦ ok (record r { write_index = next })
    ]

  -- The write of a block into the slot in turn, and one slot on.
  unfoldable pub store : Ring → Raw → Run Ring
  store r trb = do
    buffer ← write_at r.trb_buffer r.write_index trb
    advance (record r { trb_buffer = buffer })

  module _ (C : CommandApi L) where
    open C use {Command}

    -- The raw block that `push` writes.
    unfoldable pub stamped : Command → Bool → Raw
    stamped cmd bit = C.into_raw (if bit then C.set_cycle_bit cmd else C.clear_cycle_bit cmd)

    -- The address of the block, and the ring.
    unfoldable pub push : Ring → Command → Run (ℕ × Ring)
    unfolding stamped
    push r cmd = do
      r' ← store r (stamped cmd r.cycle_bit)
      ok (r.ptr + trb_size * r.write_index, r')

  pub record TransferRing : Type 0 where
    pub ring : Ring
    pub cycle_count : ℕ

  -- `buffer_range().position(|i| i == trb_pointer)`
  pub position : Ring → ℕ → Option ℕ
  position r trb_pointer =
      if leb r.ptr trb_pointer && ltb trb_pointer (r.ptr + trb_size * length r.trb_buffer)
      then some (trb_pointer - r.ptr)
      else none

  -- `cycle_count += 1` at the end of the ring.
  pub count_lap : ℕ → ℕ → ℕ → Run ℕ
  count_lap next last count = if next == last then add64 count 1 else ok count

  pub flip_cycle_bit_at : TransferRing → ℕ → Bool → Run TransferRing
  flip_cycle_bit_at t trb_pointer prev_cycle_bit = do
    let r = t.ring
    offset ← unwrap (position r trb_pointer)
    let write_index = offset / trb_size
    last ← sub64 (length r.trb_buffer) 1
    assert (not (write_index == last))
    old ← unwrap (get_elem? r.trb_buffer write_index)
    assert (eqb (cycle_bit L old) prev_cycle_bit)
    let buffer = set r.trb_buffer write_index (toggle_cycle_bit L old)
    next ← add64 write_index 1
    count ← count_lap next last t.cycle_count
    ring ← advance (record r { trb_buffer = buffer; write_index = write_index })
    ok (record { ring = ring; cycle_count = count })
