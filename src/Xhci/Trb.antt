-- ===== src/Xhci/Trb.antt =====
-- Transfer request blocks: kernel/src/xhci/trb.rs over the crates `xhci` and `bit_field`, which are
-- parameters.
use lemola_osv.Base.{ℕ, ◌≡◌, Bool, true, false, not}

-- `trb::Link` of the crate `xhci`: its getters and setters, and its raw form.
pub record LinkApi : Type 1 where
  -- `[u32; 4]`
  pub Raw : Type 0
  pub Link : Type 0
  pub new : Link
  pub set_ring_segment_pointer : Link → ℕ → Link
  pub set_toggle_cycle : Link → Link
  pub set_cycle_bit : Link → Link
  pub clear_cycle_bit : Link → Link
  pub ring_segment_pointer : Link → ℕ
  pub toggle_cycle : Link → Bool
  pub cycle_bit : Link → Bool
  pub into_raw : Link → Raw
  -- The transmutation of `TrbRaw::cycle_bit`.
  pub of_raw : Raw → Link
  -- Whether the TRB type of the raw block is Link.
  pub is_link : Raw → Bool
  -- `[u32; 4]` of zeros
  pub zeros : Raw
  -- `set_bit(0, value)` of the crate `bit_field` on the fourth word.
  pub set_bit_zero : Raw → Bool → Raw
  -- A setter sets what it names and leaves the rest.
  pub cycle_bit-set : (l : Link) → cycle_bit (set_cycle_bit l) ≡ true
  pub cycle_bit-clear : (l : Link) → cycle_bit (clear_cycle_bit l) ≡ false
  pub toggle_cycle-set : (l : Link) → toggle_cycle (set_toggle_cycle l) ≡ true
  pub toggle_cycle-set_cycle : (l : Link) → toggle_cycle (set_cycle_bit l) ≡ toggle_cycle l
  pub toggle_cycle-clear_cycle : (l : Link) → toggle_cycle (clear_cycle_bit l) ≡ toggle_cycle l
  pub pointer-set : (l : Link) (a : ℕ) → ring_segment_pointer (set_ring_segment_pointer l a) ≡ a
  pub pointer-set_toggle :
      (l : Link) → ring_segment_pointer (set_toggle_cycle l) ≡ ring_segment_pointer l
  pub pointer-set_cycle :
      (l : Link) → ring_segment_pointer (set_cycle_bit l) ≡ ring_segment_pointer l
  pub pointer-clear_cycle :
      (l : Link) → ring_segment_pointer (clear_cycle_bit l) ≡ ring_segment_pointer l
  -- The raw form holds the block.
  pub of_raw-into_raw : (l : Link) → of_raw (into_raw l) ≡ l
  pub is_link-into_raw : (l : Link) → is_link (into_raw l) ≡ true
  -- Bit 0 of the fourth word is the cycle bit, of zeros too.
  pub cycle_bit-set_bit : (r : Raw) (b : Bool) → cycle_bit (of_raw (set_bit_zero r b)) ≡ b
  pub cycle_bit-zeros : cycle_bit (of_raw zeros) ≡ false

-- The commands that a ring takes, `transfer::Allowed` or `command::Allowed`.
pub record CommandApi (L : LinkApi) : Type 1 where
  pub Command : Type 0
  pub set_cycle_bit : Command → Command
  pub clear_cycle_bit : Command → Command
  pub into_raw : Command → L.Raw
  pub cycle_bit-set : (c : Command) → L.cycle_bit (L.of_raw (into_raw (set_cycle_bit c))) ≡ true
  pub cycle_bit-clear :
      (c : Command) → L.cycle_bit (L.of_raw (into_raw (clear_cycle_bit c))) ≡ false

module _ (L : LinkApi) where
  open L use {Raw, of_raw, set_bit_zero}

  -- `TrbRaw::cycle_bit`
  abbrev pub cycle_bit : Raw → Bool
  cycle_bit r = L.cycle_bit (of_raw r)

  -- `TrbRaw::toggle_cycle_bit`
  unfoldable pub toggle_cycle_bit : Raw → Raw
  toggle_cycle_bit r = set_bit_zero r (not (cycle_bit r))
