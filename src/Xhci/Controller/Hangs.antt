-- ===== src/Xhci/Controller/Hangs.antt =====
-- Where kernel/src/xhci/controller.rs asks for a lock that it holds.
use lemola_osv.Base.{
  ℕ, suc, ◌<◌, ◌≡◌, ◌⊎◌, inl, inr, refl, none, some, ok, true, false, not, ◌&&◌, ltb, if◌then◌else◌,
  sub64, length, arith, Bool-cases, ◌==◌,
}
use lemola_osv.Xhci.Port.{not_connected, PortConfigureState, port_phase_at, set_port_phase_at}
use lemola_osv.Xhci.Controller.{
  XhciApi, done, hangs, Controller, unlock, read_locked, is_port_connected_at, reset_port_at,
  enable_slot_at, push_enable_slot,
}
use lemola_osv.Xhci.Controller.Events.{
  may_connect, reset_and_enable, event_not_connected, event_in_phase,
  process_port_status_change_event,
}

module _ (X : XhciApi) where
  open X use {
    Registers, Portsc, read_volatile_at, current_connect_status, port_enabled_disabled,
    connect_status_change,
  }

  -- `reset_port_at` under the lock of the registers.
  reset_port_at_hangs :
      (fuel : ℕ) (c : Controller X) (port_idx : ℕ)
      → c.registers_locked ≡ true
      → reset_port_at X fuel c port_idx ≡ hangs
  unfolding reset_port_at is_port_connected_at read_locked
  reset_port_at_hangs fuel c port_idx locked = simp locked refl

  -- With the registers free and a port of the table whose register is read, `enable_slot_at` either
  -- finds the port enabled with no change of its connection and goes on to push the command, or
  -- never returns.
  enable_slot_at_lem :
      (fuel : ℕ) (c : Controller X) (port_idx : ℕ) (portsc : Portsc) (regs : Registers)
      → c.registers_locked ≡ false
      → read_volatile_at c.registers port_idx ≡ ok (portsc, regs)
      → port_idx < length c.port_configure_state.port_config_phase
      → enable_slot_at X (suc fuel) c port_idx ≡ (
          if port_enabled_disabled portsc && not (connect_status_change portsc)
          then push_enable_slot X (record c { registers = regs; registers_locked = true }) port_idx
          else hangs)
  unfolding enable_slot_at set_port_phase_at
  enable_slot_at_lem fuel c port_idx portsc regs free read inside =
      let inside : ltb port_idx (length c.port_configure_state.port_config_phase) ≡ true =
        ground arith in
      elim (Bool-cases (port_enabled_disabled portsc && not (connect_status_change portsc))) [
        | inl ready ↦ simp (free, read, ready) refl
        | inr other ↦
            simp (free, read, other, inside, reset_port_at_hangs fuel _ port_idx refl) refl
      ]

  -- Registers in which nothing is connected to the port, whatever time does to them.
  pub record IsGone (port_idx : ℕ) (Gone : Registers → Type 0) : Type 0 where
    pub reads :
        (regs : Registers)
        → Gone regs
        → (portsc : Portsc) × (regs' : Registers) × (read_volatile_at regs port_idx
            ≡ ok (portsc, regs'))
          × (current_connect_status portsc ≡ false)
          × (port_enabled_disabled portsc ≡ false)
          × Gone regs'

  may_connect_first :
      (s : PortConfigureState) (port_idx : ℕ)
      → (s.addressing_port_index ≡ none) ⊎ (s.addressing_port_index ≡ some port_idx)
      → may_connect X s port_idx ≡ ok (true, s)
  unfolding may_connect
  may_connect_first s port_idx (inl e) = rw e refl
  may_connect_first s port_idx (inr e) =
      let same : (port_idx == port_idx) ≡ true = ground arith in rw (e, same) refl

  module _ (port_idx : ℕ) (Gone : Registers → Type 0) (G : IsGone port_idx Gone) where
    read_gone :
        (c : Controller X)
        → c.registers_locked ≡ false
        → Gone c.registers
        → (portsc : Portsc) × (regs : Registers) × (read_locked X c port_idx
            ≡ done (portsc, unlock X c regs))
          × (current_connect_status portsc ≡ false)
          × (port_enabled_disabled portsc ≡ false)
          × Gone regs
    unfolding read_locked
    read_gone c free g =
        let (portsc, regs, read, off, disabled, g') = G.reads c.registers g in
        (portsc, regs, simp (free, read) refl, off, disabled, g')

    -- `reset_port_at` only reads.
    reset_gone :
        (fuel : ℕ) (c : Controller X)
        → c.registers_locked ≡ false
        → Gone c.registers
        → (regs : Registers) × (reset_port_at X fuel c port_idx ≡ done (unlock X c regs))
          × Gone regs
    unfolding reset_port_at is_port_connected_at
    reset_gone fuel c free g =
        let (portsc, regs, read, off, _, g1) = read_gone c free g in
        let (portsc2, regs2, read2, _, _, g2) = read_gone (unlock X c regs) refl g1 in
        (regs2, simp (read, off, read2) refl, g2)

    -- An event of a port that is not connected to anything and whose phase is that, while no other
    -- port is configured, is never done with: `enable_slot_at` waits for a lock that it holds.
    pub process_port_status_change_event_hangs :
        (fuel : ℕ) (c : Controller X)
        → c.registers_locked ≡ false
        → Gone c.registers
        → port_phase_at c.port_configure_state port_idx ≡ ok not_connected
        → port_idx < length c.port_configure_state.port_config_phase
        → (c.port_configure_state.addressing_port_index ≡ none)
          ⊎ (c.port_configure_state.addressing_port_index ≡ some port_idx)
        → process_port_status_change_event X (suc fuel) c (suc port_idx) ≡ hangs
    unfolding process_port_status_change_event event_in_phase event_not_connected reset_and_enable
    process_port_status_change_event_hangs fuel c free g phase inside first =
        let (portsc, regs, read, off, _, g1) = read_gone c free g in
        let (regs2, reset, g2) = reset_gone (suc fuel) (unlock X c regs) refl g1 in
        let (portsc3, regs3, read3, _, disabled, _) = G.reads regs2 g2 in
        let hang =
          enable_slot_at_lem fuel (unlock X (unlock X c regs) regs2) port_idx portsc3 regs3 refl
            read3 inside in
        let may : may_connect X c.port_configure_state port_idx
            ≡ ok (true, c.port_configure_state) =
          may_connect_first c.port_configure_state port_idx first in
        let idx : sub64 (suc port_idx) 1 ≡ ok port_idx = ground arith in
        simp (idx, read, phase, may, reset, hang, disabled) refl
