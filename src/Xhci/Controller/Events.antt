-- ===== src/Xhci/Controller/Events.antt =====
-- The event of a change at a port, in kernel/src/xhci/controller.rs.
use lemola_osv.Base.{
  ℕ, ◌==◌, ◌∷◌, none, some, Run, ok, panic, Bool, true, false, if◌then◌else◌, sub64,
}
use lemola_osv.Xhci.Port.{
  PortConfigPhase, not_connected, waiting_addressed, resetting_port, PortConfigureState,
  port_phase_at, set_port_phase_at,
}
use lemola_osv.Xhci.Controller.{
  XhciApi, Outcome, done, ◌>>=◌, run, Controller, lock, unlock, keep_changes, wait_for, read_locked,
  claim, reset_port_at, enable_slot_at,
}

-- What is left of an event: nothing, or the commands of `reset_connection_at` that disable the slots of
-- the port, and the end of their devices.
pub data Next : Type 0 where
  finished : Next
  disable_slots : Next

module _ (X : XhciApi) where
  open X use {current_connect_status}

  -- Whether a port that is not connected may go on; its place is not taken here.
  unfoldable pub may_connect : PortConfigureState → ℕ → Run (Bool × PortConfigureState)
  may_connect s port_idx = elim s.addressing_port_index [
    | none ↦ ok (true, s)
    | some q ↦
        if q == port_idx
        then ok (true, s)
        else elim (set_port_phase_at s port_idx waiting_addressed) [
          | ok s ↦ ok (false, s)
          | panic ↦ panic
        ]
  ]

  -- The place of the port, if it has it, is free again.
  unfoldable pub release_place : PortConfigureState → ℕ → PortConfigureState
  release_place s port_idx = elim s.addressing_port_index [
    | none ↦ s
    | some q ↦ if q == port_idx then record s { addressing_port_index = none } else s
  ]

  -- `reset_connection_at` up to the slots of the port.
  unfoldable pub reset_connection_at : ℕ → Controller X → ℕ → Outcome (Next × Controller X)
  reset_connection_at fuel c port_idx = do
    state ←
        run
          (set_port_phase_at (release_place c.port_configure_state port_idx) port_idx not_connected)
    c ← lock X (record c { port_configure_state = state })
    regs ← run (
        X.update_volatile_at c.registers port_idx
          (λ portsc. X.clear_connect_status_change (keep_changes X portsc)))
    regs ← wait_for X fuel regs port_idx X.connect_status_change false
    done (disable_slots, unlock X c regs)

  -- The reset of a port and the command for its slot.
  unfoldable pub reset_and_enable : ℕ → Controller X → ℕ → Outcome (Next × Controller X)
  reset_and_enable fuel c port_idx = do
    c ← reset_port_at X fuel c port_idx
    (trb_ptr, c) ← enable_slot_at X fuel c port_idx
    done (finished, c)

  unfoldable pub event_not_connected : ℕ → Controller X → ℕ → Outcome (Next × Controller X)
  event_not_connected fuel c port_idx = do
    (can_process, state) ← run (may_connect c.port_configure_state port_idx)
    let c = record c { port_configure_state = state }
    if can_process then reset_and_enable fuel c port_idx else done (finished, c)

  unfoldable pub event_resetting : ℕ → Controller X → ℕ → Outcome (Next × Controller X)
  event_resetting fuel c port_idx = do
    (can_process, state) ← run (claim X c.port_configure_state port_idx)
    let c = record c { port_configure_state = state }
    if can_process
        then (do (trb_ptr, c) ← enable_slot_at X fuel c port_idx; done (finished, c))
        else done (finished, c)

  unfoldable pub event_waiting : ℕ → Controller X → ℕ → ℕ → Outcome (Next × Controller X)
  event_waiting fuel c port_id port_idx = elim c.port_configure_state.addressing_port_index [
    | none ↦ do
      let state = record c.port_configure_state { addressing_port_index = some port_idx }
      state ← run (set_port_phase_at state port_idx not_connected)
      reset_and_enable fuel (record c { port_configure_state = state }) port_idx
    | some q ↦ done (finished, record c { pushed = port_id ∷ c.pushed })
  ]

  -- The branch of the phase, with whether something is connected.
  unfoldable pub event_in_phase :
      ℕ → PortConfigPhase → Controller X → ℕ → ℕ → Bool → Outcome (Next × Controller X)
  event_in_phase fuel not_connected c port_id port_idx connecting =
      event_not_connected fuel c port_idx
  event_in_phase fuel resetting_port c port_id port_idx connecting = event_resetting fuel c port_idx
  event_in_phase fuel waiting_addressed c port_id port_idx connecting =
      event_waiting fuel c port_id port_idx
  event_in_phase fuel phase c port_id port_idx connecting =
      if connecting then done (finished, c) else reset_connection_at fuel c port_idx

  -- `process_port_status_change_event` up to the commands that disable slots.
  unfoldable pub process_port_status_change_event :
      ℕ → Controller X → ℕ → Outcome (Next × Controller X)
  process_port_status_change_event fuel c port_id = do
    port_idx ← run (sub64 port_id 1)
    (portsc, c) ← read_locked X c port_idx
    phase ← run (port_phase_at c.port_configure_state port_idx)
    event_in_phase fuel phase c port_id port_idx (current_connect_status portsc)
