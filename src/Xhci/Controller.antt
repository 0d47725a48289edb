-- ===== src/Xhci/Controller.antt =====
-- The ports' side of kernel/src/xhci/controller.rs: the reset of a port, the command for its slot and
-- the event of a change at a port. The registers and the crate `xhci` are a parameter. A lock that the
-- code asks for while it holds it is never given: `hangs`. The loops that wait for a register have fuel.
pub mod Events
pub mod Results
pub mod Table
pub mod Released
pub mod Handled
pub mod Hangs
pub mod Claims
pub mod Tests
use lemola_osv.Base.{
  ℕ, zero, suc, ◌+◌, ◌==◌, List, [], ◌∷◌, Option, none, some, Run, ok, panic, Bool, true, false,
  not, ◌&&◌, ◌||◌, eqb, if◌then◌else◌, sub64,
}
use lemola_osv.Xhci.Trb.{LinkApi, CommandApi}
use lemola_osv.Xhci.Ring.{Ring, push}
use lemola_osv.Xhci.Port.{
  PortConfigPhase, not_connected, waiting_addressed, resetting_port, enabling_slot,
  addressing_device, initializing_device, configuring_endpoints, configured, PortConfigureState,
  port_phase_at, is_connected, set_port_phase_at,
}

pub data Outcome (A : Type 0) : Type 0 where
  done : A → Outcome A
  panics : Outcome A
  hangs : Outcome A
  no_fuel : Outcome A

infixl 5 ◌>>=◌
abbrev pub ◌>>=◌ : {A B : Type 0} → Outcome A → (A → Outcome B) → Outcome B
done a >>= f = f a
panics >>= f = panics
hangs >>= f = hangs
no_fuel >>= f = no_fuel

abbrev pub run : {A : Type 0} → Run A → Outcome A
run (ok a) = done a
run panic = panics

-- The registers, which time changes, and the commands of the crate `xhci`.
pub record XhciApi : Type 1 where
  pub links : LinkApi
  pub commands : CommandApi links
  -- `trb::command::Allowed::EnableSlot(EnableSlot::new())`
  pub enable_slot : commands.Command
  pub Registers : Type 0
  pub Portsc : Type 0
  pub read_volatile_at : Registers → ℕ → Run (Portsc × Registers)
  pub update_volatile_at : Registers → ℕ → (Portsc → Portsc) → Run Registers
  -- The doorbell 0 with target 0 and stream 0.
  pub ring_doorbell : Registers → Run Registers
  pub port_power : Portsc → Bool
  pub current_connect_status : Portsc → Bool
  pub port_enabled_disabled : Portsc → Bool
  pub port_reset : Portsc → Bool
  pub connect_status_change : Portsc → Bool
  pub set_0_port_enabled_disabled : Portsc → Portsc
  pub set_0_connect_status_change : Portsc → Portsc
  pub set_0_port_enabled_disabled_change : Portsc → Portsc
  pub set_0_warm_port_reset_change : Portsc → Portsc
  pub set_0_over_current_change : Portsc → Portsc
  pub set_0_port_reset_change : Portsc → Portsc
  pub set_0_port_link_state_change : Portsc → Portsc
  pub set_0_port_config_error_change : Portsc → Portsc
  pub set_port_power : Portsc → Portsc
  pub set_port_reset : Portsc → Portsc
  pub clear_connect_status_change : Portsc → Portsc
  pub clear_port_reset_change : Portsc → Portsc

module _ (X : XhciApi) where
  open X use {
    Registers, Portsc, read_volatile_at, update_volatile_at, port_power, current_connect_status,
    port_enabled_disabled, port_reset, connect_status_change,
  }

  pub record Controller : Type 0 where
    pub registers : Registers
    -- Whether the running code holds the lock of `registers`.
    pub registers_locked : Bool
    pub command_ring : Ring X.links
    pub port_configure_state : PortConfigureState
    -- The events of ports given to `EventRing::push`, by the port's number, the last one first.
    pub pushed : List ℕ

  abbrev pub lock : Controller → Outcome Controller
  lock c = if c.registers_locked then hangs else done (record c { registers_locked = true })

  abbrev pub unlock : Controller → Registers → Controller
  unlock c regs = record c { registers = regs; registers_locked = false }

  -- A read of a port's register under a lock of its own.
  unfoldable pub read_locked : Controller → ℕ → Outcome (Portsc × Controller)
  read_locked c port_idx = do
    c ← lock c
    (portsc, regs) ← run (read_volatile_at c.registers port_idx)
    done (portsc, unlock c regs)

  unfoldable pub is_port_connected_at : Controller → ℕ → Outcome (Bool × Controller)
  is_port_connected_at c port_index = do
    (portsc, c) ← read_locked c port_index
    done (current_connect_status portsc, c)

  -- The setters that prevent the clearing of bits.
  abbrev pub keep_changes : Portsc → Portsc
  keep_changes portsc = X.set_0_port_config_error_change (
      X.set_0_port_link_state_change (
        X.set_0_port_reset_change (
          X.set_0_over_current_change (
            X.set_0_warm_port_reset_change (
              X.set_0_port_enabled_disabled_change
                (X.set_0_connect_status_change (X.set_0_port_enabled_disabled portsc)))))))

  -- The loop that reads the register until a bit has a value.
  unfoldable pub wait_for : ℕ → Registers → ℕ → (Portsc → Bool) → Bool → Outcome Registers
  wait_for zero regs port_idx bit wanted = no_fuel
  wait_for (suc fuel) regs port_idx bit wanted = do
    (portsc, regs) ← run (read_volatile_at regs port_idx)
    if eqb (bit portsc) wanted then done regs else wait_for fuel regs port_idx bit wanted

  -- Power on, reset, and the end of both.
  unfoldable pub reset_registers : ℕ → Registers → ℕ → Outcome Registers
  reset_registers fuel regs port_idx = do
    regs ← run (update_volatile_at regs port_idx (λ portsc. X.set_port_power (keep_changes portsc)))
    regs ← wait_for fuel regs port_idx port_power true
    regs ← run (update_volatile_at regs port_idx (λ portsc. X.set_port_reset (keep_changes portsc)))
    regs ← wait_for fuel regs port_idx port_reset false
    regs ← run (
        update_volatile_at regs port_idx
          (λ portsc. X.clear_connect_status_change (keep_changes portsc)))
    regs ← wait_for fuel regs port_idx connect_status_change false
    (portsc, regs) ← run (read_volatile_at regs port_idx)
    if (port_power portsc && current_connect_status portsc)
          && (port_enabled_disabled portsc && not (port_reset portsc))
        then done regs
        else panics

  -- Whether the port may be configured now: it is the one that is, or takes the place of none; else it
  -- waits.
  unfoldable pub claim : PortConfigureState → ℕ → Run (Bool × PortConfigureState)
  claim s port_idx = elim s.addressing_port_index [
    | none ↦ ok (true, record s { addressing_port_index = some port_idx })
    | some q ↦
        if q == port_idx
        then ok (true, s)
        else elim (set_port_phase_at s port_idx waiting_addressed) [
          | ok s ↦ ok (false, s)
          | panic ↦ panic
        ]
  ]

  abbrev pub may_be_reset : PortConfigPhase → Bool
  may_be_reset not_connected = true
  may_be_reset waiting_addressed = true
  may_be_reset phase = false

  -- What `reset_port_at` does at a port with a change of its connection.
  unfoldable pub reset_connected : ℕ → Controller → ℕ → Outcome Controller
  reset_connected fuel c port_idx = do
    (portsc, c) ← read_locked c port_idx
    (can_process, state) ← run (claim c.port_configure_state port_idx)
    let c = record c { port_configure_state = state }
    if not can_process then done c else (do
      phase ← run (port_phase_at c.port_configure_state port_idx)
      if not (may_be_reset phase) then panics else (do
        c ← lock c
        regs ← reset_registers fuel c.registers port_idx
        done (unlock c regs)))

  unfoldable pub reset_port_at : ℕ → Controller → ℕ → Outcome Controller
  reset_port_at fuel c port_idx = do
    (connected, c) ← is_port_connected_at c port_idx
    (portsc, c) ← read_locked c port_idx
    if not connected
        then done c
        else if not (connect_status_change portsc)
        then done c
        else reset_connected fuel c port_idx

  unfoldable pub configure_port_at : ℕ → Controller → ℕ → Outcome Controller
  configure_port_at fuel c port_idx = do
    connected ← run (is_connected c.port_configure_state port_idx)
    if not connected then reset_port_at fuel c port_idx else done c

  -- What `enable_slot_at` does at a port that is ready, with the registers locked.
  unfoldable pub push_enable_slot : Controller → ℕ → Outcome (ℕ × Controller)
  push_enable_slot c port_idx = do
    regs ← run (
        update_volatile_at c.registers port_idx
          (λ portsc. X.clear_port_reset_change (keep_changes portsc)))
    state ← run (set_port_phase_at c.port_configure_state port_idx enabling_slot)
    (trb_ptr, command_ring) ← run (push X.links X.commands c.command_ring X.enable_slot)
    regs ← run (X.ring_doorbell regs)
    done (
      trb_ptr,
      unlock (record c { port_configure_state = state; command_ring = command_ring }) regs,
    )

  -- The other branch asks for the lock of the registers in `reset_port_at`.
  unfoldable pub enable_slot_at : ℕ → Controller → ℕ → Outcome (ℕ × Controller)
  enable_slot_at zero c port_idx = no_fuel
  enable_slot_at (suc fuel) c port_idx = do
    c ← lock c
    (portsc, regs) ← run (read_volatile_at c.registers port_idx)
    let c = record c { registers = regs }
    if port_enabled_disabled portsc && not (connect_status_change portsc)
        then push_enable_slot c port_idx
        else (do
          state ← run (set_port_phase_at c.port_configure_state port_idx not_connected)
          c ← reset_port_at fuel (record c { port_configure_state = state }) port_idx
          enable_slot_at fuel c port_idx)
