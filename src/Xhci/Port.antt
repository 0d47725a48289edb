-- ===== src/Xhci/Port.antt =====
-- The phases of the ports: kernel/src/xhci/port.rs.
use lemola_osv.Base.{
  ℕ, List, Option, none, some, Run, ok, ◌>>=◌, ◌>>◌, Bool, not, ◌==◌, unwrap, assert, ltb, length,
  get_elem?, set, replicate,
}

pub data PortConfigPhase : Type 0 where
  not_connected : PortConfigPhase
  waiting_addressed : PortConfigPhase
  resetting_port : PortConfigPhase
  enabling_slot : PortConfigPhase
  addressing_device : PortConfigPhase
  initializing_device : PortConfigPhase
  configuring_endpoints : PortConfigPhase
  configured : PortConfigPhase

-- The derived `==`.
abbrev pub phase_number : PortConfigPhase → ℕ
phase_number not_connected = 0
phase_number waiting_addressed = 1
phase_number resetting_port = 2
phase_number enabling_slot = 3
phase_number addressing_device = 4
phase_number initializing_device = 5
phase_number configuring_endpoints = 6
phase_number configured = 7

abbrev pub same_phase : PortConfigPhase → PortConfigPhase → Bool
same_phase a b = phase_number a == phase_number b

pub record PortConfigureState : Type 0 where
  pub port_config_phase : List PortConfigPhase
  pub addressing_port_index : Option ℕ

unfoldable pub new : PortConfigureState
new = record { port_config_phase = replicate 256 not_connected; addressing_port_index = none }

abbrev pub len : PortConfigureState → ℕ
len s = length s.port_config_phase

abbrev pub is_empty : PortConfigureState → Bool
is_empty s = len s == 0

abbrev pub clear_addressing_port_index : PortConfigureState → PortConfigureState
clear_addressing_port_index s = record s { addressing_port_index = none }

abbrev pub port_phase_at : PortConfigureState → ℕ → Run PortConfigPhase
port_phase_at s port_idx = unwrap (get_elem? s.port_config_phase port_idx)

abbrev pub is_connected : PortConfigureState → ℕ → Run Bool
is_connected s port_idx = do
  phase ← port_phase_at s port_idx
  ok (not (same_phase phase not_connected))

unfoldable pub set_port_phase_at : PortConfigureState → ℕ → PortConfigPhase → Run PortConfigureState
set_port_phase_at s port_idx phase = do
  assert (ltb port_idx (len s))
  ok (record s { port_config_phase = set s.port_config_phase port_idx phase })

abbrev pub addressing_port : PortConfigureState → Option ℕ
addressing_port s = s.addressing_port_index

unfoldable pub addressing_port_phase : PortConfigureState → Run (Option PortConfigPhase)
addressing_port_phase s = elim s.addressing_port_index [
  | none ↦ ok none
  | some idx ↦ do phase ← port_phase_at s idx; ok (some phase)
]

unfoldable pub set_addressing_port_phase :
    PortConfigureState → PortConfigPhase → Run PortConfigureState
set_addressing_port_phase s phase = elim s.addressing_port_index [
  | none ↦ ok s
  | some idx ↦ set_port_phase_at s idx phase
]

unfoldable pub start_configuration_at : PortConfigureState → ℕ → Run PortConfigureState
start_configuration_at s port_idx =
    set_port_phase_at (record s { addressing_port_index = some port_idx }) port_idx resetting_port
