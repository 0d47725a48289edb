-- ===== src/Xhci/Controller/Tests.antt =====
-- Concrete registers for the theorems on kernel/src/xhci/controller.rs.
use lemola_osv.Base.{
  ◌≡◌, inl, refl, ap, [], ◌∷◌, none, some, ok, Bool, true, false, arith, replicate,
}
use lemola_osv.Xhci.Ring.{new_ring, push, store, advance, stamped}
use lemola_osv.Xhci.Ring.Tests.{blocks, commands}
use lemola_osv.Xhci.Port.{not_connected, enabling_slot, set_port_phase_at}
use lemola_osv.Xhci.Controller.{
  XhciApi, done, hangs, Controller, read_locked, is_port_connected_at, wait_for, reset_registers,
  claim, reset_connected, reset_port_at, push_enable_slot, enable_slot_at,
}
use lemola_osv.Xhci.Controller.Events.{
  finished, disable_slots, release_place, reset_connection_at, may_connect, reset_and_enable,
  event_not_connected, event_in_phase, process_port_status_change_event,
}
use lemola_osv.Xhci.Controller.Released.{Released}
use lemola_osv.Xhci.Controller.Handled.{process_port_status_change_event-After}
use lemola_osv.Xhci.Controller.Hangs.{IsGone, process_port_status_change_event_hangs}

-- The bits of the register of the one port; a reset enables the port at once.
record Bits : Type 0 where
  power : Bool
  connected : Bool
  enabled : Bool
  changed : Bool

abbrev one_port : XhciApi
one_port = record {
  links = blocks;
  commands = commands;
  enable_slot = record { cycle = false; toggle = false; pointer = 9 };
  Registers = Bits;
  Portsc = Bits;
  read_volatile_at = λ r i. ok (r, r);
  update_volatile_at = λ r i f. ok (f r);
  ring_doorbell = λ r. ok r;
  port_power = λ b. b.power;
  current_connect_status = λ b. b.connected;
  port_enabled_disabled = λ b. b.enabled;
  port_reset = λ b. false;
  connect_status_change = λ b. b.changed;
  set_0_port_enabled_disabled = λ b. b;
  set_0_connect_status_change = λ b. b;
  set_0_port_enabled_disabled_change = λ b. b;
  set_0_warm_port_reset_change = λ b. b;
  set_0_over_current_change = λ b. b;
  set_0_port_reset_change = λ b. b;
  set_0_port_link_state_change = λ b. b;
  set_0_port_config_error_change = λ b. b;
  set_port_power = λ b. record b { power = true };
  set_port_reset = λ b. record b { enabled = true };
  clear_connect_status_change = λ b. record b { changed = false };
  clear_port_reset_change = λ b. b;
}

abbrev nothing : Bits
nothing = record { power = true; connected = false; enabled = false; changed = true }

abbrev plugged : Bits
plugged = record { power = false; connected = true; enabled = false; changed = true }

abbrev with_bits : Bits → Controller one_port
with_bits bits = record {
  registers = bits;
  registers_locked = false;
  command_ring = new_ring blocks 4096 4;
  port_configure_state = record {
    port_config_phase = not_connected ∷ not_connected ∷ [];
    addressing_port_index = none;
  };
  pushed = [];
}

-- What the event of the first port makes of a port with something plugged in.
abbrev enabling : Controller one_port
enabling = record {
  registers = record { power = true; connected = true; enabled = true; changed = false };
  registers_locked = false;
  command_ring = record {
    ptr = 4096;
    trb_buffer =
        record { kind = false; block = record { cycle = true; toggle = false; pointer = 9 } }
        ∷ replicate 3 blocks.zeros;
    write_index = 1;
    cycle_bit = true;
  };
  port_configure_state = record {
    port_config_phase = enabling_slot ∷ not_connected ∷ [];
    addressing_port_index = some 0;
  };
  pushed = [];
}

plugged_run :
    process_port_status_change_event one_port 3 (with_bits plugged) 1 ≡ done (finished, enabling)
unfolding process_port_status_change_event event_in_phase event_not_connected may_connect
    reset_and_enable reset_port_at is_port_connected_at read_locked reset_connected claim
    reset_registers wait_for enable_slot_at push_enable_slot set_port_phase_at push store advance
    stamped new_ring
plugged_run = refl

-- The same port without what was plugged in, before the event and after it.
abbrev unplugged : Controller one_port
unplugged = record enabling { registers = nothing }

abbrev disconnected : Controller one_port
disconnected = record enabling {
  registers = record nothing { changed = false };
  port_configure_state = record {
    port_config_phase = not_connected ∷ not_connected ∷ [];
    addressing_port_index = none;
  };
}

unplugged_run :
    process_port_status_change_event one_port 3 unplugged 1 ≡ done (disable_slots, disconnected)
unfolding process_port_status_change_event event_in_phase reset_connection_at release_place
    read_locked wait_for set_port_phase_at
unplugged_run = refl

process_port_status_change_event-After_example :
    Released 0 unplugged.port_configure_state disconnected.port_configure_state
process_port_status_change_event-After_example =
    process_port_status_change_event-After one_port 3 1 unplugged disconnected disable_slots
      unplugged_run

nothing-IsGone : IsGone one_port 0 (λ r. r ≡ nothing)
nothing-IsGone = record {
  reads = λ r g. (r, r, refl, ap (λ b. b.connected) g, ap (λ b. b.enabled) g, g);
}

process_port_status_change_event_hangs_example :
    process_port_status_change_event one_port 1 (with_bits nothing) 1 ≡ hangs
process_port_status_change_event_hangs_example =
    process_port_status_change_event_hangs one_port 0 (λ r. r ≡ nothing) nothing-IsGone 0
      (with_bits nothing) refl refl refl (omega arith) (inl refl)
