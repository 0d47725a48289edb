-- ===== src/Usb/Route.antt =====
-- Routes to devices behind hubs, and the events that ask for their start: `next_route` of
-- kernel/src/xhci.rs, kernel/src/xhci/user_event_ring.rs and `async_assign_address` of
-- kernel/src/usb/device.rs.
pub mod Asked
pub mod Ports
pub mod Tests
use Prim.Native.Nat.{bit_and, bit_or}
use lemola_osv.Base.{
  ℕ, zero, suc, ◌+◌, ◌*◌, ◌%◌, ◌^◌, List, [], ◌∷◌, ◌++◌, Option, none, some, Run, ok, ◌>>=◌, Bool,
  ◌==◌, if◌then◌else◌, add8,
}

-- The rest of the loop, with so many rounds left; the second number is `shift`.
pub next_route_from : ℕ → ℕ → ℕ → ℕ → ℕ
next_route_from zero shift routing port = 0
next_route_from (suc rounds) shift routing port =
    let later = next_route_from rounds (shift + 4) routing port in
    if bit_and routing (15 * 2 ^ shift) == 0 then bit_or routing (port * 2 ^ shift) else later

pub next_route : ℕ → ℕ → ℕ
next_route = next_route_from 4 0

pub record InitPortDevice : Type 0 where
  pub port_index : ℕ
  pub routing : ℕ
  pub speed : ℕ
  pub parent_hub_slot_id : Option ℕ
  pub parent_port_index : Option ℕ

pub data UserEvent : Type 0 where
  init_port_device : InitPortDevice → UserEvent

-- `UserEventRing`: its queue, the front first.
pub record UserEventRing : Type 0 where
  pub events : List UserEvent

pub no_events : UserEventRing
no_events = record { events = [] }

pub push : UserEventRing → UserEvent → UserEventRing
push ring event = record { events = ring.events ++ event ∷ [] }

pop_front : List UserEvent → Option UserEvent × UserEventRing
pop_front [] = (none, record { events = [] })
pop_front (event ∷ later) = (some event, record { events = later })

pub pop_event : UserEventRing → Option UserEvent × UserEventRing
pop_event ring = pop_front ring.events

-- What `async_assign_address` reads of a device.
pub record Place : Type 0 where
  pub port_index : ℕ
  pub routing : ℕ

pub assign_address : Place → UserEventRing → ℕ → Bool → Run UserEventRing
assign_address device user_event_ring port_index device_is_low_speed = do
  next_port ← add8 port_index 1
  let event = init_port_device (record {
    port_index = device.port_index % 256;
    routing = next_route device.routing next_port;
    speed = if device_is_low_speed then 1 else 0;
    parent_hub_slot_id = none;
    parent_port_index = none;
  })
  ok (push user_event_ring event)
