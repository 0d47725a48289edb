-- ===== src/Usb/Route/Asked.antt =====
-- The event by which a hub asks for the start of a device behind it: `async_assign_address` of
-- kernel/src/usb/device.rs.
use lemola_osv.Base.{
  ℕ, ◌+◌, ◌<◌, ◌≤◌, ◌≡◌, ◌%◌, refl, List, [], ◌∷◌, ◌++◌, length, none, ok, Bool, if◌then◌else◌,
  lt→ltb, arith,
}
use lemola_osv.Usb.Route.{UserEvent, init_port_device, UserEventRing, push, Place, assign_address}
use lemola_osv.Usb.Route.Ports.{route, AllPorts, next_route_lem}

-- The event for a device on this route.
abbrev pub asked : Place → ℕ → Bool → UserEvent
asked device routing slow = init_port_device (record {
  port_index = device.port_index % 256;
  routing = routing;
  speed = if slow then 1 else 0;
  parent_hub_slot_id = none;
  parent_port_index = none;
})

-- A hub that is reached by these ports asks at the end of the queue for a device on its route with the port
-- added, if there are fewer than four ports on the way to the hub; otherwise for a device on the route 0.
pub assign_address_lem :
    (ports : List ℕ) (device : Place) (ring : UserEventRing) (port : ℕ) (slow : Bool)
    → AllPorts ports
    → device.routing ≡ route ports
    → port < 255
    → (length ports < 4
        → assign_address device ring port slow
          ≡ ok (push ring (asked device (route (ports ++ (port + 1) ∷ [])) slow)))
      × (4 ≤ length ports
          → assign_address device ring port slow ≡ ok (push ring (asked device 0 slow)))
unfolding assign_address
assign_address_lem ports device ring port slow all e small =
    let fits : port + 1 < 256 = omega arith in
    let both = next_route_lem ports (port + 1) all in
    ((λ h. rw (lt→ltb _ _ fits, e, both.0 h) refl), (λ h. rw (lt→ltb _ _ fits, e, both.1 h) refl))
