-- ===== src/Usb/Route/Tests.antt =====
-- Tests of the routes of kernel/src/xhci.rs with a hub behind port 3 of a hub behind port 2.
use lemola_osv.Base.{◌≡◌, ◌≤◌, ◌<◌, refl, [], ◌∷◌, ok, true, arith}
use lemola_osv.Usb.Route.{Place, no_events, push, assign_address}
use lemola_osv.Usb.Route.Ports.{route}
use lemola_osv.Usb.Route.Asked.{asked, assign_address_lem}

abbrev hub : Place
hub = record { port_index = 0; routing = 50 }

route_of_hub : 50 ≡ route (2 ∷ 3 ∷ [])
unfolding route
route_of_hub = refl

assign_address_lem_example :
    (2 < 4
      → assign_address hub no_events 0 true
        ≡ ok (push no_events (asked hub (route (2 ∷ 3 ∷ 1 ∷ [])) true)))
    × (4 ≤ 2 → assign_address hub no_events 0 true ≡ ok (push no_events (asked hub 0 true)))
assign_address_lem_example =
    assign_address_lem (2 ∷ 3 ∷ []) hub no_events 0 true
      (omega arith, omega arith, (omega arith, omega arith, tt)) route_of_hub (omega arith)
