-- ===== src/Usb/Hub/Tests.antt =====
-- Tests of kernel/src/usb/class_driver/hub.rs with a hub of four ports, of which 1 and 3 are connected.
use lemola_osv.Base.{
  ℕ, ◌≡◌, refl, List, [], ◌∷◌, ◌++◌, Bool, not, ◌+◌, ◌%◌, ◌==◌, get_or, ap, ◌∙◌, sym, arith,
}
use lemola_osv.Usb.Host.{done}
use lemola_osv.Usb.Host.Ends.{Ends}
use lemola_osv.Usb.Samples.{usb, hub_host}
use lemola_osv.Usb.Hub.{HubWorld, new_hub, init_port, get_hub_descriptor, running, fsm}
use lemola_osv.Usb.Hub.Stepped.{Stepped, Refused}
use lemola_osv.Usb.Hub.Follows.{fsm-Numbered}
use lemola_osv.Usb.Hub.Ports.{IsWired, connected_of, ports}
use lemola_osv.Usb.Hub.Wired.{fsm_times, fsm-assigns}

abbrev four_ports : HubWorld hub_host
four_ports = record {
  device = record (new_hub 2 64) {
    state = init_port 0;
    number_of_ports = 4;
    power_on_2_power_good = 50;
  };
  host = [];
}

abbrev asked : HubWorld hub_host
asked = record { device = record (new_hub 2 64) { state = get_hub_descriptor }; host = [] }

abbrev odd : ℕ → Bool
odd n = n % 2 == 1

odd_status :
    (port : ℕ) (b : List ℕ)
    → ((port + 1 + 1) % 2) ∷ [] ≡ b
    → (get_or b 0 0 % 2 == 0) ≡ not (odd port)
odd_status port b e = sym (ap (λ c. get_or c 0 0 % 2 == 0) e) ∙ ground arith

hub_host-IsWired : IsWired usb hub_host
hub_host-IsWired = record {
  connected = odd;
  assigned = λ s. s;
  answers = λ s ep kind request value index buf. (((index + 1) % 2) ∷ [], ep, s, refl, refl);
  tells = λ s s' ep ep' port len buf b e. odd_status port b (cc e);
  assigns = λ s address port low. (s ++ port ∷ [], refl, refl);
  set_byte = refl;
  get_byte = refl;
}

-- Its ports take five calls.
fsm-assigns_example :
    (w : HubWorld hub_host) × (fsm_times usb hub_host hub_host-IsWired 5 four_ports ≡ done tt w)
    × (w.device.state ≡ running)
    × (w.host ≡ 1 ∷ 3 ∷ [])
unfolding connected_of ports hub_host-IsWired
fsm-assigns_example = fsm-assigns usb hub_host hub_host-IsWired four_ports refl

fsm-Numbered_example :
    Ends
      (λ u. Stepped hub_host usb asked get_hub_descriptor)
      (Refused hub_host asked get_hub_descriptor)
      (fsm usb hub_host asked)
fsm-Numbered_example = fsm-Numbered hub_host usb asked
