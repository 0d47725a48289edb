-- ===== src/Usb/Inspect/Tests.antt =====
-- Tests of the loop of kernel/src/usb/device.rs: a keyboard and a mouse in one device.
use lemola_osv.Base.{◌≡◌, List, [], ◌∷◌, none, some}
use lemola_osv.Usb.Descriptor.{DescriptorRef, interface, endpoint}
use lemola_osv.Usb.Samples.{usb}
use lemola_osv.Usb.Inspect.{nothing_found, is_boot_keyboard, is_mouse_interface, is_hub, inspect}
use lemola_osv.Usb.Inspect.Sought.{inspect_lem}

abbrev both : List DescriptorRef
both =
    interface (9 ∷ 4 ∷ 0 ∷ 0 ∷ 1 ∷ 3 ∷ 1 ∷ 1 ∷ 0 ∷ [])
    ∷ endpoint (7 ∷ 5 ∷ 129 ∷ 3 ∷ 8 ∷ 0 ∷ 10 ∷ [])
    ∷ interface (9 ∷ 4 ∷ 1 ∷ 0 ∷ 1 ∷ 3 ∷ 1 ∷ 2 ∷ 0 ∷ [])
    ∷ endpoint (7 ∷ 5 ∷ 130 ∷ 3 ∷ 4 ∷ 0 ∷ 10 ∷ [])
    ∷ []

inspect_lem_example : inspect usb both nothing_found ≡ record {
  boot_keyboard_interface = some (9 ∷ 4 ∷ 0 ∷ 0 ∷ 1 ∷ 3 ∷ 1 ∷ 1 ∷ 0 ∷ []);
  mouse_interface = some (9 ∷ 4 ∷ 1 ∷ 0 ∷ 1 ∷ 3 ∷ 1 ∷ 2 ∷ 0 ∷ []);
  hub_interface = none;
  endpoint_descriptor = some (7 ∷ 5 ∷ 129 ∷ 3 ∷ 8 ∷ 0 ∷ 10 ∷ []);
}
unfolding is_boot_keyboard is_mouse_interface is_hub
inspect_lem_example = inspect_lem usb both
