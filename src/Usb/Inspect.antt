-- ===== src/Usb/Inspect.antt =====
-- What `start_initialization` of kernel/src/usb/device.rs looks for in the descriptors of a device.
pub mod Sought
pub mod Tests
use lemola_osv.Base.{
  ℕ, List, [], ◌∷◌, Option, none, some, Bool, true, false, ◌==◌, ◌&&◌, ◌||◌, if◌then◌else◌, not,
}
use lemola_osv.Usb.Descriptor.{DescriptorRef, configuration, interface, endpoint, unknown}
use lemola_osv.Usb.Host.{UsbApi}

-- The variables that the loop writes.
pub record Interfaces : Type 0 where
  pub boot_keyboard_interface : Option (List ℕ)
  pub mouse_interface : Option (List ℕ)
  pub hub_interface : Option (List ℕ)
  pub endpoint_descriptor : Option (List ℕ)

abbrev pub nothing_found : Interfaces
nothing_found = record {
  boot_keyboard_interface = none;
  mouse_interface = none;
  hub_interface = none;
  endpoint_descriptor = none;
}

abbrev pub is_some : Option (List ℕ) → Bool
is_some none = false
is_some (some _) = true

module _ (U : UsbApi) where
  -- The patterns `(3, 1, 1)`, `(3, 1, 2)` and `(9, 0, protocol)`.
  unfoldable pub is_boot_keyboard : List ℕ → Bool
  is_boot_keyboard desc =
      U.b_interface_class desc == 3
      && U.b_interface_sub_class desc == 1
      && U.b_interface_protocol desc == 1

  unfoldable pub is_mouse_interface : List ℕ → Bool
  is_mouse_interface desc =
      U.b_interface_class desc == 3
      && U.b_interface_sub_class desc == 1
      && U.b_interface_protocol desc == 2

  unfoldable pub is_hub : List ℕ → Bool
  is_hub desc = U.b_interface_class desc == 9 && U.b_interface_sub_class desc == 0

  pub inspect_interface : List ℕ → Interfaces → Interfaces
  inspect_interface desc found =
      if is_boot_keyboard desc
      then record found { boot_keyboard_interface = some desc }
      else if is_mouse_interface desc
      then record found { mouse_interface = some desc }
      else if is_hub desc
      then record found { hub_interface = some desc }
      else found

  pub inspect_endpoint : List ℕ → Interfaces → Interfaces
  inspect_endpoint desc found =
      if (is_some found.boot_keyboard_interface || is_some found.mouse_interface)
        && not (is_some found.endpoint_descriptor)
      then record found { endpoint_descriptor = some desc }
      else found

  -- The loop over the descriptors.
  pub inspect : List DescriptorRef → Interfaces → Interfaces
  inspect [] found = found
  inspect (interface desc ∷ later) found = inspect later (inspect_interface desc found)
  inspect (endpoint desc ∷ later) found = inspect later (inspect_endpoint desc found)
  inspect (configuration _ ∷ later) found = inspect later found
  inspect (unknown ∷ later) found = inspect later found
