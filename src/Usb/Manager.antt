-- ===== src/Usb/Manager.antt =====
-- The class drivers together, `ClassDriverManager` of kernel/src/usb/class_driver.rs, without the locks.
pub mod Kinds
pub mod Tests
use lemola_osv.Base.{
  ℕ, ◌==◌, List, Option, none, some, Bool, true, false, if◌then◌else◌, Run, replicate,
}
use lemola_osv.Usb.Host.{DriverError}
use lemola_osv.Usb.Table.{fill, clear}
use lemola_osv.Usb.Input.{Limits, EndpointInfo}
use lemola_osv.Usb.Input.Driver
use lemola_osv.Usb.Input.Driver.{InputOnlyDriver}
use lemola_osv.Usb.Hub.{HubDevice, new_hub}

-- The table of hubs, `HubDriver` of kernel/src/usb/class_driver/hub.rs.
pub record HubDriver : Type 0 where
  pub devices : List (Option HubDevice)

abbrev pub max_hubs : ℕ
max_hubs = 127

unfoldable pub new_hub_driver : HubDriver
new_hub_driver = record { devices = replicate max_hubs none }

unfoldable pub add_hub : HubDriver → ℕ → ℕ → Option DriverError × HubDriver
add_hub driver b_max_packet_size address =
    elim (fill (new_hub address b_max_packet_size) driver.devices) [
      | none ↦ (some (DriverError.permanent address "out of devices"), driver)
      | some devices ↦ (none, record driver { devices = devices })
    ]

unfoldable pub remove_hub : HubDriver → ℕ → HubDriver
remove_hub driver address = record driver {
  devices = clear (λ hub. hub.address == address) driver.devices;
}

pub record DriverInfo (T : Type 0) : Type 0 where
  pub slot_id : Option ℕ
  pub driver : T

pub data DriverKind : Type 0 where
  mouse : DriverKind
  keyboard : DriverKind
  hub : DriverKind

pub record ClassDriverManager : Type 0 where
  pub mouse : DriverInfo InputOnlyDriver
  pub keyboard : DriverInfo InputOnlyDriver
  pub hub : DriverInfo HubDriver

-- The constants of mouse.rs and keyboard.rs.
abbrev pub mouse_limits : Limits
mouse_limits = record {
  max_endpoints = 2;
  settle_delay = 2;
  config_buffer_len = 256;
  n_in_transfer_bytes = 3;
  max_devices = 32;
}

abbrev pub keyboard_limits : Limits
keyboard_limits = record mouse_limits { n_in_transfer_bytes = 8 }

unfoldable pub new :
    (List ℕ → Run (Option EndpointInfo)) → (List ℕ → Run (Option EndpointInfo)) → ClassDriverManager
new ep_for_mouse ep_for_bootkbd = record {
  mouse = record { slot_id = none; driver = Driver.new mouse_limits ep_for_mouse };
  keyboard = record { slot_id = none; driver = Driver.new keyboard_limits ep_for_bootkbd };
  hub = record { slot_id = none; driver = new_hub_driver };
}

-- The macro `add_device`, whose drivers want every device.
abbrev pub add_to :
    {T : Type 0}
    → (T → ℕ → ℕ → Option DriverError × T)
    → DriverInfo T
    → ℕ
    → ℕ
    → ℕ
    → Option DriverError × DriverInfo T
add_to add info slot_id b_max_packet_size addr =
    let (error, driver) = add info.driver b_max_packet_size addr in
    (error, record { slot_id = some slot_id; driver = driver })

unfoldable pub add_mouse_device :
    ClassDriverManager → ℕ → ℕ → ℕ → Option DriverError × ClassDriverManager
add_mouse_device m slot_id b_max_packet_size addr =
    let (error, info) =
      add_to (Driver.add_device mouse_limits) m.mouse slot_id b_max_packet_size addr in
    (error, record m { mouse = info })

unfoldable pub add_keyboard_device :
    ClassDriverManager → ℕ → ℕ → ℕ → Option DriverError × ClassDriverManager
add_keyboard_device m slot_id b_max_packet_size addr =
    let (error, info) =
      add_to (Driver.add_device keyboard_limits) m.keyboard slot_id b_max_packet_size addr in
    (error, record m { keyboard = info })

unfoldable pub add_hub_device :
    ClassDriverManager → ℕ → ℕ → ℕ → Option DriverError × ClassDriverManager
add_hub_device m slot_id b_max_packet_size addr =
    let (error, info) = add_to add_hub m.hub slot_id b_max_packet_size addr in
    (error, record m { hub = info })

abbrev pub holds : Option ℕ → ℕ → Bool
holds none slot_id = false
holds (some slot) slot_id = slot == slot_id

unfoldable pub driver_kind : ClassDriverManager → ℕ → Option DriverKind
driver_kind m slot_id =
    if holds m.mouse.slot_id slot_id
    then some DriverKind.mouse
    else if holds m.keyboard.slot_id slot_id
    then some DriverKind.keyboard
    else none
