-- ===== src/Usb/Input/Driver/Contents.antt =====
-- The devices of a driver after one is added or removed: kernel/src/usb/class_driver.rs.
use mathlib.Core.List.{Perm}
use lemola_osv.Base.{ℕ, ◌≡◌, ◌⊎◌, ◌<◌, inl, inr, refl, ◌∷◌, Option, none, some, length}
use lemola_osv.Usb.Host.{DriverError}
use lemola_osv.Usb.Table.Bag.{present, without, fill-present, clear-present, length-clear}
use lemola_osv.Usb.Input.{Limits, new_device}
use lemola_osv.Usb.Input.Driver.{InputOnlyDriver, at_address, add_device, remove_device}

-- The driver is full and refuses the device, or takes it into its bag.
abbrev pub Added : Limits → InputOnlyDriver → ℕ → ℕ → Option DriverError × InputOnlyDriver → Type 0
Added L driver b_max_packet_size address (error, driver') =
    let device = new_device L address b_max_packet_size driver.endpoint_searcher in
    ((length (present driver.devices) ≡ length driver.devices)
      × (error ≡ some (DriverError.permanent address "out of devices"))
      × (driver' ≡ driver))
    ⊎ ((length (present driver.devices) < length driver.devices)
        × (error ≡ none)
        × (length driver'.devices ≡ length driver.devices)
        × Perm (present driver'.devices) (device ∷ present driver.devices))

-- The table is a bag of devices: `add_device` adds a new device to it while a slot is free, and
-- else gives the error that the devices are out and changes nothing; `remove_device` takes the
-- first device with the address out, if there is one. The number of slots stays.
pub add-remove :
    (L : Limits) (driver : InputOnlyDriver) (b_max_packet_size address : ℕ)
    → Added L driver b_max_packet_size address (add_device L driver b_max_packet_size address)
      × (length (remove_device driver address).devices ≡ length driver.devices)
      × (present (remove_device driver address).devices
          ≡ without (at_address address) (present driver.devices))
unfolding add_device remove_device
add-remove L driver b_max_packet_size address =
    let device = new_device L address b_max_packet_size driver.endpoint_searcher in
    (
      elim (fill-present device driver.devices) [
        | inl (full, size) ↦ rw (full, add_device) (inl (size, refl, refl))
        | inr (slots, there, same, less, bag) ↦ rw (there, add_device) (inr (less, refl, same, bag))
      ],
      length-clear (at_address address) driver.devices,
      clear-present (at_address address) driver.devices,
    )
