-- ===== src/Pci/Scan.antt =====
-- The scan of the PCI buses: the functions `scan_*` of kernel/src/pci/register.rs. The scan of a bus
-- behind a bridge is a recursive call, so `scan_bus` has fuel, and `none` is that it ran out.
pub mod Adds
pub mod Found
pub mod Exact
pub mod Ends
use lemola_osv.Base.{
  ℕ, zero, suc, ◌+◌, List, [], ◌∷◌, ◌++◌, Option, none, some, Bool, if◌then◌else◌, ◌≡◌, refl,
}
use lemola_osv.Pci.{
  Machine, PciDevice, pci_device, vendor_id, header_type, secondary_bus_number, is_valid,
  is_multi_function, is_standard_pci_pci_bridge,
}

infixl 5 ◌>>=◌
abbrev pub ◌>>=◌ : {A B : Type 0} → Option A → (A → Option B) → Option B
none >>= f = none
some a >>= f = f a

-- Inversion of a step that went well.
pub >>=-eq-some :
    {A B : Type 0} (m : Option A) (f : A → Option B) {b : B}
    → (m >>= f) ≡ some b
    → (a : A) × (m ≡ some a) × (f a ≡ some b)
>>=-eq-some none f h = cc
>>=-eq-some (some a) f h = (a, refl, h)

-- The scan of a bus, which adds to the devices found.
abbrev pub Scanner : Type 0
Scanner = ℕ → List PciDevice → Option (List PciDevice)

module _ (M : Machine) (s : M.State) where
  unfoldable pub scan_function : Scanner → ℕ → ℕ → ℕ → List PciDevice → Option (List PciDevice)
  scan_function scan_bus bus device function devices = do
    let d = pci_device M s bus device function
    devices ←
        if is_standard_pci_pci_bridge d
        then scan_bus (secondary_bus_number M s bus device function) devices
        else some devices
    some (if is_valid d.vendor_id then devices ++ d ∷ [] else devices)

  -- The loop over the functions, with `n` left.
  unfoldable pub scan_functions : Scanner → ℕ → ℕ → ℕ → ℕ → List PciDevice → Option (List PciDevice)
  scan_functions scan_bus bus device zero function devices = some devices
  scan_functions scan_bus bus device (suc n) function devices = do
    devices ← scan_function scan_bus bus device function devices
    scan_functions scan_bus bus device n (function + 1) devices

  unfoldable pub scan_device : Scanner → ℕ → ℕ → List PciDevice → Option (List PciDevice)
  scan_device scan_bus bus device devices =
      if is_multi_function (header_type M s bus device 0)
      then scan_functions scan_bus bus device 8 0 devices
      else scan_function scan_bus bus device 0 devices

  -- The loop over the devices of a bus, with `n` left.
  unfoldable pub scan_devices : Scanner → ℕ → ℕ → ℕ → List PciDevice → Option (List PciDevice)
  scan_devices scan_bus bus zero device devices = some devices
  scan_devices scan_bus bus (suc n) device devices = do
    devices ←
        if is_valid (vendor_id M s bus device 0)
        then scan_device scan_bus bus device devices
        else some devices
    scan_devices scan_bus bus n (device + 1) devices

  unfoldable pub scan_bus : ℕ → Scanner
  scan_bus zero bus devices = none
  scan_bus (suc fuel) bus devices = scan_devices (scan_bus fuel) bus 32 0 devices

  -- The loop of `scan_all_bus`, with `n` functions left.
  unfoldable pub scan_hosts : ℕ → ℕ → ℕ → List PciDevice → Option (List PciDevice)
  scan_hosts fuel zero function devices = some devices
  scan_hosts fuel (suc n) function devices = do
    devices ←
        if is_valid (vendor_id M s 0 0 function)
        then scan_bus fuel function devices
        else some devices
    scan_hosts fuel n (function + 1) devices

  unfoldable pub scan_all_bus : ℕ → Option (List PciDevice)
  scan_all_bus fuel =
      if is_multi_function (header_type M s 0 0 0)
      then scan_hosts fuel 7 1 []
      else scan_bus fuel 0 []
