-- ===== src/Pci/Scan/Ends.antt =====
-- The scan of kernel/src/pci/register.rs ends if every bridge leads to a bus of a higher number.
use lemola_osv.Base.{
  ℕ, zero, suc, ◌+◌, ◌≤◌, ◌<◌, ◌≡◌, refl, List, [], Option, some, true, false, inl, inr,
  if◌then◌else◌, arith, Bool-cases,
}
use lemola_osv.Pci.{
  Machine, PciDevice, pci_device, vendor_id, header_type, secondary_bus_number, is_valid,
  is_multi_function, is_standard_pci_pci_bridge,
}
use lemola_osv.Pci.Scan.{
  ◌>>=◌, Scanner, scan_function, scan_functions, scan_device, scan_devices, scan_bus, scan_hosts,
  scan_all_bus,
}

module _ (M : Machine) (s : M.State) where
  -- Every bridge at an address that there is leads to a higher bus.
  abbrev pub BridgesUp : Type 0
  BridgesUp =
      (bus device function : ℕ)
      → bus < 256
      → device < 32
      → function < 8
      → is_standard_pci_pci_bridge (pci_device M s bus device function) ≡ true
      → bus < secondary_bus_number M s bus device function

  abbrev Ends : Option (List PciDevice) → Type 0
  Ends o = (out : List PciDevice) × (o ≡ some out)

  Ends-map :
      (m : Option (List PciDevice)) (f : List PciDevice → List PciDevice)
      → Ends m
      → Ends (m >>= (λ ds. some (f ds)))
  Ends-map m f (ds, run) = (f ds, simp run refl)

  module _ (scan : Scanner) (bus : ℕ)
      (ends : (other : ℕ) (ds : List PciDevice) → bus < other → other < 256 → Ends (scan other ds))
      (up : BridgesUp) (small : bus < 256) where
    scan_function-Ends :
        (device function : ℕ) (ds : List PciDevice)
        → device < 32
        → function < 8
        → Ends (scan_function M s scan bus device function ds)
    unfolding scan_function
    scan_function-Ends device function ds hd hf =
        Ends-map _ _
          (elim (Bool-cases (is_standard_pci_pci_bridge (pci_device M s bus device function))) [
            | inl bridge ↦ rw bridge (
                ends (secondary_bus_number M s bus device function) ds
                  (up bus device function small hd hf bridge) (omega arith))
            | inr no_bridge ↦ rw no_bridge (ds, refl)
          ])

    scan_functions-Ends :
        (device n function : ℕ) (ds : List PciDevice)
        → device < 32
        → function + n ≤ 8
        → Ends (scan_functions M s scan bus device n function ds)
    unfolding scan_functions
    scan_functions-Ends device zero function ds hd hf = (ds, refl)
    scan_functions-Ends device (suc n) function ds hd hf =
        let (mid, run) = scan_function-Ends device function ds hd (omega arith) in
        let (out, runs) = scan_functions-Ends device n (function + 1) mid hd (omega arith) in
        (out, simp run runs)

    scan_device-Ends :
        (device : ℕ) (ds : List PciDevice) → device < 32 → Ends (scan_device M s scan bus device ds)
    unfolding scan_device
    scan_device-Ends device ds hd =
        elim (is_multi_function (header_type M s bus device 0))
          as (λ b. Ends (
            if b
            then scan_functions M s scan bus device 8 0 ds
            else scan_function M s scan bus device 0 ds)) [
              | true ↦ scan_functions-Ends device 8 0 ds hd (omega arith)
              | false ↦ scan_function-Ends device 0 ds hd (omega arith)
            ]

    scan_devices-Ends :
        (n device : ℕ) (ds : List PciDevice)
        → device + n ≤ 32
        → Ends (scan_devices M s scan bus n device ds)
    unfolding scan_devices
    scan_devices-Ends zero device ds hd = (ds, refl)
    scan_devices-Ends (suc n) device ds hd =
        elim (Bool-cases (is_valid (vendor_id M s bus device 0))) [
          | inl present ↦
              let (mid, run) = scan_device-Ends device ds (omega arith) in
              let (out, runs) = scan_devices-Ends n (device + 1) mid (omega arith) in
              (out, simp (present, run) runs)
          | inr absent ↦
              let (out, runs) = scan_devices-Ends n (device + 1) ds (omega arith) in
              (out, simp absent runs)
        ]

  -- If every bridge at an address that there is leads to a higher bus, the scan of a bus ends: fuel for the buses from it to the
  -- last is enough.
  pub scan_bus_ends :
      BridgesUp
      → (fuel bus : ℕ) (ds : List PciDevice) → bus < 256
      → 256 ≤ fuel + bus
      → (out : List PciDevice) × (scan_bus M s fuel bus ds ≡ some out)
  unfolding scan_bus
  scan_bus_ends up zero bus ds h enough = absurd (omega arith)
  scan_bus_ends up (suc fuel) bus ds h enough =
      scan_devices-Ends (scan_bus M s fuel) bus
        (λ other ds above small. scan_bus_ends up fuel other ds small (omega arith)) up h 32 0 ds
        (omega arith)

  scan_hosts_ends :
      BridgesUp
      → (n function : ℕ) (ds : List PciDevice) → function + n < 256
      → (out : List PciDevice) × (scan_hosts M s 256 n function ds ≡ some out)
  unfolding scan_hosts
  scan_hosts_ends up zero function ds h = (ds, refl)
  scan_hosts_ends up (suc n) function ds h =
      elim (Bool-cases (is_valid (vendor_id M s 0 0 function))) [
        | inl present ↦
            let (mid, run) = scan_bus_ends up 256 function ds (omega arith) (omega arith) in
            let (out, runs) = scan_hosts_ends up n (function + 1) mid (omega arith) in
            (out, simp (present, run) runs)
        | inr absent ↦
            let (out, runs) = scan_hosts_ends up n (function + 1) ds (omega arith) in
            (out, simp absent runs)
      ]

  -- If every bridge at an address that there is leads to a higher bus, the scan of all buses ends, with
  -- fuel for 256 buses.
  pub scan_all_bus_ends : BridgesUp → (out : List PciDevice) × (scan_all_bus M s 256 ≡ some out)
  unfolding scan_all_bus
  scan_all_bus_ends up = elim (Bool-cases (is_multi_function (header_type M s 0 0 0))) [
    | inl multi ↦ let (out, run) = scan_hosts_ends up 7 1 [] (omega arith) in (out, simp multi run)
    | inr single ↦
        let (out, run) = scan_bus_ends up 256 0 [] (omega arith) (omega arith) in
        (out, simp single run)
  ]

  scan_hosts-none :
      (fuel n function : ℕ)
      → ((g : ℕ) → function ≤ g → g < function + n → is_valid (vendor_id M s 0 0 g) ≡ false)
      → scan_hosts M s fuel n function [] ≡ some []
  unfolding scan_hosts
  scan_hosts-none fuel zero function alone = refl
  scan_hosts-none fuel (suc n) function alone =
      simp (alone function (omega arith) (omega arith))
        (scan_hosts-none fuel n (function + 1) (λ g lo hi. alone g (omega arith) (omega arith)))

  -- On a machine whose host bridge has several functions, none of which but function 0 has a vendor,
  -- the scan ends with no device at all: bus 0 is not scanned, whatever stands on it.
  pub scan_all_bus_misses :
      (fuel : ℕ)
      → is_multi_function (header_type M s 0 0 0) ≡ true
      → ((function : ℕ)
          → 1 ≤ function
          → function < 1 + 7
          → is_valid (vendor_id M s 0 0 function) ≡ false)
      → scan_all_bus M s fuel ≡ some []
  unfolding scan_all_bus
  scan_all_bus_misses fuel multi alone = simp multi (scan_hosts-none fuel 7 1 alone)
