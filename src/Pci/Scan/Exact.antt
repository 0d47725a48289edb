-- ===== src/Pci/Scan/Exact.antt =====
-- The scan of kernel/src/pci/register.rs finds exactly the functions that are reached.
use mathlib.Core.List.{Memᴰ}
use mathlib.Core.Logic.{⊎_elim}
use lemola_osv.Base.{
  ℕ, zero, suc, ◌+◌, ◌≤◌, ◌<◌, ◌≡◌, ◌⊎◌, inl, inr, ◌↔◌, refl, List, some, if◌then◌else◌, arith,
  Bool-cases, ℕ_discrete,
}
use lemola_osv.Pci.{Machine, PciDevice, vendor_id, header_type, is_valid, is_multi_function}
use lemola_osv.Pci.Scan.{>>=-eq-some, Scanner, scan_functions, scan_device, scan_devices, scan_bus}
use lemola_osv.Pci.Scan.Adds.{Adds, Adds-nothing, Adds-trans, Adds-iff}
use lemola_osv.Pci.Scan.Ends.{BridgesUp, scan_bus_ends}
use lemola_osv.Pci.Scan.Found.{
  Found, here, behind, FoundAt, IsPresent, IsFunction, scan_function_adds,
}

module _ (M : Machine) (s : M.State) where
  module _ (scan : Scanner)
      (exact : (bus : ℕ) (ds out : List PciDevice)
        → scan bus ds ≡ some out
        → Adds ds out (λ x. Found M s x bus)) where
    scan_functions_adds :
        (bus device n function : ℕ) (ds out : List PciDevice)
        → scan_functions M s scan bus device n function ds ≡ some out
        → Adds ds out
            (λ x. (g : ℕ) × (function ≤ g) × (g < function + n) × FoundAt M s bus device g x)
    unfolding scan_functions
    scan_functions_adds bus device zero function ds out run =
        let same : ds ≡ out = cc in
        rw same (Adds-nothing out _ (λ x p. absurd (omega (arith, p.1, p.2))))
    scan_functions_adds bus device (suc n) function ds out run =
        let (mid, one, rest) = >>=-eq-some _ _ run in
        Adds-trans ds mid out _ _ _
          (λ x. (
            λ p.
                ⊎_elim (λ now. (function, omega arith, omega arith, now))
                  (λ q. (q.0, omega (arith, q.1), omega (arith, q.2), q.3)) p,
            λ (g, lo, hi, p). elim (ℕ_discrete g function) [
              | yes e ↦ inl (rw e at p)
              | no ne ↦ inr (g, omega arith, omega arith, p)
            ],
          ))
          (scan_function_adds M s scan exact bus device function ds mid one)
          (scan_functions_adds bus device n (function + 1) mid out rest)

    -- What the scan of a device adds.
    abbrev FoundOn : ℕ → ℕ → PciDevice → Type 0
    FoundOn bus device x = (g : ℕ) × IsFunction M s bus device g × FoundAt M s bus device g x

    scan_device_adds :
        (bus device : ℕ) (ds out : List PciDevice)
        → scan_device M s scan bus device ds ≡ some out
        → Adds ds out (FoundOn bus device)
    unfolding scan_device
    scan_device_adds bus device ds out run =
        elim (Bool-cases (is_multi_function (header_type M s bus device 0))) [
          | inl multi ↦
              Adds-iff ds out _ _
                (λ x. (
                  λ (g, lo, hi, p). (g, inr (multi, omega arith), p),
                  λ (g, f, p). (g, omega arith, ground (arith, f), p),
                ))
                (scan_functions_adds bus device 8 0 ds out (rw multi at run))
          | inr single ↦
              Adds-iff ds out _ _
                (λ x. (
                  λ p. (0, inl refl, p),
                  λ (g, f, p).
                      let zero_only : g ≡ 0 = ground (arith, f, single) in rw zero_only at p,
                ))
                (scan_function_adds M s scan exact bus device 0 ds out (rw single at run))
        ]

    -- What the scan of one number adds, if there is a device.
    abbrev FoundIf : ℕ → ℕ → PciDevice → Type 0
    FoundIf bus device x = IsPresent M s bus device × FoundOn bus device x

    scan_present_adds :
        (bus device : ℕ) (ds out : List PciDevice)
        → (if is_valid (vendor_id M s bus device 0)
            then scan_device M s scan bus device ds
            else some ds)
          ≡ some out
        → Adds ds out (FoundIf bus device)
    scan_present_adds bus device ds out run =
        elim (Bool-cases (is_valid (vendor_id M s bus device 0))) [
          | inl present ↦
              Adds-iff ds out _ _ (λ x. ((λ p. (present, p)), (λ p. p.1)))
                (scan_device_adds bus device ds out (rw present at run))
          | inr absent ↦
              let same : ds ≡ out = ground (arith, absent, run) in
              rw same (Adds-nothing out _ (λ x p. cc))
        ]

    scan_devices_adds :
        (bus n device : ℕ) (ds out : List PciDevice)
        → scan_devices M s scan bus n device ds ≡ some out
        → Adds ds out (λ x. (d : ℕ) × (device ≤ d) × (d < device + n) × FoundIf bus d x)
    unfolding scan_devices
    scan_devices_adds bus zero device ds out run =
        let same : ds ≡ out = cc in
        rw same (Adds-nothing out _ (λ x p. absurd (omega (arith, p.1, p.2))))
    scan_devices_adds bus (suc n) device ds out run =
        let (mid, one, rest) = >>=-eq-some _ _ run in
        Adds-trans ds mid out _ _ _
          (λ x. (
            λ p.
                ⊎_elim (λ now. (device, omega arith, omega arith, now))
                  (λ q. (q.0, omega (arith, q.1), omega (arith, q.2), q.3)) p,
            λ (d, lo, hi, p). elim (ℕ_discrete d device) [
              | yes e ↦ inl (rw e at p)
              | no ne ↦ inr (d, omega arith, omega arith, p)
            ],
          ))
          (scan_present_adds bus device ds mid one)
          (scan_devices_adds bus n (device + 1) mid out rest)

  abbrev FoundThere : ℕ → PciDevice → Type 0
  FoundThere bus x =
      (d : ℕ) × (0 ≤ d)
      × (d < 0 + 32)
      × (IsPresent M s bus d × ((g : ℕ) × IsFunction M s bus d g × FoundAt M s bus d g x))

  there-Found : (bus : ℕ) (x : PciDevice) → FoundThere bus x → Found M s x bus
  there-Found bus x (d, _, hi, (present, (g, f, inl (bridge, p)))) =
      behind {device = d} {function = g} (omega arith) present f bridge p
  there-Found bus x (d, _, hi, (present, (g, f, inr (valid, e)))) =
      here {device = d} {function = g} (omega arith) present f valid e

  Found-there : (bus : ℕ) (x : PciDevice) → Found M s x bus → FoundThere bus x
  Found-there bus x (here {device = d} {function = g} hi present f valid e) =
      (d, omega arith, omega arith, (present, (g, f, inr (valid, e))))
  Found-there bus x (behind {device = d} {function = g} hi present f bridge p) =
      (d, omega arith, omega arith, (present, (g, f, inl (bridge, p))))

  -- When the scan of a bus ends, the devices are those of before and exactly the functions with a
  -- vendor that are reached from the bus, over bridges too.
  scan_bus_adds :
      (fuel bus : ℕ) (ds out : List PciDevice)
      → scan_bus M s fuel bus ds ≡ some out
      → (x : PciDevice) → Memᴰ x out ↔ (Memᴰ x ds ⊎ Found M s x bus)
  unfolding scan_bus
  scan_bus_adds zero bus ds out run = cc
  scan_bus_adds (suc fuel) bus ds out run =
      Adds-iff ds out _ _ (λ x. (there-Found bus x, Found-there bus x))
        (scan_devices_adds (scan_bus M s fuel) (scan_bus_adds fuel) bus 32 0 ds out run)

  -- If every bridge at an address that there is leads to a higher bus, the scan of a bus ends, with
  -- fuel for 256 buses, and the devices are then those of before and exactly the functions with a
  -- vendor that are reached from the bus, over bridges too.
  pub scan_bus_finds :
      BridgesUp M s
      → (bus : ℕ) (ds : List PciDevice) → bus < 256
      → (out : List PciDevice) × (scan_bus M s 256 bus ds ≡ some out)
        × ((x : PciDevice) → Memᴰ x out ↔ (Memᴰ x ds ⊎ Found M s x bus))
  scan_bus_finds up bus ds h =
      let (out, run) = scan_bus_ends M s up 256 bus ds h (omega arith) in
      (out, run, scan_bus_adds 256 bus ds out run)
