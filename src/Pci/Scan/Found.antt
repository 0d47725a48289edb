-- ===== src/Pci/Scan/Found.antt =====
-- The devices that the scan of kernel/src/pci/register.rs is to find.
use lemola_osv.Base.{
  ℕ, ◌<◌, ◌≡◌, ◌⊎◌, inl, inr, refl, List, [], ◌∷◌, ◌++◌, some, true, if◌then◌else◌, arith,
  Bool-cases,
}
use lemola_osv.Pci.{
  Machine, PciDevice, pci_device, vendor_id, header_type, secondary_bus_number, is_valid,
  is_multi_function, is_standard_pci_pci_bridge,
}
use lemola_osv.Pci.Scan.{>>=-eq-some, Scanner, scan_function}
use lemola_osv.Pci.Scan.Adds.{Adds, Adds-nothing, Adds-one, Adds-trans, Adds-iff}

some-inj : {a b : List PciDevice} → some a ≡ some b → a ≡ b
some-inj h = cc

module _ (M : Machine) (s : M.State) where
  abbrev pub device_at : ℕ → ℕ → ℕ → PciDevice
  device_at bus device function = pci_device M s bus device function

  -- There is a device: its function 0 has a vendor.
  abbrev pub IsPresent : ℕ → ℕ → Type 0
  IsPresent bus device = is_valid (vendor_id M s bus device 0) ≡ true

  -- The functions of a device: function 0, and up to 7 where the header says that there are more.
  abbrev pub IsFunction : ℕ → ℕ → ℕ → Type 0
  IsFunction bus device function =
      (function ≡ 0) ⊎ ((is_multi_function (header_type M s bus device 0) ≡ true) × (function < 8))

  -- A function that is reached from a bus: a function of a device there, or one behind a bridge there.
  pub data Found (x : PciDevice) : ℕ → Type 0 where
    here :
        {bus device function : ℕ}
        → device < 32
        → IsPresent bus device
        → IsFunction bus device function
        → is_valid (device_at bus device function).vendor_id ≡ true
        → device_at bus device function ≡ x
        → Found x bus
    behind :
        {bus device function : ℕ}
        → device < 32
        → IsPresent bus device
        → IsFunction bus device function
        → is_standard_pci_pci_bridge (device_at bus device function) ≡ true
        → Found x (secondary_bus_number M s bus device function)
        → Found x bus

  -- What the scan of one function adds.
  abbrev pub FoundAt : ℕ → ℕ → ℕ → PciDevice → Type 0
  FoundAt bus device function x =
      ((is_standard_pci_pci_bridge (device_at bus device function) ≡ true)
        × Found x (secondary_bus_number M s bus device function))
      ⊎ ((is_valid (device_at bus device function).vendor_id ≡ true)
          × (device_at bus device function ≡ x))

  module _ (scan : Scanner)
      (exact : (bus : ℕ) (ds out : List PciDevice)
        → scan bus ds ≡ some out
        → Adds ds out (λ x. Found x bus)) where
    -- The two parts of `scan_function`.
    bridge_adds :
        (bus device function : ℕ) (ds out : List PciDevice)
        → (if is_standard_pci_pci_bridge (device_at bus device function)
            then scan (secondary_bus_number M s bus device function) ds
            else some ds)
          ≡ some out
        → Adds ds out (λ x.
          (is_standard_pci_pci_bridge (device_at bus device function) ≡ true)
          × Found x (secondary_bus_number M s bus device function))
    bridge_adds bus device function ds out run =
        elim (Bool-cases (is_standard_pci_pci_bridge (device_at bus device function))) [
          | inl yes_bridge ↦
              Adds-iff ds out _ _ (λ x. ((λ f. (yes_bridge, f)), (λ p. p.1)))
                (exact (secondary_bus_number M s bus device function) ds out (rw yes_bridge at run))
          | inr no_bridge ↦
              let same : ds ≡ out = ground (arith, no_bridge, run) in
              rw same (Adds-nothing out _ (λ x p. cc))
        ]

    valid_adds :
        (bus device function : ℕ) (ds : List PciDevice)
        → Adds ds
            (if is_valid (device_at bus device function).vendor_id
              then ds ++ device_at bus device function ∷ []
              else ds)
            (λ x.
              (is_valid (device_at bus device function).vendor_id ≡ true)
              × (device_at bus device function ≡ x))
    valid_adds bus device function ds =
        elim (Bool-cases (is_valid (device_at bus device function).vendor_id)) [
          | inl valid ↦ rw valid (
              Adds-iff ds _ _ _ (λ x. ((λ e. (refl, e)), (λ p. p.1)))
                (Adds-one ds (device_at bus device function)))
          | inr invalid ↦ rw invalid (Adds-nothing ds _ (λ x p. cc))
        ]

    pub scan_function_adds :
        (bus device function : ℕ) (ds out : List PciDevice)
        → scan_function M s scan bus device function ds ≡ some out
        → Adds ds out (FoundAt bus device function)
    unfolding scan_function
    scan_function_adds bus device function ds out run =
        let (mid, bridge, rest) = >>=-eq-some _ _ run in
        let first = bridge_adds bus device function ds mid bridge in
        let second = valid_adds bus device function mid in
        let e = some-inj rest in
        Adds-trans ds mid out _ _ _ (λ x. ((λ p. p), (λ p. p))) first (rw e at second)
