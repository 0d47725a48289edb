-- ===== src/Pci/Tests.antt =====
-- Concrete machines for the theorems on kernel/src/pci.rs and kernel/src/pci/register.rs.
use lemola_osv.Base.{
  Run, ◌<◌, ◌≤◌, ℕ, ◌+◌, ◌-◌, ◌*◌, ◌/◌, ◌%◌, ◌^◌, ◌≡◌, ◌⊎◌, ◌↔◌, refl, List, [], ◌∷◌, some, ok,
  panic, true, ltb, ◌==◌, if◌then◌else◌, arith, ◌&&◌, Bool-cases, inl, inr,
}
use mathlib.Core.List.{Memᴰ}
use lemola_osv.Pci.{
  Machine, PciDevice, config_address, pci_device, is_standard_pci_pci_bridge, secondary_bus_number,
  read_capabilities_pointer,
}
use lemola_osv.Pci.Msi.{
  BitField, MsiCapability, copy_header, read_capability, read_address, read_masks,
  write_msi_capability, message_control, message_address, message_data, enable,
  multiple_message_enable,
}
use lemola_osv.Pci.Msi.Fields.{IsCapability, HasOnly}
use lemola_osv.Pci.Msi.Memory.{Keeps, IsPlace}
use lemola_osv.Pci.Msi.RoundTrip.{read-write_msi_capability}
use lemola_osv.Pci.Msi.Chain.{ends, configure_msi}
use lemola_osv.Pci.Msi.Chain.Listed.{Listed, last, entry}
use lemola_osv.Pci.Msi.Chain.Configured.{configure_msi-Configured}
use lemola_osv.Pci.Scan.{scan_bus, scan_all_bus}
use lemola_osv.Pci.Scan.Found.{Found}
use lemola_osv.Pci.Scan.Exact.{scan_bus_finds}
use lemola_osv.Pci.Address.{config_address-fields}
use lemola_osv.Pci.Scan.Ends.{scan_all_bus_ends, scan_all_bus_misses}

-- The configuration space as a function.
abbrev memory : Machine
memory = record {
  State = ℕ → ℕ;
  read = λ s a. s a % 2 ^ 32;
  write = λ s a v b. if a == b then v else s b;
  read-lt = λ s a. omega arith;
}

-- A function at every place; those of device 0 on bus 0 are bridges to bus 1.
abbrev bridged : ℕ → ℕ
bridged a =
    if a % 2 ^ 8 == 0
    then 0x12348086
    else if a % 2 ^ 8 == 0x18
    then 0x100
    else if a % 2 ^ 8 == 8 && (a / 2 ^ 16) % 2 ^ 8 == 0
    then 0x06040000
    else 0

-- Only the functions of bus 0 are bridges.
bridged-up :
    (bus device function : ℕ)
    → bus < 256
    → device < 32
    → function < 8
    → is_standard_pci_pci_bridge (pci_device memory bridged bus device function) ≡ true
    → bus < secondary_bus_number memory bridged bus device function
unfolding pci_device
bridged-up bus device function hb hd hf h =
    let (_, b, _, _, low) = config_address-fields bus device function 8 hb hd hf (omega arith) in
    let (_, _, _, _, low2) =
      config_address-fields bus device function 0x18 hb hd hf (omega arith) in
    elim (Bool-cases (bus == 0)) [
      | inl first ↦ let zero : bus ≡ 0 = ground (arith, first) in rw low2 (omega arith)
      | inr other ↦ let refused = rw (low, b, other) at h in absurd cc
    ]

scan_bus_finds_example :
    (out : List PciDevice) × (scan_bus memory bridged 256 0 [] ≡ some out)
    × ((x : PciDevice) → Memᴰ x out ↔ (Memᴰ x [] ⊎ Found memory bridged x 0))
scan_bus_finds_example = scan_bus_finds memory bridged bridged-up 0 [] (omega arith)

scan_all_bus_ends_example : (out : List PciDevice) × (scan_all_bus memory bridged 256 ≡ some out)
scan_all_bus_ends_example = scan_all_bus_ends memory bridged bridged-up

abbrev the_device : PciDevice
the_device = record {
  vendor_id = 0x8086;
  device_id = 0x1234;
  class_code = record { base = 0xff; sub = 0xff; interface = 0xff };
  header_type = 0;
  bus = 0;
  device = 3;
  function = 0;
}

-- A machine with nothing in its registers.
abbrev all_zero : ℕ → ℕ
all_zero a = 0

-- A machine where every function 0 says that there are more and no other has a vendor.
abbrev host_only : ℕ → ℕ
host_only a = 0x80ffff

scan_all_bus_misses_example : scan_all_bus memory host_only 256 ≡ some []
scan_all_bus_misses_example = scan_all_bus_misses memory host_only 256 refl (λ function lo hi. refl)

-- The bit fields as their documents define them.
abbrev put_bits : ℕ → ℕ → ℕ → ℕ → Run ℕ
put_bits x lo hi v =
    if ltb v (2 ^ (hi - lo)) then ok (x / 2 ^ hi * 2 ^ hi + v * 2 ^ lo + x % 2 ^ lo) else panic

put_bits-ok :
    (x lo hi v : ℕ)
    → lo < hi
    → v < 2 ^ (hi - lo)
    → put_bits x lo hi v ≡ ok (x / 2 ^ hi * 2 ^ hi + v * 2 ^ lo + x % 2 ^ lo)
put_bits-ok x lo hi v h fits = ground arith

put_bits-panic : (x lo hi v : ℕ) → lo < hi → 2 ^ (hi - lo) ≤ v → put_bits x lo hi v ≡ panic
put_bits-panic x lo hi v h big = ground arith

abbrev fields : BitField
fields = record {
  get_bits = λ x lo hi. (x / 2 ^ lo) % 2 ^ (hi - lo);
  set_bits = put_bits;
  get_bit = λ x i. (x / 2 ^ i) % 2 == 1;
  set_bit = λ x i b. x / 2 ^ (i + 1) * 2 ^ (i + 1) + (if b then 2 ^ i else 0) + x % 2 ^ i;
  get_bits_law = λ x lo hi h. refl;
  set_bits_law = put_bits-ok;
  set_bits_refuses = put_bits-panic;
  get_bit_law = λ x i. refl;
  set_bit_law = λ x i b. refl;
}

memory-Keeps : Keeps memory
memory-Keeps = record { same = λ s a v h. ground arith; other = λ s a b v ne. ground arith }

the_device-IsPlace : IsPlace the_device
the_device-IsPlace = record {
  bus-lt = omega arith;
  device-lt = omega arith;
  function-lt = omega arith;
}

-- A capability with 8 vectors and a wide address, the last of its list.
abbrev eight_vectors : MsiCapability
eight_vectors = record {
  header = 0x00860005;
  address_lower = 0;
  address_upper = 0;
  data_word = 0;
  mask_bits = 0;
  pending_bits = 0;
}

eight_vectors-IsCapability : IsCapability fields eight_vectors
eight_vectors-IsCapability = record {
  header-lt = omega arith;
  lower-lt = omega arith;
  upper-lt = omega arith;
  data-lt = omega arith;
  mask-lt = omega arith;
  pending-lt = omega arith;
}

eight_vectors-HasOnly : HasOnly fields eight_vectors
eight_vectors-HasOnly = record { upper = λ h. refl; mask = λ h. refl; pending = λ h. refl }

read-write_msi_capability_example :
    (t : ℕ → ℕ) × (write_msi_capability fields memory all_zero the_device 0x40 eight_vectors ≡ ok t)
    × (read_capability fields memory t the_device 0x40 ≡ ok eight_vectors)
read-write_msi_capability_example =
    read-write_msi_capability fields memory memory-Keeps the_device the_device-IsPlace all_zero 0x40
      eight_vectors eight_vectors-IsCapability eight_vectors-HasOnly (omega arith)

-- Device 3 lists that capability at 0x40.
abbrev lists_one : ℕ → ℕ
lists_one a = if a == 0x80001834 then 0x40 else if a == 0x80001840 then 0x00860005 else 0

lists_one_pointer : read_capabilities_pointer memory lists_one the_device ≡ ok 0x40
unfolding read_capabilities_pointer config_address
lists_one_pointer = refl

lists_one_read : read_capability fields memory lists_one the_device 0x40 ≡ ok eight_vectors
unfolding read_capability copy_header read_address read_masks config_address
lists_one_read = refl

lists_one-Listed : Listed fields memory lists_one the_device 0x40 ((0x40, eight_vectors) ∷ [])
lists_one-Listed = entry (λ e. omega (arith, e)) lists_one_read last

all_zero_pointer : read_capabilities_pointer memory all_zero the_device ≡ ok 0
unfolding read_capabilities_pointer config_address
all_zero_pointer = refl

configure_msi-Configured_example :
    (t : ℕ → ℕ) × (out : MsiCapability) × (configure_msi fields memory 2 lists_one the_device
        0xfee00000 0x41 2
      ≡ ends t)
    × (read_capability fields memory t the_device 0x40 ≡ ok out)
    × (enable fields (message_control fields out) ≡ true)
    × (multiple_message_enable fields (message_control fields out) ≡ 2)
    × (message_address fields out ≡ 0xfee00000)
    × (message_data fields out ≡ 0x41)
configure_msi-Configured_example =
    configure_msi-Configured fields memory memory-Keeps the_device the_device-IsPlace lists_one 0
      0x40 0x40 0xfee00000 0x41 2 eight_vectors ((0x40, eight_vectors) ∷ []) [] lists_one_pointer
      lists_one-Listed (omega arith) refl eight_vectors-IsCapability eight_vectors-HasOnly
      (omega arith) (omega arith) last (omega arith) refl tt
