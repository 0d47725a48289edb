-- ===== src/Pci.antt =====
-- The configuration space of PCI: kernel/src/pci/register.rs. The machine behind the two ports, where
-- `io_out_32` and `io_in_32` end, is a parameter.
pub mod Address
pub mod Scan
pub mod Msi
pub mod Tests
use lemola_osv.Base.{
  ℕ, ◌+◌, ◌*◌, ◌/◌, ◌%◌, ◌^◌, ◌<◌, Option, none, some, Run, ok, ◌>>=◌, ◌>>◌, assert, Bool, not, leb,
  ◌==◌, ◌&&◌, ◌||◌, if◌then◌else◌, bit_and, bit_or,
}

-- What the configuration space holds, address by address, and what a write makes of it.
pub record Machine : Type 1 where
  pub State : Type 0
  pub read : State → ℕ → ℕ
  pub write : State → ℕ → ℕ → State
  -- A value is a `u32`.
  pub read-lt : (s : State) (a : ℕ) → read s a < 2 ^ 32

-- `PciConfigAddress::new`
pub config_address : ℕ → ℕ → ℕ → ℕ → ℕ
config_address bus device function register =
    bit_or
      (bit_or (bit_or (bit_or (1 * 2 ^ 31) (bus * 2 ^ 16)) (device * 2 ^ 11)) (function * 2 ^ 8))
      (bit_and register 0xfc)

-- `PciConfigAddress::new_from_bar_index`
pub config_address_of_bar : ℕ → ℕ → ℕ → ℕ → Option ℕ
config_address_of_bar bus device function bar_index =
    if leb 6 bar_index
    then none
    else some (config_address bus device function (0x10 + bar_index * 4))

pub record ClassCode : Type 0 where
  pub base : ℕ
  pub sub : ℕ
  pub interface : ℕ

-- The functions `from_raw`.
abbrev pub vendor_id_from_raw : ℕ → ℕ
vendor_id_from_raw raw_data = raw_data % 2 ^ 16

abbrev pub device_id_from_raw : ℕ → ℕ
device_id_from_raw raw_data = (raw_data / 2 ^ 16) % 2 ^ 16

abbrev pub class_code_from_raw : ℕ → ClassCode
class_code_from_raw raw_data = record {
  base = bit_and (raw_data / 2 ^ 24) 0xff;
  sub = bit_and (raw_data / 2 ^ 16) 0xff;
  interface = bit_and (raw_data / 2 ^ 8) 0xff;
}

abbrev pub header_type_from_raw : ℕ → ℕ
header_type_from_raw raw_data = bit_and (raw_data / 2 ^ 16) 0xff

-- `VendorId::is_valid`
abbrev pub is_valid : ℕ → Bool
is_valid vendor_id = not (vendor_id == 0xffff)

abbrev pub matches : ClassCode → ℕ → ℕ → ℕ → Bool
matches c base sub interface = (c.base == base && c.sub == sub) && c.interface == interface

abbrev pub is_xhci_controller : ClassCode → Bool
is_xhci_controller c = matches c 0x0c 0x03 0x30

abbrev pub is_generic_device : ℕ → Bool
is_generic_device header_type = header_type == 0

abbrev pub is_pci_to_pci_bridge : ℕ → Bool
is_pci_to_pci_bridge header_type = header_type == 1

abbrev pub is_multi_function : ℕ → Bool
is_multi_function header_type = not (bit_and header_type 0x80 == 0)

pub record PciDevice : Type 0 where
  pub vendor_id : ℕ
  pub device_id : ℕ
  pub class_code : ClassCode
  pub header_type : ℕ
  pub bus : ℕ
  pub device : ℕ
  pub function : ℕ

abbrev pub is_standard_pci_pci_bridge : PciDevice → Bool
is_standard_pci_pci_bridge d = d.class_code.base == 0x06 && d.class_code.sub == 0x04

module _ (M : Machine) where
  -- `read_data`: the address is written to one port, the value read from the other.
  abbrev pub read_data : M.State → ℕ → ℕ
  read_data s address = M.read s address

  abbrev pub vendor_id : M.State → ℕ → ℕ → ℕ → ℕ
  vendor_id s bus device function =
      vendor_id_from_raw (read_data s (config_address bus device function 0))

  abbrev pub header_type : M.State → ℕ → ℕ → ℕ → ℕ
  header_type s bus device function =
      header_type_from_raw (read_data s (config_address bus device function 0x0c))

  abbrev pub class_code : M.State → ℕ → ℕ → ℕ → ClassCode
  class_code s bus device function =
      class_code_from_raw (read_data s (config_address bus device function 0x08))

  -- `PciDevice::new`
  pub pci_device : M.State → ℕ → ℕ → ℕ → PciDevice
  pci_device s bus device function =
      let raw_data = read_data s (config_address bus device function 0) in
      record {
        vendor_id = vendor_id_from_raw raw_data;
        device_id = device_id_from_raw raw_data;
        class_code = class_code s bus device function;
        header_type = header_type s bus device function;
        bus = bus;
        device = device;
        function = function;
      }

  -- `BusNumber::new(..).secondary_bus_number()`
  abbrev pub secondary_bus_number : M.State → ℕ → ℕ → ℕ → ℕ
  secondary_bus_number s bus device function =
      (read_data s (config_address bus device function 0x18) / 2 ^ 8) % 2 ^ 8

  abbrev pub read_configuration_space : M.State → PciDevice → ℕ → ℕ
  read_configuration_space s d addr = M.read s (config_address d.bus d.device d.function addr)

  abbrev pub write_conf_reg : M.State → PciDevice → ℕ → ℕ → M.State
  write_conf_reg s d reg_addr value =
      M.write s (config_address d.bus d.device d.function reg_addr) value

  -- `PciDevice::read_bar`
  pub read_bar : M.State → PciDevice → ℕ → Option ℕ
  read_bar s d bar_index = elim (config_address_of_bar d.bus d.device d.function bar_index) [
    | none ↦ none
    | some address ↦
        let bar = read_data s address in
        if bit_and (bar / 2) 3 == 0
        then some bar
        else elim (config_address_of_bar d.bus d.device d.function (bar_index + 1)) [
          | none ↦ none
          | some upper ↦ some (bit_or bar (read_data s upper * 2 ^ 32))
        ]
  ]

  -- `PciDevice::read_capabilities_pointer`
  unfoldable pub read_capabilities_pointer : M.State → PciDevice → Run ℕ
  read_capabilities_pointer s d = do
    assert (is_generic_device d.header_type || is_pci_to_pci_bridge d.header_type)
    ok (bit_and (read_data s (config_address d.bus d.device d.function 0x34)) 0xff)
