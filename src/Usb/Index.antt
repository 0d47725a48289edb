-- ===== src/Usb/Index.antt =====
-- Endpoints and their numbers in a device context: kernel/src/usb/device.rs.
pub mod Unique
use lemola_osv.Base.{
  ℕ, ◌+◌, ◌*◌, ◌/◌, ◌%◌, List, Run, ok, panic, ◌>>=◌, ◌>>◌, Bool, assert, ltb, ◌==◌, if◌then◌else◌,
  add8,
}
use lemola_osv.Usb.Host.{Direction, host_to_device, device_to_host, Endpoint, UsbApi}

-- `*` on `u8`.
abbrev pub mul8 : ℕ → ℕ → Run ℕ
mul8 a b = if ltb (a * b) 256 then ok (a * b) else panic

pub record EndpointId : Type 0 where
  pub endpoint_number : ℕ
  pub direct : Direction

abbrev pub in_bit : Direction → ℕ
in_bit host_to_device = 0
in_bit device_to_host = 1

unfoldable pub calc_dci : ℕ → Direction → Run ℕ
calc_dci endpoint_number direct = do
  twice ← mul8 endpoint_number 2
  add8 twice (if endpoint_number == 0 then 1 else in_bit direct)

pub checked_new : ℕ → Run ℕ
checked_new dci = do assert (ltb dci 32); ok dci

-- `DeviceContextIndex::new`
pub new_index : ℕ → Direction → Run ℕ
new_index endpoint_number direct = do dci ← calc_dci endpoint_number direct; checked_new dci

pub from_endpoint_address : ℕ → Run ℕ
from_endpoint_address endpoint_address = do
  twice ← mul8 (endpoint_address % 16) 2
  dci ← add8 twice (endpoint_address / 128)
  checked_new dci

-- `From<&EndpointDescriptor>`
pub index_of_descriptor : UsbApi → List ℕ → Run ℕ
index_of_descriptor U desc = from_endpoint_address (U.b_endpoint_address desc)

pub new_endpoint_id : ℕ → Direction → Run EndpointId
new_endpoint_id endpoint_number direct_in = do
  assert (ltb endpoint_number 16)
  ok (record { endpoint_number = endpoint_number; direct = direct_in })

pub from_endpoint : Endpoint → Run EndpointId
from_endpoint endpoint = new_endpoint_id endpoint.endpoint_num endpoint.direction

-- `EndpointId::address`
unfoldable pub dci_of : EndpointId → Run ℕ
dci_of id = calc_dci id.endpoint_number id.direct

abbrev pub default_control_pipe : EndpointId
default_control_pipe = record { endpoint_number = 0; direct = host_to_device }
