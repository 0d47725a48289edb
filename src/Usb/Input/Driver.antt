-- ===== src/Usb/Input/Driver.antt =====
-- The driver over its table of devices: `InputOnlyDriver` of kernel/src/usb/class_driver.rs.
pub mod Contents
pub mod Tests
pub mod Ticks
use lemola_osv.Base.{
  ℕ, ◌==◌, List, [], ◌∷◌, Option, none, some, Run, ok, panic, ◌>>=◌, ◌>>◌, assert, unwrap, Bool,
  true, false, replicate,
}
use lemola_osv.Usb.Host.{TransferError, DriverError, UsbApi, Host, Outcome, done, fails, panics}
use lemola_osv.Usb.Table.{fill, clear, find}
use lemola_osv.Usb.Input.{
  DeviceState, running, EndpointInfo, InputOnlyDevice, Limits, new_device, World, fsm,
}

pub record InputOnlyDriver : Type 0 where
  pub devices : List (Option InputOnlyDevice)
  pub endpoint_searcher : List ℕ → Run (Option EndpointInfo)

unfoldable pub new : Limits → (List ℕ → Run (Option EndpointInfo)) → InputOnlyDriver
new L endpoint_searcher = record {
  devices = replicate L.max_devices none;
  endpoint_searcher = endpoint_searcher;
}

abbrev pub at_address : ℕ → InputOnlyDevice → Bool
at_address address d = d.addr == address

-- The error, if there is one, and the driver.
unfoldable pub add_device : Limits → InputOnlyDriver → ℕ → ℕ → Option DriverError × InputOnlyDriver
add_device L driver b_max_packet_size address =
    elim (fill (new_device L address b_max_packet_size driver.endpoint_searcher) driver.devices) [
      | none ↦ (some (DriverError.permanent address "out of devices"), driver)
      | some devices ↦ (none, record driver { devices = devices })
    ]

unfoldable pub remove_device : InputOnlyDriver → ℕ → InputOnlyDriver
remove_device driver address = record driver { devices = clear (at_address address) driver.devices }

abbrev pub is_running : DeviceState → Bool
is_running running = true
is_running state = false

-- With the calls of the callback, the last one first.
unfoldable pub call_callback_at :
    InputOnlyDriver → ℕ → List ℕ → List (ℕ × List ℕ) → Run (List (ℕ × List ℕ))
call_callback_at driver address buffer calls = do
  d ← unwrap (find (at_address address) driver.devices)
  assert (is_running d.state)
  ok ((address, buffer) ∷ calls)

module _ (U : UsbApi) (H : Host) (L : Limits) where
  -- The error, the devices, the host and the calls of the callback after a tick.
  pub record Ticked : Type 0 where
    pub error : Option DriverError
    pub devices : List (Option InputOnlyDevice)
    pub host : H.State
    pub calls : List (ℕ × List ℕ)

  -- A slot that has been passed, before what came of the others.
  abbrev pub behind : Option InputOnlyDevice → Run Ticked → Run Ticked
  behind slot (ok t) = ok (record t { devices = slot ∷ t.devices })
  behind slot panic = panic

  -- What `tick` does after the call of `fsm` for a device, with the devices that are left.
  pub after_fsm :
      List (Option InputOnlyDevice)
      → (H.State → List (ℕ × List ℕ) → Run Ticked)
      → Outcome (World H) (Unit {0})
      → Run Ticked
  after_fsm slots rest (done u w) = behind (some w.device) (rest w.host w.calls)
  after_fsm slots rest (fails (TransferError.retry msg) w) =
      behind (some w.device) (rest w.host w.calls)
  after_fsm slots rest (fails (TransferError.permanent msg) w) = ok (record {
    error = some (DriverError.permanent w.device.addr msg);
    devices = some w.device ∷ slots;
    host = w.host;
    calls = w.calls;
  })
  after_fsm slots rest panics = panic

  -- The loop of `tick` over the devices.
  pub tick_slots : ℕ → List (Option InputOnlyDevice) → H.State → List (ℕ × List ℕ) → Run Ticked
  tick_slots millis [] host calls =
      ok (record { error = none; devices = []; host = host; calls = calls })
  tick_slots millis (none ∷ slots) host calls = behind none (tick_slots millis slots host calls)
  tick_slots millis (some d ∷ slots) host calls =
      after_fsm slots (λ host calls. tick_slots millis slots host calls)
        (fsm U H L millis (record { device = d; host = host; calls = calls }))

  pub tick : ℕ → InputOnlyDriver → H.State → List (ℕ × List ℕ) → Run Ticked
  tick millis driver host calls = tick_slots millis driver.devices host calls
