-- ===== src/Usb/Input.antt =====
-- The driver of mice and keyboards, kernel/src/usb/class_driver.rs, which `mouse.rs` and `keyboard.rs`
-- beside it instantiate. `fsm` and `async_fsm` are the same code; its transfers are awaited to the end.
pub mod Driver
pub mod Follows
pub mod Stepped
pub mod Reaches
pub mod Starts
use lemola_osv.Base.{
  ℕ, ◌%◌, ◌==◌, ltb, List, [], ◌∷◌, Option, none, some, Run, ok, panic, add64, unwrap, length, set,
  get_elem?, replicate, if◌then◌else◌, Bool, true, false,
}
use lemola_osv.Base
use lemola_osv.Usb.Host.{
  TransferError, Endpoint, new_endpoint, UsbApi, Host, Reply, success, failure, Outcome, done,
  fails, panics, Step, ◌>>=◌, ◌>>◌, pure, get, modify, fail, run, check, answer, RequestCode,
  get_descriptor, set_configuration, get_interface, set_interface, standard, class, host_to_device,
  device_to_host, control, interrupt,
}
use lemola_osv.Usb.Host

pub data DeviceState : Type 0 where
  addressed : DeviceState
  wait_for_settle : ℕ → DeviceState
  get_config : DeviceState
  set_config : ℕ → DeviceState
  set_protocol : DeviceState
  set_idle : DeviceState
  running : DeviceState

-- The endpoint is the descriptor's bytes.
pub record EndpointInfo : Type 0 where
  pub interface_num : ℕ
  pub endpoint : List ℕ

pub record InputOnlyDevice : Type 0 where
  pub addr : ℕ
  pub ep0 : Endpoint
  pub endpoints : List (Option Endpoint)
  pub state : DeviceState
  pub endpoint_searcher : List ℕ → Run (Option EndpointInfo)

-- The constants that a driver is generic in.
pub record Limits : Type 0 where
  pub max_endpoints : ℕ
  pub settle_delay : ℕ
  pub config_buffer_len : ℕ
  pub n_in_transfer_bytes : ℕ
  pub max_devices : ℕ

unfoldable pub new_device : Limits → ℕ → ℕ → (List ℕ → Run (Option EndpointInfo)) → InputOnlyDevice
new_device L addr max_packet_size endpoint_searcher = record {
  addr = addr;
  ep0 = new_endpoint addr 0 0 control device_to_host max_packet_size;
  endpoints = replicate L.max_endpoints none;
  state = addressed;
  endpoint_searcher = endpoint_searcher;
}

-- A device with the host, and the calls of the callback, the last one first.
pub record World (H : Host) : Type 0 where
  pub device : InputOnlyDevice
  pub host : H.State
  pub calls : List (ℕ × List ℕ)

module _ (U : UsbApi) (H : Host) (L : Limits) where
  abbrev set_state : DeviceState → Step (World H) (Unit {0})
  set_state state = modify λ w. record w { device = record w.device { state = state } }

  -- A transfer on `ep0`, and one on the first of the endpoints.
  pub control_transfer : ℕ → RequestCode → ℕ → ℕ → List ℕ → Step (World H) (ℕ × List ℕ)
  control_transfer bm_request_type b_request w_value w_index buf = do
    w ← get
    (reply, ep0, host) ←
        run (H.control_transfer w.host w.device.ep0 bm_request_type b_request w_value w_index buf)
    modify λ w. record w { device = record w.device { ep0 = ep0 }; host = host }
    answer reply

  pub in_transfer : Endpoint → List ℕ → Step (World H) (Reply (ℕ × List ℕ))
  in_transfer ep buf = do
    w ← get
    (reply, ep, host) ← run (H.in_transfer w.host ep buf)
    modify λ w. record w {
      device = record w.device { endpoints = set w.device.endpoints 0 (some ep) };
      host = host;
    }
    pure reply

  -- `endpoints[0]`
  abbrev first_endpoint : Step (World H) (Option Endpoint)
  first_endpoint = do w ← get; run (unwrap (get_elem? w.device.endpoints 0))

  abbrev get_descriptor_of_type : ℕ → ℕ → Step (World H) (ℕ × List ℕ)
  get_descriptor_of_type code size =
      control_transfer (U.request_type device_to_host standard Host.device) get_descriptor
        (U.w_value 0 code) 0 (H.uninit size)

  wait_for_settle_arm : ℕ → ℕ → Step (World H) (Unit {0})
  wait_for_settle_arm millis until =
      if ltb until millis
      then (do
        (len, buf) ← get_descriptor_of_type U.device_code U.size_of_device_descriptor
        check (len == U.size_of_device_descriptor)
        set_state get_config)
      else pure tt

  -- The end of `get_config_arm`: the endpoint that the searcher finds.
  choose_endpoint : Bool → List ℕ → Step (World H) (Unit {0})
  choose_endpoint whole config_buf = do
    check whole
    w ← get
    found ← run (w.device.endpoint_searcher config_buf)
    info ← run (unwrap found)
    old ← run (unwrap (get_elem? w.device.endpoints 0))
    let ep =
        new_endpoint w.device.addr (U.b_endpoint_address info.endpoint % 128) info.interface_num
          interrupt device_to_host (U.w_max_packet_size info.endpoint)
    modify λ w. record w {
      device = record w.device { endpoints = set w.device.endpoints 0 (some ep) };
    }
    set_state (set_config 1)

  -- The second of the tests for the length, which never holds, is left out.
  get_config_arm : Step (World H) (Unit {0})
  get_config_arm = do
    (len, conf_desc) ←
        get_descriptor_of_type U.configuration_code U.size_of_configuration_descriptor
    check (len == U.size_of_configuration_descriptor)
    let w_total_length = U.w_total_length conf_desc
    if ltb L.config_buffer_len w_total_length
        then fail (TransferError.permanent "config descriptor too large")
        else (do
          (len, config_buf) ← get_descriptor_of_type U.configuration_code w_total_length
          choose_endpoint (len == w_total_length) config_buf)

  set_config_arm : ℕ → Step (World H) (Unit {0})
  set_config_arm config_index = do
    sent ←
        control_transfer (U.request_type host_to_device standard Host.device) set_configuration
          (U.w_value config_index 0) 0 []
    set_state set_protocol

  set_protocol_arm : Step (World H) (Unit {0})
  set_protocol_arm = do
    first ← first_endpoint
    elim first [
      | none ↦ fail (TransferError.permanent "no boot keyboard")
      | some ep ↦ (do
        sent ←
            control_transfer (U.request_type host_to_device class Host.interface) set_interface
              (U.w_value 0 0) ep.interface_num []
        set_state set_idle)
    ]

  set_idle_arm : Step (World H) (Unit {0})
  set_idle_arm = do
    sent ←
        control_transfer (U.request_type host_to_device class Host.interface) get_interface
          (U.w_value 0 0) 0 []
    set_state running

  running_arm : Step (World H) (Unit {0})
  running_arm = do
    first ← first_endpoint
    elim first [
      | none ↦ fail (TransferError.permanent "no boot keyboard")
      | some ep ↦ (do
        reply ← in_transfer ep (replicate L.n_in_transfer_bytes 0)
        elim reply [
          | success (len, b) ↦ modify λ w. record w { calls = (w.device.addr, b) ∷ w.calls }
          | failure (TransferError.retry msg) ↦ pure tt
          | failure (TransferError.permanent msg) ↦ fail (TransferError.permanent msg)
        ])
    ]

  arm : ℕ → DeviceState → Step (World H) (Unit {0})
  arm millis addressed = do
    until ← run (add64 millis L.settle_delay)
    set_state (wait_for_settle until)
  arm millis (wait_for_settle until) = wait_for_settle_arm millis until
  arm millis get_config = get_config_arm
  arm millis (set_config config_index) = set_config_arm config_index
  arm millis set_protocol = set_protocol_arm
  arm millis set_idle = set_idle_arm
  arm millis running = running_arm

  pub fsm : ℕ → Step (World H) (Unit {0})
  fsm millis = do w ← get; arm millis w.device.state

  -- The same code, each of whose transfers is awaited.
  abbrev pub async_fsm : ℕ → Step (World H) (Unit {0})
  async_fsm = fsm
