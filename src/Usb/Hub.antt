-- ===== src/Usb/Hub.antt =====
-- The driver of hubs, kernel/src/usb/class_driver/hub.rs: the state machine of a hub, its table of hubs
-- and the tick. What only waits or prints is left out.
pub mod Follows
pub mod Stepped
pub mod Ports
pub mod Wired
pub mod Tests
use lemola_osv.Base.{
  ℕ, zero, suc, ◌+◌, ◌*◌, ◌/◌, ◌%◌, ◌^◌, ◌==◌, ltb, List, [], ◌∷◌, Option, none, some, Run, ok,
  panic, unwrap, length, get_or, replicate, if◌then◌else◌, Bool, true, false, not,
}
use lemola_osv.Base
use lemola_osv.Usb.Descriptor
use lemola_osv.Usb.Descriptor.{DescriptorIter, DescriptorRef, next}
use lemola_osv.Usb.Host.{
  TransferError, Endpoint, new_endpoint, UsbApi, Host, Reply, success, failure, Step, ◌>>=◌, ◌>>◌,
  pure, get, modify, fail, run, check, answer, RequestCode, get_status, clear_feature, set_feature,
  get_descriptor, set_configuration, Direction, standard, class, host_to_device, device_to_host,
  control,
}
use lemola_osv.Usb.Host

pub data HubState : Type 0 where
  addressed : HubState
  get_config : HubState
  set_config : HubState
  get_hub_descriptor : HubState
  init_port : ℕ → HubState
  running : HubState

pub record HubDevice : Type 0 where
  pub state : HubState
  pub address : ℕ
  pub ep0 : Endpoint
  pub config_descriptor : Option (List ℕ)
  pub number_of_ports : ℕ
  pub power_on_2_power_good : ℕ

unfoldable pub new_hub : ℕ → ℕ → HubDevice
new_hub address max_packet_size = record {
  state = addressed;
  address = address;
  ep0 = new_endpoint address 0 0 control device_to_host max_packet_size;
  config_descriptor = none;
  number_of_ports = 0;
  power_on_2_power_good = 0;
}

abbrev pub config_buffer_len : ℕ
config_buffer_len = 256

-- The features that the driver names.
pub data PortFeatureSelector : Type 0 where
  port_reset : PortFeatureSelector
  port_power : PortFeatureSelector
  c_port_connection : PortFeatureSelector
  c_port_reset : PortFeatureSelector

abbrev pub selector_bits : PortFeatureSelector → ℕ
selector_bits port_reset = 4
selector_bits port_power = 8
selector_bits c_port_connection = 16
selector_bits c_port_reset = 20

-- The fields of `HubDescriptor`, which is laid out as in C: `w_hub_characteristics` stands at an even
-- offset, 4, behind a byte of padding.
pub record HubDescriptor : Type 0 where
  pub b_nbr_ports : ℕ
  pub b_pwr_on_2_pwr_good : ℕ

abbrev pub size_of_hub_descriptor : ℕ
size_of_hub_descriptor = 8

unfoldable pub hub_descriptor_of : List ℕ → HubDescriptor
hub_descriptor_of bytes = record {
  b_nbr_ports = get_or bytes 2 0;
  b_pwr_on_2_pwr_good = get_or bytes 6 0;
}

pub record HubWorld (H : Host) : Type 0 where
  pub device : HubDevice
  pub host : H.State

module _ (U : UsbApi) where
  -- The loop over the descriptors of a configuration, which keeps the last that is a configuration's; a
  -- panic where its fuel runs out.
  unfoldable pub last_configuration : ℕ → DescriptorIter → Option (List ℕ) → Run (Option (List ℕ))
  last_configuration zero it config = panic
  last_configuration (suc fuel) it config = Base.◌>>=◌ (next U.try_from it) λ r. elim r.0 [
    | none ↦ ok config
    | some desc ↦ last_configuration fuel r.1 (elim desc [
      | DescriptorRef.configuration bytes ↦ some bytes
      | DescriptorRef.interface bytes ↦ config
      | DescriptorRef.endpoint bytes ↦ config
      | DescriptorRef.unknown ↦ config
    ])
  ]

module _ (U : UsbApi) (H : Host) where
  abbrev set_state : HubState → Step (HubWorld H) (Unit {0})
  set_state state = modify λ w. record w { device = record w.device { state = state } }

  -- A transfer on `ep0`.
  pub control_transfer : ℕ → RequestCode → ℕ → ℕ → List ℕ → Step (HubWorld H) (ℕ × List ℕ)
  control_transfer bm_request_type b_request w_value w_index buf = do
    w ← get
    (reply, ep0, host) ←
        run (H.control_transfer w.host w.device.ep0 bm_request_type b_request w_value w_index buf)
    modify λ w. record { device = record w.device { ep0 = ep0 }; host = host }
    answer reply

  -- `register_hub` and `assign_address`, unwrapped.
  pub register_hub : Step (HubWorld H) (Unit {0})
  register_hub = do
    w ← get
    (reply, host) ← run (H.register_hub w.host w.device.address)
    modify λ w. record w { host = host }
    elim reply [ success u ↦ pure tt | failure e ↦ run panic ]

  pub assign_address : ℕ → Bool → Step (HubWorld H) (Unit {0})
  assign_address port_index is_low_speed = do
    w ← get
    (reply, host) ← run (H.assign_address w.host w.device.address port_index is_low_speed)
    modify λ w. record w { host = host }
    elim reply [ success u ↦ pure tt | failure e ↦ run panic ]

  abbrev get_configuration : ℕ → Step (HubWorld H) (ℕ × List ℕ)
  get_configuration size =
      control_transfer (U.request_type device_to_host standard Host.device) get_descriptor
        (U.w_value 0 U.configuration_code) 0 (H.uninit size)

  -- The second of the tests for the length, which never holds, is left out.
  get_config_arm : Step (HubWorld H) (Unit {0})
  get_config_arm = do
    (len, conf_desc) ← get_configuration U.size_of_configuration_descriptor
    check (len == U.size_of_configuration_descriptor)
    let w_total_length = U.w_total_length conf_desc
    if ltb config_buffer_len w_total_length
        then fail (TransferError.permanent "config descriptor too large")
        else (do
          (len, config_buf) ← get_configuration w_total_length
          check (len == w_total_length)
          w ← get
          config ← run (
              last_configuration U (length config_buf + 1) (Descriptor.new config_buf)
                w.device.config_descriptor)
          modify λ w. record w { device = record w.device { config_descriptor = config } }
          set_state set_config)

  set_config_arm : Step (HubWorld H) (Unit {0})
  set_config_arm = do
    w ← get
    config ← run (unwrap w.device.config_descriptor)
    let w_value = U.set_w_value_lo U.default_w_value (U.b_configuration_value config)
    sent ←
        control_transfer (U.request_type host_to_device standard Host.device) set_configuration
          w_value 0 []
    register_hub
    set_state get_hub_descriptor

  -- The end of `get_hub_descriptor_arm`, with what stands in the buffer.
  keep_hub_descriptor : List ℕ → Step (HubWorld H) (Unit {0})
  keep_hub_descriptor buf = do
    let hub_descriptor = hub_descriptor_of buf
    modify λ w. record w {
      device = record w.device {
        number_of_ports = hub_descriptor.b_nbr_ports;
        power_on_2_power_good = hub_descriptor.b_pwr_on_2_pwr_good;
      };
    }
    set_state (init_port 0)

  get_hub_descriptor_arm : Step (HubWorld H) (Unit {0})
  get_hub_descriptor_arm = do
    let type_ = U.request_type device_to_host class Host.device
    check (type_ == 0xA0)
    check (U.w_value 0 0x29 == 0x2900)
    (len, buf) ←
        control_transfer type_ get_descriptor (U.w_value 0 0x29) 0
          (replicate size_of_hub_descriptor 0)
    keep_hub_descriptor buf

  -- A request to a port, with the byte that its type has to be.
  pub port_request : Direction → ℕ → RequestCode → ℕ → ℕ → List ℕ → Step (HubWorld H) (ℕ × List ℕ)
  port_request direction byte b_request w_value port_index buf = do
    let request_type = U.request_type direction class Host.other
    check (request_type == byte)
    control_transfer request_type b_request w_value (port_index + 1) buf

  abbrev feature : PortFeatureSelector → ℕ
  feature selector = U.set_w_value_lo U.default_w_value (selector_bits selector)

  -- The end of `init_port_arm` for a port that is connected.
  connected_port : ℕ → Step (HubWorld H) (Unit {0})
  connected_port port_index = do
    reset ← port_request host_to_device 0x23 set_feature (feature port_reset) port_index []
    cleared ← port_request host_to_device 0x23 clear_feature (feature c_port_reset) port_index []
    (len, status) ←
        port_request device_to_host 0xA3 get_status U.default_w_value port_index (replicate 4 0)
    -- `status[0] & (1 << 9) != 0`, of the first two bytes, the lower first
    let status0 = get_or status 0 0 + 256 * get_or status 1 0
    let is_low_speed = status0 / 2 ^ 9 % 2 == 1
    assign_address port_index is_low_speed
    set_state (init_port (port_index + 1))

  pub init_port_arm : ℕ → Step (HubWorld H) (Unit {0})
  init_port_arm port_index = do
    w ← get
    if ltb port_index w.device.number_of_ports
        then (do
          powered ← port_request host_to_device 0x23 set_feature (feature port_power) port_index []
          cleared ←
              port_request host_to_device 0x23 clear_feature (feature c_port_connection) port_index
                []
          (len, status) ←
              port_request device_to_host 0xA3 get_status U.default_w_value port_index
                (replicate 4 0)
          if get_or status 0 0 % 2 == 0
              then set_state (init_port (port_index + 1))
              else connected_port port_index)
        else set_state running

  arm : HubState → Step (HubWorld H) (Unit {0})
  arm addressed = set_state get_config
  arm get_config = get_config_arm
  arm set_config = set_config_arm
  arm get_hub_descriptor = get_hub_descriptor_arm
  arm (init_port port_index) = init_port_arm port_index
  arm running = pure tt

  pub fsm : Step (HubWorld H) (Unit {0})
  fsm = do w ← get; arm w.device.state
