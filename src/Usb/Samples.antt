-- ===== src/Usb/Samples.antt =====
-- A crate `usb_host` and devices for the tests of kernel/src/usb: the layouts are those of the USB 2.0
-- specification, and the devices answer every request.
use lemola_osv.Base.{
  ℕ, ◌+◌, ◌*◌, ◌-◌, ◌%◌, ◌==◌, if◌then◌else◌, List, [], ◌∷◌, ◌++◌, ok, get_or, take, length,
  replicate,
}
use lemola_osv.Usb.Descriptor.{configuration_type, interface_type, endpoint_type, other_type}
use lemola_osv.Usb.Host.{
  Direction, host_to_device, device_to_host, RequestKind, standard, class, RequestRecipient,
  RequestCode, get_status, UsbApi, Host, success,
}
use lemola_osv.Usb.Host

abbrev direction_bit : Direction → ℕ
direction_bit host_to_device = 0
direction_bit device_to_host = 128

abbrev kind_bits : RequestKind → ℕ
kind_bits standard = 0
kind_bits class = 32

abbrev recipient_bits : RequestRecipient → ℕ
recipient_bits Host.device = 0
recipient_bits Host.interface = 1
recipient_bits Host.other = 3

abbrev word_at : List ℕ → ℕ → ℕ
word_at bytes i = get_or bytes i 0 + 256 * get_or bytes (i + 1) 0

abbrev pub usb : UsbApi
usb = record {
  request_type = λ direction kind recipient.
      direction_bit direction + kind_bits kind + recipient_bits recipient;
  w_value = λ lo hi. lo + 256 * hi;
  default_w_value = 0;
  set_w_value_lo = λ value lo. value - value % 256 + lo;
  try_from = λ code.
      if code == 2
      then configuration_type
      else if code == 4
      then interface_type
      else if code == 5
      then endpoint_type
      else other_type;
  device_code = 1;
  configuration_code = 2;
  size_of_device_descriptor = 18;
  size_of_configuration_descriptor = 9;
  w_total_length = λ bytes. word_at bytes 2;
  b_configuration_value = λ bytes. get_or bytes 5 0;
  b_interface_class = λ bytes. get_or bytes 5 0;
  b_interface_sub_class = λ bytes. get_or bytes 6 0;
  b_interface_protocol = λ bytes. get_or bytes 7 0;
  b_interface_number = λ bytes. get_or bytes 2 0;
  b_endpoint_address = λ bytes. get_or bytes 2 0;
  bm_attributes = λ bytes. get_or bytes 3 0;
  w_max_packet_size = λ bytes. word_at bytes 4;
}

-- The configuration of a mouse: its own descriptor, an interface and an endpoint.
abbrev pub mouse_blocks : List (List ℕ)
mouse_blocks =
    (9 ∷ 2 ∷ 25 ∷ 0 ∷ 1 ∷ 1 ∷ 0 ∷ 160 ∷ 50 ∷ [])
    ∷ (9 ∷ 4 ∷ 0 ∷ 0 ∷ 1 ∷ 3 ∷ 1 ∷ 2 ∷ 0 ∷ [])
    ∷ (7 ∷ 5 ∷ 129 ∷ 3 ∷ 4 ∷ 0 ∷ 10 ∷ [])
    ∷ []

abbrev pub mouse_bytes : List ℕ
mouse_bytes =
    9 ∷ 2 ∷ 25 ∷ 0 ∷ 1 ∷ 1 ∷ 0 ∷ 160 ∷ 50 ∷ 9 ∷ 4 ∷ 0 ∷ 0 ∷ 1 ∷ 3 ∷ 1 ∷ 2 ∷ 0 ∷ 7 ∷ 5 ∷ 129 ∷ 3 ∷ 4
    ∷ 0 ∷ 10 ∷ []

-- A host with a mouse: every buffer is filled from the configuration.
abbrev pub mouse_host : Host
mouse_host = record {
  State = ℕ;
  control_transfer = λ s ep kind request value index buf.
      ok (success (length buf, take (length buf) mouse_bytes), ep, s + 1);
  in_transfer = λ s ep buf. ok (success (length buf, buf), ep, s + 1);
  register_hub = λ s address. ok (success tt, s + 1);
  assign_address = λ s address port low. ok (success tt, s + 1);
  uninit = λ n. replicate n 0;
}

-- A host with a hub whose ports with an odd number are connected. Its state lists the ports whose devices
-- have got an address.
abbrev pub hub_host : Host
hub_host = record {
  State = List ℕ;
  control_transfer =
      λ s ep kind request value index buf. ok (success (length buf, ((index + 1) % 2) ∷ []), ep, s);
  in_transfer = λ s ep buf. ok (success (length buf, buf), ep, s);
  register_hub = λ s address. ok (success tt, s);
  assign_address = λ s address port low. ok (success tt, s ++ port ∷ []);
  uninit = λ n. replicate n 0;
}
