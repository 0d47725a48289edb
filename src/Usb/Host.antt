-- ===== src/Usb/Host.antt =====
-- What the class drivers use: the traits of kernel/src/usb/traits.rs and of the crate `usb_host`, which
-- are parameters, the endpoints of kernel/src/usb/class_driver.rs, and steps on a state that may fail.
pub mod Ends
use Prim.Native.String.{String}
use lemola_osv.Base.{ℕ, List, Run, ok, panic, Bool, true, false}
use lemola_osv.Usb.Descriptor.{DescriptorType}

pub data TransferError : Type 0 where
  retry : String → TransferError
  permanent : String → TransferError

-- The numbers are the address and the message.
pub data DriverError : Type 0 where
  permanent : ℕ → String → DriverError

pub data TransferType : Type 0 where
  control : TransferType
  interrupt : TransferType

pub data Direction : Type 0 where
  host_to_device : Direction
  device_to_host : Direction

pub data RequestKind : Type 0 where
  standard : RequestKind
  class : RequestKind

pub data RequestRecipient : Type 0 where
  device : RequestRecipient
  interface : RequestRecipient
  other : RequestRecipient

-- The codes that the drivers send.
pub data RequestCode : Type 0 where
  get_status : RequestCode
  clear_feature : RequestCode
  set_feature : RequestCode
  get_descriptor : RequestCode
  set_configuration : RequestCode
  get_interface : RequestCode
  set_interface : RequestCode

pub record Endpoint : Type 0 where
  pub address : ℕ
  pub endpoint_num : ℕ
  pub interface_num : ℕ
  pub transfer_type : TransferType
  pub direction : Direction
  pub max_packet_size : ℕ
  pub in_toggle : Bool
  pub out_toggle : Bool

abbrev pub new_endpoint : ℕ → ℕ → ℕ → TransferType → Direction → ℕ → Endpoint
new_endpoint address endpoint_num interface_num transfer_type direction max_packet_size = record {
  address = address;
  endpoint_num = endpoint_num;
  interface_num = interface_num;
  transfer_type = transfer_type;
  direction = direction;
  max_packet_size = max_packet_size;
  in_toggle = false;
  out_toggle = false;
}

-- The crate `usb_host`: a request type as its byte, a value as its number, and the fields of the
-- descriptors, read where the slice points to.
pub record UsbApi : Type 0 where
  pub request_type : Direction → RequestKind → RequestRecipient → ℕ
  -- `WValue::from((lo, hi))`, `WValue::default()` and `set_w_value_lo`
  pub w_value : ℕ → ℕ → ℕ
  pub default_w_value : ℕ
  pub set_w_value_lo : ℕ → ℕ → ℕ
  pub try_from : ℕ → DescriptorType
  -- `DescriptorType::Device as u8` and `DescriptorType::Configuration as u8`
  pub device_code : ℕ
  pub configuration_code : ℕ
  pub size_of_device_descriptor : ℕ
  pub size_of_configuration_descriptor : ℕ
  pub w_total_length : List ℕ → ℕ
  pub b_configuration_value : List ℕ → ℕ
  pub b_interface_class : List ℕ → ℕ
  pub b_interface_sub_class : List ℕ → ℕ
  pub b_interface_protocol : List ℕ → ℕ
  pub b_interface_number : List ℕ → ℕ
  pub b_endpoint_address : List ℕ → ℕ
  pub bm_attributes : List ℕ → ℕ
  pub w_max_packet_size : List ℕ → ℕ

-- How a call of the host ends, if it does not panic.
pub data Reply (A : Type 0) : Type 0 where
  success : A → Reply A
  failure : TransferError → Reply A

-- `AsyncUSBHost`, awaited to the end, or `USBHost`. A transfer may change the endpoint, and gives the
-- number of bytes and what the buffer, an empty one for `None`, holds afterwards.
pub record Host : Type 1 where
  pub State : Type 0
  pub control_transfer :
      State
      → Endpoint
      → ℕ
      → RequestCode
      → ℕ
      → ℕ
      → List ℕ
      → Run (Reply (ℕ × List ℕ) × Endpoint × State)
  pub in_transfer : State → Endpoint → List ℕ → Run (Reply (ℕ × List ℕ) × Endpoint × State)
  pub register_hub : State → ℕ → Run (Reply (Unit {0}) × State)
  pub assign_address : State → ℕ → ℕ → Bool → Run (Reply (Unit {0}) × State)
  -- What so many bytes that are not initialised hold.
  pub uninit : ℕ → List ℕ

-- A step on a state, which `?` leaves with an error and a panic ends.
pub data Outcome (S : Type 0) (A : Type 0) : Type 0 where
  done : A → S → Outcome S A
  fails : TransferError → S → Outcome S A
  panics : Outcome S A

abbrev pub Step : Type 0 → Type 0 → Type 0
Step S A = S → Outcome S A

infixl 5 ◌>>=◌ ◌>>◌
abbrev pub ◌>>=◌ : {S A B : Type 0} → Step S A → (A → Step S B) → Step S B
◌>>=◌ m f s = elim (m s) [ done a s' ↦ f a s' | fails e s' ↦ fails e s' | panics ↦ panics ]

abbrev pub ◌>>◌ : {S B : Type 0} → Step S (Unit {0}) → Step S B → Step S B
m >> k = m >>= λ _. k

abbrev pub pure : {S A : Type 0} → A → Step S A
pure a s = done a s

abbrev pub get : {S : Type 0} → Step S S
get s = done s s

abbrev pub modify : {S : Type 0} → (S → S) → Step S (Unit {0})
modify f s = done tt (f s)

abbrev pub fail : {S A : Type 0} → TransferError → Step S A
fail e s = fails e s

abbrev pub run : {S A : Type 0} → Run A → Step S A
run (ok a) s = done a s
run panic s = panics

abbrev pub check : {S : Type 0} → Bool → Step S (Unit {0})
check true s = done tt s
check false s = panics

abbrev pub answer : {S A : Type 0} → Reply A → Step S A
answer (success a) s = done a s
answer (failure e) s = fails e s
