-- ===== src/Usb/Hub/Stepped.antt =====
-- How a call of `fsm` of kernel/src/usb/class_driver/hub.rs may change the hub, and its transfers.
use lemola_osv.Base.{
  ℕ, ◌+◌, ◌<◌, ◌≤◌, ◌≡◌, ◌∙◌, ◌⊎◌, inl, inr, refl, List, ok, ◌==◌, get_or, replicate, Bool,
  Run-cases, Bool-cases,
}
use lemola_osv.Usb.Host.{
  TransferError, UsbApi, Host, Reply, success, failure, Outcome, done, fails, panics, Step, ◌>>=◌,
  RequestCode, Direction, device_to_host, class, get_descriptor,
}
use lemola_osv.Usb.Host
use lemola_osv.Usb.Host.Ends.{Ends, Ends-bind}
use lemola_osv.Usb.Input.Stepped.{HostFails, of_control_transfer}
use lemola_osv.Usb.Hub.{
  HubState, addressed, get_config, set_config, get_hub_descriptor, init_port, running, HubWorld,
  size_of_hub_descriptor, control_transfer, register_hub, assign_address, port_request,
}

-- The state after a call that succeeds, for a hub with so many ports.
pub data Follows (n : ℕ) : HubState → HubState → Type 0 where
  asks : Follows n addressed get_config
  configures : Follows n get_config set_config
  registers : Follows n set_config get_hub_descriptor
  counts : Follows n get_hub_descriptor (init_port 0)
  passes : {p : ℕ} → p < n → Follows n (init_port p) (init_port (p + 1))
  starts : {p : ℕ} → n ≤ p → Follows n (init_port p) running
  runs : Follows n running running

module _ (H : Host) where
  -- What a transfer leaves alone.
  pub record Kept (w w' : HubWorld H) : Type 0 where
    pub state : w'.device.state ≡ w.device.state
    pub address : w'.device.address ≡ w.device.address
    pub ports : w'.device.number_of_ports ≡ w.device.number_of_ports
    pub power : w'.device.power_on_2_power_good ≡ w.device.power_on_2_power_good
    pub config : w'.device.config_descriptor ≡ w.device.config_descriptor

  pub record Refused (w : HubWorld H) (from : HubState) (e : TransferError) (w' : HubWorld H)
      : Type 0 where
    pub kept : w'.device ≡ record w.device { ep0 = w'.device.ep0 }
    pub cause :
        HostFails H e
        ⊎ ((from ≡ get_config) × (e ≡ TransferError.permanent "config descriptor too large"))

  module _ (U : UsbApi) where
    -- The numbers of the hub are the bytes 2 and 6 of what the host answers to the request for its
    -- descriptor, and else as before.
    abbrev pub Numbered : HubWorld H → HubState → HubWorld H → Type 0
    Numbered w get_hub_descriptor w' =
        (len : ℕ) × (buf : List ℕ) × (H.control_transfer w.host w.device.ep0
            (U.request_type device_to_host class Host.device) get_descriptor (U.w_value 0 0x29) 0
            (replicate size_of_hub_descriptor 0)
          ≡ ok (success (len, buf), w'.device.ep0, w'.host))
        × (w'.device.number_of_ports ≡ get_or buf 2 0)
        × (w'.device.power_on_2_power_good ≡ get_or buf 6 0)
    Numbered w from w' =
        (w'.device.number_of_ports ≡ w.device.number_of_ports)
        × (w'.device.power_on_2_power_good ≡ w.device.power_on_2_power_good)

    pub record Stepped (w : HubWorld H) (from : HubState) (w' : HubWorld H) : Type 0 where
      pub follows : Follows w.device.number_of_ports from w'.device.state
      pub address : w'.device.address ≡ w.device.address
      pub numbered : Numbered w from w'

    pub Kept-refl : {w : HubWorld H} → Kept w w
    Kept-refl = record { state = refl; address = refl; ports = refl; power = refl; config = refl }

    Kept-trans : {a b c : HubWorld H} → Kept a b → Kept b c → Kept a c
    Kept-trans h k = record {
      state = k.state ∙ h.state;
      address = k.address ∙ h.address;
      ports = k.ports ∙ h.ports;
      power = k.power ∙ h.power;
      config = k.config ∙ h.config;
    }

    pub Kept-device :
        {w w' : HubWorld H} → Kept w w' → w'.device ≡ record w.device { ep0 = w'.device.ep0 }
    Kept-device k = cc (k.state, k.address, k.ports, k.power, k.config)

    pub control_transfer_ends :
        (kind : ℕ) (request : RequestCode) (value index : ℕ) (buf : List ℕ) (w : HubWorld H)
        → Ends
            (λ a w'. Kept w w')
            (λ e w'. Kept w w' × HostFails H e)
            (control_transfer U H kind request value index buf w)
    unfolding control_transfer
    control_transfer_ends kind request value index buf w =
        elim (Run-cases (H.control_transfer w.host w.device.ep0 kind request value index buf)) [
          | inl ((success a, ep0, host), e) ↦
              rw e
                (record { state = refl; address = refl; ports = refl; power = refl; config = refl })
          | inl ((failure a, ep0, host), e) ↦ rw e (
            (record { state = refl; address = refl; ports = refl; power = refl; config = refl }),
            of_control_transfer e,
          )
          | inr e ↦ rw e tt
        ]

    pub port_request_ends :
        (direction : Direction) (byte : ℕ) (request : RequestCode) (value port : ℕ) (buf : List ℕ)
        (w : HubWorld H)
        → Ends
            (λ a w'. Kept w w')
            (λ e w'. Kept w w' × HostFails H e)
            (port_request U H direction byte request value port buf w)
    unfolding port_request
    port_request_ends direction byte request value port buf w =
        elim (Bool-cases (U.request_type direction class Host.other == byte)) [
          | inl same ↦ rw same (
              control_transfer_ends (U.request_type direction class Host.other) request value
                (port + 1) buf w)
          | inr other ↦ rw other tt
        ]

    pub register_hub_ends :
        (w : HubWorld H) → Ends (λ a w'. Kept w w') (λ e w'. ⊥) (register_hub U H w)
    unfolding register_hub
    register_hub_ends w = elim (Run-cases (H.register_hub w.host w.device.address)) [
      | inl ((success a, host), e) ↦
          rw e (record { state = refl; address = refl; ports = refl; power = refl; config = refl })
      | inl ((failure a, host), e) ↦ rw e tt
      | inr e ↦ rw e tt
    ]

    pub assign_address_ends :
        (port : ℕ) (low : Bool) (w : HubWorld H)
        → Ends (λ a w'. Kept w w') (λ e w'. ⊥) (assign_address U H port low w)
    unfolding assign_address
    assign_address_ends port low w =
        elim (Run-cases (H.assign_address w.host w.device.address port low)) [
          | inl ((success a, host), e) ↦
              rw e
                (record { state = refl; address = refl; ports = refl; power = refl; config = refl })
          | inl ((failure a, host), e) ↦ rw e tt
          | inr e ↦ rw e tt
        ]

    -- In a call that starts at `w` and has come to `v`: a step that keeps the hub, and what follows it.
    pub after :
        {A : Type 0} (from : HubState) (w v : HubWorld H) (f : A → Step (HubWorld H) (Unit {0}))
        (m : Outcome (HubWorld H) A)
        → Ends (λ a w'. Kept v w') (λ e w'. Kept v w' × HostFails H e) m
        → Kept w v
        → ((a : A) (w' : HubWorld H)
            → Kept w w'
            → Ends (λ u. Stepped w from) (Refused w from) (f a w'))
        → Ends
            (λ u. Stepped w from)
            (Refused w from)
            (elim m [ done a s ↦ f a s | fails e s ↦ fails e s | panics ↦ panics ])
    after from w v f m ends before k =
        Ends-bind (λ a w'. Kept v w') (λ e w'. Kept v w' × HostFails H e) (Refused w from)
          (λ u. Stepped w from) f m ends (λ a w' h. k a w' (Kept-trans before h))
          (λ e w' h. record { kept = Kept-device (Kept-trans before h.0); cause = inl h.1 })

    -- The same for a step that does not fail.
    pub after_host :
        (from : HubState) (w v : HubWorld H) (f : Unit {0} → Step (HubWorld H) (Unit {0}))
        (m : Outcome (HubWorld H) (Unit {0}))
        → Ends (λ a w'. Kept v w') (λ e w'. ⊥) m
        → Kept w v
        → ((a : Unit {0}) (w' : HubWorld H)
            → Kept w w'
            → Ends (λ u. Stepped w from) (Refused w from) (f a w'))
        → Ends
            (λ u. Stepped w from)
            (Refused w from)
            (elim m [ done a s ↦ f a s | fails e s ↦ fails e s | panics ↦ panics ])
    after_host from w v f m ends before k =
        Ends-bind (λ a w'. Kept v w') (λ e w'. ⊥) (Refused w from) (λ u. Stepped w from) f m ends
          (λ a w' h. k a w' (Kept-trans before h)) (λ e w' h. absurd h)
