-- ===== src/Usb/Hub/Follows.antt =====
-- What a call of `fsm` of kernel/src/usb/class_driver/hub.rs does to the hub, however the host answers.
use lemola_osv.Base.{
  ℕ, ◌+◌, ◌%◌, ◌<◌, ◌≡◌, inl, inr, refl, List, ok, ltb, ltb→lt, ltb→le, ◌==◌, get_or, replicate,
  length, unwrap, Run-cases, Bool-cases,
}
use lemola_osv.Usb.Descriptor
use lemola_osv.Usb.Host.{
  TransferError, UsbApi, Host, Reply, success, failure, Outcome, done, fails, panics, Step, ◌>>=◌,
  RequestCode, Direction, device_to_host, class, get_descriptor,
}
use lemola_osv.Usb.Host
use lemola_osv.Usb.Host.Ends.{Ends}
use lemola_osv.Usb.Input.Stepped.{HostFails, of_control_transfer}
use lemola_osv.Usb.Hub.{
  HubState, addressed, get_config, set_config, get_hub_descriptor, init_port, running, HubWorld,
  config_buffer_len, hub_descriptor_of, size_of_hub_descriptor, last_configuration,
  control_transfer, get_config_arm, set_config_arm, keep_hub_descriptor, get_hub_descriptor_arm,
  connected_port, init_port_arm, arm, fsm,
}
use lemola_osv.Usb.Hub.Stepped.{
  asks, configures, registers, counts, passes, starts, runs, after, after_host, Kept-refl,
  Kept-device, Stepped, Refused, Kept, control_transfer_ends, port_request_ends, register_hub_ends,
  assign_address_ends,
}

module _ (H : Host) (U : UsbApi) where
  addressed_ends :
      (w : HubWorld H)
      → Ends (λ u. Stepped H U w addressed) (Refused H w addressed) (arm U H addressed w)
  unfolding arm
  addressed_ends w = record { follows = asks; address = refl; numbered = (refl, refl) }

  get_config_ends :
      (w : HubWorld H)
      → Ends (λ u. Stepped H U w get_config) (Refused H w get_config) (get_config_arm U H w)
  unfolding get_config_arm
  get_config_ends w =
      after H U get_config w w _ _ (control_transfer_ends H U _ _ _ _ _ w) (Kept-refl H U)
        λ a w1 k1. elim (Bool-cases (a.0 == U.size_of_configuration_descriptor)) [
          | inl whole ↦ rw whole (elim (Bool-cases (ltb config_buffer_len (U.w_total_length a.1))) [
            | inl large ↦ rw large (record { kept = Kept-device H U k1; cause = inr (refl, refl) })
            | inr small ↦ rw small (
                after H U get_config w w1 _ _ (control_transfer_ends H U _ _ _ _ _ w1) k1 λ b w2 k2.
                  elim (Bool-cases (b.0 == U.w_total_length a.1)) [
                    | inl all ↦
                        rw all
                          (elim (Run-cases (
                            last_configuration U (length b.1 + 1) (Descriptor.new b.1)
                              w2.device.config_descriptor)) [
                                | inl (config, e) ↦ rw e (record {
                                  follows = configures;
                                  address = k2.address;
                                  numbered = (k2.ports, k2.power);
                                })
                                | inr e ↦ rw e tt
                              ])
                    | inr part ↦ rw part tt
                  ])
          ])
          | inr part ↦ rw part tt
        ]

  set_config_ends :
      (w : HubWorld H)
      → Ends (λ u. Stepped H U w set_config) (Refused H w set_config) (set_config_arm U H w)
  unfolding set_config_arm
  set_config_ends w = elim (Run-cases (unwrap w.device.config_descriptor)) [
    | inl (config, there) ↦
        rw (there, Ends)
          (after H U set_config w w _ _ (control_transfer_ends H U _ _ _ _ _ w) (Kept-refl H U)
            λ a1 w1 k1. after_host H U set_config w w1 _ _ (register_hub_ends H U w1) k1 λ a2 w2 k2.
              record { follows = registers; address = k2.address; numbered = (k2.ports, k2.power) })
    | inr gone ↦ rw (gone, Ends) tt
  ]

  -- An answer to the request for the hub's descriptor.
  abbrev Answered : HubWorld H → ℕ × List ℕ → HubWorld H → Type 0
  Answered w (len, buf) w' =
      Kept H w w'
      × (H.control_transfer w.host w.device.ep0 (U.request_type device_to_host class Host.device)
            get_descriptor (U.w_value 0 0x29) 0 (replicate size_of_hub_descriptor 0)
          ≡ ok (success (len, buf), w'.device.ep0, w'.host))

  answered :
      (w : HubWorld H)
      → Ends
          (λ a w'. Answered w a w')
          (λ e w'. Kept H w w' × HostFails H e)
          (control_transfer U H
            (U.request_type device_to_host class Host.device)
            get_descriptor
            (U.w_value 0 0x29)
            0
            (replicate size_of_hub_descriptor 0)
            w)
  unfolding control_transfer
  answered w =
      elim (Run-cases (
        H.control_transfer w.host w.device.ep0 (U.request_type device_to_host class Host.device)
          get_descriptor (U.w_value 0 0x29) 0 (replicate size_of_hub_descriptor 0))) [
            | inl ((success (len, buf), ep0, host), e) ↦ rw e (
              record { state = refl; address = refl; ports = refl; power = refl; config = refl },
              refl,
            )
            | inl ((failure a, ep0, host), e) ↦ rw e (
              record { state = refl; address = refl; ports = refl; power = refl; config = refl },
              of_control_transfer e,
            )
            | inr e ↦ rw e tt
          ]

  -- The end of `get_hub_descriptor_arm`, after H U the transfer.
  described_ends :
      (w : HubWorld H) (sent : Outcome (HubWorld H) (ℕ × List ℕ))
      → Ends (λ a w'. Answered w a w') (λ e w'. Kept H w w' × HostFails H e) sent
      → Ends
          (λ u. Stepped H U w get_hub_descriptor)
          (Refused H w get_hub_descriptor)
          (elim sent [
            | done a s ↦ keep_hub_descriptor U H a.1 s
            | fails e s ↦ fails e s
            | panics ↦ panics
          ])
  unfolding keep_hub_descriptor hub_descriptor_of
  described_ends w (done (len, buf) w') (k, e) = record {
    follows = counts;
    address = k.address;
    numbered = (len, buf, e, refl, refl);
  }
  described_ends w (fails e w') (k, h) = record { kept = Kept-device H U k; cause = inl h }
  described_ends w panics h = tt

  get_hub_descriptor_ends :
      (w : HubWorld H)
      → Ends
          (λ u. Stepped H U w get_hub_descriptor)
          (Refused H w get_hub_descriptor)
          (get_hub_descriptor_arm U H w)
  unfolding get_hub_descriptor_arm
  get_hub_descriptor_ends w =
      elim (Bool-cases (U.request_type device_to_host class Host.device == 0xA0)) [
        | inl is_type ↦ rw is_type (elim (Bool-cases (U.w_value 0 0x29 == 0x2900)) [
          | inl is_value ↦ rw is_value (described_ends w _ (answered w))
          | inr other ↦ rw other tt
        ])
        | inr other ↦ rw other tt
      ]

  connected_ends :
      (p : ℕ) (w v : HubWorld H)
      → Kept H w v
      → p < w.device.number_of_ports
      → Ends (λ u. Stepped H U w (init_port p)) (Refused H w (init_port p)) (connected_port U H p v)
  unfolding connected_port
  connected_ends p w v k more =
      after H U (init_port p) w v _ _ (port_request_ends H U _ _ _ _ _ _ v) k λ a1 w1 k1.
        after H U (init_port p) w w1 _ _ (port_request_ends H U _ _ _ _ _ _ w1) k1 λ a2 w2 k2.
          after H U (init_port p) w w2 _ _ (port_request_ends H U _ _ _ _ _ _ w2) k2 λ a3 w3 k3.
            after_host H U (init_port p) w w3 _ _ (assign_address_ends H U p _ w3) k3 λ a4 w4 k4.
              record {
                follows = passes more;
                address = k4.address;
                numbered = (k4.ports, k4.power);
              }

  init_port_ends :
      (p : ℕ) (w : HubWorld H)
      → Ends (λ u. Stepped H U w (init_port p)) (Refused H w (init_port p)) (init_port_arm U H p w)
  unfolding init_port_arm
  init_port_ends p w = elim (Bool-cases (ltb p w.device.number_of_ports)) [
    | inl more ↦ rw more (
        after H U (init_port p) w w _ _ (port_request_ends H U _ _ _ _ _ _ w) (Kept-refl H U)
          λ a1 w1 k1.
            after H U (init_port p) w w1 _ _ (port_request_ends H U _ _ _ _ _ _ w1) k1 λ a2 w2 k2.
              after H U (init_port p) w w2 _ _ (port_request_ends H U _ _ _ _ _ _ w2) k2 λ a3 w3 k3.
                elim (Bool-cases (get_or a3.1 0 0 % 2 == 0)) [
                  | inl gone ↦ rw gone (record {
                    follows = passes (ltb→lt _ _ more);
                    address = k3.address;
                    numbered = (k3.ports, k3.power);
                  })
                  | inr there ↦ rw there (connected_ends p w w3 k3 (ltb→lt _ _ more))
                ])
    | inr past ↦
        rw past
          (record { follows = starts (ltb→le _ _ past); address = refl; numbered = (refl, refl) })
  ]

  arm_ends :
      (w : HubWorld H) (from : HubState)
      → w.device.state ≡ from
      → Ends (λ u. Stepped H U w from) (Refused H w from) (arm U H from w)
  unfolding arm
  arm_ends w addressed at = addressed_ends w
  arm_ends w get_config at = get_config_ends w
  arm_ends w set_config at = set_config_ends w
  arm_ends w get_hub_descriptor at = get_hub_descriptor_ends w
  arm_ends w (init_port p) at = init_port_ends p w
  arm_ends w running at = record { follows = rw at runs; address = refl; numbered = (refl, refl) }

  -- However the host answers, a call of `fsm` for a hub that succeeds takes it to the state that
  -- comes next, one port further while there are ports, and one that fails leaves all but the
  -- endpoint as before, with the host's error or that of a configuration too large. The address
  -- stays, and so do the number of ports and the wait after H U power on, which are bytes 2 and 6 of
  -- what the host answers to the request for the hub's descriptor.
  pub fsm-Numbered :
      (w : HubWorld H)
      → Ends (λ u. Stepped H U w w.device.state) (Refused H w w.device.state) (fsm U H w)
  unfolding fsm
  fsm-Numbered w = arm_ends w w.device.state refl
