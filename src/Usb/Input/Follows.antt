-- ===== src/Usb/Input/Follows.antt =====
-- What a call of `fsm` of kernel/src/usb/class_driver.rs does to the device, however the host answers.
use lemola_osv.Base.{
  ℕ, ◌≡◌, inl, inr, refl, ◌∙◌, List, none, some, add64, ltb, ◌==◌, get_elem?, replicate, Bool, true,
  false, Run-cases, Bool-cases, Option-cases,
}
use lemola_osv.Usb.Host.{TransferError, UsbApi, Host, success, failure}
use lemola_osv.Usb.Host.Ends.{Ends}
use lemola_osv.Usb.Input.{
  DeviceState, addressed, wait_for_settle, get_config, set_config, set_protocol, set_idle, running,
  Limits, World, in_transfer, wait_for_settle_arm, choose_endpoint, get_config_arm, set_config_arm,
  set_protocol_arm, set_idle_arm, running_arm, arm, fsm,
}
use lemola_osv.Usb.Input.Stepped.{
  after_transfer, unready, Kept-refl, of_in_transfer, settles, waits, settled, configures, chooses,
  speaks, starts, reports, IsReady, Stepped, Refused, slot_filled, Kept,
}

module _ (H : Host) (U : UsbApi) (L : Limits) where
  addressed_ends :
      (millis : ℕ) (w : World H)
      → w.device.state ≡ addressed
      → Ends (λ u. Stepped H w addressed) (Refused H w addressed) (arm U H L millis addressed w)
  unfolding arm
  addressed_ends millis w at = elim (Run-cases (add64 millis L.settle_delay)) [
    | inl (until, e) ↦
        rw e (record { follows = settles; addr = refl; ready = λ h. cc; called = inl refl })
    | inr e ↦ rw e tt
  ]

  wait_for_settle_ends :
      (millis until : ℕ) (w : World H)
      → w.device.state ≡ wait_for_settle until
      → Ends
          (λ u. Stepped H w (wait_for_settle until))
          (Refused H w (wait_for_settle until))
          (wait_for_settle_arm U H L millis until w)
  unfolding wait_for_settle_arm
  wait_for_settle_ends millis until w at = elim (Bool-cases (ltb until millis)) [
    | inl over ↦ rw over (
        after_transfer H U L (wait_for_settle until) w w _ _ _ _ _ _ at
          (unready H U L w.device (rw at refl)) (Kept-refl H U L)
          λ a w' k. elim (Bool-cases (a.0 == U.size_of_device_descriptor)) [
            | inl whole ↦
                rw whole (record {
                  follows = settled;
                  addr = k.addr;
                  ready = λ h. cc;
                  called = inl k.calls;
                })
            | inr part ↦ rw part tt
          ])
    | inr early ↦ rw early (record {
      follows = rw at waits;
      addr = refl;
      ready = unready H U L w.device (rw at refl);
      called = inl refl;
    })
  ]

  -- The end of `get_config_arm`, after both transfers.
  found_ends :
      (w v : World H) (whole : Bool) (config_buf : List ℕ)
      → Kept H w v
      → Ends
          (λ u. Stepped H w get_config)
          (Refused H w get_config)
          (choose_endpoint U H L whole config_buf v)
  unfolding choose_endpoint
  found_ends w v false config_buf k = tt
  found_ends w v true config_buf k = elim (Run-cases (v.device.endpoint_searcher config_buf)) [
    | inl (some info, e) ↦ rw e (elim (Option-cases (get_elem? v.device.endpoints 0)) [
      | inl gone ↦ rw (gone, Ends) tt
      | inr (old, there) ↦
          rw (there, Ends)
            (record {
              follows = configures;
              addr = k.addr;
              ready = λ h. (_, slot_filled v.device.endpoints old _ there);
              called = inl k.calls;
            })
    ])
    | inl (none, e) ↦ rw e tt
    | inr e ↦ rw e tt
  ]

  get_config_ends :
      (w : World H)
      → w.device.state ≡ get_config
      → Ends (λ u. Stepped H w get_config) (Refused H w get_config) (get_config_arm U H L w)
  unfolding get_config_arm
  get_config_ends w at =
      let ready = unready H U L w.device (rw at refl) in
      after_transfer H U L get_config w w _ _ _ _ _ _ at ready (Kept-refl H U L) λ a w1 k1.
        elim (Bool-cases (a.0 == U.size_of_configuration_descriptor)) [
          | inl whole ↦
              rw whole (elim (Bool-cases (ltb L.config_buffer_len (U.w_total_length a.1))) [
                | inl large ↦ rw large (record {
                  state = k1.state ∙ at;
                  addr = k1.addr;
                  ready = rw (k1.state, k1.endpoints) ready;
                  calls = k1.calls;
                  cause = inr (refl, refl);
                })
                | inr small ↦ rw small (
                    after_transfer H U L get_config w w1 _ _ _ _ _ _ at ready k1
                      λ b w2 k2. found_ends w w2 (b.0 == U.w_total_length a.1) b.1 k2)
              ])
          | inr part ↦ rw part tt
        ]

  set_config_ends :
      (n : ℕ) (w : World H)
      → w.device.state ≡ set_config n
      → IsReady w.device
      → Ends
          (λ u. Stepped H w (set_config n))
          (Refused H w (set_config n))
          (set_config_arm U H L n w)
  unfolding set_config_arm
  set_config_ends n w at ready =
      after_transfer H U L (set_config n) w w _ _ _ _ _ _ at ready (Kept-refl H U L) λ a w' k.
        record {
          follows = chooses;
          addr = k.addr;
          ready = λ h. rw k.endpoints (ready (rw at refl));
          called = inl k.calls;
        }

  set_idle_ends :
      (w : World H)
      → w.device.state ≡ set_idle
      → IsReady w.device
      → Ends (λ u. Stepped H w set_idle) (Refused H w set_idle) (set_idle_arm U H L w)
  unfolding set_idle_arm
  set_idle_ends w at ready =
      after_transfer H U L set_idle w w _ _ _ _ _ _ at ready (Kept-refl H U L) λ a w' k. record {
        follows = starts;
        addr = k.addr;
        ready = λ h. rw k.endpoints (ready (rw at refl));
        called = inl k.calls;
      }

  set_protocol_ends :
      (w : World H)
      → w.device.state ≡ set_protocol
      → IsReady w.device
      → Ends (λ u. Stepped H w set_protocol) (Refused H w set_protocol) (set_protocol_arm U H L w)
  unfolding set_protocol_arm
  set_protocol_ends w at ready =
      let (ep, there) = ready (rw at refl) in
      rw (there, Ends)
        (after_transfer H U L set_protocol w w _ _ _ _ _ _ at ready (Kept-refl H U L) λ a w' k.
          record {
            follows = speaks;
            addr = k.addr;
            ready = λ h. rw k.endpoints (ready (rw at refl));
            called = inl k.calls;
          })

  running_ends :
      (w : World H)
      → w.device.state ≡ running
      → IsReady w.device
      → Ends (λ u. Stepped H w running) (Refused H w running) (running_arm U H L w)
  unfolding running_arm in_transfer
  running_ends w at ready =
      let (ep, there) = ready (rw at refl) in
      let b : List ℕ = replicate L.n_in_transfer_bytes 0 in
      rw (there, Ends)
        (elim (Run-cases (H.in_transfer w.host ep b)) [
          | inl ((success (len, report), ep', host), e) ↦ rw e (record {
            follows = rw at reports;
            addr = refl;
            ready = λ h. (ep', slot_filled w.device.endpoints (some ep) (some ep') there);
            called = inr (refl, (report, refl));
          })
          | inl ((failure (TransferError.retry msg), ep', host), e) ↦ rw e (record {
            follows = rw at reports;
            addr = refl;
            ready = λ h. (ep', slot_filled w.device.endpoints (some ep) (some ep') there);
            called = inl refl;
          })
          | inl ((failure (TransferError.permanent msg), ep', host), e) ↦ rw e (record {
            state = at;
            addr = refl;
            ready = λ h. (ep', slot_filled w.device.endpoints (some ep) (some ep') there);
            calls = refl;
            cause = inl (of_in_transfer e);
          })
          | inr e ↦ rw e tt
        ])

  arm_ends :
      (millis : ℕ) (w : World H) (from : DeviceState)
      → w.device.state ≡ from
      → IsReady w.device
      → Ends (λ u. Stepped H w from) (Refused H w from) (arm U H L millis from w)
  unfolding arm
  arm_ends millis w addressed at ready = addressed_ends millis w at
  arm_ends millis w (wait_for_settle until) at ready = wait_for_settle_ends millis until w at
  arm_ends millis w get_config at ready = get_config_ends w at
  arm_ends millis w (set_config n) at ready = set_config_ends n w at ready
  arm_ends millis w set_protocol at ready = set_protocol_ends w at ready
  arm_ends millis w set_idle at ready = set_idle_ends w at ready
  arm_ends millis w running at ready = running_ends w at ready

  -- However the host answers, a call of `fsm` that succeeds takes the device to the state that
  -- comes next or leaves it where it may wait, one that fails leaves its state and calls
  -- nothing, and the error is the host's or that of a configuration too large for the buffer.
  -- The callback is called once at most, and only for a device that runs. The device keeps its
  -- address, and has its endpoint in every state that needs one, if it had so before.
  pub fsm-Stepped :
      (millis : ℕ) (w : World H)
      → IsReady w.device
      → Ends (λ u. Stepped H w w.device.state) (Refused H w w.device.state) (fsm U H L millis w)
  unfolding fsm
  fsm-Stepped millis w ready = arm_ends millis w w.device.state refl ready
