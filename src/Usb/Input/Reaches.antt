-- ===== src/Usb/Input/Reaches.antt =====
-- The calls of `fsm`, kernel/src/usb/class_driver.rs, with a host that answers.
use lemola_osv.Base.{
  ℕ, ◌+◌, ◌<◌, ◌≤◌, ◌≡◌, ◌∙◌, ap, refl, true, List, [], Option, some, Run, ok, word, ◌%◌, lt→ltb,
  le→ltb, ◌==◌, ==_iff, length, length-set, set, get_elem?, get_elem?-some, arith,
}
use lemola_osv.Usb.Host.{
  Endpoint, UsbApi, Host, Reply, success, Outcome, new_endpoint, device_to_host, host_to_device,
  standard, class, interrupt, done, Step, ◌>>=◌, ◌>>◌, pure, RequestCode, get_descriptor,
  set_configuration, get_interface, set_interface,
}
use lemola_osv.Usb.Host
use lemola_osv.Usb.Input.{
  addressed, wait_for_settle, get_config, set_config, set_protocol, set_idle, running, EndpointInfo,
  Limits, DeviceState, World, control_transfer, wait_for_settle_arm, choose_endpoint,
  get_config_arm, set_config_arm, set_protocol_arm, set_idle_arm, arm, fsm,
}

-- A host that answers each request with as many bytes as are asked for, and announces a configuration of
-- `total` bytes, which fits into the buffer.
pub record IsAnswering (U : UsbApi) (H : Host) (L : Limits) (total : ℕ) : Type 0 where
  pub answers :
      (s : H.State) (ep : Endpoint) (kind : ℕ) (request : RequestCode) (value index : ℕ)
      (buf : List ℕ)
      → (b : List ℕ) × (ep' : Endpoint) × (s' : H.State) × (H.control_transfer s ep kind request
            value index buf
          ≡ ok (success (length buf, b), ep', s'))
  pub announces :
      (s s' : H.State) (ep ep' : Endpoint) (kind : ℕ) (buf b : List ℕ)
      → H.control_transfer s ep kind get_descriptor (U.w_value 0 U.configuration_code) 0 buf
        ≡ ok (success (U.size_of_configuration_descriptor, b), ep', s')
      → U.w_total_length b ≡ total
  pub fits : total ≤ L.config_buffer_len
  pub length-uninit : (n : ℕ) → length (H.uninit n) ≡ n

-- A searcher that finds an endpoint in what the host answers for the whole configuration.
abbrev pub Finds : UsbApi → Host → ℕ → (List ℕ → Run (Option EndpointInfo)) → Type 0
Finds U H total searcher =
    (s s' : H.State) (ep ep' : Endpoint) (kind : ℕ) (buf b : List ℕ)
    → H.control_transfer s ep kind get_descriptor (U.w_value 0 U.configuration_code) 0 buf
      ≡ ok (success (total, b), ep', s')
    → (info : EndpointInfo) × (searcher b ≡ ok (some info))

module _ (U : UsbApi) (H : Host) (L : Limits) (total : ℕ) (h : IsAnswering U H L total) where
  -- A call that succeeds, the state that it ends in, and what later calls need.
  pub record Reaches (w : World H) (next : DeviceState) (o : Outcome (World H) (Unit {0}))
      : Type 0 where
    pub after : World H
    pub ends : o ≡ done tt after
    pub state : after.device.state ≡ next
    pub searcher : after.device.endpoint_searcher ≡ w.device.endpoint_searcher
    pub room : 0 < length w.device.endpoints → 0 < length after.device.endpoints

  transfer :
      (kind : ℕ) (request : RequestCode) (value index : ℕ) (buf : List ℕ) (w : World H)
      → (b : List ℕ) × (ep' : Endpoint) × (s' : H.State) × (H.control_transfer w.host w.device.ep0
            kind request value index buf
          ≡ ok (success (length buf, b), ep', s'))
        × (control_transfer U H L kind request value index buf w
            ≡ done (length buf, b) (record w { device = record w.device { ep0 = ep' }; host = s' }))
  unfolding control_transfer
  transfer kind request value index buf w =
      let (b, ep', s', e) = h.answers w.host w.device.ep0 kind request value index buf in
      (b, ep', s', e, rw e refl)

  whole : (n : ℕ) → (length (H.uninit n) == n) ≡ true
  whole n = (==_iff _ _).1 (h.length-uninit n)

  fsm-arm :
      (millis : ℕ) (w : World H) (from : DeviceState)
      → w.device.state ≡ from
      → fsm U H L millis w ≡ arm U H L millis from w
  unfolding fsm
  fsm-arm millis w from at = ap (λ state. arm U H L millis state w) at

  pub Reaches-wait_for_settle :
      (millis : ℕ) (w : World H)
      → w.device.state ≡ addressed
      → millis + L.settle_delay < word
      → Reaches w (wait_for_settle (millis + L.settle_delay)) (fsm U H L millis w)
  unfolding arm
  Reaches-wait_for_settle millis w at small = record {
    after = record w {
      device = record w.device { state = wait_for_settle (millis + L.settle_delay) };
    };
    ends = fsm-arm millis w addressed at ∙ rw (lt→ltb _ _ small) refl;
    state = refl;
    searcher = refl;
    room = λ r. r;
  }

  -- The transfer for a descriptor.
  described :
      (code size : ℕ) (w : World H)
      → (b : List ℕ) × (ep' : Endpoint) × (s' : H.State) × (H.control_transfer w.host w.device.ep0
            (U.request_type device_to_host standard Host.device)
            get_descriptor
            (U.w_value 0 code)
            0
            (H.uninit size)
          ≡ ok (success (length (H.uninit size), b), ep', s'))
        × (control_transfer U H L
              (U.request_type device_to_host standard Host.device)
              get_descriptor
              (U.w_value 0 code)
              0
              (H.uninit size)
              w
            ≡ done
                (length (H.uninit size), b)
                (record w { device = record w.device { ep0 = ep' }; host = s' }))
  described code size w =
      transfer (U.request_type device_to_host standard Host.device) get_descriptor
        (U.w_value 0 code) 0 (H.uninit size) w

  pub Reaches-get_config :
      (millis until : ℕ) (w : World H)
      → w.device.state ≡ wait_for_settle until
      → until < millis
      → Reaches w get_config (fsm U H L millis w)
  unfolding arm wait_for_settle_arm
  Reaches-get_config millis until w at over =
      let (b, ep', s', e, sent) = described U.device_code U.size_of_device_descriptor w in
      record {
        after = record w { device = record w.device { ep0 = ep'; state = get_config }; host = s' };
        ends =
            fsm-arm millis w (wait_for_settle until) at
            ∙ (rw (lt→ltb _ _ over)
                (rw (sent, ◌>>=◌) (rw (whole U.size_of_device_descriptor) refl)));
        state = refl;
        searcher = refl;
        room = λ r. r;
      }

  pub Reaches-set_config :
      (millis : ℕ) (w : World H)
      → w.device.state ≡ get_config
      → Finds U H total w.device.endpoint_searcher
      → 0 < length w.device.endpoints
      → Reaches w (set_config 1) (fsm U H L millis w)
  unfolding arm get_config_arm choose_endpoint
  Reaches-set_config millis w at finds room =
      let (b, ep', s', e, sent) =
        described U.configuration_code U.size_of_configuration_descriptor w in
      let w1 = record w { device = record w.device { ep0 = ep' }; host = s' } in
      let full = h.length-uninit U.size_of_configuration_descriptor in
      let announced = h.announces w.host s' w.device.ep0 ep' _ _ b (rw full at e) in
      let (b2, ep2, s2, e2, sent2) = described U.configuration_code total w1 in
      let (info, found) = finds s' s2 ep' ep2 _ _ b2 (rw (h.length-uninit total) at e2) in
      let (old, there) = get_elem?-some w.device.endpoints 0 room in
      let ep =
        new_endpoint w.device.addr (U.b_endpoint_address info.endpoint % 128) info.interface_num
          interrupt device_to_host (U.w_max_packet_size info.endpoint) in
      record {
        after = record w {
          device = record w.device {
            ep0 = ep2;
            endpoints = set w.device.endpoints 0 (some ep);
            state = set_config 1;
          };
          host = s2;
        };
        ends =
            fsm-arm millis w get_config at
            ∙ (rw (sent, ◌>>=◌)
                (rw (whole U.size_of_configuration_descriptor) (
                  rw announced (
                    rw (le→ltb L.config_buffer_len total h.fits)
                      (rw (sent2, ◌>>=◌) (rw (whole total) (rw found (rw there refl))))))));
        state = refl;
        searcher = refl;
        room = λ r. omega (arith, length-set w.device.endpoints 0 (some ep));
      }

  -- A transfer that carries no data.
  pub Reaches-set_protocol :
      (millis index : ℕ) (w : World H)
      → w.device.state ≡ set_config index
      → Reaches w set_protocol (fsm U H L millis w)
  unfolding arm set_config_arm
  Reaches-set_protocol millis index w at =
      let (b, ep', s', e, sent) =
        transfer (U.request_type host_to_device standard Host.device) set_configuration
          (U.w_value index 0) 0 [] w in
      record {
        after = record w {
          device = record w.device { ep0 = ep'; state = set_protocol };
          host = s';
        };
        ends = fsm-arm millis w (set_config index) at ∙ (rw (sent, ◌>>=◌) refl);
        state = refl;
        searcher = refl;
        room = λ r. r;
      }

  pub Reaches-set_idle :
      (millis : ℕ) (w : World H) (ep : Endpoint)
      → w.device.state ≡ set_protocol
      → get_elem? w.device.endpoints 0 ≡ some (some ep)
      → Reaches w set_idle (fsm U H L millis w)
  unfolding arm set_protocol_arm
  Reaches-set_idle millis w ep at there =
      let (b, ep', s', e, sent) =
        transfer (U.request_type host_to_device class Host.interface) set_interface (U.w_value 0 0)
          ep.interface_num [] w in
      record {
        after = record w { device = record w.device { ep0 = ep'; state = set_idle }; host = s' };
        ends = fsm-arm millis w set_protocol at ∙ (rw (there, ◌>>=◌) (rw (sent, ◌>>=◌) refl));
        state = refl;
        searcher = refl;
        room = λ r. r;
      }

  pub Reaches-running :
      (millis : ℕ) (w : World H)
      → w.device.state ≡ set_idle
      → Reaches w running (fsm U H L millis w)
  unfolding arm set_idle_arm
  Reaches-running millis w at =
      let (b, ep', s', e, sent) =
        transfer (U.request_type host_to_device class Host.interface) get_interface (U.w_value 0 0)
          0 [] w in
      record {
        after = record w { device = record w.device { ep0 = ep'; state = running }; host = s' };
        ends = fsm-arm millis w set_idle at ∙ (rw (sent, ◌>>=◌) refl);
        state = refl;
        searcher = refl;
        room = λ r. r;
      }
