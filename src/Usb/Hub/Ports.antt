-- ===== src/Usb/Hub/Ports.antt =====
-- One port of a hub that answers: kernel/src/usb/class_driver/hub.rs.
use mathlib.Core.List.{append-nil}
use lemola_osv.Base.{
  ℕ, zero, suc, ◌+◌, ◌*◌, ◌/◌, ◌^◌, ◌%◌, ◌<◌, ◌≡◌, ◌∙◌, refl, sym, ap, List, [], ◌∷◌, ◌++◌, ok,
  ◌==◌, ==_iff, lt→ltb, length, get_or, replicate, Bool, true, false, not, if◌then◌else◌,
  Bool-cases, inl, inr,
}
use lemola_osv.Usb.Host.{
  Endpoint, UsbApi, Host, Reply, success, Outcome, done, Step, ◌>>=◌, ◌>>◌, pure, RequestCode,
  get_status, set_feature, clear_feature, Direction, host_to_device, device_to_host, class,
}
use lemola_osv.Usb.Host
use lemola_osv.Usb.Hub.{
  init_port, HubWorld, control_transfer, assign_address, port_request, connected_port,
  init_port_arm, port_reset, port_power, c_port_connection, c_port_reset, feature,
}

-- A hub that answers each request, with these ports connected, and a host that gives addresses to devices
-- behind it and keeps the ports in a list.
pub record IsWired (U : UsbApi) (H : Host) : Type 0 where
  pub connected : ℕ → Bool
  pub assigned : H.State → List ℕ
  pub answers :
      (s : H.State) (ep : Endpoint) (kind : ℕ) (request : RequestCode) (value index : ℕ)
      (buf : List ℕ)
      → (b : List ℕ) × (ep' : Endpoint) × (s' : H.State) × (H.control_transfer s ep kind request
            value index buf
          ≡ ok (success (length buf, b), ep', s'))
        × (assigned s' ≡ assigned s)
  pub tells :
      (s s' : H.State) (ep ep' : Endpoint) (port len : ℕ) (buf b : List ℕ)
      → H.control_transfer s ep 0xA3 get_status U.default_w_value (port + 1) buf
        ≡ ok (success (len, b), ep', s')
      → (get_or b 0 0 % 2 == 0) ≡ not (connected port)
  pub assigns :
      (s : H.State) (address port : ℕ) (low : Bool)
      → (s' : H.State) × (H.assign_address s address port low ≡ ok (success tt, s'))
        × (assigned s' ≡ assigned s ++ port ∷ [])
  pub set_byte : U.request_type host_to_device class Host.other ≡ 0x23
  pub get_byte : U.request_type device_to_host class Host.other ≡ 0xA3

-- The ports from one on.
unfoldable pub ports : ℕ → ℕ → List ℕ
ports p zero = []
ports p (suc k) = p ∷ ports (p + 1) k

module _ (U : UsbApi) (H : Host) (h : IsWired U H) where
  record Same (w w' : HubWorld H) : Type 0 where
    state : w'.device.state ≡ w.device.state
    number : w'.device.number_of_ports ≡ w.device.number_of_ports
    assigned : h.assigned w'.host ≡ h.assigned w.host

  request :
      (direction : Direction) (byte : ℕ) (b_request : RequestCode) (w_value port : ℕ) (buf : List ℕ)
      (w : HubWorld H)
      → U.request_type direction class Host.other ≡ byte
      → (b : List ℕ) × (w' : HubWorld H) × (port_request U H direction byte b_request w_value port
            buf w
          ≡ done (length buf, b) w')
        × Same w w'
        × (H.control_transfer w.host w.device.ep0 byte b_request w_value (port + 1) buf
            ≡ ok (success (length buf, b), w'.device.ep0, w'.host))
  unfolding port_request control_transfer
  request direction byte b_request w_value port buf w is_byte =
      let (b, ep', s', e, same) =
        h.answers w.host w.device.ep0 byte b_request w_value (port + 1) buf in
      let test : (U.request_type direction class Host.other == byte) ≡ true =
        (==_iff _ _).1 is_byte in
      (
        b,
        record w { device = record w.device { ep0 = ep' }; host = s' },
        rw test (rw is_byte (rw e refl)),
        record { state = refl; number = refl; assigned = same },
        e,
      )

  gives_address :
      (port : ℕ) (low : Bool) (w : HubWorld H)
      → (s' : H.State) × (assign_address U H port low w ≡ done tt (record w { host = s' }))
        × (h.assigned s' ≡ h.assigned w.host ++ port ∷ [])
  unfolding assign_address
  gives_address port low w =
      let (s', e, more) = h.assigns w.host w.device.address port low in (s', rw e refl, more)

  -- The ports of the list that are connected.
  unfoldable pub connected_of : List ℕ → List ℕ
  connected_of [] = []
  connected_of (p ∷ ports) = if h.connected p then p ∷ connected_of ports else connected_of ports

  pub record Passed (w : HubWorld H) (port : ℕ) (o : Outcome (HubWorld H) (Unit {0})) : Type 0 where
    pub after : HubWorld H
    pub ends : o ≡ done tt after
    pub state : after.device.state ≡ init_port (port + 1)
    pub number : after.device.number_of_ports ≡ w.device.number_of_ports
    pub assigned : h.assigned after.host ≡ h.assigned w.host ++ connected_of (port ∷ [])

  passes_connected :
      (port : ℕ) (w : HubWorld H)
      → h.connected port ≡ true
      → Passed w port (connected_port U H port w)
  unfolding connected_port connected_of
  passes_connected port w there =
      let (b1, w1, e1, k1, raw1) =
        request host_to_device 0x23 set_feature (feature U H port_reset) port [] w h.set_byte in
      let (b2, w2, e2, k2, raw2) =
        request host_to_device 0x23 clear_feature (feature U H c_port_reset) port [] w1
          h.set_byte in
      let (b3, w3, e3, k3, raw3) =
        request device_to_host 0xA3 get_status U.default_w_value port (replicate 4 0) w2
          h.get_byte in
      let low = (get_or b3 0 0 + 256 * get_or b3 1 0) / 2 ^ 9 % 2 == 1 in
      let (s', e4, more) = gives_address port low w3 in
      record {
        after = record w3 { device = record w3.device { state = init_port (port + 1) }; host = s' };
        ends = rw (e1, ◌>>=◌) (rw (e2, ◌>>=◌) (rw (e3, ◌>>=◌) (rw (e4, ◌>>=◌, ◌>>◌) refl)));
        state = refl;
        number = k3.number ∙ (k2.number ∙ k1.number);
        assigned =
            more
            ∙ ap (λ a. a ++ port ∷ []) (k3.assigned ∙ (k2.assigned ∙ k1.assigned))
            ∙ rw there refl;
      }

  not_connected :
      (port : ℕ) (ports : List ℕ)
      → h.connected port ≡ false
      → ports ≡ ports ++ connected_of (port ∷ [])
  unfolding connected_of
  not_connected port ports gone = sym (rw gone (append-nil ports))

  pub passes :
      (port : ℕ) (w : HubWorld H)
      → port < w.device.number_of_ports
      → Passed w port (init_port_arm U H port w)
  unfolding init_port_arm
  passes port w more =
      let (b1, w1, e1, k1, raw1) =
        request host_to_device 0x23 set_feature (feature U H port_power) port [] w h.set_byte in
      let (b2, w2, e2, k2, raw2) =
        request host_to_device 0x23 clear_feature (feature U H c_port_connection) port [] w1
          h.set_byte in
      let (b3, w3, e3, k3, raw3) =
        request device_to_host 0xA3 get_status U.default_w_value port (replicate 4 0) w2
          h.get_byte in
      let told =
        h.tells w2.host w3.host w2.device.ep0 w3.device.ep0 port 4 (replicate 4 0) b3 raw3 in
      let same = k3.assigned ∙ (k2.assigned ∙ k1.assigned) in
      let number = k3.number ∙ (k2.number ∙ k1.number) in
      elim (Bool-cases (h.connected port)) [
        | inl there ↦
            let p = passes_connected port w3 there in
            record {
              after = p.after;
              ends =
                  rw (lt→ltb _ _ more)
                    (rw (e1, ◌>>=◌) (rw (e2, ◌>>=◌) (rw (e3, ◌>>=◌) (rw (told, there) p.ends))));
              state = p.state;
              number = p.number ∙ number;
              assigned = p.assigned ∙ ap (λ a. a ++ connected_of (port ∷ [])) same;
            }
        | inr gone ↦ record {
          after = record w3 { device = record w3.device { state = init_port (port + 1) } };
          ends =
              rw (lt→ltb _ _ more)
                (rw (e1, ◌>>=◌) (rw (e2, ◌>>=◌) (rw (e3, ◌>>=◌) (rw (told, gone) refl))));
          state = refl;
          number = number;
          assigned = same ∙ not_connected port (h.assigned w.host) gone;
        }
      ]
