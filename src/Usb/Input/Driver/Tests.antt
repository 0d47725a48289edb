-- ===== src/Usb/Input/Driver/Tests.antt =====
-- Tests of kernel/src/usb/class_driver.rs with a mouse at the address 1.
use lemola_osv.Base.{
  ℕ, ◌≡◌, refl, sym, ap, ◌∙◌, [], ◌∷◌, none, some, ok, take, length, length-replicate, replicate,
  arith,
}
use lemola_osv.Usb.Host.{done}
use lemola_osv.Usb.Host.Ends.{Ends}
use lemola_osv.Usb.Samples.{usb, mouse_host, mouse_bytes}
use lemola_osv.Usb.Search.{ep_for_mouse}
use lemola_osv.Usb.Table.Bag.{present, without}
use lemola_osv.Usb.Input.{
  InputOnlyDevice, EndpointInfo, Limits, new_device, World, wait_for_settle, running, fsm, arm,
}
use lemola_osv.Usb.Input.Stepped.{IsReady, Stepped, Refused}
use lemola_osv.Usb.Input.Follows.{fsm-Stepped}
use lemola_osv.Usb.Input.Reaches.{IsAnswering, Finds}
use lemola_osv.Usb.Input.Starts.{fsm_at, fsm-starts}
use lemola_osv.Usb.Input.Driver.{
  InputOnlyDriver, add_device, remove_device, at_address, Ticked, tick, tick_slots, after_fsm,
}
use lemola_osv.Usb.Input.Driver.Ticks.{AllReady, Polled, tick-Polled}
use lemola_osv.Usb.Input.Driver.Contents.{Added, add-remove}

abbrev limits : Limits
limits = record {
  max_endpoints = 2;
  settle_delay = 2;
  config_buffer_len = 256;
  n_in_transfer_bytes = 3;
  max_devices = 2;
}

abbrev mouse : InputOnlyDevice
mouse = new_device limits 1 8 (ep_for_mouse usb)

abbrev at_start : World mouse_host
at_start = record { device = mouse; host = 0; calls = [] }

mouse-IsReady : IsReady mouse
unfolding new_device
mouse-IsReady h = cc

fsm-Stepped_example :
    Ends
      (λ u. Stepped mouse_host at_start mouse.state)
      (Refused mouse_host at_start mouse.state)
      (fsm usb mouse_host limits 7 at_start)
fsm-Stepped_example = fsm-Stepped mouse_host usb limits 7 at_start mouse-IsReady

length-zeros : (n : ℕ) → length (replicate {A = ℕ} n 0) ≡ n
length-zeros n = length-replicate n 0

mouse_host-IsAnswering : IsAnswering usb mouse_host limits 25
mouse_host-IsAnswering = record {
  answers = λ s ep kind request value index buf. (take (length buf) mouse_bytes, ep, _, refl);
  announces = λ s s' ep ep' kind buf b e.
      let size : length buf ≡ 9 = cc e in
      let whole : take (length buf) mouse_bytes ≡ b = cc e in
      ap usb.w_total_length (sym whole ∙ ap (λ n. take n mouse_bytes) size);
  fits = omega arith;
  length-uninit = length-zeros;
}

mouse_found : (info : EndpointInfo) × (ep_for_mouse usb mouse_bytes ≡ ok (some info))
unfolding ep_for_mouse
mouse_found = (_, refl)

mouse_found_by_host : Finds usb mouse_host 25 (ep_for_mouse usb)
mouse_found_by_host s s' ep ep' kind buf b e =
    let size : length buf ≡ 25 = cc e in
    let whole : take (length buf) mouse_bytes ≡ b = cc e in
    let bytes : b ≡ mouse_bytes = sym whole ∙ ap (λ n. take n mouse_bytes) size in
    let (info, found) = mouse_found in (info, ap (ep_for_mouse usb) bytes ∙ found)

fsm-starts_example :
    (w : World mouse_host) × (fsm_at usb mouse_host limits 25 mouse_host-IsAnswering
        (0 ∷ 3 ∷ 4 ∷ 5 ∷ 6 ∷ 7 ∷ [])
        at_start
      ≡ done tt w)
    × (w.device.state ≡ running)
    × IsReady w.device
unfolding new_device
fsm-starts_example =
    fsm-starts usb mouse_host limits 25 mouse_host-IsAnswering at_start 0 3 4 5 6 7 refl
      mouse_found_by_host (omega arith) (omega arith) (omega arith)

abbrev driver : InputOnlyDriver
driver = record { devices = some mouse ∷ none ∷ []; endpoint_searcher = ep_for_mouse usb }

abbrev after_tick : Ticked usb mouse_host limits
after_tick = record {
  error = none;
  devices = some (record mouse { state = wait_for_settle 9 }) ∷ none ∷ [];
  host = 0;
  calls = [];
}

first_tick : tick usb mouse_host limits 7 driver 0 [] ≡ ok after_tick
unfolding tick tick_slots after_fsm fsm arm new_device
first_tick = refl

tick-Polled_example : Polled driver.devices after_tick.devices none × AllReady after_tick.devices
tick-Polled_example =
    tick-Polled usb mouse_host limits 7 driver 0 [] after_tick (mouse-IsReady, tt) first_tick

add-remove_example :
    Added limits driver 8 2 (add_device limits driver 8 2)
    × (length (remove_device driver 2).devices ≡ 2)
    × (present (remove_device driver 2).devices ≡ without (at_address 2) (mouse ∷ []))
add-remove_example = add-remove limits driver 8 2
