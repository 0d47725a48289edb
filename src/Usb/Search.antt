-- ===== src/Usb/Search.antt =====
-- The endpoints that the drivers of mice and keyboards look for: `ep_for_mouse` of
-- kernel/src/usb/class_driver/mouse.rs and `ep_for_bootkbd` of keyboard.rs beside it.
pub mod Belongs
pub mod Chosen
pub mod Tests
use lemola_osv.Base.{
  ℕ, zero, suc, ◌+◌, ◌/◌, ◌%◌, ◌==◌, List, [], ◌∷◌, Option, none, some, Run, ok, panic, ◌>>=◌, Bool,
  ◌&&◌, if◌then◌else◌, length,
}
use lemola_osv.Usb.Descriptor.{
  DescriptorRef, configuration, interface, endpoint, unknown, DescriptorIter, new, next,
}
use lemola_osv.Usb.Host.{UsbApi}
use lemola_osv.Usb.Input.{EndpointInfo}

module _ (U : UsbApi) where
  -- The number of the interface that was found, after an interface's descriptor.
  abbrev pub after_interface : (List ℕ → Bool) → List ℕ → Option ℕ
  after_interface is_wanted idesc =
      if is_wanted idesc then some (U.b_interface_number idesc) else none

  -- The body of the loop over the descriptors, for an interface and an endpoint with these properties,
  -- and what the rest of the loop makes of the number that was found.
  pub after_descriptor :
      (List ℕ → Bool)
      → (List ℕ → Bool)
      → (Option ℕ → Run (Option EndpointInfo))
      → DescriptorRef
      → Option ℕ
      → Run (Option EndpointInfo)
  after_descriptor interface_wanted endpoint_wanted rest (configuration bytes) found = rest found
  after_descriptor interface_wanted endpoint_wanted rest (interface idesc) found =
      rest (after_interface interface_wanted idesc)
  after_descriptor interface_wanted endpoint_wanted rest (endpoint edesc) none = rest none
  after_descriptor interface_wanted endpoint_wanted rest (endpoint edesc) (some n) =
      if endpoint_wanted edesc
      then ok (some (record { interface_num = n; endpoint = edesc }))
      else rest (some n)
  after_descriptor interface_wanted endpoint_wanted rest unknown found = rest found

  -- The loop, which has a panic where its fuel runs out.
  pub search :
      (List ℕ → Bool) → (List ℕ → Bool) → ℕ → DescriptorIter → Option ℕ → Run (Option EndpointInfo)
  search interface_wanted endpoint_wanted zero it found = panic
  search interface_wanted endpoint_wanted (suc fuel) it found = next U.try_from it >>= λ r.
      elim r.0 [
        | none ↦ ok none
        | some desc ↦
            after_descriptor interface_wanted endpoint_wanted
              (λ found. search interface_wanted endpoint_wanted fuel r.1 found) desc found
      ]

  abbrev pub is_boot_interface : ℕ → List ℕ → Bool
  is_boot_interface protocol idesc =
      U.b_interface_class idesc == 3
      && (U.b_interface_sub_class idesc == 1 && U.b_interface_protocol idesc == protocol)

  -- An interrupt endpoint to the host.
  abbrev pub is_interrupt_in : List ℕ → Bool
  is_interrupt_in edesc = U.b_endpoint_address edesc / 128 == 1 && U.bm_attributes edesc % 4 == 3

  abbrev pub is_keyboard_endpoint : List ℕ → Bool
  is_keyboard_endpoint edesc = is_interrupt_in edesc && U.w_max_packet_size edesc == 8

  -- The iterator returns at most one descriptor for each byte.
  unfoldable pub ep_for_mouse : List ℕ → Run (Option EndpointInfo)
  unfolding search after_descriptor next
  ep_for_mouse buf = search (is_boot_interface 2) is_interrupt_in (length buf + 1) (new buf) none

  unfoldable pub ep_for_bootkbd : List ℕ → Run (Option EndpointInfo)
  unfolding search after_descriptor next
  ep_for_bootkbd buf =
      search (is_boot_interface 1) is_keyboard_endpoint (length buf + 1) (new buf) none
