-- ===== src/Usb/Inspect/Sought.antt =====
-- What the loop of `start_initialization`, kernel/src/usb/device.rs, ends with.
use lemola_osv.Base.{
  ℕ, ◌≡◌, ◌∙◌, refl, List, [], ◌∷◌, Option, none, some, Bool, true, false, ◌||◌, if◌then◌else◌,
  arith, Bool-cases, inl, inr,
}
use lemola_osv.Usb.Descriptor.{DescriptorRef, configuration, interface, endpoint, unknown}
use lemola_osv.Usb.Host.{UsbApi}
use lemola_osv.Usb.Inspect.{
  Interfaces, nothing_found, is_some, is_boot_keyboard, is_mouse_interface, is_hub,
  inspect_interface, inspect_endpoint, inspect,
}

-- The last interface that passes a test, or else the one of before.
abbrev pub last_such : (List ℕ → Bool) → List DescriptorRef → Option (List ℕ) → Option (List ℕ)
last_such wanted [] old = old
last_such wanted (interface desc ∷ later) old =
    last_such wanted later (if wanted desc then some desc else old)
last_such wanted (endpoint _ ∷ later) old = last_such wanted later old
last_such wanted (configuration _ ∷ later) old = last_such wanted later old
last_such wanted (unknown ∷ later) old = last_such wanted later old

-- The first endpoint.
abbrev pub first_endpoint : List DescriptorRef → Option (List ℕ)
first_endpoint [] = none
first_endpoint (endpoint desc ∷ later) = some desc
first_endpoint (interface _ ∷ later) = first_endpoint later
first_endpoint (configuration _ ∷ later) = first_endpoint later
first_endpoint (unknown ∷ later) = first_endpoint later

module _ (U : UsbApi) where
  -- The first endpoint behind the first interface of a keyboard or a mouse.
  abbrev pub input_endpoint : List DescriptorRef → Option (List ℕ)
  input_endpoint [] = none
  input_endpoint (interface desc ∷ later) =
      let rest = input_endpoint later in
      if is_boot_keyboard U desc || is_mouse_interface U desc then first_endpoint later else rest
  input_endpoint (endpoint _ ∷ later) = input_endpoint later
  input_endpoint (configuration _ ∷ later) = input_endpoint later
  input_endpoint (unknown ∷ later) = input_endpoint later

  apart : (desc : List ℕ) → is_boot_keyboard U desc ≡ true → is_mouse_interface U desc ≡ false
  unfolding is_boot_keyboard is_mouse_interface
  apart desc h = ground arith

  hub_apart :
      (desc : List ℕ)
      → is_hub U desc ≡ true
      → (is_boot_keyboard U desc ≡ false) × (is_mouse_interface U desc ≡ false)
  unfolding is_boot_keyboard is_mouse_interface is_hub
  hub_apart desc h = (ground arith, ground arith)

  keyboard_of :
      (desc : List ℕ) (f : Interfaces)
      → (inspect_interface U desc f).boot_keyboard_interface
        ≡ (if is_boot_keyboard U desc then some desc else f.boot_keyboard_interface)
  unfolding inspect_interface
  keyboard_of desc f = ground arith

  mouse_of :
      (desc : List ℕ) (f : Interfaces)
      → (inspect_interface U desc f).mouse_interface
        ≡ (if is_mouse_interface U desc then some desc else f.mouse_interface)
  unfolding inspect_interface
  mouse_of desc f = ground (arith, apart desc)

  hub_of :
      (desc : List ℕ) (f : Interfaces)
      → (inspect_interface U desc f).hub_interface
        ≡ (if is_hub U desc then some desc else f.hub_interface)
  unfolding inspect_interface
  hub_of desc f = ground (arith, hub_apart desc)

  endpoint_of :
      (desc : List ℕ) (f : Interfaces)
      → (inspect_interface U desc f).endpoint_descriptor ≡ f.endpoint_descriptor
  unfolding inspect_interface
  endpoint_of desc f = ground arith

  -- An endpoint leaves the interfaces.
  kept_by_endpoint :
      (desc : List ℕ) (f : Interfaces)
      → ((inspect_endpoint U desc f).boot_keyboard_interface ≡ f.boot_keyboard_interface)
        × ((inspect_endpoint U desc f).mouse_interface ≡ f.mouse_interface)
        × ((inspect_endpoint U desc f).hub_interface ≡ f.hub_interface)
  unfolding inspect_endpoint
  kept_by_endpoint desc f = (ground arith, ground arith, ground arith)

  keyboards :
      (ds : List DescriptorRef) (f : Interfaces)
      → (inspect U ds f).boot_keyboard_interface
        ≡ last_such (is_boot_keyboard U) ds f.boot_keyboard_interface
  unfolding inspect
  keyboards [] f = refl
  keyboards (interface desc ∷ later) f =
      keyboards later (inspect_interface U desc f) ∙ rw (keyboard_of desc f) refl
  keyboards (endpoint desc ∷ later) f =
      keyboards later (inspect_endpoint U desc f) ∙ rw ((kept_by_endpoint desc f).0) refl
  keyboards (configuration _ ∷ later) f = keyboards later f
  keyboards (unknown ∷ later) f = keyboards later f

  mice :
      (ds : List DescriptorRef) (f : Interfaces)
      → (inspect U ds f).mouse_interface ≡ last_such (is_mouse_interface U) ds f.mouse_interface
  unfolding inspect
  mice [] f = refl
  mice (interface desc ∷ later) f =
      mice later (inspect_interface U desc f) ∙ rw (mouse_of desc f) refl
  mice (endpoint desc ∷ later) f =
      mice later (inspect_endpoint U desc f) ∙ rw ((kept_by_endpoint desc f).1) refl
  mice (configuration _ ∷ later) f = mice later f
  mice (unknown ∷ later) f = mice later f

  hubs :
      (ds : List DescriptorRef) (f : Interfaces)
      → (inspect U ds f).hub_interface ≡ last_such (is_hub U) ds f.hub_interface
  unfolding inspect
  hubs [] f = refl
  hubs (interface desc ∷ later) f =
      hubs later (inspect_interface U desc f) ∙ rw (hub_of desc f) refl
  hubs (endpoint desc ∷ later) f =
      hubs later (inspect_endpoint U desc f) ∙ rw ((kept_by_endpoint desc f).2) refl
  hubs (configuration _ ∷ later) f = hubs later f
  hubs (unknown ∷ later) f = hubs later f

  full_keeps :
      (desc : List ℕ) (f : Interfaces) (e : List ℕ)
      → f.endpoint_descriptor ≡ some e
      → (inspect_endpoint U desc f).endpoint_descriptor ≡ some e
  unfolding inspect_endpoint
  full_keeps desc f e h = ground (arith, h)

  -- Once an interface of a keyboard or a mouse was seen.
  abbrev Seen : Interfaces → Type 0
  Seen f = (is_some f.boot_keyboard_interface || is_some f.mouse_interface) ≡ true

  Seen-inspect_interface :
      (desc : List ℕ) (f : Interfaces) → Seen f → Seen (inspect_interface U desc f)
  unfolding inspect_interface
  Seen-inspect_interface desc f seen = ground (arith, seen)

  takes :
      (desc : List ℕ) (f : Interfaces)
      → Seen f
      → f.endpoint_descriptor ≡ none
      → (inspect_endpoint U desc f).endpoint_descriptor ≡ some desc
  unfolding inspect_endpoint
  takes desc f seen h = ground (arith, seen, h)

  -- The loop never replaces an endpoint.
  endpoint_kept :
      (ds : List DescriptorRef) (f : Interfaces) (e : List ℕ)
      → f.endpoint_descriptor ≡ some e
      → (inspect U ds f).endpoint_descriptor ≡ some e
  unfolding inspect
  endpoint_kept [] f e h = h
  endpoint_kept (interface desc ∷ later) f e h =
      endpoint_kept later (inspect_interface U desc f) e (endpoint_of desc f ∙ h)
  endpoint_kept (endpoint desc ∷ later) f e h =
      endpoint_kept later (inspect_endpoint U desc f) e (full_keeps desc f e h)
  endpoint_kept (configuration _ ∷ later) f e h = endpoint_kept later f e h
  endpoint_kept (unknown ∷ later) f e h = endpoint_kept later f e h

  endpoint_next :
      (ds : List DescriptorRef) (f : Interfaces)
      → Seen f
      → f.endpoint_descriptor ≡ none
      → (inspect U ds f).endpoint_descriptor ≡ first_endpoint ds
  unfolding inspect
  endpoint_next [] f seen h = h
  endpoint_next (interface desc ∷ later) f seen h =
      endpoint_next later (inspect_interface U desc f) (Seen-inspect_interface desc f seen)
        (endpoint_of desc f ∙ h)
  endpoint_next (endpoint desc ∷ later) f seen h =
      endpoint_kept later (inspect_endpoint U desc f) desc (takes desc f seen h)
  endpoint_next (configuration _ ∷ later) f seen h = endpoint_next later f seen h
  endpoint_next (unknown ∷ later) f seen h = endpoint_next later f seen h

  -- Before any interface of a keyboard or a mouse.
  abbrev Unseen : Interfaces → Type 0
  Unseen f =
      (f.boot_keyboard_interface ≡ none)
      × (f.mouse_interface ≡ none)
      × (f.endpoint_descriptor ≡ none)

  sees :
      (desc : List ℕ) (f : Interfaces)
      → (is_boot_keyboard U desc || is_mouse_interface U desc) ≡ true
      → Seen (inspect_interface U desc f)
  unfolding inspect_interface
  sees desc f h = ground (arith, h)

  Unseen-inspect_interface :
      (desc : List ℕ) (f : Interfaces)
      → (is_boot_keyboard U desc || is_mouse_interface U desc) ≡ false
      → Unseen f
      → Unseen (inspect_interface U desc f)
  unfolding inspect_interface
  Unseen-inspect_interface desc f h (k, m, e) =
      (ground (arith, h, k), ground (arith, h, m), ground (arith, h, e))

  Unseen-inspect_endpoint :
      (desc : List ℕ) (f : Interfaces) → Unseen f → Unseen (inspect_endpoint U desc f)
  unfolding inspect_endpoint
  Unseen-inspect_endpoint desc f (k, m, e) =
      (ground (arith, k, m, e), ground (arith, k, m, e), ground (arith, k, m, e))

  endpoint_sought :
      (ds : List DescriptorRef) (f : Interfaces)
      → Unseen f
      → (inspect U ds f).endpoint_descriptor ≡ input_endpoint ds
  unfolding inspect
  endpoint_sought [] f u = u.2
  endpoint_sought (interface desc ∷ later) f u =
      elim (Bool-cases (is_boot_keyboard U desc || is_mouse_interface U desc)) [
        | inl h ↦ rw h (
            endpoint_next later (inspect_interface U desc f) (sees desc f h)
              (endpoint_of desc f ∙ u.2))
        | inr h ↦ rw h (
            endpoint_sought later (inspect_interface U desc f)
              (Unseen-inspect_interface desc f h u))
      ]
  endpoint_sought (endpoint desc ∷ later) f u =
      endpoint_sought later (inspect_endpoint U desc f) (Unseen-inspect_endpoint desc f u)
  endpoint_sought (configuration _ ∷ later) f u = endpoint_sought later f u
  endpoint_sought (unknown ∷ later) f u = endpoint_sought later f u

  -- The loop ends with the last interface of each kind and with the first endpoint behind the first
  -- interface of a keyboard or a mouse, whatever interface that endpoint belongs to.
  pub inspect_lem :
      (ds : List DescriptorRef)
      → inspect U ds nothing_found ≡ record {
        boot_keyboard_interface = last_such (is_boot_keyboard U) ds none;
        mouse_interface = last_such (is_mouse_interface U) ds none;
        hub_interface = last_such (is_hub U) ds none;
        endpoint_descriptor = input_endpoint ds;
      }
  inspect_lem ds =
      rw
        (
          ← keyboards ds nothing_found,
          ← mice ds nothing_found,
          ← hubs ds nothing_found,
          ← endpoint_sought ds nothing_found (refl, refl, refl),
        )
        refl
