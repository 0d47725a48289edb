-- ===== src/Usb/Manager/Kinds.antt =====
-- Which driver has a slot, after devices were added: kernel/src/usb/class_driver.rs.
use lemola_osv.Base.{
  ℕ, ◌≡◌, ◌≢◌, ◌↔◌, ◌∙◌, ap, subst, inl, inr, refl, List, [], ◌∷◌, Option, none, some,
  if◌then◌else◌, Bool, true, false, ==_iff, Bool-cases,
}
use lemola_osv.Usb.Manager.{
  ClassDriverManager, DriverKind, add_mouse_device, add_keyboard_device, add_hub_device, holds,
  driver_kind,
}

-- A device that is added: its slot, packet size and address.
pub record Added : Type 0 where
  pub kind : DriverKind
  pub slot_id : ℕ
  pub b_max_packet_size : ℕ
  pub addr : ℕ

pub add_kind : ClassDriverManager → DriverKind → ℕ → ℕ → ℕ → ClassDriverManager
add_kind m DriverKind.mouse slot_id size addr = (add_mouse_device m slot_id size addr).1
add_kind m DriverKind.keyboard slot_id size addr = (add_keyboard_device m slot_id size addr).1
add_kind m DriverKind.hub slot_id size addr = (add_hub_device m slot_id size addr).1

pub add_all : ClassDriverManager → List Added → ClassDriverManager
add_all m [] = m
add_all m (d ∷ ds) = add_all (add_kind m d.kind d.slot_id d.b_max_packet_size d.addr) ds

-- The slot of the last mouse, and that of the last keyboard, of the devices.
unfoldable pub last_of : (DriverKind → Bool) → Option ℕ → List Added → Option ℕ
last_of is_kind slot [] = slot
last_of is_kind slot (d ∷ ds) = last_of is_kind (if is_kind d.kind then some d.slot_id else slot) ds

abbrev pub is_mouse : DriverKind → Bool
is_mouse DriverKind.mouse = true
is_mouse kind = false

abbrev pub is_keyboard : DriverKind → Bool
is_keyboard DriverKind.keyboard = true
is_keyboard kind = false

added_slots :
    (m : ClassDriverManager) (kind : DriverKind) (slot_id size addr : ℕ)
    → let m' = add_kind m kind slot_id size addr in
      (m'.mouse.slot_id ≡ (if is_mouse kind then some slot_id else m.mouse.slot_id))
      × (m'.keyboard.slot_id ≡ (if is_keyboard kind then some slot_id else m.keyboard.slot_id))
unfolding add_kind add_mouse_device add_keyboard_device add_hub_device
added_slots m DriverKind.mouse slot_id size addr = (refl, refl)
added_slots m DriverKind.keyboard slot_id size addr = (refl, refl)
added_slots m DriverKind.hub slot_id size addr = (refl, refl)

slots_after :
    (m : ClassDriverManager) (ds : List Added)
    → ((add_all m ds).mouse.slot_id ≡ last_of is_mouse m.mouse.slot_id ds)
      × ((add_all m ds).keyboard.slot_id ≡ last_of is_keyboard m.keyboard.slot_id ds)
unfolding add_all last_of
slots_after m [] = (refl, refl)
slots_after m (d ∷ ds) =
    let (mouse, keyboard) = added_slots m d.kind d.slot_id d.b_max_packet_size d.addr in
    let (mice, keyboards) =
      slots_after (add_kind m d.kind d.slot_id d.b_max_packet_size d.addr) ds in
    (
      mice ∙ ap (λ s. last_of is_mouse s ds) mouse,
      keyboards ∙ ap (λ s. last_of is_keyboard s ds) keyboard,
    )

holds_iff : (slot : Option ℕ) (slot_id : ℕ) → (holds slot slot_id ≡ true) ↔ (slot ≡ some slot_id)
holds_iff none slot_id = (λ h. cc, λ h. cc)
holds_iff (some slot) slot_id =
    (λ h. ap some ((==_iff slot slot_id).0 h), λ h. (==_iff slot slot_id).1 (cc))

-- What `driver_kind` says of a slot, by the slots of the mouse and of the keyboard.
abbrev pub Told : Option ℕ → Option ℕ → ℕ → Option DriverKind → Type 0
Told mouse keyboard slot_id kind =
    ((kind ≡ some DriverKind.mouse) ↔ (mouse ≡ some slot_id))
    × ((kind ≡ some DriverKind.keyboard) ↔ ((mouse ≢ some slot_id) × (keyboard ≡ some slot_id)))
    × (kind ≢ some DriverKind.hub)

told :
    (m : ClassDriverManager) (slot_id : ℕ)
    → Told m.mouse.slot_id m.keyboard.slot_id slot_id (driver_kind m slot_id)
unfolding driver_kind
told m slot_id =
    let mouse = holds_iff m.mouse.slot_id slot_id in
    let keyboard = holds_iff m.keyboard.slot_id slot_id in
    elim (Bool-cases (holds m.mouse.slot_id slot_id)) [
      | inl is_mouse ↦ rw is_mouse (
        (λ h. mouse.0 is_mouse, λ h. refl),
        (λ h. cc, λ h. absurd (h.0 (mouse.0 is_mouse))),
        λ h. cc,
      )
      | inr no_mouse ↦ rw no_mouse (elim (Bool-cases (holds m.keyboard.slot_id slot_id)) [
        | inl is_keyboard ↦ rw is_keyboard (
          (λ h. cc, λ h. cc (mouse.1 h, no_mouse)),
          (λ h. (λ e. cc (mouse.1 e, no_mouse), keyboard.0 is_keyboard), λ h. refl),
          λ h. cc,
        )
        | inr no_keyboard ↦ rw no_keyboard (
          (λ h. cc, λ h. cc (mouse.1 h, no_mouse)),
          (λ h. cc, λ h. cc (keyboard.1 h.1, no_keyboard)),
          λ h. cc,
        )
      ])
    ]

-- After any devices were added, `driver_kind` tells the mouse at the slot of the last mouse alone,
-- the keyboard at that of the last keyboard if it is not the mouse's, and the hub at no slot.
pub driver_kind_lem :
    (m : ClassDriverManager) (ds : List Added) (slot_id : ℕ)
    → Told
        (last_of is_mouse m.mouse.slot_id ds)
        (last_of is_keyboard m.keyboard.slot_id ds)
        slot_id
        (driver_kind (add_all m ds) slot_id)
driver_kind_lem m ds slot_id =
    let (mice, keyboards) = slots_after m ds in
    let m' = add_all m ds in
    let kind = driver_kind m' slot_id in
    subst (λ mouse. Told mouse (last_of is_keyboard m.keyboard.slot_id ds) slot_id kind) mice
      (subst (λ keyboard. Told m'.mouse.slot_id keyboard slot_id kind) keyboards (told m' slot_id))
