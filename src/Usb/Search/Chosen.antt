-- ===== src/Usb/Search/Chosen.antt =====
-- The endpoint that `ep_for_mouse` or `ep_for_bootkbd`, kernel/src/usb/class_driver, chooses.
use lemola_osv.Base.{
  ℕ, suc, ◌+◌, ◌≤◌, ◌<◌, ◌≡◌, inl, inr, ap, List, [], ◌∷◌, map, Option, none, some, Run, ok, Bool,
  word, length, length-append, arith,
}
use lemola_osv.Usb.Descriptor.{new}
use lemola_osv.Usb.Descriptor.Blocks.{AllBlocks, joined, described}
use lemola_osv.Usb.Host.{UsbApi}
use lemola_osv.Usb.Input.{EndpointInfo}
use lemola_osv.Usb.Search.{
  search, is_boot_interface, is_interrupt_in, is_keyboard_endpoint, ep_for_mouse, ep_for_bootkbd,
}
use lemola_osv.Usb.Search.Belongs.{Belongs, choose, search-choose, choose_sound, chosen}

module _ (U : UsbApi) (interface_wanted endpoint_wanted : List ℕ → Bool) where
  -- The search over descriptors that stand one behind another: what it finds belongs to an interface that is
  -- wanted, and if it finds nothing, nothing does.
  search_lem :
      (fuel : ℕ) (blocks : List (List ℕ))
      → AllBlocks blocks
      → length (joined blocks) < word
      → length blocks < fuel
      → (found : Option EndpointInfo) × (search U interface_wanted endpoint_wanted fuel
            (new (joined blocks))
            none
          ≡ ok found)
        × ((info : EndpointInfo)
            → found ≡ some info
            → Belongs U interface_wanted endpoint_wanted (map (described U.try_from) blocks) info)
        × (found ≡ none
            → (info : EndpointInfo)
            → ¬ Belongs U interface_wanted endpoint_wanted (map (described U.try_from) blocks) info)
  search_lem fuel blocks v small enough =
      let refs = map (described U.try_from) blocks in
      (
        choose U interface_wanted endpoint_wanted refs none,
        search-choose U interface_wanted endpoint_wanted fuel [] blocks none v small enough,
        λ info e. elim (choose_sound U interface_wanted endpoint_wanted refs none info e) [
          | inl h ↦ h
          | inr (n, same, h) ↦ cc
        ],
        λ e info h.
            chosen U interface_wanted endpoint_wanted h.before h.between h.behind none h.idesc
              info.endpoint h.its_interface h.its_endpoint h.last (rw h.split at e),
      )

length-joined : (blocks : List (List ℕ)) → AllBlocks blocks → length blocks ≤ length (joined blocks)
length-joined [] v = omega arith
length-joined (b ∷ blocks) (v, vs) =
    let size : length b ≡ suc (suc (length v.rest)) = ap length v.bytes_of in
    omega (arith, length-joined blocks vs, length-append b (joined blocks), size)

module _ (U : UsbApi) (blocks : List (List ℕ)) where
  -- The result of a search for such an interface and endpoint.
  abbrev pub Searched : (List ℕ → Bool) → (List ℕ → Bool) → Run (Option EndpointInfo) → Type 0
  Searched interface_wanted endpoint_wanted result =
      let refs = map (described U.try_from) blocks in
      (found : Option EndpointInfo) × (result ≡ ok found)
      × ((info : EndpointInfo)
          → found ≡ some info
          → Belongs U interface_wanted endpoint_wanted refs info)
      × (found ≡ none
          → (info : EndpointInfo) → ¬ Belongs U interface_wanted endpoint_wanted refs info)

  -- In descriptors that stand one behind another, `ep_for_mouse` and `ep_for_bootkbd` find an
  -- endpoint with the properties that they ask for, whose last interface before it has those of a
  -- mouse or keyboard, with that interface's number, or nothing if there is no such endpoint;
  -- neither panics.
  pub ep_for_lem :
      AllBlocks blocks
      → length (joined blocks) < word
      → Searched (is_boot_interface U 2) (is_interrupt_in U) (ep_for_mouse U (joined blocks))
        × Searched
            (is_boot_interface U 1)
            (is_keyboard_endpoint U)
            (ep_for_bootkbd U (joined blocks))
  unfolding ep_for_mouse ep_for_bootkbd
  ep_for_lem v small =
      let enough : length blocks < length (joined blocks) + 1 =
        omega (arith, length-joined blocks v) in
      (
        search_lem U (is_boot_interface U 2) (is_interrupt_in U) (length (joined blocks) + 1) blocks
            v small enough,
        search_lem U (is_boot_interface U 1) (is_keyboard_endpoint U) (length (joined blocks) + 1)
            blocks v small enough,
      )
