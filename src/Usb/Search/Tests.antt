-- ===== src/Usb/Search/Tests.antt =====
-- Tests of the search for an endpoint, kernel/src/usb/class_driver/mouse.rs and keyboard.rs.
use lemola_osv.Base.{◌≡◌, refl, none, some, ok, [], ◌∷◌, arith}
use lemola_osv.Usb.Descriptor.Blocks.{AllBlocks}
use lemola_osv.Usb.Search.{
  is_boot_interface, is_interrupt_in, is_keyboard_endpoint, ep_for_mouse, ep_for_bootkbd,
}
use lemola_osv.Usb.Search.Chosen.{Searched, ep_for_lem}
use lemola_osv.Usb.Samples.{usb, mouse_blocks, mouse_bytes}

ep_for_mouse_test :
    ep_for_mouse usb mouse_bytes
    ≡ ok (some (record { interface_num = 0; endpoint = 7 ∷ 5 ∷ 129 ∷ 3 ∷ 4 ∷ 0 ∷ 10 ∷ [] }))
unfolding ep_for_mouse
ep_for_mouse_test = refl

ep_for_bootkbd_test : ep_for_bootkbd usb mouse_bytes ≡ ok none
unfolding ep_for_bootkbd
ep_for_bootkbd_test = refl

mouse_blocks-AllBlocks : AllBlocks mouse_blocks
mouse_blocks-AllBlocks = (
  record { type_of = 2; rest = 25 ∷ 0 ∷ 1 ∷ 1 ∷ 0 ∷ 160 ∷ 50 ∷ []; bytes_of = refl },
  (
    record { type_of = 4; rest = 0 ∷ 0 ∷ 1 ∷ 3 ∷ 1 ∷ 2 ∷ 0 ∷ []; bytes_of = refl },
    (record { type_of = 5; rest = 129 ∷ 3 ∷ 4 ∷ 0 ∷ 10 ∷ []; bytes_of = refl }, tt),
  ),
)

ep_for_lem_example :
    Searched usb mouse_blocks
      (is_boot_interface usb 2)
      (is_interrupt_in usb)
      (ep_for_mouse usb mouse_bytes)
    × Searched usb mouse_blocks
        (is_boot_interface usb 1)
        (is_keyboard_endpoint usb)
        (ep_for_bootkbd usb mouse_bytes)
ep_for_lem_example = ep_for_lem usb mouse_blocks mouse_blocks-AllBlocks (omega arith)
