-- ===== src/Xhci/Devices/Tests.antt =====
-- Tests of kernel/src/xhci/device_manager.rs with eight slots, where a device's context stands at its
-- slot's place in pages.
use lemola_osv.Base.{ℕ, ◌*◌, ◌≡◌, refl, none, ok, [], ◌∷◌, arith}
use lemola_osv.Xhci.Devices.{DeviceApi, new, set_scratchpad_buffer_array, device_by_slot_id}
use lemola_osv.Xhci.Devices.Slots.{Occupied, new-IsManager, slot_lifetime}

abbrev paged : DeviceApi
paged = record {
  Info = ℕ × (ℕ × ℕ);
  new = λ port route slot. ok (port, (route, slot));
  device_context = λ info. 4096 * info.1.1;
}

set_scratchpad_buffer_array_test :
    set_scratchpad_buffer_array paged (new paged 2) 512
    ≡ ok (record {
      device_contexts = 512 ∷ 0 ∷ 0 ∷ [];
      device_context_infos = none ∷ none ∷ none ∷ [];
    })
unfolding set_scratchpad_buffer_array new
set_scratchpad_buffer_array_test = refl

slot_lifetime_example : Occupied paged 8 (new paged 8) 4 3 0 (4, (0, 3))
unfolding device_by_slot_id new
slot_lifetime_example =
    slot_lifetime paged 8 (new paged 8) 4 3 0 (4, (0, 3)) (new-IsManager paged 8) (omega arith) refl
      refl refl
