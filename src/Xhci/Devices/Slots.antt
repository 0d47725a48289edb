-- ===== src/Xhci/Devices/Slots.antt =====
-- A device's slot from its allocation to its end, in kernel/src/xhci/device_manager.rs.
use lemola_osv.Base.{
  ℕ, ◌+◌, ◌%◌, ◌<◌, ◌≤◌, ◌≡◌, ◌≢◌, ◌∙◌, refl, ap, List, none, some, ok, ◌==◌, unwrap, le→ltb, sub64,
  panic, length, length-set, length-replicate, get_elem?, get_elem?-some, get_elem?-set_self,
  get_elem?-set_ne, set, arith,
}
use lemola_osv.Xhci.Devices.{
  DeviceApi, DeviceManager, new, max_slots, allocate_device, deallocate_device, device_by_slot_id,
  load_device_context,
}

module _ (D : DeviceApi) where
  -- As many contexts as slots for devices, and one.
  pub record IsManager (n : ℕ) (m : DeviceManager D) : Type 0 where
    pub contexts : length m.device_contexts ≡ n + 1
    pub infos : length m.device_context_infos ≡ n + 1

  pub new-IsManager : (max_slots : ℕ) → IsManager max_slots (new D max_slots)
  unfolding new
  new-IsManager max_slots = record {
    contexts = length-replicate (max_slots + 1) 0;
    infos = length-replicate (max_slots + 1) none;
  }

  max_slots_lem :
      (n : ℕ) (m : DeviceManager D) → length m.device_contexts ≡ n + 1 → max_slots D m ≡ ok n
  max_slots_lem n m size = ap (λ l. sub64 l 1) size ∙ ground arith

  slot-held :
      {A : Type 0} (xs : List A) (i : ℕ) (a : A)
      → i < length xs
      → unwrap (get_elem? xs i) ≡ ok a
      → get_elem? xs i ≡ some a
  slot-held xs i a inside held =
      let (x, at) = get_elem?-some xs i inside in at ∙ ap some (cc (ap unwrap at, held))

  -- The life of a device that was made.
  abbrev pub Occupied : ℕ → DeviceManager D → ℕ → ℕ → ℕ → D.Info → Type 0
  Occupied n m port_index slot_id routing device =
      (m1 m2 m3 : DeviceManager D) × (allocate_device D m port_index slot_id routing ≡ ok m1)
      × (device_by_slot_id D m1 slot_id ≡ ok (some device))
      × (load_device_context D m1 slot_id ≡ ok m2)
      × (deallocate_device D m2 slot_id ≡ ok m3)
      × (device_by_slot_id D m3 slot_id ≡ ok none)
      × (get_elem? m3.device_contexts slot_id ≡ some (D.device_context device))
      × IsManager n m3
      × ((other : ℕ)
          → slot_id ≢ other
          → (device_by_slot_id D m3 other ≡ device_by_slot_id D m other)
            × (get_elem? m3.device_contexts other ≡ get_elem? m.device_contexts other))

  -- A free slot of the table takes a device that is made without a panic, which is then the device of the
  -- slot; its context, if it is aligned to 64 bytes, is loaded, and the device is given back, all without
  -- a panic. Then the slot is free again, the other slots and their contexts are as before, the tables
  -- have kept their lengths, and the slot's entry of the contexts still points to the context of the
  -- device that is gone.
  pub slot_lifetime :
      (n : ℕ) (m : DeviceManager D) (port_index slot_id routing : ℕ) (device : D.Info)
      → IsManager n m
      → slot_id ≤ n
      → device_by_slot_id D m slot_id ≡ ok none
      → D.new port_index routing slot_id ≡ ok device
      → D.device_context device % 64 ≡ 0
      → Occupied n m port_index slot_id routing device
  unfolding allocate_device deallocate_device device_by_slot_id load_device_context
  slot_lifetime n m port_index slot_id routing device v inside free made aligned =
      let m1 = record m {
        device_context_infos = set m.device_context_infos slot_id (some device);
      } in
      let m2 = record m1 {
        device_contexts = set m.device_contexts slot_id (D.device_context device);
      } in
      let m3 = record m2 { device_context_infos = set m1.device_context_infos slot_id none } in
      let slots = max_slots_lem n m v.contexts in
      let entry =
        slot-held m.device_context_infos slot_id none (omega (arith, v.infos, inside)) free in
      let filled =
        get_elem?-set_self m.device_context_infos slot_id (some device)
          (omega (arith, v.infos, inside)) in
      let emptied =
        get_elem?-set_self m1.device_context_infos slot_id none (
          omega
            (arith, v.infos, inside, length-set m.device_context_infos slot_id (some device))) in
      let loaded =
        get_elem?-set_self m.device_contexts slot_id (D.device_context device)
          (omega (arith, v.contexts, inside)) in
      let (old, context) =
        get_elem?-some m.device_contexts slot_id (omega (arith, v.contexts, inside)) in
      let slots1 = max_slots_lem n m1 v.contexts in
      let inside_test = le→ltb n slot_id inside in
      let aligned_test = ap (λ r. r == 0) aligned in
      (
        m1,
        m2,
        m3,
        simp (slots, inside_test, entry, made) refl,
        simp (filled) refl,
        simp (slots1, inside_test, filled, aligned_test, context) refl,
        simp (filled) refl,
        simp (emptied) refl,
        loaded,
        record {
          contexts = length-set m.device_contexts slot_id (D.device_context device) ∙ v.contexts;
          infos =
              length-set m1.device_context_infos slot_id none
              ∙ (length-set m.device_context_infos slot_id (some device) ∙ v.infos);
        },
        λ other ne. (
          ap unwrap (
              get_elem?-set_ne m1.device_context_infos slot_id other none ne
              ∙ get_elem?-set_ne m.device_context_infos slot_id other (some device) ne),
          get_elem?-set_ne m.device_contexts slot_id other (D.device_context device) ne,
        ),
      )

  -- `allocate_device` panics if the device cannot be made.
  allocate_device_refuses :
      (n : ℕ) (m : DeviceManager D) (port_index slot_id routing : ℕ)
      → IsManager n m
      → slot_id ≤ n
      → device_by_slot_id D m slot_id ≡ ok none
      → D.new port_index routing slot_id ≡ panic
      → allocate_device D m port_index slot_id routing ≡ panic
  unfolding allocate_device device_by_slot_id
  allocate_device_refuses n m port_index slot_id routing v inside free fails =
      let slots = max_slots_lem n m v.contexts in
      let inside_test = le→ltb n slot_id inside in
      let entry =
        slot-held m.device_context_infos slot_id none (omega (arith, v.infos, inside)) free in
      simp (slots, inside_test, entry, fails) refl
