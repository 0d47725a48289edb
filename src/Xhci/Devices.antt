-- ===== src/Xhci/Devices.antt =====
-- The slots of the devices: kernel/src/xhci/device_manager.rs. What a device is, kernel/src/usb/device.rs,
-- is a parameter, with the address of its output context; the locks are left out.
pub mod Slots
pub mod Tests
use lemola_osv.Base.{
  ℕ, ◌+◌, ◌%◌, List, Option, none, some, Run, ok, panic, ◌>>=◌, ◌>>◌, Bool, true, false, ltb, ◌==◌,
  not, assert, unwrap, sub64, length, get_elem?, set, replicate,
}

-- `DeviceContextInfo`: made for a port, a route and a slot, which panics if there is no memory for its
-- contexts and its ring, and where its output context stands.
pub record DeviceApi : Type 1 where
  pub Info : Type 0
  pub new : ℕ → ℕ → ℕ → Run Info
  pub device_context : Info → ℕ

abbrev pub is_some : {A : Type 0} → Option A → Bool
is_some none = false
is_some (some a) = true

module _ (D : DeviceApi) where
  -- With the fields of its `DeviceContextArray`.
  pub record DeviceManager : Type 0 where
    pub device_contexts : List ℕ
    pub device_context_infos : List (Option D.Info)

  -- The state after `new`, if the array of contexts is allocated.
  unfoldable pub new : ℕ → DeviceManager
  new max_slots = record {
    device_contexts = replicate (max_slots + 1) 0;
    device_context_infos = replicate (max_slots + 1) none;
  }

  abbrev pub max_slots : DeviceManager → Run ℕ
  max_slots m = sub64 (length m.device_contexts) 1

  unfoldable pub set_scratchpad_buffer_array : DeviceManager → ℕ → Run DeviceManager
  set_scratchpad_buffer_array m ptr_head = do
    old ← unwrap (get_elem? m.device_contexts 0)
    ok (record m { device_contexts = set m.device_contexts 0 ptr_head })

  unfoldable pub allocate_device : DeviceManager → ℕ → ℕ → ℕ → Run DeviceManager
  allocate_device m port_index slot_id routing = do
    slots ← max_slots m
    assert (not (ltb slots slot_id))
    info ← unwrap (get_elem? m.device_context_infos slot_id)
    assert (not (is_some info))
    device ← D.new port_index routing slot_id
    ok (record m { device_context_infos = set m.device_context_infos slot_id (some device) })

  unfoldable pub deallocate_device : DeviceManager → ℕ → Run DeviceManager
  deallocate_device m slot_id = do
    info ← unwrap (get_elem? m.device_context_infos slot_id)
    assert (is_some info)
    ok (record m { device_context_infos = set m.device_context_infos slot_id none })

  unfoldable pub device_by_slot_id : DeviceManager → ℕ → Run (Option D.Info)
  device_by_slot_id m slot_id = unwrap (get_elem? m.device_context_infos slot_id)

  unfoldable pub load_device_context : DeviceManager → ℕ → Run DeviceManager
  load_device_context m slot_id = do
    slots ← max_slots m
    assert (not (ltb slots slot_id))
    info ← unwrap (get_elem? m.device_context_infos slot_id)
    device ← unwrap info
    let ptr = D.device_context device
    -- At least six zeros at the end.
    assert (ptr % 64 == 0)
    old ← unwrap (get_elem? m.device_contexts slot_id)
    ok (record m { device_contexts = set m.device_contexts slot_id ptr })
