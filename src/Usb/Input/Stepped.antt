-- ===== src/Usb/Input/Stepped.antt =====
-- How a call of `fsm` of kernel/src/usb/class_driver.rs may change the device, and its transfers.
use lemola_osv.Base.{
  ℕ, ◌≡◌, ◌⊎◌, inl, inr, refl, ◌∙◌, List, [], ◌∷◌, some, ok, set, get_elem?, Bool, true, false,
  Run-cases,
}
use lemola_osv.Usb.Host.{
  TransferError, Endpoint, UsbApi, Host, success, failure, RequestCode, Step, ◌>>=◌,
}
use lemola_osv.Usb.Host.Ends.{Ends, Ends-bind}
use lemola_osv.Usb.Input.{
  DeviceState, addressed, wait_for_settle, get_config, set_config, set_protocol, set_idle, running,
  InputOnlyDevice, Limits, World, control_transfer,
}

-- The state after a call that succeeds.
pub data Follows : DeviceState → DeviceState → Type 0 where
  settles : {until : ℕ} → Follows addressed (wait_for_settle until)
  waits : {until : ℕ} → Follows (wait_for_settle until) (wait_for_settle until)
  settled : {until : ℕ} → Follows (wait_for_settle until) get_config
  configures : Follows get_config (set_config 1)
  chooses : {index : ℕ} → Follows (set_config index) set_protocol
  speaks : Follows set_protocol set_idle
  starts : Follows set_idle running
  reports : Follows running running

-- Whether the device has been asked for its endpoint.
abbrev pub has_endpoint : DeviceState → Bool
has_endpoint addressed = false
has_endpoint (wait_for_settle until) = false
has_endpoint get_config = false
has_endpoint state = true

-- The endpoint is there when it is needed.
abbrev pub IsReady : InputOnlyDevice → Type 0
IsReady d =
    has_endpoint d.state ≡ true → (ep : Endpoint) × (get_elem? d.endpoints 0 ≡ some (some ep))

pub slot_filled :
    {A : Type 0} (xs : List A) (old v : A)
    → get_elem? xs 0 ≡ some old
    → get_elem? (set xs 0 v) 0 ≡ some v
slot_filled [] old v there = cc
slot_filled (x ∷ xs) old v there = refl

module _ (H : Host) where
  -- An error that the host gave.
  pub data HostFails : TransferError → Type 0 where
    of_control_transfer :
        {e : TransferError} {s s' : H.State} {ep ep' : Endpoint} {request : RequestCode}
        {kind value index : ℕ} {buf : List ℕ}
        → H.control_transfer s ep kind request value index buf ≡ ok (failure e, ep', s')
        → HostFails e
    of_in_transfer :
        {e : TransferError} {s s' : H.State} {ep ep' : Endpoint} {buf : List ℕ}
        → H.in_transfer s ep buf ≡ ok (failure e, ep', s')
        → HostFails e

  -- What a transfer leaves alone.
  pub record Kept (w w' : World H) : Type 0 where
    pub state : w'.device.state ≡ w.device.state
    pub addr : w'.device.addr ≡ w.device.addr
    pub endpoints : w'.device.endpoints ≡ w.device.endpoints
    pub calls : w'.calls ≡ w.calls

  pub record Stepped (w : World H) (from : DeviceState) (w' : World H) : Type 0 where
    pub follows : Follows from w'.device.state
    pub addr : w'.device.addr ≡ w.device.addr
    pub ready : IsReady w'.device
    pub called :
        (w'.calls ≡ w.calls)
        ⊎ ((from ≡ running) × ((report : List ℕ) × (w'.calls ≡ (w.device.addr, report) ∷ w.calls)))

  pub record Refused (w : World H) (from : DeviceState) (e : TransferError) (w' : World H)
      : Type 0 where
    pub state : w'.device.state ≡ from
    pub addr : w'.device.addr ≡ w.device.addr
    pub ready : IsReady w'.device
    pub calls : w'.calls ≡ w.calls
    pub cause :
        HostFails e
        ⊎ ((from ≡ get_config) × (e ≡ TransferError.permanent "config descriptor too large"))

  module _ (U : UsbApi) (L : Limits) where
    control_transfer_ends :
        (kind : ℕ) (request : RequestCode) (value index : ℕ) (buf : List ℕ) (w : World H)
        → Ends
            (λ a w'. Kept w w')
            (λ e w'. Kept w w' × HostFails e)
            (control_transfer U H L kind request value index buf w)
    unfolding control_transfer
    control_transfer_ends kind request value index buf w =
        elim (Run-cases (H.control_transfer w.host w.device.ep0 kind request value index buf)) [
          | inl ((success a, ep0, host), e) ↦
              rw e (record { state = refl; addr = refl; endpoints = refl; calls = refl })
          | inl ((failure a, ep0, host), e) ↦ rw e (
            record { state = refl; addr = refl; endpoints = refl; calls = refl },
            of_control_transfer e,
          )
          | inr e ↦ rw e tt
        ]

    pub Kept-refl : {w : World H} → Kept w w
    Kept-refl = record { state = refl; addr = refl; endpoints = refl; calls = refl }

    Kept-trans : {a b c : World H} → Kept a b → Kept b c → Kept a c
    Kept-trans h k = record {
      state = k.state ∙ h.state;
      addr = k.addr ∙ h.addr;
      endpoints = k.endpoints ∙ h.endpoints;
      calls = k.calls ∙ h.calls;
    }

    -- What a transfer that fails makes of the call.
    refused_transfer :
        {from : DeviceState} {w : World H} (e : TransferError) (w' : World H)
        → w.device.state ≡ from
        → IsReady w.device
        → Kept w w' × HostFails e
        → Refused w from e w'
    refused_transfer e w' at ready (k, h) = record {
      state = k.state ∙ at;
      addr = k.addr;
      ready = rw (k.state, k.endpoints) ready;
      calls = k.calls;
      cause = inl h;
    }

    -- In a call that starts at `w` and has come to `v`: a transfer on `ep0`, and what follows it.
    pub after_transfer :
        (from : DeviceState) (w v : World H) (f : ℕ × List ℕ → Step (World H) (Unit {0})) (kind : ℕ)
        (request : RequestCode) (value index : ℕ) (buf : List ℕ)
        → w.device.state ≡ from
        → IsReady w.device
        → Kept w v
        → ((a : ℕ × List ℕ) (w' : World H)
            → Kept w w'
            → Ends (λ u. Stepped w from) (Refused w from) (f a w'))
        → Ends
            (λ u. Stepped w from)
            (Refused w from)
            (◌>>=◌ (control_transfer U H L kind request value index buf) f v)
    after_transfer from w v f kind request value index buf at ready before k =
        Ends-bind (λ a w'. Kept v w') (λ e w'. Kept v w' × HostFails e) (Refused w from)
          (λ u. Stepped w from) f (control_transfer U H L kind request value index buf v)
          (control_transfer_ends kind request value index buf v)
          (λ a w' h. k a w' (Kept-trans before h))
          (λ e w' h. refused_transfer e w' at ready (Kept-trans before h.0, h.1))

    -- The states that ask for no endpoint need none.
    pub unready : (d : InputOnlyDevice) → has_endpoint d.state ≡ false → IsReady d
    unready d none_yet h = cc
