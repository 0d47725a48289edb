-- ===== src/Usb/Transfer.antt =====
-- Control transfers on the rings of a device: kernel/src/usb/device.rs. The crates `xhci` and `usb_host`
-- are parameters; a buffer is its address and its length.
pub mod Sent
pub mod Stages
pub mod Retries
pub mod Tests
use Prim.Native.String.{String}
use lemola_osv.Base.{
  ℕ, zero, suc, ◌+◌, ◌%◌, ◌^◌, ◌≡◌, List, [], ◌∷◌, ◌++◌, Option, none, some, Run, ok, panic, ◌>>=◌,
  ◌>>◌, Bool, false, unwrap, ltb, if◌then◌else◌, get_elem?, set, sub64, add64,
}
use lemola_osv.Xhci.Trb.{LinkApi, CommandApi}
use lemola_osv.Xhci.Ring.{Ring, push, stamped}
use lemola_osv.Usb.Host.{Reply, retry, failure}
use lemola_osv.Usb.Host
use lemola_osv.Usb.Index.{EndpointId, dci_of}

pub record SetupPacket : Type 0 where
  pub bm_request_type : ℕ
  pub b_request : ℕ
  pub w_value : ℕ
  pub w_index : ℕ
  pub w_length : ℕ

-- `TransferType::No` and `TransferType::In`.
pub data SetupType : Type 0 where
  no_data : SetupType
  in_data : SetupType

-- The blocks that the crate `xhci` builds for a transfer.
pub record StageApi (L : LinkApi) (C : CommandApi L) : Type 0 where
  pub setup_stage : SetupPacket → SetupType → C.Command
  -- With the length and the address, a TD size of 0, the direction In and an interrupt on completion.
  pub data_stage : ℕ → ℕ → C.Command
  pub status_stage : C.Command
  -- With the direction bit and an interrupt on completion.
  pub status_stage_in : C.Command
  -- Their kind is not Link.
  pub plain_setup :
      (s : SetupPacket) (t : SetupType) (bit : Bool)
      → L.is_link (stamped L C (setup_stage s t) bit) ≡ false
  pub plain_data : (n a : ℕ) (bit : Bool) → L.is_link (stamped L C (data_stage n a) bit) ≡ false
  pub plain_status : (bit : Bool) → L.is_link (stamped L C status_stage bit) ≡ false
  pub plain_status_in : (bit : Bool) → L.is_link (stamped L C status_stage_in bit) ≡ false

-- A device: `transfer_rings`, and the targets of the door-bells rung, with their slots.
pub record Device (L : LinkApi) : Type 0 where
  pub slot_id : ℕ
  pub transfer_rings : List (Option (Ring L))
  pub doorbells : List (ℕ × ℕ)

module _ (L : LinkApi) (C : CommandApi L) (S : StageApi L C) where
  -- The blocks of a transfer, and their addresses.
  pub push_stages : Ring L → SetupPacket → Option (ℕ × ℕ) → Run (List ℕ × Ring L)
  push_stages ring setup_data (some (address, len)) = do
    (setup_trb_ptr, ring) ← push L C ring (S.setup_stage setup_data in_data)
    (data_trb_ref_in_ring, ring) ← push L C ring (S.data_stage (len % 2 ^ 32) address)
    (status_trb_ptr, ring) ← push L C ring S.status_stage
    ok (setup_trb_ptr ∷ data_trb_ref_in_ring ∷ status_trb_ptr ∷ [], ring)
  push_stages ring setup_data none = do
    (setup_stage_trb_ptr, ring) ← push L C ring (S.setup_stage setup_data no_data)
    (status_trb_ptr, ring) ← push L C ring S.status_stage_in
    ok (setup_stage_trb_ptr ∷ status_trb_ptr ∷ [], ring)

  -- The addresses to wait for, and the device.
  pub push_control_transfer :
      Device L → EndpointId → SetupPacket → Option (ℕ × ℕ) → Run (List ℕ × Device L)
  push_control_transfer device endpoint_id setup_data buf = do
    dci ← dci_of endpoint_id
    at ← sub64 dci 1
    slot ← unwrap (get_elem? device.transfer_rings at)
    ring ← unwrap slot
    (wait_ons, ring) ← push_stages ring setup_data buf
    ok (
      wait_ons,
      record device {
        transfer_rings = set device.transfer_rings at (some ring);
        doorbells = device.doorbells ++ (device.slot_id, dci) ∷ [];
      },
    )

-- `completion_code()` of an event: the codes that the end of a transfer tells apart.
pub data CompletionCode : Type 0 where
  success : CompletionCode
  short_packet : CompletionCode
  other : CompletionCode
  unknown : CompletionCode

-- What `async_control_transfer` makes of the event; the numbers are `w_length` and
-- `trb_transfer_length`.
pub transfer_result : ℕ → CompletionCode → ℕ → Run (Reply ℕ)
transfer_result w_length success left = ok (Host.success w_length)
transfer_result w_length short_packet left = do moved ← sub64 w_length left; ok (Host.success moved)
transfer_result w_length other left = ok (failure (retry "CompletionCode error"))
transfer_result w_length unknown left =
    ok (failure (Host.TransferError.permanent "Unknown completion code"))

-- The loop of `request_descriptor`, with fuel for more rounds than its counter allows: `attempt` is the
-- transfer.
module _ {St : Type 0} (attempt : St → Run (Reply ℕ × St)) where
  -- The end of a round, of which `later` are the rounds behind it.
  pub again : (St → Run (ℕ × St)) → ℕ → Reply ℕ → St → Run (ℕ × St)
  again later count (Host.success length) state = ok (length, state)
  again later count (failure e) state = if ltb 100 (count + 1) then panic else later state

  pub request_from : ℕ → ℕ → St → Run (ℕ × St)
  request_from zero count state = panic
  request_from (suc fuel) count state = do
    (length, state) ← attempt state
    again (request_from fuel (count + 1)) count length state

  pub request_descriptor : St → Run (ℕ × St)
  request_descriptor = request_from 128 0
