-- ===== src/Usb/Transfer/Stages.antt =====
-- The stages of a control transfer on the ring of its endpoint: kernel/src/usb/device.rs.
use lemola_osv.Base.{
  ℕ, suc, ◌+◌, ◌%◌, ◌^◌, ◌≤◌, ◌≡◌, refl, List, [], ◌∷◌, ◌++◌, length, Option, none, some, ok,
  get_elem?, set, sub64, arith,
}
use lemola_osv.Xhci.Trb.{LinkApi, CommandApi}
use lemola_osv.Xhci.Ring.{Ring}
use lemola_osv.Xhci.Ring.Consumer.{Position}
use lemola_osv.Xhci.Ring.Slots.{IsRing}
use lemola_osv.Xhci.Ring.Fifo.{Pending}
use lemola_osv.Usb.Index.{EndpointId, dci_of}
use lemola_osv.Usb.Transfer.{
  SetupPacket, no_data, in_data, StageApi, Device, push_stages, push_control_transfer,
}
use lemola_osv.Usb.Transfer.Sent.{Sent, start, send, push_place, addresses}

module _ (L : LinkApi) (C : CommandApi L) (S : StageApi L C) where
  -- The stages of a transfer with a buffer or without one.
  abbrev pub stages : SetupPacket → Option (ℕ × ℕ) → List C.Command
  stages setup_data (some (address, len)) =
      S.setup_stage setup_data in_data ∷ S.data_stage (len % 2 ^ 32) address ∷ S.status_stage ∷ []
  stages setup_data none = S.setup_stage setup_data no_data ∷ S.status_stage_in ∷ []

  module _ (m : ℕ) (p : Position) where
    -- A ring with the stages on it, and their addresses.
    abbrev pub Staged : Ring L → List L.Raw → SetupPacket → Option (ℕ × ℕ) → Ring L → Type 0
    Staged r ts setup_data buf r' =
        (push_stages L C S r setup_data buf
          ≡ ok (addresses L C m p r.ptr r.write_index (length (stages setup_data buf)), r'))
        × Sent L C m p ts (stages setup_data buf) r'

    push_stages_lem :
        (r : Ring L) (ts : List L.Raw) (setup_data : SetupPacket) (buf : Option (ℕ × ℕ))
        → IsRing L m r
        → Pending L m r p ts
        → length ts + length (stages setup_data buf) ≤ m
        → (r' : Ring L) × Staged r ts setup_data buf r'
    unfolding push_stages
    push_stages_lem r ts setup_data (some (address, len)) v wait room =
        let sent0 = start L C m p r ts v wait in
        let (r1, run1, sent1) =
          send L C m p r ts [] (S.setup_stage setup_data in_data) (S.plain_setup setup_data in_data)
            sent0 (omega arith) in
        let (r2, run2, sent2) =
          send L C m p r1 ts _ (S.data_stage (len % 2 ^ 32) address)
            (S.plain_data (len % 2 ^ 32) address) sent1 (omega arith) in
        let (r3, run3, sent3) =
          send L C m p r2 ts _ S.status_stage S.plain_status sent2 (omega arith) in
        let (ptr1, slot1) = push_place L C m p r r1 _ _ v run1 in
        let (ptr2, slot2) = push_place L C m p r1 r2 _ _ sent1.ring run2 in
        (r3, ((rw (run1, run2, run3, ptr2, ptr1, slot2, slot1) refl), sent3))
    push_stages_lem r ts setup_data none v wait room =
        let sent0 = start L C m p r ts v wait in
        let (r1, run1, sent1) =
          send L C m p r ts [] (S.setup_stage setup_data no_data) (S.plain_setup setup_data no_data)
            sent0 (omega arith) in
        let (r2, run2, sent2) =
          send L C m p r1 ts _ S.status_stage_in S.plain_status_in sent1 (omega arith) in
        let (ptr1, slot1) = push_place L C m p r r1 _ _ v run1 in
        (r2, ((rw (run1, run2, ptr1, slot1) refl), sent2))

    -- On a device whose endpoint has a ring with room for the stages, `push_control_transfer` does not
    -- panic: the controller has the stages' blocks, with their cycle bits, behind those of before, the
    -- addresses to wait for are those of the next slots of the ring, other rings stay, and the device's
    -- door-bell is rung once, for the endpoint.
    pub push_control_transfer_lem :
        (device : Device L) (id : EndpointId) (k : ℕ) (r : Ring L) (ts : List L.Raw)
        (setup_data : SetupPacket) (buf : Option (ℕ × ℕ))
        → dci_of id ≡ ok (suc k)
        → get_elem? device.transfer_rings k ≡ some (some r)
        → IsRing L m r
        → Pending L m r p ts
        → length ts + length (stages setup_data buf) ≤ m
        → (r' : Ring L) × (push_control_transfer L C S device id setup_data buf
            ≡ ok (
              addresses L C m p r.ptr r.write_index (length (stages setup_data buf)),
              record device {
                transfer_rings = set device.transfer_rings k (some r');
                doorbells = device.doorbells ++ (device.slot_id, suc k) ∷ [];
              },
            ))
          × Sent L C m p ts (stages setup_data buf) r'
    unfolding push_control_transfer
    push_control_transfer_lem device id k r ts setup_data buf number held v wait room =
        let (r', (run, sent)) = push_stages_lem r ts setup_data buf v wait room in
        let before : sub64 (suc k) 1 ≡ ok k = ground arith in
        (r', (rw (number, before, held, run) refl), sent)
