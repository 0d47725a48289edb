-- ===== src/Usb/Transfer/Tests.antt =====
-- Tests of the control transfers of kernel/src/usb/device.rs on a ring of seven slots and a link.
use lemola_osv.Base.{
  ℕ, ◌+◌, ◌≡◌, refl, [], ◌∷◌, none, some, Run, ok, set, ltb, if◌then◌else◌, arith, Bool, true,
  false,
}
use lemola_osv.Xhci.Ring.{Ring, new_ring, stamped}
use lemola_osv.Xhci.Ring.Consumer.{Position}
use lemola_osv.Xhci.Ring.Slots.{new_ring-IsRing}
use lemola_osv.Xhci.Ring.Fifo.{new_ring-Pending}
use lemola_osv.Xhci.Ring.Tests.{blocks, commands, Block}
use lemola_osv.Usb.Host.{Reply, success, failure, retry}
use lemola_osv.Usb.Index.{default_control_pipe, dci_of, calc_dci}
use lemola_osv.Usb.Transfer.{
  SetupPacket, StageApi, Device, push_control_transfer, request_descriptor,
}
use lemola_osv.Usb.Transfer.Sent.{Sent}
use lemola_osv.Usb.Transfer.Stages.{stages, push_control_transfer_lem}
use lemola_osv.Usb.Transfer.Retries.{none_yet, one_more, request_descriptor_lem}

plain : (cmd : Block) (bit : Bool) → blocks.is_link (stamped blocks commands cmd bit) ≡ false
unfolding stamped
plain cmd bit = refl

abbrev api : StageApi blocks commands
api = record {
  setup_stage = λ s t. record { cycle = false; toggle = false; pointer = s.w_length };
  data_stage = λ n a. record { cycle = false; toggle = false; pointer = a };
  status_stage = record { cycle = false; toggle = false; pointer = 0 };
  status_stage_in = record { cycle = false; toggle = true; pointer = 0 };
  plain_setup = λ s t bit. plain _ bit;
  plain_data = λ n a bit. plain _ bit;
  plain_status = λ bit. plain _ bit;
  plain_status_in = λ bit. plain _ bit;
}

abbrev ring : Ring blocks
ring = new_ring blocks 4096 8

abbrev device : Device blocks
device = record { slot_id = 1; transfer_rings = some ring ∷ none ∷ []; doorbells = [] }

abbrev packet : SetupPacket
packet = record { bm_request_type = 128; b_request = 6; w_value = 256; w_index = 0; w_length = 18 }

abbrev first : Position
first = record { index = 0; cycle = true }

push_control_transfer_lem_example :
    (r' : Ring blocks) × (push_control_transfer blocks commands api device default_control_pipe
        packet
        (some (8192, 18))
      ≡ ok (
        4096 ∷ 4112 ∷ 4128 ∷ [],
        record device {
          transfer_rings = set device.transfer_rings 0 (some r');
          doorbells = (1, 1) ∷ [];
        },
      ))
    × Sent blocks commands 7 first [] (stages blocks commands api packet (some (8192, 18))) r'
unfolding dci_of calc_dci new_ring
push_control_transfer_lem_example =
    push_control_transfer_lem blocks commands api 7 first device default_control_pipe 0 ring []
      packet (some (8192, 18)) refl refl (new_ring-IsRing blocks 4096 7 (omega arith) (omega arith))
      (new_ring-Pending blocks 7 4096) (omega arith)

-- A transfer that fails twice.
abbrev attempt : ℕ → Run (Reply ℕ × ℕ)
attempt n = ok (if ltb n 2 then failure (retry "CompletionCode error") else success 18, n + 1)

request_descriptor_lem_example : request_descriptor attempt 0 ≡ ok (18, 3)
request_descriptor_lem_example =
    (request_descriptor_lem attempt 0 2).0 2 18 3 (omega arith)
      (one_more refl (one_more refl none_yet)) refl
