-- ===== src/Pci/Msi/Chain.antt =====
-- The walk over the list of capabilities: `MsiCapabilityIterator` and `configure_msi` of
-- kernel/src/pci.rs. The list may have a cycle, so the loops have fuel.
pub mod Listed
pub mod Kept
pub mod Configured
use lemola_osv.Base.{
  ℕ, zero, suc, ◌+◌, ◌*◌, ◌%◌, ◌^◌, ◌≤◌, ◌<◌, ◌≡◌, ◌≢◌, refl, sym, Option, none, some, Run, ok,
  panic, Bool, true, false, ◌==◌, if◌then◌else◌, bit_or, arith, Run-cases, Bool-cases,
}
use lemola_osv.Pci.{Machine, PciDevice, read_capabilities_pointer}
use lemola_osv.Pci.Msi.{
  BitField, MsiCapability, capability_id, next_pointer, read_capability, write_msi_capability,
  negotiate,
}

-- A run with fuel: its result, a panic, or no fuel left.
pub data Walk (A : Type 0) : Type 0 where
  ends : A → Walk A
  panics : Walk A
  no_fuel : Walk A

infixl 5 ◌>>=◌
abbrev pub ◌>>=◌ : {A B : Type 0} → Walk A → (A → Walk B) → Walk B
ends a >>= f = f a
panics >>= f = panics
no_fuel >>= f = no_fuel

abbrev pub run : {A : Type 0} → Run A → Walk A
run (ok a) = ends a
run panic = panics

pub data MsiTriggerMode : Type 0 where
  edge : MsiTriggerMode
  level : MsiTriggerMode

-- The numbers of `MSIDeliveryMode`.
pub data MsiDeliveryMode : Type 0 where
  fixed : MsiDeliveryMode
  lowest_priority : MsiDeliveryMode
  smi : MsiDeliveryMode
  nmi : MsiDeliveryMode
  init : MsiDeliveryMode
  ext_int : MsiDeliveryMode

abbrev pub delivery_bits : MsiDeliveryMode → ℕ
delivery_bits fixed = 0
delivery_bits lowest_priority = 1
delivery_bits smi = 2
delivery_bits nmi = 4
delivery_bits init = 5
delivery_bits ext_int = 7

-- The address and the data of the messages in `configure_msi_fixed_destination`.
pub message_address_of : ℕ → ℕ
message_address_of apic_id = bit_or 0xfee00000 (apic_id * 2 ^ 12)

pub message_data_of : MsiTriggerMode → MsiDeliveryMode → ℕ → ℕ
message_data_of edge delivery interrupt_vector =
    bit_or (delivery_bits delivery * 2 ^ 8) interrupt_vector
message_data_of level delivery interrupt_vector =
    bit_or (bit_or (delivery_bits delivery * 2 ^ 8) interrupt_vector) 0xc000

module _ (B : BitField) (M : Machine) where
  -- The loop of `next` from a capability that has been read: the first one for messages, with its
  -- address and the address behind it.
  pub skip : ℕ → M.State → PciDevice → ℕ → MsiCapability → Walk (Option (ℕ × MsiCapability × ℕ))
  skip zero s d current cap = no_fuel
  skip (suc fuel) s d current cap =
      if capability_id B cap == 0x05
      then ends (some (current, cap, next_pointer B cap))
      else if next_pointer B cap == 0
      then ends none
      else (do
        let current = next_pointer B cap
        cap ← run (read_capability B M s d current)
        skip fuel s d current cap)

  -- `MsiCapabilityIterator::next`
  pub next : ℕ → M.State → PciDevice → ℕ → Walk (Option (ℕ × MsiCapability × ℕ))
  next fuel s d current =
      if current == 0
      then ends none
      else (do cap ← run (read_capability B M s d current); skip fuel s d current cap)

  -- The loop of `configure_msi`, with what it has written so far.
  pub configure_all : ℕ → ℕ → M.State → PciDevice → ℕ → ℕ → ℕ → ℕ → Bool → Walk (M.State × Bool)
  configure_all zero fuel s d current msg_addr msg_data exponent written = no_fuel
  configure_all (suc n) fuel s d current msg_addr msg_data exponent written = do
    found ← next fuel s d current
    elim found [
      | none ↦ ends (s, written)
      | some (cap_addr, cap, behind) ↦ do
        cap ← run (negotiate B cap msg_addr msg_data exponent)
        s ← run (write_msi_capability B M s d cap_addr cap)
        configure_all n fuel s d behind msg_addr msg_data exponent true
    ]

  pub configure_msi : ℕ → M.State → PciDevice → ℕ → ℕ → ℕ → Walk M.State
  configure_msi fuel s d msg_addr msg_data exponent = do
    cap_addr ← run (read_capabilities_pointer M s d)
    (s, written) ← configure_all fuel fuel s d cap_addr msg_addr msg_data exponent false
    if written then ends s else panics

  pub configure_msi_fixed_destination :
      ℕ → M.State → PciDevice → ℕ → MsiTriggerMode → MsiDeliveryMode → ℕ → ℕ → Walk M.State
  configure_msi_fixed_destination fuel s d apic_id trigger delivery interrupt_vector exponent =
      configure_msi fuel s d (message_address_of apic_id)
        (message_data_of trigger delivery interrupt_vector) exponent
