-- ===== src/Pci/Msi.antt =====
-- Message signalled interrupts: kernel/src/pci.rs. The crate `bit_field` is a parameter. A loop over
-- the list of capabilities has fuel.
pub mod Fields
pub mod Negotiate
pub mod Memory
pub mod Held
pub mod RoundTrip
pub mod Chain
use lemola_osv.Base.{
  ℕ, zero, suc, ◌+◌, ◌-◌, ◌*◌, ◌/◌, ◌%◌, ◌^◌, ◌≤◌, ◌<◌, ◌≡◌, Option, none, some, Run, ok, panic,
  ◌>>=◌, Bool, true, false, leb, ◌==◌, if◌then◌else◌, bit_or, add8,
}
use lemola_osv.Pci.{
  Machine, PciDevice, read_configuration_space, write_conf_reg, read_capabilities_pointer,
}

-- `bit_field::BitField` on unsigned words, as it documents itself: a range has its first bit and the
-- bit behind its last.
pub record BitField : Type 0 where
  pub get_bits : ℕ → ℕ → ℕ → ℕ
  pub set_bits : ℕ → ℕ → ℕ → ℕ → Run ℕ
  pub get_bit : ℕ → ℕ → Bool
  pub set_bit : ℕ → ℕ → Bool → ℕ
  pub get_bits_law : (x lo hi : ℕ) → lo < hi → get_bits x lo hi ≡ (x / 2 ^ lo) % 2 ^ (hi - lo)
  pub set_bits_law :
      (x lo hi v : ℕ)
      → lo < hi
      → v < 2 ^ (hi - lo)
      → set_bits x lo hi v ≡ ok (x / 2 ^ hi * 2 ^ hi + v * 2 ^ lo + x % 2 ^ lo)
  -- A value that does not fit is a panic.
  pub set_bits_refuses : (x lo hi v : ℕ) → lo < hi → 2 ^ (hi - lo) ≤ v → set_bits x lo hi v ≡ panic
  pub get_bit_law : (x i : ℕ) → get_bit x i ≡ ((x / 2 ^ i) % 2 == 1)
  pub set_bit_law :
      (x i : ℕ) (b : Bool)
      → set_bit x i b ≡ x / 2 ^ (i + 1) * 2 ^ (i + 1) + (if b then 2 ^ i else 0) + x % 2 ^ i

-- The six words of `MsiCapability`.
pub record MsiCapability : Type 0 where
  pub header : ℕ
  pub address_lower : ℕ
  pub address_upper : ℕ
  pub data_word : ℕ
  pub mask_bits : ℕ
  pub pending_bits : ℕ

abbrev pub empty_capability : MsiCapability
empty_capability = record {
  header = 0;
  address_lower = 0;
  address_upper = 0;
  data_word = 0;
  mask_bits = 0;
  pending_bits = 0;
}

module _ (B : BitField) where
  open B use {get_bits, set_bits, get_bit, set_bit}

  -- The accessors of `MessageControl`, a `u16`.
  abbrev pub per_vector_masking : ℕ → Bool
  per_vector_masking c = get_bit c 8

  abbrev pub multiple_message_enable : ℕ → ℕ
  multiple_message_enable c = get_bits c 4 7

  abbrev pub set_multiple_message_enable : ℕ → ℕ → Run ℕ
  set_multiple_message_enable c value = set_bits c 4 7 value

  abbrev pub address_64_bit_capable : ℕ → Bool
  address_64_bit_capable c = get_bit c 7

  abbrev pub multiple_message_capable : ℕ → ℕ
  multiple_message_capable c = get_bits c 1 4

  abbrev pub enable : ℕ → Bool
  enable c = get_bit c 0

  abbrev pub set_enable : ℕ → Bool → ℕ
  set_enable c value = set_bit c 0 value

  -- The accessors of `MsiCapability`.
  abbrev pub message_control : MsiCapability → ℕ
  message_control cap = get_bits cap.header 16 32 % 2 ^ 16

  abbrev pub set_message_control : MsiCapability → ℕ → Run MsiCapability
  set_message_control cap control = do
    word ← set_bits cap.header 16 32 control
    ok (record cap { header = word })

  abbrev pub next_pointer : MsiCapability → ℕ
  next_pointer cap = get_bits cap.header 8 16 % 2 ^ 8

  abbrev pub set_next_pointer : MsiCapability → ℕ → Run MsiCapability
  set_next_pointer cap value = do
    word ← set_bits cap.header 8 16 value
    ok (record cap { header = word })

  abbrev pub capability_id : MsiCapability → ℕ
  capability_id cap = get_bits cap.header 0 8 % 2 ^ 8

  abbrev pub set_capability_id : MsiCapability → ℕ → Run MsiCapability
  set_capability_id cap value = do
    word ← set_bits cap.header 0 8 value
    ok (record cap { header = word })

  abbrev pub message_address : MsiCapability → ℕ
  message_address cap = bit_or (cap.address_upper * 2 ^ 32) cap.address_lower

  abbrev pub set_message_address : MsiCapability → ℕ → MsiCapability
  set_message_address cap address = record cap {
    address_lower = address % 2 ^ 32;
    address_upper = (address / 2 ^ 32) % 2 ^ 32;
  }

  abbrev pub message_data : MsiCapability → ℕ
  message_data cap = get_bits cap.data_word 0 16 % 2 ^ 16

  abbrev pub set_message_data : MsiCapability → ℕ → Run MsiCapability
  set_message_data cap value = do
    word ← set_bits cap.data_word 0 16 value
    ok (record cap { data_word = word })

  -- The header of `MsiCapability::new`, field by field.
  unfoldable pub copy_header : ℕ → Run MsiCapability
  copy_header header = do
    cap ← set_message_control empty_capability (get_bits header 16 32 % 2 ^ 16)
    cap ← set_next_pointer cap (get_bits header 8 16 % 2 ^ 8)
    set_capability_id cap (get_bits header 0 8 % 2 ^ 8)

  -- What `configure_msi` changes in a capability that it has found.
  unfoldable pub negotiate : MsiCapability → ℕ → ℕ → ℕ → Run MsiCapability
  negotiate cap msg_addr msg_data num_vector_exponent = do
    let control = message_control cap
    let capable = multiple_message_capable control
    control ← set_multiple_message_enable control (
        if leb capable (num_vector_exponent % 2 ^ 16)
        then capable
        else num_vector_exponent % 2 ^ 16)
    cap ← set_message_control cap (set_enable control true)
    set_message_data (set_message_address cap msg_addr) (msg_data % 2 ^ 16)

  module _ (M : Machine) where
    -- The address of the messages, of one word or two, and where the data stand behind it.
    unfoldable pub read_address : M.State → PciDevice → ℕ → MsiCapability → ℕ → Run (ℕ × ℕ)
    read_address s d cap_addr cap lower =
        if address_64_bit_capable (message_control cap)
        then (do
          at_upper ← add8 cap_addr 8
          let upper = read_configuration_space M s d at_upper
          at_data ← add8 cap_addr 12
          ok (bit_or (upper * 2 ^ 32) lower, at_data))
        else (do at_data ← add8 cap_addr 8; ok (lower, at_data))

    -- The two words behind the data.
    unfoldable pub read_masks : M.State → PciDevice → ℕ → MsiCapability → Run MsiCapability
    read_masks s d at_data cap =
        if per_vector_masking (message_control cap)
        then (do
          at_mask ← add8 at_data 4
          at_pending ← add8 at_data 8
          ok (record cap {
            mask_bits = read_configuration_space M s d at_mask;
            pending_bits = read_configuration_space M s d at_pending;
          }))
        else ok cap

    -- `MsiCapability::new`
    unfoldable pub read_capability : M.State → PciDevice → ℕ → Run MsiCapability
    read_capability s d cap_addr = do
      cap ← copy_header (read_configuration_space M s d cap_addr)
      at_lower ← add8 cap_addr 4
      let lower = read_configuration_space M s d at_lower
      behind ← add8 cap_addr 8
      (address, at_data) ← read_address s d cap_addr cap lower
      cap ←
          set_message_data (set_message_address cap address)
            (get_bits (read_configuration_space M s d at_data) 0 16 % 2 ^ 16)
      read_masks s d at_data cap

    -- The upper word of the address where there is one, and where the data stand behind it.
    unfoldable pub write_upper : M.State → PciDevice → ℕ → MsiCapability → Run (M.State × ℕ)
    write_upper s d cap_addr cap =
        if address_64_bit_capable (message_control cap)
        then (do
          at_upper ← add8 cap_addr 8
          let s = write_conf_reg M s d at_upper (get_bits (message_address cap) 32 64 % 2 ^ 32)
          at_data ← add8 cap_addr 12
          ok (s, at_data))
        else (do at_data ← add8 cap_addr 8; ok (s, at_data))

    unfoldable pub write_masks : M.State → PciDevice → ℕ → MsiCapability → Run M.State
    write_masks s d at_data cap =
        if per_vector_masking (message_control cap)
        then (do
          at_mask ← add8 at_data 4
          let s = write_conf_reg M s d at_mask cap.mask_bits
          at_pending ← add8 at_data 8
          ok (write_conf_reg M s d at_pending cap.pending_bits))
        else ok s

    unfoldable pub write_msi_capability : M.State → PciDevice → ℕ → MsiCapability → Run M.State
    write_msi_capability s d cap_addr cap = do
      let s = write_conf_reg M s d cap_addr cap.header
      at_lower ← add8 cap_addr 4
      let s = write_conf_reg M s d at_lower (message_address cap % 2 ^ 32)
      behind ← add8 cap_addr 8
      (s, at_data) ← write_upper s d cap_addr cap
      let s = write_conf_reg M s d at_data (message_data cap)
      write_masks s d at_data cap
