-- ===== src/Pci/Msi/Fields.antt =====
-- The fields of a capability in kernel/src/pci.rs.
use lemola_osv.Base.{
  ℕ, ◌+◌, ◌-◌, ◌*◌, ◌/◌, ◌%◌, ◌^◌, ◌<◌, ◌≡◌, ◌∙◌, refl, ap, ok, false, ◌==◌, arith,
}
use lemola_osv.Base.Joins.{bit_or_shifted}
use lemola_osv.Pci.Msi.{
  BitField, MsiCapability, empty_capability, copy_header, message_control, message_address,
  message_data, set_message_data, next_pointer, capability_id, multiple_message_capable,
  multiple_message_enable, enable, address_64_bit_capable, per_vector_masking,
}

module _ (B : BitField) where
  open B use {get_bits, set_bits, get_bit, set_bit}

  pub set_bits_to :
      (x lo hi v y : ℕ)
      → lo < hi
      → v < 2 ^ (hi - lo)
      → x / 2 ^ hi * 2 ^ hi + v * 2 ^ lo + x % 2 ^ lo ≡ y
      → set_bits x lo hi v ≡ ok y
  set_bits_to x lo hi v y h fits e = B.set_bits_law x lo hi v h fits ∙ ap ok e

  pub copy_header_lem :
      (header : ℕ)
      → header < 2 ^ 32
      → copy_header B header ≡ ok (record empty_capability { header = header })
  unfolding copy_header
  copy_header_lem h small =
      simp
        (
          B.get_bits_law h 16 32 (omega arith),
          B.get_bits_law h 8 16 (omega arith),
          B.get_bits_law h 0 8 (omega arith),
          set_bits_to 0 16 32 (h / 2 ^ 16 % 2 ^ (32 - 16) % 2 ^ 16) (h / 2 ^ 16 * 2 ^ 16)
              (omega arith) (omega arith) (omega arith),
          set_bits_to (h / 2 ^ 16 * 2 ^ 16) 8 16 (h / 2 ^ 8 % 2 ^ (16 - 8) % 2 ^ 8)
              (h / 2 ^ 8 * 2 ^ 8) (omega arith) (omega arith) (omega arith),
          set_bits_to (h / 2 ^ 8 * 2 ^ 8) 0 8 (h / 2 ^ 0 % 2 ^ (8 - 0) % 2 ^ 8) h (omega arith)
              (omega arith) (omega arith),
        )
        refl

  -- The words of a capability, as `read_capability` makes them.
  pub record IsCapability (cap : MsiCapability) : Type 0 where
    pub header-lt : cap.header < 2 ^ 32
    pub lower-lt : cap.address_lower < 2 ^ 32
    pub upper-lt : cap.address_upper < 2 ^ 32
    pub data-lt : cap.data_word < 2 ^ 16
    pub mask-lt : cap.mask_bits < 2 ^ 32
    pub pending-lt : cap.pending_bits < 2 ^ 32

  -- What the capability does not have, is 0.
  pub record HasOnly (cap : MsiCapability) : Type 0 where
    pub upper : address_64_bit_capable B (message_control B cap) ≡ false → cap.address_upper ≡ 0
    pub mask : per_vector_masking B (message_control B cap) ≡ false → cap.mask_bits ≡ 0
    pub pending : per_vector_masking B (message_control B cap) ≡ false → cap.pending_bits ≡ 0

  pub message_address_lem :
      (cap : MsiCapability)
      → cap.address_lower < 2 ^ 32
      → message_address B cap ≡ cap.address_upper * 2 ^ 32 + cap.address_lower
  message_address_lem cap h = bit_or_shifted 32 cap.address_upper cap.address_lower h

  pub message_data_lem :
      (cap : MsiCapability) → cap.data_word < 2 ^ 16 → message_data B cap ≡ cap.data_word
  message_data_lem cap h =
      let e = B.get_bits_law cap.data_word 0 16 (omega arith) in omega (arith, e)

  pub set_message_data_lem :
      (cap : MsiCapability) (value : ℕ)
      → cap.data_word < 2 ^ 16
      → value < 2 ^ 16
      → set_message_data B cap value ≡ ok (record cap { data_word = value })
  set_message_data_lem cap value h fits =
      simp (set_bits_to cap.data_word 0 16 value value (omega arith) (omega arith) (omega arith))
        refl

  -- Where the fields stand in the header.
  module _ (cap : MsiCapability) (small : cap.header < 2 ^ 32) where
    pub message_control_lem : message_control B cap ≡ cap.header / 2 ^ 16
    message_control_lem =
        let e = B.get_bits_law cap.header 16 32 (omega arith) in omega (arith, e, small)

    pub capability_id_lem : capability_id B cap ≡ cap.header % 2 ^ 8
    capability_id_lem = let e = B.get_bits_law cap.header 0 8 (omega arith) in omega (arith, e)

    pub next_pointer_lem : next_pointer B cap ≡ cap.header / 2 ^ 8 % 2 ^ 8
    next_pointer_lem = let e = B.get_bits_law cap.header 8 16 (omega arith) in omega (arith, e)

    control_bits :
        (lo hi : ℕ)
        → lo < hi
        → get_bits (message_control B cap) lo hi ≡ (cap.header / 2 ^ 16) / 2 ^ lo % 2 ^ (hi - lo)
    control_bits lo hi h = rw message_control_lem (B.get_bits_law (cap.header / 2 ^ 16) lo hi h)

    control_bit :
        (i : ℕ) → get_bit (message_control B cap) i ≡ ((cap.header / 2 ^ 16) / 2 ^ i % 2 == 1)
    control_bit i = rw message_control_lem (B.get_bit_law (cap.header / 2 ^ 16) i)

    pub capable_lem :
        multiple_message_capable B (message_control B cap) ≡ cap.header / 2 ^ 17 % 2 ^ 3
    capable_lem = let e = control_bits 1 4 (omega arith) in omega (arith, e)

    pub message_enable_lem :
        multiple_message_enable B (message_control B cap) ≡ cap.header / 2 ^ 20 % 2 ^ 3
    message_enable_lem = let e = control_bits 4 7 (omega arith) in omega (arith, e)

    pub enable_lem : enable B (message_control B cap) ≡ (cap.header / 2 ^ 16 % 2 == 1)
    enable_lem = control_bit 0 ∙ ap (λ n. n % 2 == 1) (omega arith)

    pub address_64_lem :
        address_64_bit_capable B (message_control B cap) ≡ (cap.header / 2 ^ 23 % 2 == 1)
    address_64_lem = control_bit 7 ∙ ap (λ n. n % 2 == 1) (omega arith)

    pub masking_lem : per_vector_masking B (message_control B cap) ≡ (cap.header / 2 ^ 24 % 2 == 1)
    masking_lem = control_bit 8 ∙ ap (λ n. n % 2 == 1) (omega arith)
