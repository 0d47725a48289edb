-- ===== src/Pci/Msi/Held.antt =====
-- What `MsiCapability::new` of kernel/src/pci.rs reads from registers that hold a capability.
use lemola_osv.Base.{
  ℕ, ◌+◌, ◌*◌, ◌/◌, ◌%◌, ◌^◌, ◌<◌, ◌≡◌, refl, sym, ap, ok, true, if◌then◌else◌, arith, add8,
  Bool-cases, inl, inr,
}
use lemola_osv.Base.Joins.{bit_or_shifted}
use lemola_osv.Pci.{Machine, PciDevice, read_configuration_space}
use lemola_osv.Pci.Msi.{
  BitField, MsiCapability, read_address, read_masks, read_capability, message_control,
  address_64_bit_capable, per_vector_masking, empty_capability,
}
use lemola_osv.Pci.Msi.Fields.{
  IsCapability, HasOnly, copy_header_lem, message_data_lem, set_bits_to,
}
use lemola_osv.Pci.Msi.Memory.{Keeps, IsPlace}

pub add8_fits : (a b : ℕ) → a + b < 256 → add8 a b ≡ ok (a + b)
add8_fits a b h = ground arith

ap2 : {A : Type 0} {a b c e : ℕ} (f : ℕ → ℕ → A) → a ≡ b → c ≡ e → f a c ≡ f b e
ap2 f p q = cc

pub plain : (n : ℕ) → 0 * 2 ^ 32 + n ≡ n
plain n = omega arith

module _ (B : BitField) where
  open B use {get_bits}

  module _ (M : Machine) (K : Keeps M) (d : PciDevice) (place : IsPlace d) where
    -- The registers of a capability with its data at `at_data` hold its words.
    pub record Holds (s : M.State) (r at_data : ℕ) (cap : MsiCapability) : Type 0 where
      pub header : read_configuration_space M s d r ≡ cap.header
      pub lower : read_configuration_space M s d (r + 4) ≡ cap.address_lower
      pub upper :
          address_64_bit_capable B (message_control B cap) ≡ true
          → read_configuration_space M s d (r + 8) ≡ cap.address_upper
      pub words : read_configuration_space M s d at_data ≡ cap.data_word
      pub mask :
          per_vector_masking B (message_control B cap) ≡ true
          → read_configuration_space M s d (at_data + 4) ≡ cap.mask_bits
      pub pending :
          per_vector_masking B (message_control B cap) ≡ true
          → read_configuration_space M s d (at_data + 8) ≡ cap.pending_bits

    -- Where the data stand.
    abbrev pub at_data : ℕ → MsiCapability → ℕ
    at_data r cap = if address_64_bit_capable B (message_control B cap) then r + 12 else r + 8

    module _ (s : M.State) (r : ℕ) (cap : MsiCapability) (w : IsCapability B cap)
        (only : HasOnly B cap) (fits : r + 20 < 256) (held : Holds s r (at_data r cap) cap) where
      address_held :
          (c : MsiCapability)
          → c.header ≡ cap.header
          → read_address B M s d r c cap.address_lower
            ≡ ok (cap.address_upper * 2 ^ 32 + cap.address_lower, at_data r cap)
      unfolding read_address
      address_held c e = elim (Bool-cases (address_64_bit_capable B (message_control B cap))) [
        | inl wide ↦
            simp
              (
                e,
                wide,
                add8_fits r 8 (omega arith),
                add8_fits r 12 (omega arith),
                held.upper wide,
                bit_or_shifted 32 cap.address_upper cap.address_lower w.lower-lt,
              )
              refl
        | inr narrow ↦
            simp (e, narrow, only.upper narrow, add8_fits r 8 (omega arith))
              (ap (λ n. ok (n, r + 8)) (sym (plain cap.address_lower)))
      ]

      masks_held :
          read_masks B M s d (at_data r cap) (record cap { mask_bits = 0; pending_bits = 0 })
          ≡ ok cap
      unfolding read_masks
      masks_held = elim (Bool-cases (per_vector_masking B (message_control B cap))) [
        | inl masks ↦
            simp
              (
                masks,
                add8_fits (at_data r cap) 4 (ground arith),
                add8_fits (at_data r cap) 8 (ground arith),
                held.mask masks,
                held.pending masks,
              )
              refl
        | inr no_masks ↦
            let m = only.mask no_masks in
            let p = only.pending no_masks in
            simp no_masks
              (ap2 (λ m p. ok (record cap { mask_bits = m; pending_bits = p })) (sym m) (sym p))
      ]

      pub read_held : read_capability B M s d r ≡ ok cap
      unfolding read_capability
      read_held =
          let copied = copy_header_lem B cap.header w.header-lt in
          let lower = w.lower-lt in
          let upper = w.upper-lt in
          let data_small = w.data-lt in
          let address : ℕ = cap.address_upper * 2 ^ 32 + cap.address_lower in
          let got : get_bits cap.data_word 0 16 % 2 ^ 16 ≡ cap.data_word =
            message_data_lem B cap data_small in
          let low : address % 2 ^ 32 ≡ cap.address_lower = omega (arith, lower) in
          let high : (address / 2 ^ 32) % 2 ^ 32 ≡ cap.address_upper =
            omega (arith, lower, upper) in
          let put =
            set_bits_to B 0 0 16 cap.data_word cap.data_word (omega arith)
              (omega (arith, data_small)) (omega arith) in
          simp
            (
              held.header,
              copied,
              add8_fits r 4 (omega arith),
              add8_fits r 8 (omega arith),
              held.lower,
              address_held (record empty_capability { header = cap.header }) refl,
              held.words,
              got,
              low,
              high,
              put,
            )
            masks_held
