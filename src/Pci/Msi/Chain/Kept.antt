-- ===== src/Pci/Msi/Chain/Kept.antt =====
-- What the write of a capability leaves of the others, for the list walk of kernel/src/pci.rs.
use lemola_osv.Base.{
  ℕ, ◌+◌, ◌%◌, ◌^◌, ◌≤◌, ◌<◌, ◌≡◌, ◌∙◌, ◌⊎◌, refl, List, [], ◌∷◌, Run, ◌>>=◌, ok, panic, arith,
  Bool-cases, inl, inr, add8,
}
use lemola_osv.Pci.{Machine, PciDevice, read_configuration_space}
use lemola_osv.Pci.Msi.{
  BitField, MsiCapability, read_address, read_masks, read_capability, copy_header, message_control,
  set_message_address, set_message_data, address_64_bit_capable, per_vector_masking,
}
use lemola_osv.Pci.Msi.Held.{add8_fits}
use lemola_osv.Pci.Msi.Chain.Listed.{Listed, last, entry}

-- The registers read for the capabilities of a list are not those of the capability at `r`.
abbrev pub AllBeside : ℕ → List (ℕ × MsiCapability) → Type 0
AllBeside r [] = Unit {0}
AllBeside r ((q, cap) ∷ caps) = (q + 20 < 256) × ((q + 24 ≤ r) ⊎ (r + 24 ≤ q)) × AllBeside r caps

run_same :
    {A B : Type 0} (m : Run A) (f g : A → Run B) → ((a : A) → f a ≡ g a) → (m >>= f) ≡ (m >>= g)
run_same (ok a) f g e = e a
run_same panic f g e = refl

module _ (B : BitField) (M : Machine) (d : PciDevice) where
  open B use {get_bits}

  module _ (s t : M.State) (q : ℕ) (fits : q + 20 < 256)
      (same : (x : ℕ)
        → q ≤ x
        → x ≤ q + 20
        → read_configuration_space M t d x ≡ read_configuration_space M s d x) where
    masks-kept :
        (cap : MsiCapability) (a : ℕ)
        → q ≤ a
        → a ≤ q + 12
        → read_masks B M t d a cap ≡ read_masks B M s d a cap
    unfolding read_masks
    masks-kept cap a low high = elim (Bool-cases (per_vector_masking B (message_control B cap))) [
      | inl masks ↦
          simp
            (
              masks,
              add8_fits a 4 (omega arith),
              add8_fits a 8 (omega arith),
              same (a + 4) (omega arith) (omega arith),
              same (a + 8) (omega arith) (omega arith),
            )
            refl
      | inr no_masks ↦ simp no_masks refl
    ]

    -- The steps of `MsiCapability::new` behind the address.
    rest_read : M.State → MsiCapability → ℕ → ℕ → Run MsiCapability
    rest_read u cap address a = do
      cap ←
          set_message_data B (set_message_address B cap address)
            (get_bits (read_configuration_space M u d a) 0 16 % 2 ^ 16)
      read_masks B M u d a cap

    rest-kept :
        (cap : MsiCapability) (address a : ℕ)
        → q ≤ a
        → a ≤ q + 12
        → rest_read t cap address a ≡ rest_read s cap address a
    unfolding rest_read
    rest-kept cap address a low high =
        rw (same a low (omega arith)) (run_same _ _ _ (λ c. masks-kept c a low high))

    -- The steps behind the header.
    body_read : M.State → MsiCapability → Run MsiCapability
    body_read u cap = do
      at_lower ← add8 q 4
      let lower = read_configuration_space M u d at_lower
      behind ← add8 q 8
      (address, a) ← read_address B M u d q cap lower
      rest_read u cap address a

    body-kept : (cap : MsiCapability) → body_read t cap ≡ body_read s cap
    unfolding body_read read_address
    body-kept cap = elim (Bool-cases (address_64_bit_capable B (message_control B cap))) [
      | inl wide ↦
          simp
            (
              wide,
              add8_fits q 4 (omega arith),
              add8_fits q 8 (omega arith),
              add8_fits q 12 (omega arith),
              same (q + 4) (omega arith) (omega arith),
              same (q + 8) (omega arith) (omega arith),
            )
            (rest-kept cap _ (q + 12) (omega arith) (omega arith))
      | inr narrow ↦
          simp
            (
              narrow,
              add8_fits q 4 (omega arith),
              add8_fits q 8 (omega arith),
              same (q + 4) (omega arith) (omega arith),
            )
            (rest-kept cap _ (q + 8) (omega arith) (omega arith))
    ]

    read_capability-kept : read_capability B M t d q ≡ read_capability B M s d q
    unfolding read_capability body_read rest_read
    read_capability-kept = rw (same q (omega arith) (omega arith)) (
        run_same (copy_header B (read_configuration_space M s d q)) (body_read t) (body_read s)
          body-kept)

  -- A list of capabilities beside the registers that changed is listed as before.
  pub Listed-kept :
      (s t : M.State) (r p : ℕ) (caps : List (ℕ × MsiCapability))
      → ((x : ℕ)
          → x < 256
          → (x + 4 ≤ r) ⊎ (r + 24 ≤ x)
          → read_configuration_space M t d x ≡ read_configuration_space M s d x)
      → Listed B M s d p caps
      → AllBeside r caps
      → Listed B M t d p caps
  Listed-kept s t r p caps same last beside = last
  Listed-kept s t r p caps same (entry {current = q} {rest = rest} ne read l) (fits, out, more) =
      entry ne
        (read_capability-kept s t q fits
            (λ x low high. same x (omega arith) (omega (arith, out, low, high)))
          ∙ read)
        (Listed-kept s t r _ rest same l more)
