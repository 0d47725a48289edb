-- ===== src/Pci/Msi/Chain/Listed.antt =====
-- The walks of kernel/src/pci.rs over a list of capabilities without a cycle.
use lemola_osv.Base.{
  ℕ, zero, suc, ◌≤◌, ◌<◌, ◌≡◌, ◌≢◌, refl, List, [], ◌∷◌, Option, none, some, ok, false, ◌==◌,
  if◌then◌else◌, arith, Bool-cases, length, inl, inr,
}
use lemola_osv.Pci.{Machine, PciDevice, read_capabilities_pointer}
use lemola_osv.Pci.Msi.{BitField, MsiCapability, capability_id, next_pointer, read_capability}
use lemola_osv.Pci.Msi.Chain.{ends, panics, skip, next, configure_all, configure_msi}

module _ (B : BitField) (M : Machine) where
  -- The capabilities that the registers list from an address to the end of the list.
  pub data Listed (s : M.State) (d : PciDevice) : ℕ → List (ℕ × MsiCapability) → Type 0 where
    last : Listed s d 0 []
    entry :
        {current : ℕ} {cap : MsiCapability} {rest : List (ℕ × MsiCapability)}
        → current ≢ 0
        → read_capability B M s d current ≡ ok cap
        → Listed s d (next_pointer B cap) rest
        → Listed s d current ((current, cap) ∷ rest)

  -- The first capability for messages of a list.
  abbrev pub first_msi : List (ℕ × MsiCapability) → Option (ℕ × MsiCapability × ℕ)
  first_msi [] = none
  first_msi ((current, cap) ∷ rest) =
      if capability_id B cap == 0x05
      then some (current, cap, next_pointer B cap)
      else first_msi rest

  skip_finds :
      {s : M.State} {d : PciDevice} (fuel current a : ℕ) (cap : MsiCapability)
      (rest : List (ℕ × MsiCapability))
      → next_pointer B cap ≡ a
      → Listed s d a rest
      → length rest < fuel
      → skip B M fuel s d current cap ≡ ends (first_msi ((current, cap) ∷ rest))
  unfolding skip
  skip_finds zero current a cap rest e l h = elim h [ ]
  skip_finds (suc fuel) current a cap rest e last h =
      elim (Bool-cases (capability_id B cap == 0x05)) [
        | inl msi ↦ simp msi refl
        | inr other ↦ simp (other, e) refl
      ]
  skip_finds {s} {d} (suc fuel) current a cap rest e (entry {cap = c} {rest = cs} ne read l) h =
      elim (Bool-cases (capability_id B cap == 0x05)) [
        | inl msi ↦ simp msi refl
        | inr other ↦
            let more : (a == 0) ≡ false = ground arith in
            simp (other, e, more, read)
              (skip_finds fuel a (next_pointer B c) c cs refl l (omega arith))
      ]

  -- On a list without a cycle, `next` ends without a panic and gives the first capability for
  -- messages: fuel for the capabilities listed is enough.
  pub next_finds :
      (s : M.State) (d : PciDevice) (fuel current : ℕ) (caps : List (ℕ × MsiCapability))
      → Listed s d current caps
      → length caps ≤ fuel
      → next B M fuel s d current ≡ ends (first_msi caps)
  unfolding next
  next_finds s d fuel current caps last h = refl
  next_finds s d fuel current caps (entry {cap = c} {rest = cs} ne read l) h =
      let more : (current == 0) ≡ false = ground arith in
      simp (more, read) (skip_finds fuel current (next_pointer B c) c cs refl l (omega arith))

  -- `configure_msi` panics on a device that lists no capability for messages.
  pub configure_msi_refuses :
      (s : M.State) (d : PciDevice) (fuel p msg_addr msg_data exponent : ℕ)
      (caps : List (ℕ × MsiCapability))
      → read_capabilities_pointer M s d ≡ ok p
      → Listed s d p caps
      → length caps ≤ fuel
      → 0 < fuel
      → first_msi caps ≡ none
      → configure_msi B M fuel s d msg_addr msg_data exponent ≡ panics
  unfolding configure_msi configure_all
  configure_msi_refuses s d zero p msg_addr msg_data exponent caps pointer l h some_fuel lacks =
      elim some_fuel [ ]
  configure_msi_refuses s d (suc n) p msg_addr msg_data exponent caps pointer l h some_fuel lacks =
      simp (pointer, next_finds s d (suc n) p caps l h, lacks) refl
