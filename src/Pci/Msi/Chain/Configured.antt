-- ===== src/Pci/Msi/Chain/Configured.antt =====
-- What `configure_msi` of kernel/src/pci.rs leaves in the registers of the capability that it finds.
use lemola_osv.Base.{
  ℕ, suc, ◌+◌, ◌%◌, ◌^◌, ◌≤◌, ◌<◌, ◌≡◌, refl, min, List, none, some, ok, true, length,
}
use lemola_osv.Pci.{Machine, PciDevice, read_capabilities_pointer}
use lemola_osv.Pci.Msi.{
  BitField, MsiCapability, message_control, message_address, message_data, enable,
  multiple_message_enable, multiple_message_capable, next_pointer, read_capability,
}
use lemola_osv.Pci.Msi.Fields.{IsCapability, HasOnly}
use lemola_osv.Pci.Msi.Negotiate.{negotiate-Configured}
use lemola_osv.Pci.Msi.Memory.{Keeps, IsPlace}
use lemola_osv.Pci.Msi.RoundTrip.{written-Beside}
use lemola_osv.Pci.Msi.Chain.{ends, configure_all, configure_msi}
use lemola_osv.Pci.Msi.Chain.Listed.{Listed, first_msi, next_finds}
use lemola_osv.Pci.Msi.Chain.Kept.{AllBeside, Listed-kept}

module _ (B : BitField) (M : Machine) (K : Keeps M) (d : PciDevice) (place : IsPlace d) where
  -- On a machine that keeps what is written, for a device whose list of capabilities has no cycle and
  -- one capability for messages, whose words are in their ranges and 0 where it does not use them, and
  -- whose registers end below 256 and are not those read for the capabilities listed behind it:
  -- `configure_msi` with an address of 32 bits, and with fuel for the list, ends without a panic, and
  -- the capability read from its registers then has its interrupts on, as many vectors as were asked
  -- for and it has, and the address and the data given.
  pub configure_msi-Configured :
      (s : M.State) (n p r msg_addr msg_data exponent : ℕ) (cap : MsiCapability)
      (caps rest : List (ℕ × MsiCapability))
      → read_capabilities_pointer M s d ≡ ok p
      → Listed B M s d p caps
      → length caps ≤ suc (suc n)
      → first_msi B M caps ≡ some (r, cap, next_pointer B cap)
      → IsCapability B cap
      → HasOnly B cap
      → r + 20 < 256
      → msg_addr < 2 ^ 32
      → Listed B M s d (next_pointer B cap) rest
      → length rest ≤ suc (suc n)
      → first_msi B M rest ≡ none
      → AllBeside r rest
      → (t : M.State) × (out : MsiCapability) × (configure_msi B M
            (suc (suc n))
            s
            d
            msg_addr
            msg_data
            exponent
          ≡ ends t)
        × (read_capability B M t d r ≡ ok out)
        × (enable B (message_control B out) ≡ true)
        × (multiple_message_enable B (message_control B out)
            ≡ min (multiple_message_capable B (message_control B cap)) (exponent % 2 ^ 16))
        × (message_address B out ≡ msg_addr)
        × (message_data B out ≡ msg_data % 2 ^ 16)
  unfolding configure_msi configure_all
  configure_msi-Configured s n p r msg_addr msg_data exponent cap caps rest pointer l h first w only
        fits small behind short none_behind beside =
      let (out, asked, on, vectors, address, words, _, _, _, _, _, w2, keeps) =
        negotiate-Configured B cap msg_addr msg_data exponent w small in
      let only2 : HasOnly B out = keeps only in
      let (t, written, again, same) = written-Beside B M K d place s r out w2 only2 fits in
      let l2 = Listed-kept B M d s t r (next_pointer B cap) rest same behind beside in
      (
        t,
        out,
        simp
            (
              pointer,
              next_finds B M s d (suc (suc n)) p caps l h,
              first,
              asked,
              written,
              next_finds B M t d (suc (suc n)) (next_pointer B cap) rest l2 short,
              none_behind,
            )
            refl,
        again,
        on,
        vectors,
        address,
        words,
      )
