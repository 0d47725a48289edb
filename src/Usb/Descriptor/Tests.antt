-- ===== src/Usb/Descriptor/Tests.antt =====
-- Tests of the iterator of kernel/src/usb/descriptor.rs.
use lemola_osv.Base.{ℕ, zero, suc, refl, List, [], ◌∷◌}
use lemola_osv.Usb.Descriptor.{
  DescriptorType, configuration_type, interface_type, other_type, DescriptorIter,
}
use lemola_osv.Usb.Descriptor.Blocks.{AllBlocks}

abbrev kinds : ℕ → DescriptorType
kinds zero = other_type
kinds (suc zero) = other_type
kinds (suc (suc zero)) = configuration_type
kinds (suc (suc (suc n))) = interface_type

abbrev blocks : List (List ℕ)
blocks = (3 ∷ 2 ∷ 7 ∷ []) ∷ (2 ∷ 4 ∷ []) ∷ []

blocks-AllBlocks : AllBlocks blocks
blocks-AllBlocks = (
  record { type_of = 2; rest = 7 ∷ []; bytes_of = refl },
  (record { type_of = 4; rest = []; bytes_of = refl }, tt),
)

-- The second descriptor has the length 0.
abbrev malformed : DescriptorIter
malformed = record { bytes = 2 ∷ 4 ∷ 0 ∷ 4 ∷ []; read_bytes = 2 }
