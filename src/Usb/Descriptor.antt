-- ===== src/Usb/Descriptor.antt =====
-- The iterator over descriptors of kernel/src/usb/descriptor.rs. The descriptor types of the crate
-- `usb_host` are a parameter; a reference to a descriptor is the slice that it points to. For a slice
-- shorter than its struct the source's reference reaches behind it; what stands there is not modelled.
pub mod Blocks
pub mod Tests
use lemola_osv.Base.{
  ℕ, zero, suc, ◌+◌, ◌-◌, List, [], ◌∷◌, Option, none, some, Run, ok, panic, ◌>>=◌, unwrap, Bool,
  leb, ◌&&◌, if◌then◌else◌, add64, length, get_elem?, take, drop,
}

-- The part of `DescriptorType` that the code tells apart.
pub data DescriptorType : Type 0 where
  configuration_type : DescriptorType
  interface_type : DescriptorType
  endpoint_type : DescriptorType
  other_type : DescriptorType

pub data DescriptorRef : Type 0 where
  configuration : List ℕ → DescriptorRef
  interface : List ℕ → DescriptorRef
  endpoint : List ℕ → DescriptorRef
  unknown : DescriptorRef

pub record DescriptorIter : Type 0 where
  pub bytes : List ℕ
  pub read_bytes : ℕ

abbrev pub new : List ℕ → DescriptorIter
new bytes = record { bytes = bytes; read_bytes = 0 }

-- `&data[from..to]`
pub slice : List ℕ → ℕ → ℕ → Run (List ℕ)
slice bytes from to =
    if leb from to && leb to (length bytes) then ok (take (to - from) (drop from bytes)) else panic

-- `DescriptorType::try_from` is the parameter.
module _ (try_from : ℕ → DescriptorType) where
  pub of_type : DescriptorType → List ℕ → DescriptorRef
  of_type configuration_type bytes = configuration bytes
  of_type interface_type bytes = interface bytes
  of_type endpoint_type bytes = endpoint bytes
  of_type other_type bytes = unknown

  pub new_ref : List ℕ → Run DescriptorRef
  new_ref bytes = do
    descriptor_type ← unwrap (get_elem? bytes 1)
    ok (of_type (try_from descriptor_type) bytes)

  unfoldable pub next : DescriptorIter → Run (Option DescriptorRef × DescriptorIter)
  unfolding slice new_ref of_type
  next it = if leb (length it.bytes) it.read_bytes then ok (none, it) else (do
    next_descriptor_length ← unwrap (get_elem? it.bytes it.read_bytes)
    end ← add64 it.read_bytes next_descriptor_length
    part ← slice it.bytes it.read_bytes end
    descriptor ← new_ref part
    ok (some descriptor, record it { read_bytes = end }))

  -- At most `n` calls of `next`, up to the first that returns nothing.
  pub collect : ℕ → DescriptorIter → Run (List DescriptorRef)
  collect zero it = ok []
  collect (suc n) it =
      next it >>= λ r. elim r.0 [ none ↦ ok [] | some d ↦ collect n r.1 >>= λ rest. ok (d ∷ rest) ]
