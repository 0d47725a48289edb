-- ===== src/Pci/Msi/Negotiate.antt =====
-- What `configure_msi` of kernel/src/pci.rs asks of a capability.
use lemola_osv.Base.{
  ℕ, ◌+◌, ◌*◌, ◌/◌, ◌%◌, ◌^◌, ◌<◌, ◌≡◌, ◌∙◌, refl, sym, ap, min, ok, true, leb, ◌==◌, if◌then◌else◌,
  arith,
}
use lemola_osv.Pci.Msi.{
  BitField, MsiCapability, negotiate, message_control, message_address, message_data, next_pointer,
  capability_id, multiple_message_enable, multiple_message_capable, enable, address_64_bit_capable,
  per_vector_masking, set_multiple_message_enable, set_enable,
}
use lemola_osv.Pci.Msi.Fields.{
  IsCapability, HasOnly, set_bits_to, message_address_lem, message_data_lem, capable_lem,
  enable_lem, message_enable_lem, capability_id_lem, next_pointer_lem, address_64_lem, masking_lem,
}

-- The vectors that are asked for, as an exponent.
abbrev pub granted : ℕ → ℕ → ℕ
granted header exponent = min (header / 2 ^ 17 % 2 ^ 3) (exponent % 2 ^ 16)

-- The header with the vectors granted and the interrupts on.
abbrev pub on_header : ℕ → ℕ → ℕ
on_header h exponent =
    h / 2 ^ 23 * 2 ^ 23
    + granted h exponent * 2 ^ 20
    + h / 2 ^ 17 % 2 ^ 3 * 2 ^ 17
    + 2 ^ 16
    + h % 2 ^ 16

odd : (h exponent : ℕ) → on_header h exponent / 2 ^ 16 % 2 ≡ 1
odd h exponent = omega arith

plain : (n : ℕ) → 0 * 2 ^ 32 + n ≡ n
plain n = omega arith

module _ (B : BitField) where
  asked :
      (capable exponent : ℕ)
      → (if leb capable (exponent % 2 ^ 16) then capable else exponent % 2 ^ 16)
        ≡ min capable (exponent % 2 ^ 16)
  asked capable exponent = ground arith

  pub negotiate_lem :
      (cap : MsiCapability) (msg_addr msg_data exponent : ℕ)
      → IsCapability B cap
      → msg_addr < 2 ^ 32
      → negotiate B cap msg_addr msg_data exponent
        ≡ ok (record cap {
          header = on_header cap.header exponent;
          address_lower = msg_addr;
          address_upper = 0;
          data_word = msg_data % 2 ^ 16;
        })
  unfolding negotiate
  negotiate_lem cap msg_addr msg_data exponent w small =
      let h = cap.header in
      let c : ℕ = h / 2 ^ 16 in
      let hl = w.header-lt in
      let e : ℕ = min (h / 2 ^ 17 % 2 ^ 3) (exponent % 2 ^ 16) in
      let control : message_control B cap ≡ c =
        (let p = B.get_bits_law h 16 32 (omega arith) in omega (arith, p, hl)) in
      let capable : multiple_message_capable B c ≡ h / 2 ^ 17 % 2 ^ 3 =
        (let p = B.get_bits_law c 1 4 (omega arith) in omega (arith, p)) in
      let c1 : ℕ = c / 2 ^ 7 * 2 ^ 7 + e * 2 ^ 4 + c % 2 ^ 4 in
      let one : set_multiple_message_enable B c e ≡ ok c1 =
        set_bits_to B c 4 7 e c1 (omega arith) (omega arith) refl in
      let c2 : ℕ = c1 / 2 * 2 + 1 in
      let two : set_enable B c1 true ≡ c2 = (let p = B.set_bit_law c1 0 true in omega (arith, p)) in
      let three =
        set_bits_to B h 16 32 c2 (on_header h exponent) (omega arith) (omega (arith, hl))
          (omega (arith, hl)) in
      let lower : msg_addr % 2 ^ 32 ≡ msg_addr = omega arith in
      let upper : (msg_addr / 2 ^ 32) % 2 ^ 32 ≡ 0 = omega arith in
      let dl = w.data-lt in
      let four =
        set_bits_to B cap.data_word 0 16 (msg_data % 2 ^ 16) (msg_data % 2 ^ 16) (omega arith)
          (omega arith) (omega (arith, dl)) in
      simp
        (control, capable, asked (h / 2 ^ 17 % 2 ^ 3) exponent, one, two, three, lower, upper, four)
        refl

  -- A capability that `negotiate` has changed has its interrupts on, with as many vectors as were
  -- asked for and the capability has, the address and the lower 16 bits of the data given; what
  -- identifies the capability, its place in the list and what it is capable of are as before.
  pub negotiate-Configured :
      (cap : MsiCapability) (msg_addr msg_data exponent : ℕ)
      → IsCapability B cap
      → msg_addr < 2 ^ 32
      → (out : MsiCapability) × (negotiate B cap msg_addr msg_data exponent ≡ ok out)
        × (enable B (message_control B out) ≡ true)
        × (multiple_message_enable B (message_control B out)
            ≡ min (multiple_message_capable B (message_control B cap)) (exponent % 2 ^ 16))
        × (message_address B out ≡ msg_addr)
        × (message_data B out ≡ msg_data % 2 ^ 16)
        × (capability_id B out ≡ capability_id B cap)
        × (next_pointer B out ≡ next_pointer B cap)
        × (multiple_message_capable B (message_control B out)
            ≡ multiple_message_capable B (message_control B cap))
        × (address_64_bit_capable B (message_control B out)
            ≡ address_64_bit_capable B (message_control B cap))
        × (per_vector_masking B (message_control B out)
            ≡ per_vector_masking B (message_control B cap))
        × IsCapability B out
        × (HasOnly B cap → HasOnly B out)
  negotiate-Configured cap msg_addr msg_data exponent w small =
      let h = cap.header in
      let hl = w.header-lt in
      let out : MsiCapability = record cap {
        header = on_header h exponent;
        address_lower = msg_addr;
        address_upper = 0;
        data_word = msg_data % 2 ^ 16;
      } in
      let ol : out.header < 2 ^ 32 = omega (arith, hl) in
      let e0 = capable_lem B cap hl in
      let e1 = capable_lem B out ol in
      let m1 = message_enable_lem B out ol in
      let i0 = capability_id_lem B cap hl in
      let i1 = capability_id_lem B out ol in
      let n0 = next_pointer_lem B cap hl in
      let n1 = next_pointer_lem B out ol in
      let masking : per_vector_masking B (message_control B out)
          ≡ per_vector_masking B (message_control B cap) =
        masking_lem B out ol
        ∙ ap (λ n. n % 2 == 1) (omega (arith, hl))
        ∙ sym (masking_lem B cap hl) in
      (
        out,
        negotiate_lem cap msg_addr msg_data exponent w small,
        enable_lem B out ol ∙ ap (λ n. n == 1) (odd h exponent),
        omega (arith, hl, e0, m1),
        message_address_lem B out small ∙ plain msg_addr,
        message_data_lem B out (omega arith),
        omega (arith, hl, i0, i1),
        omega (arith, hl, n0, n1),
        omega (arith, hl, e0, e1),
        address_64_lem B out ol
            ∙ ap (λ n. n % 2 == 1) (omega (arith, hl))
            ∙ sym (address_64_lem B cap hl),
        masking,
        record {
          header-lt = ol;
          lower-lt = small;
          upper-lt = omega arith;
          data-lt = omega arith;
          mask-lt = w.mask-lt;
          pending-lt = w.pending-lt;
        },
        λ only. record {
          upper = λ narrow. refl;
          mask = λ lacks. only.mask (sym masking ∙ lacks);
          pending = λ lacks. only.pending (sym masking ∙ lacks);
        },
      )
