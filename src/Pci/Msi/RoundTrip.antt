-- ===== src/Pci/Msi/RoundTrip.antt =====
-- What `write_msi_capability` of kernel/src/pci.rs writes, `MsiCapability::new` reads.
use lemola_osv.Base.{
  ℕ, ◌+◌, ◌/◌, ◌%◌, ◌^◌, ◌≤◌, ◌<◌, ◌≡◌, ◌≢◌, ◌⊎◌, refl, ok, true, if◌then◌else◌, arith, Bool-cases,
  inl, inr,
}
use lemola_osv.Pci.{Machine, PciDevice, read_configuration_space, write_conf_reg}
use lemola_osv.Pci.Msi.{
  BitField, MsiCapability, write_upper, write_masks, read_capability, write_msi_capability,
  message_control, message_address, address_64_bit_capable, per_vector_masking,
}
use lemola_osv.Pci.Msi.Fields.{IsCapability, HasOnly, message_address_lem, message_data_lem}
use lemola_osv.Pci.Msi.Memory.{Keeps, IsPlace, read-write_same, read-write_past}
use lemola_osv.Pci.Msi.Held.{add8_fits, Holds, at_data, read_held}

module _ (B : BitField) where
  open B use {get_bits}

  upper_word :
      (cap : MsiCapability)
      → IsCapability B cap
      → get_bits (message_address B cap) 32 64 % 2 ^ 32 ≡ cap.address_upper
  upper_word cap w =
      let e = message_address_lem B cap w.lower-lt in
      let p = B.get_bits_law (message_address B cap) 32 64 (omega arith) in
      let lower = w.lower-lt in let upper = w.upper-lt in omega (arith, e, p, lower, upper)

  module _ (M : Machine) (K : Keeps M) (d : PciDevice) (place : IsPlace d) where
    module _ (r a : ℕ) (cap : MsiCapability) (w : IsCapability B cap) (fits : r + 20 < 256)
        (low : r + 8 ≤ a) (high : a ≤ r + 12) where
      abbrev reads : M.State → ℕ → ℕ
      reads s q = read_configuration_space M s d q

      -- The states behind the parts of the write.
      abbrev head_written : M.State → M.State
      head_written s =
          write_conf_reg M (write_conf_reg M s d r cap.header) d (r + 4) cap.address_lower

      abbrev upper_written : M.State → M.State
      upper_written s =
          if address_64_bit_capable B (message_control B cap)
          then write_conf_reg M s d (r + 8) cap.address_upper
          else s

      abbrev masks_written : M.State → M.State
      masks_written s =
          if per_vector_masking B (message_control B cap)
          then write_conf_reg M (write_conf_reg M s d (a + 4) cap.mask_bits) d (a + 8)
              cap.pending_bits
          else s

      past_upper :
          (s : M.State) (q x : ℕ)
          → q < 256
          → (r + 8) / 4 ≢ q / 4
          → reads s q ≡ x
          → reads (upper_written s) q ≡ x
      past_upper s q x hq ne e =
          elim (Bool-cases (address_64_bit_capable B (message_control B cap))) [
            | inl wide ↦
                rw wide (
                  read-write_past M K d place s (r + 8) q cap.address_upper x (omega arith) hq ne e)
            | inr narrow ↦ rw narrow e
          ]

      past_masks : (s : M.State) (q x : ℕ) → q ≤ a → reads s q ≡ x → reads (masks_written s) q ≡ x
      past_masks s q x hq e = elim (Bool-cases (per_vector_masking B (message_control B cap))) [
        | inl masks ↦ rw masks (
            read-write_past M K d place _ (a + 8) q cap.pending_bits x (omega arith) (omega arith)
              (λ p. omega (arith, p, hq))
              (read-write_past M K d place s (a + 4) q cap.mask_bits x (omega arith) (omega arith)
                (λ p. omega (arith, p, hq)) e))
        | inr no_masks ↦ rw no_masks e
      ]

      module _ (s : M.State)
          (gap : address_64_bit_capable B (message_control B cap) ≡ true → a ≡ r + 12) where
        abbrev all_written : M.State
        all_written =
            masks_written (write_conf_reg M (upper_written (head_written s)) d a cap.data_word)

        head_kept :
            (q x : ℕ)
            → q < r + 8
            → (r + 8) / 4 ≢ q / 4
            → reads (head_written s) q ≡ x
            → reads all_written q ≡ x
        head_kept q x hq ne e = past_masks _ q x (omega arith) (
            read-write_past M K d place _ a q cap.data_word x (omega arith) (omega arith)
              (λ p. ne (omega (arith, p))) (past_upper _ q x (omega arith) ne e))

        all_written-Holds : Holds B M K d place all_written r a cap
        all_written-Holds = record {
          header =
              head_kept r cap.header (omega arith) (λ p. omega (arith, p))
                (read-write_past M K d place _ (r + 4) r cap.address_lower cap.header (omega arith)
                  (omega arith) (λ p. omega (arith, p))
                  (read-write_same M K d place s r cap.header w.header-lt));
          lower =
              head_kept (r + 4) cap.address_lower (omega arith) (λ p. omega (arith, p))
                (read-write_same M K d place _ (r + 4) cap.address_lower w.lower-lt);
          upper = λ wide. past_masks _ (r + 8) cap.address_upper (omega arith) (
              read-write_past M K d place _ a (r + 8) cap.data_word cap.address_upper (omega arith)
                (omega arith) (λ p. omega (arith, p, gap wide)) (upper_stands wide));
          words =
              let dl = w.data-lt in
              past_masks _ a cap.data_word (omega arith)
                (read-write_same M K d place _ a cap.data_word (omega (arith, dl)));
          mask = λ masks. rw masks (
              read-write_past M K d place _ (a + 8) (a + 4) cap.pending_bits cap.mask_bits
                (omega arith) (omega arith) (λ p. omega (arith, p))
                (read-write_same M K d place _ (a + 4) cap.mask_bits w.mask-lt));
          pending = λ masks.
              rw masks (read-write_same M K d place _ (a + 8) cap.pending_bits w.pending-lt);
        }
          where
            upper_stands :
                address_64_bit_capable B (message_control B cap) ≡ true
                → reads (upper_written (head_written s)) (r + 8) ≡ cap.address_upper
            upper_stands wide =
                rw wide (
                  read-write_same M K d place (head_written s) (r + 8) cap.address_upper w.upper-lt)

        -- The registers before and behind those of the capability stay as they are.
        all_written_beside :
            (q : ℕ) → q < 256 → (q + 4 ≤ r) ⊎ (r + 24 ≤ q) → reads all_written q ≡ reads s q
        all_written_beside q hq out =
            let past_head : reads (head_written s) q ≡ reads s q =
              read-write_past M K d place _ (r + 4) q cap.address_lower _ (omega arith) hq
                (λ p. omega (arith, p, out))
                (read-write_past M K d place s r q cap.header _ (omega arith) hq
                  (λ p. omega (arith, p, out)) refl) in
            let past_data =
              read-write_past M K d place _ a q cap.data_word _ (omega arith) hq
                (λ p. omega (arith, p, out, low, high))
                (past_upper (head_written s) q _ hq (λ p. omega (arith, p, out)) past_head) in
            elim (Bool-cases (per_vector_masking B (message_control B cap))) [
              | inl masks ↦ rw masks (
                  read-write_past M K d place _ (a + 8) q cap.pending_bits _ (omega arith) hq
                    (λ p. omega (arith, p, out, low, high))
                    (read-write_past M K d place _ (a + 4) q cap.mask_bits _ (omega arith) hq
                      (λ p. omega (arith, p, out, low, high)) past_data))
              | inr no_masks ↦ rw no_masks past_data
            ]

      upper-written :
          (s : M.State)
          → at_data B M K d place r cap ≡ a
          → write_upper B M s d r cap ≡ ok (upper_written s, a)
      unfolding write_upper
      upper-written s there = elim (Bool-cases (address_64_bit_capable B (message_control B cap))) [
        | inl wide ↦
            let at : r + 12 ≡ a = rw wide at there in
            simp (wide, add8_fits r 8 (omega arith), add8_fits r 12 (omega arith), upper_word cap w)
              (rw at refl)
        | inr narrow ↦
            let at : r + 8 ≡ a = rw narrow at there in
            simp (narrow, add8_fits r 8 (omega arith)) (rw at refl)
      ]

      masks-written : (s : M.State) → write_masks B M s d a cap ≡ ok (masks_written s)
      unfolding write_masks
      masks-written s = elim (Bool-cases (per_vector_masking B (message_control B cap))) [
        | inl masks ↦ simp (masks, add8_fits a 4 (omega arith), add8_fits a 8 (omega arith)) refl
        | inr no_masks ↦ simp no_masks refl
      ]

      all-written :
          (s : M.State) (gap : address_64_bit_capable B (message_control B cap) ≡ true → a ≡ r + 12)
          → at_data B M K d place r cap ≡ a
          → write_msi_capability B M s d r cap ≡ ok (all_written s gap)
      unfolding write_msi_capability
      all-written s gap there =
          let lower_word : message_address B cap % 2 ^ 32 ≡ cap.address_lower =
            (let e = message_address_lem B cap w.lower-lt in
              let h = w.lower-lt in omega (arith, e, h)) in
          simp
            (
              lower_word,
              add8_fits r 4 (omega arith),
              add8_fits r 8 (omega arith),
              upper-written (head_written s) there,
              message_data_lem B cap w.data-lt,
            )
            (masks-written _)

    -- A capability that is written is there, and the registers beside it are those of before.
    pub written-Beside :
        (s : M.State) (r : ℕ) (cap : MsiCapability)
        → IsCapability B cap
        → HasOnly B cap
        → r + 20 < 256
        → (t : M.State) × (write_msi_capability B M s d r cap ≡ ok t)
          × (read_capability B M t d r ≡ ok cap)
          × ((q : ℕ)
              → q < 256
              → (q + 4 ≤ r) ⊎ (r + 24 ≤ q)
              → read_configuration_space M t d q ≡ read_configuration_space M s d q)
    written-Beside s r cap w only fits =
        let gap : address_64_bit_capable B (message_control B cap) ≡ true
            → at_data B M K d place r cap ≡ r + 12 =
          λ wide. rw wide refl in
        let low : r + 8 ≤ at_data B M K d place r cap = ground arith in
        let high : at_data B M K d place r cap ≤ r + 12 = ground arith in
        (
          all_written r (at_data B M K d place r cap) cap w fits low high s gap,
          all-written r (at_data B M K d place r cap) cap w fits low high s gap refl,
          read_held B M K d place _ r cap w only fits
              (all_written-Holds r (at_data B M K d place r cap) cap w fits low high s gap),
          all_written_beside r (at_data B M K d place r cap) cap w fits low high s gap,
        )

    -- On a machine that keeps what is written, a capability whose words are in their ranges and that
    -- has 0 in the words that it does not use is written without a panic, if its registers end below
    -- 256, and read again as it was.
    pub read-write_msi_capability :
        (s : M.State) (r : ℕ) (cap : MsiCapability)
        → IsCapability B cap
        → HasOnly B cap
        → r + 20 < 256
        → (t : M.State) × (write_msi_capability B M s d r cap ≡ ok t)
          × (read_capability B M t d r ≡ ok cap)
    read-write_msi_capability s r cap w only fits =
        let (t, written, again, _) = written-Beside s r cap w only fits in (t, written, again)
