-- ===== src/Usb/Table/Bag.antt =====
-- A table of kernel/src/usb/class_driver.rs as the bag of its devices.
use mathlib.Core.List.{Perm}
use mathlib.Core.List.Perm
use lemola_osv.Base.{
  suc, ◌<◌, ◌≤◌, ◌≡◌, ◌⊎◌, inl, inr, refl, ap, List, [], ◌∷◌, Option, none, some, Bool,
  if◌then◌else◌, length, arith, Bool-cases,
}
use lemola_osv.Usb.Table.{fill, clear}

module _ {A : Type 0} where
  -- The devices in their order.
  abbrev pub present : List (Option A) → List A
  present [] = []
  present (none ∷ slots) = present slots
  present (some a ∷ slots) = a ∷ present slots

  pub length-present : (slots : List (Option A)) → length (present slots) ≤ length slots
  length-present [] = omega arith
  length-present (none ∷ slots) = omega (arith, length-present slots)
  length-present (some a ∷ slots) = omega (arith, length-present slots)

  -- A bag without the first of its members that has the property.
  abbrev pub without : (A → Bool) → List A → List A
  without test [] = []
  without test (a ∷ xs) = if test a then xs else a ∷ without test xs

  -- A device goes into a free slot; without one, the table is full.
  pub fill-present :
      (a : A) (slots : List (Option A))
      → ((fill a slots ≡ none) × (length (present slots) ≡ length slots))
        ⊎ ((slots' : List (Option A)) × (fill a slots ≡ some slots')
            × (length slots' ≡ length slots)
            × (length (present slots) < length slots)
            × Perm (present slots') (a ∷ present slots))
  unfolding fill
  fill-present a [] = inl (refl, refl)
  fill-present a (none ∷ slots) =
      inr (some a ∷ slots, refl, refl, omega (arith, length-present slots), Perm.refl _)
  fill-present a (some b ∷ slots) = elim (fill-present a slots) [
    | inl (full, size) ↦ inl (rw full refl, omega arith)
    | inr (slots', there, size, less, same) ↦ inr (
      some b ∷ slots',
      rw there refl,
      omega arith,
      omega arith,
      Perm.trans (Perm.cons b same) (Perm.swap a b (present slots)),
    )
  ]

  pub length-clear :
      (test : A → Bool) (slots : List (Option A)) → length (clear test slots) ≡ length slots
  unfolding clear
  length-clear test [] = refl
  length-clear test (none ∷ slots) = ap suc (length-clear test slots)
  length-clear test (some b ∷ slots) = elim (Bool-cases (test b)) [
    | inl gone ↦ rw gone refl
    | inr stays ↦ rw stays (ap suc (length-clear test slots))
  ]

  pub clear-present :
      (test : A → Bool) (slots : List (Option A))
      → present (clear test slots) ≡ without test (present slots)
  unfolding clear
  clear-present test [] = refl
  clear-present test (none ∷ slots) = clear-present test slots
  clear-present test (some b ∷ slots) = elim (Bool-cases (test b)) [
    | inl gone ↦ rw gone refl
    | inr stays ↦ rw stays (ap (λ r. b ∷ r) (clear-present test slots))
  ]
