-- ===== src/Usb/Table.antt =====
-- The tables of devices of kernel/src/usb/class_driver.rs and hub.rs beside it: slots that are free or
-- hold a device.
pub mod Bag
use lemola_osv.Base.{List, [], ◌∷◌, Option, none, some, Bool, true, false, if◌then◌else◌}

module _ {A : Type 0} where
  -- `find(|d| d.is_none())` and the write to what it finds.
  unfoldable pub fill : A → List (Option A) → Option (List (Option A))
  fill a [] = none
  fill a (none ∷ slots) = some (some a ∷ slots)
  fill a (some b ∷ slots) = elim (fill a slots) [
    | none ↦ none
    | some slots' ↦ some (some b ∷ slots')
  ]

  -- `find` for a device with the property, and the write of `None`.
  unfoldable pub clear : (A → Bool) → List (Option A) → List (Option A)
  clear test [] = []
  clear test (none ∷ slots) = none ∷ clear test slots
  clear test (some b ∷ slots) =
      let rest = clear test slots in if test b then none ∷ slots else some b ∷ rest

  -- `find` alone.
  unfoldable pub find : (A → Bool) → List (Option A) → Option A
  find test [] = none
  find test (none ∷ slots) = find test slots
  find test (some b ∷ slots) = let rest = find test slots in if test b then some b else rest
