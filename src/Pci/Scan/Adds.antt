-- ===== src/Pci/Scan/Adds.antt =====
-- A list that has the elements of another and those of a predicate, in any order.
use mathlib.Core.List.{Memᴰ}
use mathlib.Core.List.Memᴰ
use mathlib.Core.Logic.{⊎_elim}
use lemola_osv.Base.{List, [], ◌∷◌, ◌++◌, ◌≡◌, ◌⊎◌, inl, inr, ◌↔◌, sym}

module _ {A : Type 0} where
  abbrev pub Adds : List A → List A → (A → Type 0) → Type 0
  Adds xs out P = (x : A) → Memᴰ x out ↔ (Memᴰ x xs ⊎ P x)

  pub Adds-nothing : (xs : List A) (P : A → Type 0) → ((x : A) → ¬ P x) → Adds xs xs P
  Adds-nothing xs P not_P x = (inl, ⊎_elim (λ m. m) (λ p. absurd (not_P x p)))

  pub Adds-one : (xs : List A) (a : A) → Adds xs (xs ++ a ∷ []) (λ x. a ≡ x)
  Adds-one xs a x = (
    λ m. ⊎_elim inl (λ last. inr (sym (Memᴰ.eq_of_singleton last))) (Memᴰ.append_cases xs m),
    ⊎_elim (Memᴰ.append_left _) (λ e. Memᴰ.append_right xs (Memᴰ.head (sym e))),
  )

  pub Adds-trans :
      (xs ys zs : List A) (P Q R : A → Type 0)
      → ((x : A) → (P x ⊎ Q x) ↔ R x)
      → Adds xs ys P
      → Adds ys zs Q
      → Adds xs zs R
  Adds-trans xs ys zs P Q R both p q x = (
    λ m.
        ⊎_elim (λ in_ys. ⊎_elim inl (λ px. inr ((both x).0 (inl px))) ((p x).0 in_ys))
          (λ qx. inr ((both x).0 (inr qx))) ((q x).0 m),
    ⊎_elim (λ in_xs. (q x).1 (inl ((p x).1 (inl in_xs))))
        (λ rx.
          ⊎_elim (λ px. (q x).1 (inl ((p x).1 (inr px)))) (λ qx. (q x).1 (inr qx)) ((both x).1 rx)),
  )

  pub Adds-iff :
      (xs ys : List A) (P Q : A → Type 0) → ((x : A) → P x ↔ Q x) → Adds xs ys P → Adds xs ys Q
  Adds-iff xs ys P Q same p x = (
    λ m. ⊎_elim inl (λ px. inr ((same x).0 px)) ((p x).0 m),
    ⊎_elim (λ in_xs. (p x).1 (inl in_xs)) (λ qx. (p x).1 (inr ((same x).1 qx))),
  )
