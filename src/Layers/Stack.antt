-- ===== src/Layers/Stack.antt =====
-- The stack of layers of kernel-lib/src/layer.rs and its invariant.
use lemola_osv.Base.{
  ℕ, ◌<◌, ◌≡◌, ◌≢◌, ◌∙◌, refl, ap, sym, List, [], ◌∷◌, ◌++◌, none, some, true, false, ◌==◌,
  if◌then◌else◌, arith, inl, inr, Option-cases, ℕ_discrete,
}
use lemola_osv.Layers.{Window, LayerManager, get, insert, position, remove, hide, set_to_top}

-- A property of every id of a stack.
abbrev pub Each : (ℕ → Type 0) → List ℕ → Type 0
Each P [] = Unit {0}
Each P (x ∷ xs) = P x × Each P xs

pub Each-imp : (P Q : ℕ → Type 0) (xs : List ℕ) → ((x : ℕ) → P x → Q x) → Each P xs → Each Q xs
Each-imp P Q [] f e = tt
Each-imp P Q (x ∷ xs) f (p, e) = (f x p, Each-imp P Q xs f e)

pub Each-append : (P : ℕ → Type 0) (xs ys : List ℕ) → Each P xs → Each P ys → Each P (xs ++ ys)
Each-append P [] ys e f = f
Each-append P (x ∷ xs) ys (p, e) f = (p, Each-append P xs ys e f)

abbrev pub NotIn : ℕ → List ℕ → Type 0
NotIn x = Each (λ y. x ≢ y)

-- No id stands twice in the stack.
abbrev pub Once : List ℕ → Type 0
Once [] = Unit {0}
Once (x ∷ xs) = NotIn x xs × Once xs

-- The stack without an id.
abbrev pub without : ℕ → List ℕ → List ℕ
without id [] = []
without id (x ∷ xs) = if x == id then without id xs else x ∷ without id xs

pub Each-without : (P : ℕ → Type 0) (id : ℕ) (xs : List ℕ) → Each P xs → Each P (without id xs)
Each-without P id [] e = tt
Each-without P id (x ∷ xs) (p, e) =
    let rest = Each-without P id xs e in
    elim (x == id) as (λ b. Each P (if b then without id xs else x ∷ without id xs)) [
      | true ↦ rest
      | false ↦ (p, rest)
    ]

pub Once-without : (id : ℕ) (xs : List ℕ) → Once xs → Once (without id xs)
Once-without id [] o = tt
Once-without id (x ∷ xs) (fresh, o) =
    let rest = Once-without id xs o in
    elim (x == id) as (λ b. Once (if b then without id xs else x ∷ without id xs)) [
      | true ↦ rest
      | false ↦ (Each-without (λ y. x ≢ y) id xs fresh, rest)
    ]

pub NotIn-without : (id : ℕ) (xs : List ℕ) → NotIn id (without id xs)
NotIn-without id [] = tt
NotIn-without id (x ∷ xs) =
    let rest = NotIn-without id xs in
    elim (ℕ_discrete x id) [
      | yes h ↦ let e : (x == id) ≡ true = ground arith in rw e rest
      | no h ↦ let e : (x == id) ≡ false = ground arith in rw e ((λ k. h (sym k)), rest)
    ]

without-absent : (id : ℕ) (xs : List ℕ) → NotIn id xs → without id xs ≡ xs
without-absent id [] e = refl
without-absent id (x ∷ xs) (h, e) =
    let differs : (x == id) ≡ false = ground arith in
    rw differs (ap (λ r. x ∷ r) (without-absent id xs e))

-- What `hide` does to the stack.
hidden : List ℕ → ℕ → List ℕ
hidden xs id = elim (position xs id) [ none ↦ xs | some i ↦ remove xs i ]

hidden-eq-without : (id : ℕ) (xs : List ℕ) → Once xs → hidden xs id ≡ without id xs
unfolding hidden position remove
hidden-eq-without id [] o = refl
hidden-eq-without id (x ∷ xs) (fresh, o) =
    let rest = hidden-eq-without id xs o in
    elim (ℕ_discrete x id) [
      | yes h ↦
          let e : (x == id) ≡ true = ground arith in
          ground (arith, e, without-absent id xs (rw h at fresh))
      | no h ↦
          let e : (x == id) ≡ false = ground arith in
          elim (Option-cases (position xs id)) [
            | inl gone ↦ ground (arith, e, gone, rest)
            | inr (i, found) ↦ ground (arith, e, found, rest)
          ]
    ]

-- `hide` takes the id out of the stack and changes nothing else.
pub hide_lem :
    (m : LayerManager) (id : ℕ)
    → Once m.layer_stack
    → hide m id ≡ record m { layer_stack = without id m.layer_stack }
unfolding hide hidden
hide_lem m id o =
    let e = hidden-eq-without id m.layer_stack o in
    elim (Option-cases (position m.layer_stack id)) [
      | inl gone ↦ ground (arith, gone, e)
      | inr (i, found) ↦ ground (arith, found, e)
    ]

-- `set_to_top` moves the id to the end of the stack and keeps the order of the others.
pub set_to_top_lem :
    (m : LayerManager) (id : ℕ)
    → Once m.layer_stack
    → set_to_top m id ≡ record m { layer_stack = without id m.layer_stack ++ id ∷ [] }
unfolding set_to_top
set_to_top_lem m id o = rw (hide_lem m id o) refl

-- There is a layer with that id.
abbrev pub Known : List (ℕ × Window) → ℕ → Type 0
Known layers id = (w : Window) × (get layers id ≡ some w)

pub record IsStack (m : LayerManager) : Type 0 where
  pub once : Once m.layer_stack
  pub known : Each (Known m.layers) m.layer_stack
  pub below : (id : ℕ) (w : Window) → get m.layers id ≡ some w → id < m.latest_unused_id

pub get-insert_self :
    (layers : List (ℕ × Window)) (id : ℕ) (w : Window) → get (insert layers id w) id ≡ some w
get-insert_self [] id w = ground arith
get-insert_self ((k, v) ∷ rest) id w = ground (arith, get-insert_self rest id w)

pub get-insert_ne :
    (layers : List (ℕ × Window)) (id other : ℕ) (w : Window)
    → id ≢ other
    → get (insert layers id w) other ≡ get layers other
get-insert_ne [] id other w h = ground arith
get-insert_ne ((k, v) ∷ rest) id other w h = ground (arith, get-insert_ne rest id other w h)

pub Known-insert :
    (layers : List (ℕ × Window)) (id other : ℕ) (w : Window)
    → Known layers other
    → Known (insert layers id w) other
Known-insert layers id other w (v, held) = elim (ℕ_discrete id other) [
  | yes h ↦ (w, rw h (get-insert_self layers other w))
  | no h ↦ (v, get-insert_ne layers id other w h ∙ held)
]

pub Known-new : (layers : List (ℕ × Window)) (id : ℕ) (w : Window) → Known (insert layers id w) id
Known-new layers id w = (w, get-insert_self layers id w)

-- An inserted layer is the only new one.
pub below-insert :
    (layers : List (ℕ × Window)) (n id : ℕ) (w : Window)
    → id < n
    → ((k : ℕ) (v : Window) → get layers k ≡ some v → k < n)
    → (k : ℕ) (v : Window) → get (insert layers id w) k ≡ some v
    → k < n
below-insert layers n id w h below k v held = elim (ℕ_discrete id k) [
  | yes e ↦ omega arith
  | no ne ↦ below k v (sym (get-insert_ne layers id k w ne) ∙ held)
]
