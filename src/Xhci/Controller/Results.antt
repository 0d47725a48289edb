-- ===== src/Xhci/Controller/Results.antt =====
-- Reasoning about the result of a run of kernel/src/xhci/controller.rs, step by step.
use lemola_osv.Base.{
  ◌≡◌, refl, sym, Option, none, some, Run, ok, panic, Bool, true, false, if◌then◌else◌,
}
use lemola_osv.Xhci.Controller.{Outcome, done, panics, hangs, no_fuel, ◌>>=◌, run}

-- A property of the result, if there is one.
pub record On {A : Type 0} (P : A → Type 0) (m : Outcome A) : Type 0 where
  pub result : (a : A) → m ≡ done a → P a

pub On->>= :
    {A B : Type 0} {P : A → Type 0} {Q : B → Type 0} {m : Outcome A} {f : A → Outcome B}
    → On P m
    → ((a : A) → P a → On Q (f a))
    → On Q (m >>= f)
On->>= {m = done a} p step = step a (p.result a refl)
On->>= {m = panics} p step = record { result = λ b e. cc }
On->>= {m = hangs} p step = record { result = λ b e. cc }
On->>= {m = no_fuel} p step = record { result = λ b e. cc }

-- A step of which only the result matters.
pub On-step :
    {A B : Type 0} {Q : B → Type 0} (m : Outcome A) {f : A → Outcome B}
    → ((a : A) → On Q (f a))
    → On Q (m >>= f)
On-step (done a) step = step a
On-step panics step = record { result = λ b e. cc }
On-step hangs step = record { result = λ b e. cc }
On-step no_fuel step = record { result = λ b e. cc }

pub On-run :
    {A B : Type 0} {Q : B → Type 0} (m : Run A) {f : A → Outcome B}
    → ((a : A) → m ≡ ok a → On Q (f a))
    → On Q (run m >>= f)
On-run (ok a) step = step a refl
On-run panic step = record { result = λ b e. cc }

pub On-done : {A : Type 0} {P : A → Type 0} {a : A} → P a → On P (done a)
On-done {a = a} p = record { result = λ b e. (let same : a ≡ b = cc in rw (sym same) p) }

pub On-panics : {A : Type 0} {P : A → Type 0} → On P panics
On-panics = record { result = λ b e. cc }

pub On-hangs : {A : Type 0} {P : A → Type 0} → On P hangs
On-hangs = record { result = λ b e. cc }

pub On-if :
    {A : Type 0} {P : A → Type 0} (b : Bool) {x y : Outcome A}
    → On P x
    → On P y
    → On P (if b then x else y)
On-if true p q = p
On-if false p q = q

pub On-Option :
    {A B : Type 0} {Q : B → Type 0} (o : Option A) {x : Outcome B} {f : A → Outcome B}
    → (o ≡ none → On Q x)
    → ((a : A) → o ≡ some a → On Q (f a))
    → On Q (elim o [ none ↦ x | some a ↦ f a ])
On-Option none none_case some_case = none_case refl
On-Option (some a) none_case some_case = some_case a refl
