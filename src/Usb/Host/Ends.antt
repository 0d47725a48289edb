-- ===== src/Usb/Host/Ends.antt =====
-- How a step of a class driver ends: kernel/src/usb/class_driver.rs and hub.rs beside it.
use lemola_osv.Base.{◌≡◌, refl, Bool, true, false, Run, ok, panic}
use lemola_osv.Usb.Host.{TransferError, Outcome, done, fails, panics, Step, ◌>>=◌, ◌>>◌, check, run}

-- What holds of the value and the state at the end, and of the error and the state.
abbrev pub Ends :
    {S A : Type 0} → (A → S → Type 0) → (TransferError → S → Type 0) → Outcome S A → Type 0
Ends P Q (done a s) = P a s
Ends P Q (fails e s) = Q e s
Ends P Q panics = Unit {0}

-- A step that ends so, and what follows it.
pub Ends-bind :
    {S A B : Type 0} (P : A → S → Type 0) (P' Q : TransferError → S → Type 0) (R : B → S → Type 0)
    (f : A → Step S B) (o : Outcome S A)
    → Ends P P' o
    → ((a : A) (s : S) → P a s → Ends R Q (f a s))
    → ((e : TransferError) (s : S) → P' e s → Q e s)
    → Ends R Q (elim o [ done a s ↦ f a s | fails e s ↦ fails e s | panics ↦ panics ])
Ends-bind P P' Q R f (done a s) h k refused = k a s h
Ends-bind P P' Q R f (fails e s) h k refused = refused e s h
Ends-bind P P' Q R f panics h k refused = tt

-- A test, which panics if it does not hold.
pub Ends-check :
    {S B : Type 0} (Q : TransferError → S → Type 0) (R : B → S → Type 0) (f : Step S B) (t : Bool)
    (s : S)
    → (t ≡ true → Ends R Q (f s))
    → Ends R Q (◌>>◌ (check t) f s)
Ends-check Q R f true s k = k refl
Ends-check Q R f false s k = tt

-- Code that may panic.
pub Ends-run :
    {S A B : Type 0} (Q : TransferError → S → Type 0) (R : B → S → Type 0) (f : A → Step S B)
    (m : Run A) (s : S)
    → ((a : A) → m ≡ ok a → Ends R Q (f a s))
    → Ends R Q (◌>>=◌ (run m) f s)
Ends-run Q R f (ok a) s k = k a refl
Ends-run Q R f panic s k = tt
