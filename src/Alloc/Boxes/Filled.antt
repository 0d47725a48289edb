-- ===== src/Alloc/Boxes/Filled.antt =====
-- The loop of kernel-lib/src/allocator.rs that writes default values.
use mathlib.Core.List.{append_assoc}
use lemola_osv.Base.{
  ℕ, zero, suc, ◌+◌, ◌≡◌, refl, ap, List, [], ◌∷◌, ◌++◌, Option, none, some, ok, get_elem?, set,
  replicate, length, length-append, arith,
}
use lemola_osv.Alloc.Boxes.{write_defaults, assume_init, filled}
use lemola_osv.Alloc.Api.{BoundaryAlloc}

module _ {ℓ} {T : Type ℓ} where
  at_end :
      (done rest : List (Option T)) (v : Option T)
      → get_elem? (done ++ v ∷ rest) (length done) ≡ some v
  at_end [] rest v = refl
  at_end (x ∷ done) rest v = at_end done rest v

  set_end :
      (done rest : List (Option T)) (v u : Option T)
      → set (done ++ v ∷ rest) (length done) u ≡ done ++ u ∷ rest
  set_end [] rest v u = refl
  set_end (x ∷ done) rest v u = ap (◌∷◌ x) (set_end done rest v u)

  module _ (A : BoundaryAlloc) where
    written :
        (n : ℕ) (done : List (Option T)) (default : T)
        → write_defaults A n (length done) default (done ++ replicate n none)
          ≡ ok (done ++ replicate n (some default))
    unfolding write_defaults
    written zero done default = refl
    written (suc n) done default =
        let next : length done + 1 ≡ length (done ++ some default ∷ []) =
          omega (arith, length-append done (some default ∷ [])) in
        rw
          (
            at_end done (replicate n none) none,
            set_end done (replicate n none) none (some default),
            next,
            ← append_assoc done (some default ∷ []) (replicate n none),
            ← append_assoc done (some default ∷ []) (replicate n (some default)),
          )
          (written n (done ++ some default ∷ []) default)

    initialised :
        (n : ℕ) (default : T)
        → assume_init A (replicate n (some default)) ≡ ok (replicate n default)
    unfolding assume_init
    initialised zero default = refl
    initialised (suc n) default = rw (initialised n default) refl

    -- Every element of the block is the default.
    pub filled_lem :
        (len p : ℕ) (default : T)
        → filled A len default (some p)
          ≡ ok (some (record { ptr = p; contents = replicate len default }))
    unfolding filled
    filled_lem len p default = rw (written len [] default, initialised len default) refl
