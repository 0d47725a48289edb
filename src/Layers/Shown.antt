-- ===== src/Layers/Shown.antt =====
-- What `flush` of the manager of kernel-lib/src/layer.rs paints: the windows of the stack in their order.
use lemola_osv.Base.{
  ℕ, ◌≡◌, refl, List, [], ◌∷◌, ◌++◌, none, some, Run, ok, panic, ◌>>=◌, map, arith, Option-cases,
  Run-cases, inl, inr,
}
use lemola_osv.Layers.{Window, get}
use lemola_osv.Layers.Painting.{Screen}
use lemola_osv.Layers.Flush.{Painted, flush_window, flush_stack}
use lemola_osv.Layers.Stack.{Each, Known}

-- Windows painted one after the other; a panic of one is a panic of all.
pub paint_windows : Screen → List Window → Run (List Painted)
paint_windows s [] = ok []
paint_windows s (w ∷ ws) = do
  painted ← flush_window s w
  rest ← paint_windows s ws
  ok (painted ∷ rest)

-- The windows of these ids.
abbrev pub AreOf : List (ℕ × Window) → List ℕ → List Window → Type 0
AreOf layers ids ws = map some ws ≡ map (get layers) ids

pub windows_of :
    (layers : List (ℕ × Window)) (ids : List ℕ)
    → Each (Known layers) ids
    → (ws : List Window) × AreOf layers ids ws
windows_of layers [] e = ([], refl)
windows_of layers (id ∷ ids) ((w, held), e) =
    let (ws, same) = windows_of layers ids e in (w ∷ ws, ground (arith, held, same))

pub AreOf-snoc :
    (layers : List (ℕ × Window)) (ids : List ℕ) (ws : List Window) (id : ℕ) (w : Window)
    → AreOf layers ids ws
    → get layers id ≡ some w
    → AreOf layers (ids ++ id ∷ []) (ws ++ w ∷ [])
AreOf-snoc layers [] [] id w same held = ground (arith, held)
AreOf-snoc layers [] (v ∷ ws) id w same held = absurd (ground (arith, same))
AreOf-snoc layers (x ∷ ids) [] id w same held = absurd (ground (arith, same))
AreOf-snoc layers (x ∷ ids) (v ∷ ws) id w same held =
    let rest = AreOf-snoc layers ids ws id w (ground (arith, same)) held in
    ground (arith, same, rest)

pub flush_stack_lem :
    (s : Screen) (layers : List (ℕ × Window)) (ids : List ℕ) (ws : List Window)
    → AreOf layers ids ws
    → flush_stack s layers ids ≡ paint_windows s ws
unfolding flush_stack paint_windows
flush_stack_lem s layers [] [] same = refl
flush_stack_lem s layers [] (v ∷ ws) same = absurd (ground (arith, same))
flush_stack_lem s layers (x ∷ ids) [] same = absurd (ground (arith, same))
flush_stack_lem s layers (x ∷ ids) (v ∷ ws) same =
    let found : get layers x ≡ some v = ground (arith, same) in
    let rest = flush_stack_lem s layers ids ws (ground (arith, same)) in rw (found, rest) refl

pub flush_unknown :
    (s : Screen) (layers : List (ℕ × Window)) (ids : List ℕ) (id : ℕ)
    → get layers id ≡ none
    → flush_stack s layers (ids ++ id ∷ []) ≡ panic
unfolding flush_stack
flush_unknown s layers [] id gone = rw gone refl
flush_unknown s layers (x ∷ ids) id gone =
    let rest = flush_unknown s layers ids id gone in
    elim (Option-cases (get layers x)) [
      | inl lost ↦ rw lost refl
      | inr (w, held) ↦ elim (Run-cases (flush_window s w)) [
        | inl (painted, run) ↦ rw (held, run, rest) refl
        | inr fails ↦ rw (held, fails) refl
      ]
    ]
