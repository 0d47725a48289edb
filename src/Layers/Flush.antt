-- ===== src/Layers/Flush.antt =====
-- `flush` of a window and of the manager of kernel-lib/src/layer.rs.
use lemola_osv.Base.{ℕ, List, [], ◌∷◌, none, some, Run, ok, ◌>>=◌, unwrap}
use lemola_osv.Render.{Pixel}
use lemola_osv.Layers.{Window, LayerManager, get}
use lemola_osv.Layers.Painting.{Screen, Row, flush_transparent, flush_opaque}

-- What one window puts on the screen: pixels through `write`, or rows of bytes.
pub data Painted : Type 0 where
  written : List Pixel → Painted
  copied : List Row → Painted

-- `Window::flush`
unfoldable pub flush_window : Screen → Window → Run Painted
flush_window s w = elim w.transparent_color [
  | none ↦ do rows ← flush_opaque w s; ok (copied rows)
  | some transparent ↦ do pixels ← flush_transparent w s transparent; ok (written pixels)
]

unfoldable pub flush_stack : Screen → List (ℕ × Window) → List ℕ → Run (List Painted)
flush_stack s layers [] = ok []
flush_stack s layers (id ∷ ids) = do
  w ← unwrap (get layers id)
  painted ← flush_window s w
  rest ← flush_stack s layers ids
  ok (painted ∷ rest)

-- `LayerManager::flush`; the screen is the manager's writer.
unfoldable pub flush : Screen → LayerManager → Run (List Painted)
flush s m = flush_stack s m.layers m.layer_stack
