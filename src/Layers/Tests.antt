-- ===== src/Layers/Tests.antt =====
-- Tests of the layers of kernel-lib/src/layer.rs.
use lemola_osv.Base.{ℕ, ◌≡◌, refl, List, [], ◌∷◌, ◌++◌, none, some, ok, panic}
use lemola_osv.Layers.{Window, LayerManager, new, new_layer, set_to_top}
use lemola_osv.Layers.Painting.{Screen}
use lemola_osv.Layers.Flush.{flush}
use lemola_osv.Layers.Shown.{paint_windows, AreOf}
use lemola_osv.Console.{black, white}
use lemola_osv.Pixel.{rgb}
use lemola_osv.Layers.Stack.{IsStack, without}
use lemola_osv.Layers.History.{
  adds, Reach, begins, steps, history-IsStack, set_to_top_unknown, raised_on_top,
}

abbrev window : ℕ → Window
window n = record {
  transparent_color = none;
  rendering_handler = rgb;
  buffer = 0 ∷ 0 ∷ 0 ∷ 0 ∷ [];
  pixels = (black ∷ []) ∷ [];
  position = record { x = n; y = n };
}

abbrev glass : ℕ → Window
glass n = record (window n) { transparent_color = some white }

abbrev one : LayerManager
one = record { layer_stack = 0 ∷ []; layers = (0, window 5) ∷ []; latest_unused_id = 1 }

abbrev two : LayerManager
two = record {
  layer_stack = 1 ∷ 0 ∷ [];
  layers = (0, window 5) ∷ (1, glass 6) ∷ [];
  latest_unused_id = 2;
}

one_made : new_layer (new 0) (window 5) ≡ ok (0, one)
unfolding new_layer
one_made = refl

two-Reach : Reach 0 two
unfolding new_layer
two-Reach = steps (steps begins (adds (window 5) 0 one_made)) (adds (glass 6) 1 refl)

history-IsStack_example : IsStack two
history-IsStack_example = history-IsStack 0 two two-Reach

abbrev screen : Screen
screen = record {
  horizontal_resolution = 640;
  vertical_resolution = 480;
  pixcels_per_scan_line = 640;
}

set_to_top_unknown_example : flush screen (set_to_top two 7) ≡ panic
set_to_top_unknown_example = set_to_top_unknown 0 two 7 screen two-Reach refl

raised_on_top_example :
    (ws : List Window) × AreOf two.layers (without 1 two.layer_stack) ws
    × (flush screen (set_to_top two 1) ≡ paint_windows screen (ws ++ glass 6 ∷ []))
raised_on_top_example = raised_on_top 0 two 1 (glass 6) screen two-Reach refl
