-- ===== src/Layers/PaintTests.antt =====
-- A small window on a small screen, for the theorems on the painting of kernel-lib/src/layer.rs.
use lemola_osv.Base.{
  ℕ, zero, suc, ◌+◌, ◌*◌, ◌<◌, ◌≡◌, ◌≢◌, ◌⊎◌, min, refl, List, [], ◌∷◌, Option, none, some, Run, ok,
  panic, Bool, ltb, leb, ◌&&◌, if◌then◌else◌, length, drop, take, replicate, arith,
}
use lemola_osv.Console.{Color, black, white}
use lemola_osv.Pixel.{rgb}
use lemola_osv.Render.{Pixel}
use lemola_osv.Render.Painted.{painted}
use lemola_osv.Layers.{Window}
use lemola_osv.Layers.Painting.{Screen, flush_transparent, flush_opaque}
use lemola_osv.Layers.Transparent.{IsWindow, seen, flush_transparent_lem}
use lemola_osv.Layers.Opaque.{rows_from, flush_opaque_lem}

-- Two columns of two pixels, at column `x` of the second line.
abbrev win : ℕ → Window
win x = record {
  transparent_color = none;
  rendering_handler = rgb;
  buffer = replicate 16 0;
  pixels = (black ∷ white ∷ []) ∷ (white ∷ black ∷ []) ∷ [];
  position = record { x = x; y = 1 };
}

abbrev screen : Screen
screen = record { horizontal_resolution = 4; vertical_resolution = 2; pixcels_per_scan_line = 4 }

win-IsWindow : (x : ℕ) → IsWindow (win x) 2
win-IsWindow x = record { some_column = omega arith; columns = two_columns }
  where
    two_columns :
        (i : ℕ)
        → i < 2
        → (column : List Color) × (lemola_osv.Base.get_elem?
              ((black ∷ white ∷ []) ∷ (white ∷ black ∷ []) ∷ [])
              i
            ≡ some column)
          × (length column ≡ 2)
    two_columns zero h = (black ∷ white ∷ [], refl, refl)
    two_columns (suc zero) h = (white ∷ black ∷ [], refl, refl)
    two_columns (suc (suc i)) h = absurd (omega arith)

flush_transparent_lem_example :
    (ps : List Pixel) × (flush_transparent (win 3) screen black ≡ ok ps)
    × ((x y : ℕ)
        → painted ps x y
          ≡ (if (leb 3 x && ltb x 4) && (leb 1 y && ltb y 3) then seen (win 3) black x y else none))
flush_transparent_lem_example =
    flush_transparent_lem (win 3) 2 screen black (win-IsWindow 3) (omega arith) (omega arith)

flush_opaque_lem_example : flush_opaque (win 3) screen ≡ ok (rows_from (win 3) screen 1 2 1)
flush_opaque_lem_example =
    flush_opaque_lem (win 3) 2 screen (win-IsWindow 3) refl (omega arith) (omega arith)
      (omega arith) (omega arith) (omega arith) (omega arith)
