-- ===== src/Render.antt =====
-- The trait `Renderer` of kernel-lib/src/render.rs, over the list of the calls of `write`;
-- `RendererMut` has the same text.
pub mod Painted
pub mod Tests
use lemola_osv.Base.{ℕ, zero, suc, ◌+◌, ◌-◌, List, [], ◌∷◌, ◌++◌, Run, ok, ◌>>=◌, add64, sub64}
use lemola_osv.Console.{Color}

pub record Vector2D : Type 0 where
  pub x : ℕ
  pub y : ℕ

-- A call of `write`.
pub record Pixel : Type 0 where
  pub x : ℕ
  pub y : ℕ
  pub color : Color

-- The loop over `x`, with `n` turns left.
pub fill_row : ℕ → ℕ → ℕ → Color → List Pixel
fill_row zero x y color = []
fill_row (suc n) x y color = record { x = x; y = y; color = color } ∷ fill_row n (x + 1) y color

-- The loop over `y`.
pub fill_rows : ℕ → Vector2D → Vector2D → ℕ → Color → Run (List Pixel)
fill_rows zero pos size y color = ok []
fill_rows (suc n) pos size y color = do
  end ← add64 pos.x size.x
  rest ← fill_rows n pos size (y + 1) color
  ok (fill_row (end - pos.x) pos.x y color ++ rest)

pub fill_rect : Vector2D → Vector2D → Color → Run (List Pixel)
fill_rect pos size color = do end ← add64 pos.y size.y; fill_rows (end - pos.y) pos size pos.y color

-- The two sides along a loop: `x` for the upper and lower side, `y` for the left and right one.
pub outline_x : ℕ → Vector2D → Vector2D → ℕ → Color → Run (List Pixel)
outline_x zero pos size x color = ok []
outline_x (suc n) pos size x color = do
  end ← add64 pos.y size.y
  last ← sub64 end 1
  rest ← outline_x n pos size (x + 1) color
  ok (record { x = x; y = pos.y; color = color } ∷ record { x = x; y = last; color = color } ∷ rest)

pub outline_y : ℕ → Vector2D → Vector2D → ℕ → Color → Run (List Pixel)
outline_y zero pos size y color = ok []
outline_y (suc n) pos size y color = do
  end ← add64 pos.x size.x
  last ← sub64 end 1
  rest ← outline_y n pos size (y + 1) color
  ok (record { x = pos.x; y = y; color = color } ∷ record { x = last; y = y; color = color } ∷ rest)

pub draw_rect_outline : Vector2D → Vector2D → Color → Run (List Pixel)
draw_rect_outline pos size color = do
  end_x ← add64 pos.x size.x
  sides ← outline_x (end_x - pos.x) pos size pos.x color
  end_y ← add64 pos.y size.y
  others ← outline_y (end_y - pos.y) pos size pos.y color
  ok (sides ++ others)
