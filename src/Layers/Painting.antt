-- ===== src/Layers/Painting.antt =====
-- `Window` of kernel-lib/src/layer.rs: its pixels and the bytes of them, and what `flush` paints. The
-- writer is its three sizes; its frame buffer is memory behind a pointer, so what is written there is
-- a list: pixels through `write`, or rows of bytes copied to an offset.
use lemola_osv.Base.{
  ℕ, zero, suc, ◌+◌, ◌-◌, min, List, [], ◌∷◌, ◌++◌, Option, none, some, Run, ok, ◌>>=◌, ◌>>◌,
  assert, unwrap, Bool, leb, ◌==◌, ◌&&◌, if◌then◌else◌, add64, sub64, mul64, length, get_elem?, set,
  take, drop, replicate,
}
use lemola_osv.Console.{Color, black}
use lemola_osv.Pixel.{PixcelFormat, pixel}
use lemola_osv.Render.{Pixel}
use lemola_osv.Layers.{Position, Window}

pub record Screen : Type 0 where
  pub horizontal_resolution : ℕ
  pub vertical_resolution : ℕ
  pub pixcels_per_scan_line : ℕ

-- A row of bytes copied into the frame buffer.
pub record Row : Type 0 where
  pub offset : ℕ
  pub bytes : List ℕ

-- The derived `==` of colours.
abbrev pub same_color : Color → Color → Bool
same_color a b = (a.r == b.r && a.g == b.g) && a.b == b.b

abbrev pub background : Option Color → Color
background none = black
background (some c) = c

-- `Window::new`
unfoldable pub new_window : ℕ → ℕ → PixcelFormat → Option Color → Position → Run Window
new_window width height handler transparent_color position = do
  cells ← mul64 width height
  bytes ← mul64 cells 4
  ok (record {
    transparent_color = transparent_color;
    rendering_handler = handler;
    buffer = replicate bytes 0;
    pixels = replicate width (replicate height (background transparent_color));
    position = position;
  })

abbrev pub width : Window → ℕ
width w = length w.pixels

unfoldable pub height : Window → Run ℕ
height w = do column ← unwrap (get_elem? w.pixels 0); ok (length column)

-- `self.pixels[x][y]`
unfoldable pub cell : Window → ℕ → ℕ → Run Color
cell w x y = do column ← unwrap (get_elem? w.pixels x); unwrap (get_elem? column y)

-- `(x + y * self.width()) * 4`
abbrev pub byte_index : ℕ → ℕ → ℕ → Run ℕ
byte_index line x y = do rows ← mul64 y line; pixels ← add64 x rows; mul64 pixels 4

-- `Window::write`
unfoldable pub write : Window → ℕ → ℕ → Color → Run Window
write w x y c = do
  column ← unwrap (get_elem? w.pixels x)
  old ← unwrap (get_elem? column y)
  let pixels = set w.pixels x (set column y c)
  index ← byte_index (length pixels) x y
  end ← add64 index 4
  assert (leb end (length w.buffer))
  ok (record w {
    pixels = pixels;
    buffer = take index w.buffer ++ (pixel w.rendering_handler c ++ drop end w.buffer);
  })

-- The loop over `x` of a window with a transparent colour, with `n` turns left.
unfoldable pub paint_cells : Window → Color → ℕ → ℕ → ℕ → Run (List Pixel)
paint_cells w transparent zero x y = ok []
paint_cells w transparent (suc n) x y = do
  dx ← sub64 x w.position.x
  dy ← sub64 y w.position.y
  color ← cell w dx dy
  rest ← paint_cells w transparent n (x + 1) y
  ok (if same_color color transparent then rest else record { x = x; y = y; color = color } ∷ rest)

-- The end of the loop over `x`.
unfoldable pub end_x : Window → Screen → Run ℕ
end_x w s = do end ← add64 w.position.x (width w); ok (min end s.pixcels_per_scan_line)

-- The end of the loop over `y`, which the source bounds by the horizontal resolution.
unfoldable pub end_y : Window → Screen → Run ℕ
end_y w s = do h ← height w; end ← add64 w.position.y h; ok (min end s.horizontal_resolution)

unfoldable pub paint_rows : Window → Screen → Color → ℕ → ℕ → Run (List Pixel)
paint_rows w s transparent zero y = ok []
paint_rows w s transparent (suc n) y = do
  end ← end_x w s
  row ← paint_cells w transparent (end - w.position.x) w.position.x y
  rest ← paint_rows w s transparent n (y + 1)
  ok (row ++ rest)

-- `flush` of a window with a transparent colour.
unfoldable pub flush_transparent : Window → Screen → Color → Run (List Pixel)
flush_transparent w s transparent = do
  end ← end_y w s
  paint_rows w s transparent (end - w.position.y) w.position.y

-- The copy of one row, of `x_end - position.x` pixels.
unfoldable pub copy_row : Window → Screen → ℕ → ℕ → Run Row
copy_row w s x_end y = do
  offset ← byte_index s.pixcels_per_scan_line w.position.x y
  pixels ← sub64 x_end w.position.x
  bytes ← mul64 pixels 4
  dy ← sub64 y w.position.y
  first ← byte_index (width w) 0 dy
  last ← byte_index (width w) pixels dy
  assert (leb first last)
  assert (leb last (length w.buffer))
  assert (last - first == bytes)
  ok (record { offset = offset; bytes = take (last - first) (drop first w.buffer) })

unfoldable pub copy_rows : Window → Screen → ℕ → ℕ → ℕ → Run (List Row)
copy_rows w s x_end zero y = ok []
copy_rows w s x_end (suc n) y = do
  row ← copy_row w s x_end y
  rest ← copy_rows w s x_end n (y + 1)
  ok (row ∷ rest)

-- `flush` of a window without one.
unfoldable pub flush_opaque : Window → Screen → Run (List Row)
flush_opaque w s = do
  y_end ← end_y w s
  x_end ← end_x w s
  copy_rows w s x_end (y_end - w.position.y) w.position.y
