-- ===== src/Console.antt =====
-- The text console `Writer` of kernel-lib/src/lib.rs: a buffer of `n_row` rows of `n_column`
-- characters, a cursor, and the glyphs drawn. Characters are code points. The pixel writer behind
-- the trait `AsciiWriter` is seen as the list of the `write_ascii` calls made.
pub mod Flush
pub mod Scroll
pub mod Text
pub mod Pictures
pub mod Typing
pub mod Wrapping
pub mod Strings
mod Tests
use lemola_osv.Base.{
  ℕ, zero, suc, ◌+◌, ◌-◌, List, [], ◌∷◌, ◌++◌, Run, ok, ◌>>=◌, ◌>>◌, assert, unwrap, true, false,
  ltb, ◌==◌, ◌&&◌, if◌then◌else◌, add64, sub64, mul64, length, get_elem?, set, replicate,
}

pub record Color : Type 0 where
  pub r : ℕ
  pub g : ℕ
  pub b : ℕ

abbrev pub black : Color
black = record { r = 0; g = 0; b = 0 }

abbrev pub white : Color
white = record { r = 255; g = 255; b = 255 }

-- A call of `write_ascii`.
pub record Glyph : Type 0 where
  pub x : ℕ
  pub y : ℕ
  pub c : ℕ
  pub bg_color : Color
  pub fg_color : Color

pub record Writer : Type 0 where
  pub x : ℕ
  pub y : ℕ
  pub background_color : Color
  pub foreground_color : Color
  pub buffer : List (List ℕ)
  pub drawn : List Glyph

-- '\n' and ' '
abbrev pub newline : ℕ
newline = 10

abbrev pub space : ℕ
space = 32

-- `for y in y..y + n { self.buffer[y] = self.buffer[y + dy] }`
pub copy_rows : ℕ → ℕ → ℕ → List (List ℕ) → Run (List (List ℕ))
copy_rows zero y dy buffer = ok buffer
copy_rows (suc n) y dy buffer = do
  from ← add64 y dy
  row ← unwrap (get_elem? buffer from)
  old ← unwrap (get_elem? buffer y)
  copy_rows n (y + 1) dy (set buffer y row)

-- `for y in y..y + n { self.buffer[y] = [' '; N_COLUMN] }`, `blank` being the new row.
pub clear_rows : List ℕ → ℕ → ℕ → List (List ℕ) → Run (List (List ℕ))
clear_rows blank zero y buffer = ok buffer
clear_rows blank (suc n) y buffer = do
  old ← unwrap (get_elem? buffer y)
  clear_rows blank n (y + 1) (set buffer y blank)

module _ (bg_color fg_color : Color) where
  -- The inner loop of `flush`, with `n` rounds left.
  pub flush_cells : ℕ → ℕ → ℕ → List ℕ → Run (List Glyph)
  flush_cells zero x y row = ok []
  flush_cells (suc n) x y row = do
    px ← mul64 x 8
    py ← mul64 y 16
    c ← unwrap (get_elem? row x)
    rest ← flush_cells n (x + 1) y row
    ok (record { x = px; y = py; c = c; bg_color = bg_color; fg_color = fg_color } ∷ rest)

  -- The outer loop of `flush`, with `n` rounds left.
  pub flush_rows : ℕ → ℕ → ℕ → List (List ℕ) → Run (List Glyph)
  flush_rows n_column zero y buffer = ok []
  flush_rows n_column (suc n) y buffer = do
    row ← unwrap (get_elem? buffer y)
    cells ← flush_cells n_column 0 y row
    rest ← flush_rows n_column n (y + 1) buffer
    ok (cells ++ rest)

module _ (n_row n_column : ℕ) where
  abbrev pub blank : List ℕ
  blank = replicate n_column space

  unfoldable pub new : Writer
  new = record {
    x = 0;
    y = 0;
    background_color = black;
    foreground_color = white;
    buffer = replicate n_row blank;
    drawn = [];
  }

  pub store : Writer → ℕ → Run Writer
  store w c = do
    row ← unwrap (get_elem? w.buffer w.y)
    assert (ltb w.x (length row))
    ok (record w { buffer = set w.buffer w.y (set row w.x c) })

  pub scroll : Writer → ℕ → Run Writer
  scroll w dy = do
    top ← sub64 n_row dy
    copied ← copy_rows top 0 dy w.buffer
    cleared ← clear_rows blank (n_row - top) top copied
    y ← sub64 w.y dy
    ok (record w { buffer = cleared; y = y; x = 0 })

  pub flush : Writer → Run Writer
  flush w = do
    glyphs ← flush_rows w.background_color w.foreground_color n_column n_row 0 w.buffer
    ok (record w { drawn = w.drawn ++ glyphs })

  -- `CursorPosition::just_new_line`
  just_new_line : Writer → Run Writer
  just_new_line w = do y ← add64 w.y 1; ok (record w { x = 0; y = y })

  pub new_line : Writer → Run Writer
  unfolding just_new_line
  new_line w = do w' ← (if ltb w.y n_row then just_new_line w else scroll w 1); flush w'

  -- `self.store(c); self.position.x += 1;`
  pub store_next : Writer → ℕ → Run Writer
  store_next w c = do w' ← store w c; x ← add64 w'.x 1; ok (record w' { x = x })

  -- The last branch of `put_char`: the row is full, or the cursor is below the last row.
  pub wrap_char : Writer → ℕ → Run Writer
  wrap_char w c = do
    w1 ← new_line w
    w2 ← (if w1.y == n_row then scroll w1 1 else ok w1)
    store_next w2 c

  pub put_char : Writer → ℕ → Run Writer
  put_char w c =
      if c == newline
      then new_line w
      else if ltb w.x n_column && ltb w.y n_row
      then store_next w c
      else wrap_char w c

  pub put_string : Writer → List ℕ → Run Writer
  put_string w [] = ok w
  put_string w (c ∷ s) = do w' ← put_char w c; put_string w' s
