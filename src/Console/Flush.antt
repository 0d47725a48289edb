-- ===== src/Console/Flush.antt =====
-- `Writer::flush` of kernel-lib/src/lib.rs: what it draws.
use native.Mathlib.Numerals.{add-one}
use lemola_osv.Base.{
  ℕ, zero, suc, ◌+◌, ◌*◌, ◌<◌, ◌≡◌, refl, List, some, [], ◌∷◌, ◌++◌, ok, word, arith, length,
  get_elem?, drop,
}
use lemola_osv.Console.{Color, Glyph, Writer, flush_cells, flush_rows, flush}

-- Every row is an array of `n` characters.
abbrev pub AllRows : ℕ → List (List ℕ) → Type 0
AllRows n [] = Unit {0}
AllRows n (row ∷ rows) = (length row ≡ n) × AllRows n rows

get_elem?-drop {ℓ} :
    {A : Type ℓ} (x : ℕ) (row : List A) (c : A) (rest : List A)
    → drop x row ≡ c ∷ rest
    → (get_elem? row x ≡ some c) × (drop (suc x) row ≡ rest)
get_elem?-drop zero [] c rest e = absurd (cc)
get_elem?-drop (suc x) [] c rest e = absurd (cc)
get_elem?-drop zero (a ∷ row) c rest e = (cc, cc)
get_elem?-drop (suc x) (a ∷ row) c rest e = get_elem?-drop x row c rest e

module _ (bg fg : Color) where
  -- The glyphs of a row of characters from column `x` on: cells of 8 by 16 pixels.
  pub row_glyphs : ℕ → ℕ → List ℕ → List Glyph
  row_glyphs x y [] = []
  row_glyphs x y (c ∷ row) =
      record { x = x * 8; y = y * 16; c = c; bg_color = bg; fg_color = fg }
      ∷ row_glyphs (x + 1) y row

  pub buffer_glyphs : ℕ → List (List ℕ) → List Glyph
  unfolding row_glyphs
  buffer_glyphs y [] = []
  buffer_glyphs y (row ∷ rows) = row_glyphs 0 y row ++ buffer_glyphs (y + 1) rows

  flush_cells-eq-row_glyphs :
      (part : List ℕ) (x y : ℕ) (row : List ℕ)
      → drop x row ≡ part
      → (x + length part) * 8 < word
      → y * 16 < word
      → flush_cells bg fg (length part) x y row ≡ ok (row_glyphs x y part)
  unfolding flush_cells row_glyphs
  flush_cells-eq-row_glyphs [] x y row e hx hy = refl
  flush_cells-eq-row_glyphs (c ∷ part) x y row e hx hy =
      let step = get_elem?-drop x row c part e in
      let rest =
        flush_cells-eq-row_glyphs part (x + 1) y row (rw add-one step.1) (omega arith) hy in
      ground (arith, step.0, rest)

  flush_rows-eq-buffer_glyphs :
      (part : List (List ℕ)) (n_column y : ℕ) (buffer : List (List ℕ))
      → drop y buffer ≡ part
      → AllRows n_column part
      → n_column * 8 < word
      → (y + length part) * 16 < word
      → flush_rows bg fg n_column (length part) y buffer ≡ ok (buffer_glyphs y part)
  unfolding flush_rows buffer_glyphs
  flush_rows-eq-buffer_glyphs [] n y buffer e a hx hy = refl
  flush_rows-eq-buffer_glyphs (row ∷ part) n y buffer e a hx hy =
      let step = get_elem?-drop y buffer row part e in
      let cells = flush_cells-eq-row_glyphs row 0 y row refl (omega (arith, a.0)) (omega arith) in
      let rest =
        flush_rows-eq-buffer_glyphs part n (y + 1) buffer (rw add-one step.1) a.1 hx
          (omega arith) in
      ground (arith, step.0, rw a.0 at cells, rest)

-- `flush` changes neither text nor cursor and does not panic: it draws every character of the buffer,
-- row by row, in the writer's colours, each in its own cell of 8 by 16 pixels.
pub flush_lem :
    (n_row n_column : ℕ) (w : Writer)
    → length w.buffer ≡ n_row
    → AllRows n_column w.buffer
    → n_column * 8 < word
    → n_row * 16 < word
    → flush n_row n_column w
      ≡ ok (record w {
        drawn = w.drawn ++ buffer_glyphs w.background_color w.foreground_color 0 w.buffer;
      })
unfolding flush
flush_lem n_row n_column w e a hx hy =
    let rows =
      flush_rows-eq-buffer_glyphs w.background_color w.foreground_color w.buffer n_column 0 w.buffer
        refl a hx (omega arith) in
    ground (arith, rw e at rows)
