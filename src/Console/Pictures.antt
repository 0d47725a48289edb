-- ===== src/Console/Pictures.antt =====
-- The pictures that typing on the console of kernel-lib/src/lib.rs draws, given by the text typed so
-- far and the row of the cursor.
use mathlib.Core.List.{append-nil, append_assoc}
use lemola_osv.Base.{
  ℕ, zero, suc, ◌+◌, ◌-◌, ◌<◌, ◌≡◌, ◌∙◌, refl, sym, ap, List, some, [], ◌∷◌, ◌++◌, arith, length,
  get_elem?, ltb, ◌==◌, ◌&&◌, if◌then◌else◌,
}
use lemola_osv.Console.{Color, Glyph, Writer, newline}
use lemola_osv.Console.Flush.{buffer_glyphs}
use lemola_osv.Console.Text.{Text, Holds, line, type_char}

-- The rows `f i`, …, `f (i + n - 1)`.
rows_of : (ℕ → List ℕ) → ℕ → ℕ → List (List ℕ)
rows_of f zero i = []
rows_of f (suc n) i = f i ∷ rows_of f n (i + 1)

rows_of_lem :
    (f : ℕ → List ℕ) (rows : List (List ℕ)) (i : ℕ)
    → ((k : ℕ) → k < length rows → get_elem? rows k ≡ some (f (i + k)))
    → rows ≡ rows_of f (length rows) i
unfolding rows_of
rows_of_lem f [] i h = refl
rows_of_lem f (row ∷ rows) i h =
    let first : row ≡ f i =
      (let e = h 0 (omega arith) in
        let at : i + 0 ≡ i = omega arith in let e2 = rw at at e in ground (arith, e2)) in
    let rest =
      rows_of_lem f rows (i + 1)
        (λ k lt. let at : i + 1 + k ≡ i + suc k = omega arith in rw at (h (suc k) (omega arith))) in
    cc

module _ (n_row n_column : ℕ) where
  -- The text once a newline was fed on the screen; below it, only room is made for the row that has
  -- been started.
  abbrev pub fed : ℕ → Text → Text
  fed y t = if ltb y n_row then record { current = []; older = t.current ∷ t.older } else t

  -- The row of the cursor after a newline, and where a character finds it.
  abbrev pub row_below : ℕ → ℕ
  row_below y = if ltb y n_row then y + 1 else n_row - 1

  abbrev pub settled : ℕ → ℕ
  settled y = if y == n_row then n_row - 1 else y

  -- The row of the cursor after a character.
  unfoldable pub row_typed : ℕ → Text → ℕ → ℕ
  row_typed y t c =
      if c == newline
      then row_below y
      else if ltb (length t.current) n_column && ltb y n_row
      then y
      else settled (row_below y)

  module _ (bg_color fg_color : Color) where
    -- The whole screen with a text whose cursor is in row `y`.
    pub picture : ℕ → Text → List Glyph
    picture y t =
        buffer_glyphs bg_color fg_color 0
          (rows_of (line n_row n_column y (t.current ∷ t.older)) n_row 0)

    -- A character that stays on its row draws nothing. Any other draws the screen with the row that is
    -- started, before the character stands there.
    unfoldable pub drawn_char : ℕ → Text → ℕ → List Glyph
    drawn_char y t c =
        if c == newline
        then picture (row_below y) (fed y t)
        else if ltb (length t.current) n_column && ltb y n_row
        then []
        else picture (row_below y) (fed y t)

    unfoldable pub drawn_string : ℕ → Text → List ℕ → List Glyph
    drawn_string y t [] = []
    drawn_string y t (c ∷ s) =
        drawn_char y t c ++ drawn_string (row_typed y t c) (type_char n_column t c) s

  pub picture-Holds :
      (bg_color fg_color : Color) (w : Writer) (t : Text)
      → Holds n_row n_column w t
      → buffer_glyphs bg_color fg_color 0 w.buffer ≡ picture bg_color fg_color w.y t
  unfolding picture
  picture-Holds bg_color fg_color w t v =
      let rows =
        rows_of_lem (line n_row n_column w.y (t.current ∷ t.older)) w.buffer 0
          (λ k lt. let at : 0 + k ≡ k = omega arith in rw at (v.rows k (omega (arith, v.size)))) in
      let rows2 = rw v.size at rows in ap (buffer_glyphs bg_color fg_color 0) rows2

-- The glyphs that are drawn between two writers of the same colours, and the later one's row.
pub record Draws (w w' : Writer) (y : ℕ) (glyphs : List Glyph) : Type 0 where
  pub row : w'.y ≡ y
  pub drawn : w'.drawn ≡ w.drawn ++ glyphs
  pub background_kept : w'.background_color ≡ w.background_color
  pub foreground_kept : w'.foreground_color ≡ w.foreground_color

pub Draws-nil :
    (w w' : Writer) (y : ℕ)
    → w'.y ≡ y
    → w'.drawn ≡ w.drawn
    → w'.background_color ≡ w.background_color
    → w'.foreground_color ≡ w.foreground_color
    → Draws w w' y []
Draws-nil w w' y r d b f = record {
  row = r;
  drawn = d ∙ sym (append-nil _);
  background_kept = b;
  foreground_kept = f;
}

-- What is drawn behind what was drawn before.
pub Draws-trans :
    (u v w : Writer) (y z : ℕ) (glyphs more : List Glyph)
    → Draws u v y glyphs
    → Draws v w z more
    → Draws u w z (glyphs ++ more)
Draws-trans u v w y z glyphs more a b = record {
  row = b.row;
  drawn = b.drawn ∙ ap (λ l. l ++ more) a.drawn ∙ append_assoc u.drawn glyphs more;
  background_kept = b.background_kept ∙ a.background_kept;
  foreground_kept = b.foreground_kept ∙ a.foreground_kept;
}

-- Nothing is drawn behind it.
pub Draws-quiet :
    (u v w : Writer) (y z : ℕ) (glyphs : List Glyph)
    → Draws u v y glyphs
    → Draws v w z []
    → Draws u w z glyphs
Draws-quiet u v w y z glyphs a b = rw (append-nil glyphs) at (Draws-trans u v w y z glyphs [] a b)
