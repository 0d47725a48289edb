-- ===== src/Render/Painted.antt =====
-- What the calls of `write` by kernel-lib/src/render.rs leave on the screen.
use lemola_osv.Base.{
  ℕ, zero, suc, ◌+◌, ◌-◌, ◌<◌, ◌≡◌, refl, sym, List, [], ◌∷◌, ◌++◌, Option, none, some, ok, ltb,
  leb, ◌==◌, ◌&&◌, ◌||◌, if◌then◌else◌, arith, word,
}
use lemola_osv.Console.{Color}
use lemola_osv.Render.{
  Vector2D, Pixel, fill_row, fill_rows, fill_rect, outline_x, outline_y, draw_rect_outline,
}

-- The later of two paints.
abbrev pub over : Option Color → Option Color → Option Color
over none below = below
over (some c) below = some c

-- The colour of a pixel after the calls, by the last call that writes it.
abbrev pub painted : List Pixel → ℕ → ℕ → Option Color
painted [] x y = none
painted (p ∷ ps) x y = over (painted ps x y) (if p.x == x && p.y == y then some p.color else none)

over_assoc : (a b c : Option Color) → over a (over b c) ≡ over (over a b) c
over_assoc none b c = refl
over_assoc (some a) b c = refl

pub painted-append :
    (ps qs : List Pixel) (x y : ℕ) → painted (ps ++ qs) x y ≡ over (painted qs x y) (painted ps x y)
painted-append [] qs x y = elim (painted qs x y) as (λ o. o ≡ over o none) [
  | none ↦ refl
  | some c ↦ refl
]
painted-append (p ∷ ps) qs x y =
    let rest = painted-append ps qs x y in
    rw rest (
      sym (
        over_assoc (painted qs x y) (painted ps x y)
          (if p.x == x && p.y == y then some p.color else none)))

painted-fill_row :
    (n a b x y : ℕ) (color : Color)
    → painted (fill_row n a b color) x y
      ≡ (if (leb a x && ltb x (a + n)) && b == y then some color else none)
unfolding fill_row
painted-fill_row zero a b x y color = ground arith
painted-fill_row (suc n) a b x y color = ground (arith, painted-fill_row n (a + 1) b x y color)

fill_rows_lem :
    (n : ℕ) (pos size : Vector2D) (b : ℕ) (color : Color)
    → pos.x + size.x < word
    → (ps : List Pixel) × (fill_rows n pos size b color ≡ ok ps)
      × ((x y : ℕ)
          → painted ps x y ≡ (
              if (leb pos.x x && ltb x (pos.x + size.x)) && (leb b y && ltb y (b + n))
              then some color
              else none))
unfolding fill_rows
fill_rows_lem zero pos size b color h = ([], refl, λ x y. ground arith)
fill_rows_lem (suc n) pos size b color h =
    let (ps, run, same) = fill_rows_lem n pos size (b + 1) color h in
    let wide : pos.x + size.x - pos.x ≡ size.x = omega arith in
    (
      fill_row size.x pos.x b color ++ ps,
      ground (arith, run, wide),
      λ x y. ground (
        arith,
        painted-append (fill_row size.x pos.x b color) ps x y,
        same x y,
        painted-fill_row size.x pos.x b x y color,
      ),
    )

-- `fill_rect` paints the pixels of the rectangle in the colour and no others, if the rectangle ends
-- within the numbers of `usize`.
pub fill_rect_lem :
    (pos size : Vector2D) (color : Color)
    → pos.x + size.x < word
    → pos.y + size.y < word
    → (ps : List Pixel) × (fill_rect pos size color ≡ ok ps)
      × ((x y : ℕ)
          → painted ps x y ≡ (
              if (leb pos.x x && ltb x (pos.x + size.x)) && (leb pos.y y && ltb y (pos.y + size.y))
              then some color
              else none))
unfolding fill_rect
fill_rect_lem pos size color hx hy =
    let (ps, run, same) = fill_rows_lem (pos.y + size.y - pos.y) pos size pos.y color hx in
    let tall : pos.y + (pos.y + size.y - pos.y) ≡ pos.y + size.y = omega arith in
    (ps, ground (arith, run), rw tall at same)

outline_x_lem :
    (n : ℕ) (pos size : Vector2D) (a : ℕ) (color : Color)
    → pos.y + size.y < word
    → 0 < size.y
    → (ps : List Pixel) × (outline_x n pos size a color ≡ ok ps)
      × ((x y : ℕ)
          → painted ps x y ≡ (
              if (leb a x && ltb x (a + n)) && (y == pos.y || y == pos.y + size.y - 1)
              then some color
              else none))
unfolding outline_x
outline_x_lem zero pos size a color h some_rows = ([], refl, λ x y. ground arith)
outline_x_lem (suc n) pos size a color h some_rows =
    let (ps, run, same) = outline_x_lem n pos size (a + 1) color h some_rows in
    (
      record { x = a; y = pos.y; color = color }
          ∷ record { x = a; y = pos.y + size.y - 1; color = color }
          ∷ ps,
      ground (arith, run),
      λ x y. ground (arith, same x y),
    )

outline_y_lem :
    (n : ℕ) (pos size : Vector2D) (b : ℕ) (color : Color)
    → pos.x + size.x < word
    → 0 < size.x
    → (ps : List Pixel) × (outline_y n pos size b color ≡ ok ps)
      × ((x y : ℕ)
          → painted ps x y ≡ (
              if (leb b y && ltb y (b + n)) && (x == pos.x || x == pos.x + size.x - 1)
              then some color
              else none))
unfolding outline_y
outline_y_lem zero pos size b color h some_columns = ([], refl, λ x y. ground arith)
outline_y_lem (suc n) pos size b color h some_columns =
    let (ps, run, same) = outline_y_lem n pos size (b + 1) color h some_columns in
    (
      record { x = pos.x; y = b; color = color }
          ∷ record { x = pos.x + size.x - 1; y = b; color = color }
          ∷ ps,
      ground (arith, run),
      λ x y. ground (arith, same x y),
    )

-- `draw_rect_outline` paints the pixels on the four sides of the rectangle in the colour and no
-- others, if the rectangle is not empty and ends within the numbers of `usize`.
draw_rect_outline_lem :
    (pos size : Vector2D) (color : Color)
    → pos.x + size.x < word
    → pos.y + size.y < word
    → 0 < size.x
    → 0 < size.y
    → (ps : List Pixel) × (draw_rect_outline pos size color ≡ ok ps)
      × ((x y : ℕ)
          → painted ps x y ≡ (
              if ((leb pos.x x && ltb x (pos.x + size.x))
                  && (y == pos.y || y == pos.y + size.y - 1))
                || ((leb pos.y y && ltb y (pos.y + size.y))
                    && (x == pos.x || x == pos.x + size.x - 1))
              then some color
              else none))
unfolding draw_rect_outline
draw_rect_outline_lem pos size color hx hy wx wy =
    let (ps, run, same) = outline_x_lem (pos.x + size.x - pos.x) pos size pos.x color hy wy in
    let (qs, runs, sames) = outline_y_lem (pos.y + size.y - pos.y) pos size pos.y color hx wx in
    let wide : pos.x + (pos.x + size.x - pos.x) ≡ pos.x + size.x = omega arith in
    let tall : pos.y + (pos.y + size.y - pos.y) ≡ pos.y + size.y = omega arith in
    (
      ps ++ qs,
      ground (arith, run, runs),
      λ x y.
          ground (arith, painted-append ps qs x y, (rw wide at same) x y, (rw tall at sames) x y),
    )
