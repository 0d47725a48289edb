-- ===== src/Layers/Transparent.antt =====
-- What `flush` of a window with a transparent colour leaves on the screen: kernel-lib/src/layer.rs.
use lemola_osv.Base.{
  ℕ, zero, suc, ◌+◌, ◌-◌, ◌<◌, ◌≤◌, ◌≡◌, refl, min, List, [], ◌∷◌, ◌++◌, Option, none, some, ok,
  panic, ltb, leb, ◌==◌, ◌&&◌, if◌then◌else◌, sub64, add64, length, get_elem?, get_elem?-some, word,
  arith, Bool-cases, inl, inr, ℕ_discrete,
}
use lemola_osv.Console.{Color}
use lemola_osv.Render.{Pixel}
use lemola_osv.Render.Painted.{painted, painted-append}
use lemola_osv.Layers.{Window}
use lemola_osv.Layers.Painting.{
  Screen, same_color, width, height, cell, paint_cells, end_x, end_y, paint_rows, flush_transparent,
}

-- A window with a column, and columns of one height.
pub record IsWindow (w : Window) (h : ℕ) : Type 0 where
  pub some_column : 0 < width w
  pub columns :
      (i : ℕ)
      → i < width w
      → (column : List Color) × (get_elem? w.pixels i ≡ some column) × (length column ≡ h)

-- What is to be seen of the window at a place of the screen: its colour there, if that is not the
-- transparent one.
pub seen : Window → Color → ℕ → ℕ → Option Color
seen w transparent x y = elim (cell w (x - w.position.x) (y - w.position.y)) [
  | ok c ↦ if same_color c transparent then none else some c
  | panic ↦ none
]

module _ (w : Window) (h : ℕ) (v : IsWindow w h) (t : Color) where
  pub cell_lem : (i j : ℕ) → i < width w → j < h → (c : Color) × (cell w i j ≡ ok c)
  unfolding cell
  cell_lem i j hi hj =
      let (column, at, tall) = v.columns i hi in
      let (c, found) = get_elem?-some column j (omega arith) in (c, simp (at, found) refl)

  seen_here :
      (x y : ℕ) (c : Color)
      → cell w (x - w.position.x) (y - w.position.y) ≡ ok c
      → seen w t x y ≡ (if same_color c t then none else some c)
  unfolding seen
  seen_here x y c e = rw (seen, e) refl

  painted_more :
      (ps : List Pixel) (n x y a b : ℕ) (c : Color)
      → painted ps a b
        ≡ (if (leb (x + 1) a && ltb a (x + 1 + n)) && b == y then seen w t a b else none)
      → seen w t x y ≡ (if same_color c t then none else some c)
      → painted (if same_color c t then ps else record { x = x; y = y; color = c } ∷ ps) a b
        ≡ (if (leb x a && ltb a (x + suc n)) && b == y then seen w t a b else none)
  painted_more ps n x y a b c same here = elim (ℕ_discrete a x) [
    | yes ax ↦ elim (ℕ_discrete b y) [
      | yes by ↦ elim (Bool-cases (same_color c t)) [
        | inl clear ↦
            let place : seen w t a b ≡ none = cc in rw clear (ground (arith, same, ax, by, place))
        | inr solid ↦
            let place : seen w t a b ≡ some c = cc in rw solid (ground (arith, same, ax, by, place))
      ]
      | no by ↦ elim (Bool-cases (same_color c t)) [
        | inl clear ↦ rw clear (ground (arith, same, by))
        | inr solid ↦ rw solid (ground (arith, same, by))
      ]
    ]
    | no ax ↦ elim (Bool-cases (same_color c t)) [
      | inl clear ↦ rw clear (ground (arith, same, ax))
      | inr solid ↦ rw solid (ground (arith, same, ax))
    ]
  ]

  paint_cells_lem :
      (n x y : ℕ)
      → w.position.x ≤ x
      → x + n ≤ w.position.x + width w
      → w.position.y ≤ y
      → y < w.position.y + h
      → (ps : List Pixel) × (paint_cells w t n x y ≡ ok ps)
        × ((a b : ℕ)
            → painted ps a b
              ≡ (if (leb x a && ltb a (x + n)) && b == y then seen w t a b else none))
  unfolding paint_cells
  paint_cells_lem zero x y lo hi low high = ([], refl, λ a b. ground arith)
  paint_cells_lem (suc n) x y lo hi low high =
      let (c, at) = cell_lem (x - w.position.x) (y - w.position.y) (omega arith) (omega arith) in
      let here = seen_here x y c at in
      let (ps, run, same) = paint_cells_lem n (x + 1) y (omega arith) (omega arith) low high in
      let dx : sub64 x w.position.x ≡ ok (x - w.position.x) = ground arith in
      let dy : sub64 y w.position.y ≡ ok (y - w.position.y) = ground arith in
      (
        if same_color c t then ps else record { x = x; y = y; color = c } ∷ ps,
        simp (dx, dy, at, run) refl,
        λ a b. painted_more ps n x y a b c (same a b) here,
      )

  -- The end of the loop over `x` on a screen.
  abbrev right : Screen → ℕ
  right s = min (w.position.x + width w) s.pixcels_per_scan_line

  paint_rows_lem :
      (s : Screen) (n y : ℕ)
      → w.position.x + width w < word
      → w.position.y ≤ y
      → y + n ≤ w.position.y + h
      → (ps : List Pixel) × (paint_rows w s t n y ≡ ok ps)
        × ((a b : ℕ)
            → painted ps a b ≡ (
                if (leb w.position.x a && ltb a (right s)) && (leb y b && ltb b (y + n))
                then seen w t a b
                else none))
  unfolding paint_rows end_x
  paint_rows_lem s zero y wide low high = ([], refl, λ a b. ground arith)
  paint_rows_lem s (suc n) y wide low high =
      let (row, one, same) =
        paint_cells_lem (right s - w.position.x) w.position.x y (omega arith) (omega arith) low
          (omega arith) in
      let (ps, run, rest) = paint_rows_lem s n (y + 1) wide (omega arith) (omega arith) in
      let end : add64 w.position.x (width w) ≡ ok (w.position.x + width w) = ground (arith, wide) in
      (
        row ++ ps,
        simp (end, one, run) refl,
        λ a b. ground (arith, painted-append row ps a b, same a b, rest a b),
      )

pub end_y_lem :
    (w : Window) (h : ℕ) (s : Screen)
    → IsWindow w h
    → w.position.y + h < word
    → end_y w s ≡ ok (min (w.position.y + h) s.horizontal_resolution)
unfolding end_y height
end_y_lem w h s v tall =
    let (column, at, len) = v.columns 0 v.some_column in
    let end : add64 w.position.y h ≡ ok (w.position.y + h) = ground (arith, tall) in
    simp (at, len, end) refl

-- `flush` of a window of columns of height `h` with a transparent colour, whose far corner is within
-- the numbers of `usize`, does not panic: it paints the pixels of the window that are not of that
-- colour, as far as they are left of the end of a scan line and above a line whose number is the
-- horizontal resolution, and nothing else.
pub flush_transparent_lem :
    (w : Window) (h : ℕ) (s : Screen) (t : Color)
    → IsWindow w h
    → w.position.x + width w < word
    → w.position.y + h < word
    → (ps : List Pixel) × (flush_transparent w s t ≡ ok ps)
      × ((x y : ℕ)
          → painted ps x y ≡ (
              if (leb w.position.x x
                  && ltb x (min (w.position.x + width w) s.pixcels_per_scan_line))
                && (leb w.position.y y && ltb y (min (w.position.y + h) s.horizontal_resolution))
              then seen w t x y
              else none))
unfolding flush_transparent
flush_transparent_lem w h s t v wide tall =
    let end = end_y_lem w h s v tall in
    let last : ℕ = min (w.position.y + h) s.horizontal_resolution in
    let (ps, run, same) =
      paint_rows_lem w h v t s (last - w.position.y) w.position.y wide (omega arith)
        (omega arith) in
    (ps, simp end run, λ x y. ground (arith, same x y))
