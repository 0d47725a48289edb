-- ===== src/Layers/Writes.antt =====
-- What `Window::write` of kernel-lib/src/layer.rs changes.
use native.Mathlib.Nat.{mul_comm}
use lemola_osv.Base.{
  ℕ, zero, suc, ◌+◌, ◌*◌, ◌<◌, ◌≤◌, ◌≡◌, ◌≢◌, ◌⊎◌, ◌∙◌, refl, sym, ap, List, [], ◌∷◌, ◌++◌, some,
  Run, ok, ◌>>=◌, unwrap, true, leb, add64, length, length-append, length-take, length-drop,
  length-set, get_elem?, get_elem?-some, get_elem?-replicate, length-replicate, replicate, Option,
  mul64, get_elem?-set_self, get_elem?-set_ne, set, take, drop, word, arith, ℕ_discrete, inl, inr,
}
use lemola_osv.Console.{Color}
use lemola_osv.Pixel.{PixcelFormat, rgb, bgr, pixel}
use lemola_osv.Layers.{Position, Window}
use lemola_osv.Layers.Painting.{width, cell, byte_index, write, background, new_window}
use lemola_osv.Layers.Transparent.{IsWindow}
use lemola_osv.Layers.Opaque.{byte_index_lem, rows_fit}

length-pixel : (f : PixcelFormat) (c : Color) → length (pixel f c) ≡ 4
length-pixel rgb c = refl
length-pixel bgr c = refl

-- The bytes that are put in place, behind those before them.
take-drop_put :
    (n : ℕ) (xs ys zs : List ℕ)
    → n ≤ length xs
    → take (length ys) (drop n (take n xs ++ (ys ++ zs))) ≡ ys
take-drop_put zero xs ys zs h = take_all ys zs
  where
    take_all : (ys zs : List ℕ) → take (length ys) (ys ++ zs) ≡ ys
    take_all [] zs = refl
    take_all (y ∷ ys) zs = ap (λ r. y ∷ r) (take_all ys zs)
take-drop_put (suc n) [] ys zs h = absurd (omega arith)
take-drop_put (suc n) (x ∷ xs) ys zs h = take-drop_put n xs ys zs (omega arith)

put_length :
    (xs : List ℕ) (n : ℕ) (ys : List ℕ)
    → length ys ≡ 4
    → n + 4 ≤ length xs
    → length (take n xs ++ (ys ++ drop (n + 4) xs)) ≡ length xs
put_length xs n ys four h =
    let a = length-append (take n xs) (ys ++ drop (n + 4) xs) in
    let b = length-append ys (drop (n + 4) xs) in
    let t = length-take n xs in let d = length-drop (n + 4) xs in omega (arith, a, b, t, d)

-- The pixels after the write of one.
abbrev at_place : List (List Color) → ℕ → ℕ → Run Color
at_place pixels i j = do column ← unwrap (get_elem? pixels i); unwrap (get_elem? column j)

cell_self :
    (pixels : List (List Color)) (column : List Color) (x y : ℕ) (c : Color)
    → get_elem? pixels x ≡ some column
    → x < length pixels
    → y < length column
    → at_place (set pixels x (set column y c)) x y ≡ ok c
cell_self pixels column x y c at hx hy =
    simp (get_elem?-set_self pixels x (set column y c) hx, get_elem?-set_self column y c hy) refl

cell_other :
    (pixels : List (List Color)) (column : List Color) (x y : ℕ) (c : Color)
    → get_elem? pixels x ≡ some column
    → x < length pixels
    → (i j : ℕ) → (i ≢ x) ⊎ (j ≢ y)
    → at_place (set pixels x (set column y c)) i j ≡ at_place pixels i j
cell_other pixels column x y c at hx i j apart = elim (ℕ_discrete i x) [
  | yes same ↦ elim apart [
    | inl ne ↦ absurd (ne same)
    | inr ne ↦ rw same (
        simp
          (
            get_elem?-set_self pixels x (set column y c) hx,
            at,
            get_elem?-set_ne column y j c (λ e. ne (sym e)),
          )
          refl)
  ]
  | no ne ↦ simp (get_elem?-set_ne pixels x i (set column y c) (λ e. ne (sym e))) refl
]

set-IsWindow :
    (pixels : List (List Color)) (column : List Color) (h x y : ℕ) (c : Color)
    → get_elem? pixels x ≡ some column
    → length column ≡ h
    → x < length pixels
    → ((i : ℕ)
        → i < length pixels
        → (col : List Color) × (get_elem? pixels i ≡ some col) × (length col ≡ h))
    → (i : ℕ) → i < length (set pixels x (set column y c))
    → (col : List Color) × (get_elem? (set pixels x (set column y c)) i ≡ some col)
      × (length col ≡ h)
set-IsWindow pixels column h x y c at tall hx columns i hi = elim (ℕ_discrete i x) [
  | yes same ↦ (
    set column y c,
    rw same (get_elem?-set_self pixels x (set column y c) hx),
    length-set column y c ∙ tall,
  )
  | no ne ↦
      let size = length-set pixels x (set column y c) in
      let (col, there, len) = columns i (omega arith) in
      (col, get_elem?-set_ne pixels x i (set column y c) (λ e. ne (sym e)) ∙ there, len)
]

-- A write within a window with four bytes for each pixel does not panic: the pixel has the colour and
-- the four bytes of it, in the order of the screen, stand at the pixel's place; every other pixel is
-- as before, and the window is still one of its size.
pub write_lem :
    (w : Window) (h x y : ℕ) (c : Color)
    → IsWindow w h
    → length w.buffer ≡ h * width w * 4
    → length w.buffer < word
    → x < width w
    → y < h
    → (w' : Window) × (write w x y c ≡ ok w')
      × (cell w' x y ≡ ok c)
      × ((i j : ℕ) → (i ≢ x) ⊎ (j ≢ y) → cell w' i j ≡ cell w i j)
      × (take 4 (drop ((x + y * width w) * 4) w'.buffer) ≡ pixel w.rendering_handler c)
      × (length w'.buffer ≡ length w.buffer)
      × IsWindow w' h
unfolding write cell
write_lem w h x y c v size small hx hy =
    let (column, at, tall) = v.columns x hx in
    let index : ℕ = (x + y * width w) * 4 in
    let inside = rows_fit y h (width w) hy in
    let put : List (List Color) = set w.pixels x (set column y c) in
    let same_width : length put ≡ width w = length-set w.pixels x (set column y c) in
    let bytes : List ℕ =
      take index w.buffer ++ (pixel w.rendering_handler c ++ drop (index + 4) w.buffer) in
    let four = length-pixel w.rendering_handler c in
    let (old, there) = get_elem?-some column y (omega arith) in
    let place : byte_index (length put) x y ≡ ok index =
      rw same_width (byte_index_lem (width w) x y (omega arith)) in
    let end : add64 index 4 ≡ ok (index + 4) = ground arith in
    let room : leb (index + 4) (length w.buffer) ≡ true = ground arith in
    (
      record w { pixels = put; buffer = bytes },
      simp (at, there, place, end, room) refl,
      cell_self w.pixels column x y c at hx (omega arith),
      cell_other w.pixels column x y c at hx,
      rw four at (
          take-drop_put index w.buffer (pixel w.rendering_handler c) (drop (index + 4) w.buffer)
            (omega arith)),
      put_length w.buffer index (pixel w.rendering_handler c) four (omega arith),
      record {
        some_column = omega (arith, same_width);
        columns = set-IsWindow w.pixels column h x y c at tall hx v.columns;
      },
    )

-- A new window is one of its size, with four bytes for each pixel.
pub new_window_lem :
    (columns height : ℕ) (handler : PixcelFormat) (transparent : Option Color) (place : Position)
    → 0 < columns
    → columns * height * 4 < word
    → (w : Window) × (new_window columns height handler transparent place ≡ ok w)
      × IsWindow w height
      × (length w.buffer ≡ height * width w * 4)
      × (width w ≡ columns)
unfolding new_window
new_window_lem columns height handler transparent place some_columns small =
    let column : List Color = replicate height (background transparent) in
    let wide : length (replicate columns column) ≡ columns = length-replicate columns column in
    let cells : mul64 columns height ≡ ok (columns * height) = ground arith in
    let bytes : mul64 (columns * height) 4 ≡ ok (columns * height * 4) = ground arith in
    (
      record {
        transparent_color = transparent;
        rendering_handler = handler;
        buffer = replicate (columns * height * 4) 0;
        pixels = replicate columns column;
        position = place;
      },
      simp (cells, bytes) refl,
      record {
        some_column = omega (arith, wide);
        columns = λ i hi. (
          column,
          get_elem?-replicate columns i column (omega (arith, wide)),
          length-replicate height (background transparent),
        );
      },
      rw wide
          (length-replicate (columns * height * 4) 0 ∙ ap (λ n. n * 4) (mul_comm columns height)),
      wide,
    )
