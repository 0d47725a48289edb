-- ===== src/Layers/Opaque.antt =====
-- `flush` of a window without a transparent colour: kernel-lib/src/layer.rs.
use native.Mathlib.Nat.{mul-le-mul_left, mul_comm}
use lemola_osv.Base.{
  ℕ, zero, suc, ◌+◌, ◌-◌, ◌*◌, ◌<◌, ◌≤◌, ◌≡◌, ◌∙◌, refl, ap, min, List, [], ◌∷◌, ok, panic, true,
  leb, ◌==◌, sub64, add64, mul64, length, take, drop, word, arith, Run-cases, inl, inr,
}
use lemola_osv.Layers.{Window}
use lemola_osv.Layers.Painting.{
  Screen, Row, width, byte_index, end_x, copy_row, copy_rows, flush_opaque,
}
use lemola_osv.Layers.Transparent.{IsWindow, end_y_lem}

end_x_lem :
    (w : Window) (s : Screen)
    → w.position.x + width w < word
    → end_x w s ≡ ok (min (w.position.x + width w) s.pixcels_per_scan_line)
unfolding end_x
end_x_lem w s wide =
    let end : add64 w.position.x (width w) ≡ ok (w.position.x + width w) = ground (arith, wide) in
    simp end refl

-- A row of a window that begins right of the scan lines.
copy_row-panic :
    (w : Window) (s : Screen) (x_end y : ℕ) → x_end < w.position.x → copy_row w s x_end y ≡ panic
unfolding copy_row
copy_row-panic w s x_end y beyond =
    let under : sub64 x_end w.position.x ≡ panic = ground arith in
    elim (Run-cases (byte_index s.pixcels_per_scan_line w.position.x y)) [
      | inl (offset, e) ↦ simp (e, under) refl
      | inr fails ↦ simp fails refl
    ]

copy_rows-panic :
    (w : Window) (s : Screen) (x_end n y : ℕ)
    → x_end < w.position.x
    → 0 < n
    → copy_rows w s x_end n y ≡ panic
unfolding copy_rows
copy_rows-panic w s x_end zero y beyond some_rows = elim some_rows [ ]
copy_rows-panic w s x_end (suc n) y beyond some_rows = simp (copy_row-panic w s x_end y beyond) refl

-- `flush` of a window of columns of height `h`, whose far corner is within the numbers of `usize`,
-- panics if the window has moved right of the scan lines while a row of it is above the bound of
-- the rows.
pub flush_opaque_refuses :
    (w : Window) (h : ℕ) (s : Screen)
    → IsWindow w h
    → w.position.x + width w < word
    → w.position.y + h < word
    → s.pixcels_per_scan_line < w.position.x
    → 0 < h
    → w.position.y < s.horizontal_resolution
    → flush_opaque w s ≡ panic
unfolding flush_opaque
flush_opaque_refuses w h s v wide tall beyond some_rows above =
    let x_end : ℕ = min (w.position.x + width w) s.pixcels_per_scan_line in
    let n : ℕ = min (w.position.y + h) s.horizontal_resolution - w.position.y in
    simp (end_y_lem w h s v tall, end_x_lem w s wide)
      (copy_rows-panic w s x_end n w.position.y (omega arith) (omega arith))

-- The row of the screen that holds row `y` of the window's `k` visible pixels.
abbrev pub row_at : Window → Screen → ℕ → ℕ → Row
row_at w s k y = record {
  offset = (w.position.x + y * s.pixcels_per_scan_line) * 4;
  bytes = take (k * 4) (drop ((y - w.position.y) * width w * 4) w.buffer);
}

pub rows_from : Window → Screen → ℕ → ℕ → ℕ → List Row
rows_from w s k zero y = []
rows_from w s k (suc n) y = row_at w s k y ∷ rows_from w s k n (y + 1)

pub byte_index_lem :
    (line x y : ℕ) → (x + y * line) * 4 < word → byte_index line x y ≡ ok ((x + y * line) * 4)
byte_index_lem line x y small = ground arith

products_le : (a b line : ℕ) → a ≤ b → a * line ≤ b * line
products_le a b line h = omega (arith, mul-le-mul_left line h, mul_comm a line, mul_comm b line)

pub rows_fit : (d h line : ℕ) → d < h → d * line + line ≤ h * line
rows_fit d h line below = omega (arith, products_le (d + 1) h line (omega arith))

copy_row_lem :
    (w : Window) (h : ℕ) (s : Screen) (k y : ℕ)
    → length w.buffer ≡ h * width w * 4
    → length w.buffer < word
    → k ≤ width w
    → w.position.y ≤ y
    → y < w.position.y + h
    → (w.position.x + y * s.pixcels_per_scan_line) * 4 < word
    → copy_row w s (w.position.x + k) y ≡ ok (row_at w s k y)
unfolding copy_row
copy_row_lem w h s k y size small narrow low high room =
    let dy : ℕ = y - w.position.y in
    let inside : dy * width w + width w ≤ h * width w = rows_fit dy h (width w) (omega arith) in
    let first : byte_index (width w) 0 dy ≡ ok (dy * width w * 4) =
      byte_index_lem (width w) 0 dy (omega arith) ∙ ap ok (omega arith) in
    let last = byte_index_lem (width w) k dy (omega arith) in
    let length_of : (k + dy * width w) * 4 - dy * width w * 4 ≡ k * 4 = omega arith in
    let across : sub64 (w.position.x + k) w.position.x ≡ ok k = ground arith in
    let down : sub64 y w.position.y ≡ ok dy = ground arith in
    let bytes : mul64 k 4 ≡ ok (k * 4) = ground arith in
    let a1 : leb (dy * width w * 4) ((k + dy * width w) * 4) ≡ true = ground arith in
    let a2 : leb ((k + dy * width w) * 4) (length w.buffer) ≡ true = ground arith in
    let a3 : (k * 4 == k * 4) ≡ true = ground arith in
    simp
      (
        byte_index_lem s.pixcels_per_scan_line w.position.x y room,
        across,
        bytes,
        down,
        first,
        last,
        length_of,
        a1,
        a2,
        a3,
      )
      refl

copy_rows_lem :
    (w : Window) (h : ℕ) (s : Screen) (k n y : ℕ)
    → length w.buffer ≡ h * width w * 4
    → length w.buffer < word
    → k ≤ width w
    → w.position.y ≤ y
    → y + n ≤ w.position.y + h
    → (w.position.x + (y + n) * s.pixcels_per_scan_line) * 4 < word
    → copy_rows w s (w.position.x + k) n y ≡ ok (rows_from w s k n y)
unfolding copy_rows rows_from
copy_rows_lem w h s k zero y size small narrow low high room = refl
copy_rows_lem w h s k (suc n) y size small narrow low high room =
    let up = products_le y (y + suc n) s.pixcels_per_scan_line (omega arith) in
    let one = copy_row_lem w h s k y size small narrow low (omega arith) (omega arith) in
    let next : y + 1 + n ≡ y + suc n = omega arith in
    let rest =
      copy_rows_lem w h s k n (y + 1) size small narrow (omega arith) (omega arith)
        (rw next room) in
    simp (one, rest) refl

-- `flush` of a window of columns of height `h`, with four bytes for each pixel, that does not begin
-- right of the scan lines and whose corners, bytes and rows on the frame buffer are within the numbers
-- of `usize`, does not panic: it copies, for each row of the window above a line whose number is the
-- horizontal resolution, the bytes of its pixels left of the end of a scan line to that row of the
-- frame buffer.
pub flush_opaque_lem :
    (w : Window) (h : ℕ) (s : Screen)
    → IsWindow w h
    → length w.buffer ≡ h * width w * 4
    → length w.buffer < word
    → w.position.x + width w < word
    → w.position.y + h < word
    → w.position.x ≤ s.pixcels_per_scan_line
    → w.position.y ≤ s.horizontal_resolution
    → (w.position.x + s.horizontal_resolution * s.pixcels_per_scan_line) * 4 < word
    → flush_opaque w s
      ≡ ok (
          rows_from w s
            (min (width w) (s.pixcels_per_scan_line - w.position.x))
            (min h (s.horizontal_resolution - w.position.y))
            w.position.y)
unfolding flush_opaque
flush_opaque_lem w h s v size small wide tall left above room =
    let k : ℕ = min (width w) (s.pixcels_per_scan_line - w.position.x) in
    let n : ℕ = min h (s.horizontal_resolution - w.position.y) in
    let x_end : min (w.position.x + width w) s.pixcels_per_scan_line ≡ w.position.x + k =
      omega arith in
    let y_end : min (w.position.y + h) s.horizontal_resolution - w.position.y ≡ n = omega arith in
    let up =
      products_le (w.position.y + n) s.horizontal_resolution s.pixcels_per_scan_line
        (omega arith) in
    simp (end_y_lem w h s v tall, end_x_lem w s wide, x_end, y_end)
      (copy_rows_lem w h s k n w.position.y size small (omega arith) (omega arith) (omega arith)
        (omega arith))
