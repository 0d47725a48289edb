-- ===== src/Console/Wrapping.antt =====
-- The last branch of `put_char` of kernel-lib/src/lib.rs: a character that starts a row.
use lemola_osv.Base.{
  ℕ, ◌<◌, ◌≡◌, inl, inr, refl, [], ◌∷◌, ◌++◌, ok, arith, ◌==◌, if◌then◌else◌, Bool-cases,
}
use lemola_osv.Console.{Writer, scroll, wrap_char}
use lemola_osv.Console.Pictures.{fed, row_below, settled, picture, Draws, Draws-nil, Draws-quiet}
use lemola_osv.Console.Text.{Text, IsScreen, Holds}
use lemola_osv.Console.Typing.{store_next-Holds, scroll-Holds, new_line-Holds}

module _ (n_row n_column : ℕ) (dims : IsScreen n_row n_column) where
  -- The test behind `new_line` in `put_char` leaves the cursor on the screen.
  settle-Holds :
      (w : Writer) (t : Text)
      → Holds n_row n_column w t
      → (w' : Writer) × ((if w.y == n_row then scroll n_row n_column w 1 else ok w) ≡ ok w')
        × Holds n_row n_column w' t
        × (w'.y < n_row)
        × Draws w w' (settled n_row n_column w.y) []
  settle-Holds w t v = elim (Bool-cases (w.y == n_row)) [
    | inl low ↦
        let (w1, run, v1, d1) = scroll-Holds n_row n_column dims w t v (ground arith) in
        let some_row = dims.some_row in (w1, rw low run, v1, omega (arith, d1.row), rw low d1)
    | inr high ↦ (
      w,
      rw high,
      v,
      ground (arith, v.in_screen),
      rw high (Draws-nil w w w.y refl refl refl refl),
    )
  ]

  -- The text after the last branch of `put_char`.
  abbrev pub wrapped : Writer → Text → ℕ → Text
  wrapped w t c = let u = fed n_row n_column w.y t in record u { current = u.current ++ c ∷ [] }

  fed_empty :
      (w : Writer) (t : Text) → Holds n_row n_column w t → (fed n_row n_column w.y t).current ≡ []
  fed_empty w t v = ground (arith, v.in_screen)

  pub wrap_char-Holds :
      (w : Writer) (t : Text) (c : ℕ)
      → Holds n_row n_column w t
      → (w' : Writer) × (wrap_char n_row n_column w c ≡ ok w')
        × Holds n_row n_column w' (wrapped w t c)
        × Draws w w' (settled n_row n_column (row_below n_row n_column w.y)) (
            picture n_row n_column w.background_color w.foreground_color
              (row_below n_row n_column w.y)
              (fed n_row n_column w.y t))
  unfolding wrap_char
  wrap_char-Holds w t c v =
      let (w1, run1, v1, d1) = new_line-Holds n_row n_column dims w t v in
      let u = fed n_row n_column w.y t in
      let (w2, run2, v2, y2, d2) = settle-Holds w1 u v1 in
      let empty = fed_empty w t v in
      let wide = dims.some_column in
      let (w3, run3, v3, d3) =
        store_next-Holds n_row n_column dims w2 u c v2 (ground (arith, empty)) y2 in
      (
        w3,
        rw (run1, run2) run3,
        v3,
        Draws-quiet w w2 w3 _ _ _ (Draws-quiet w w1 w2 _ _ _ d1 (rw d1.row at d2))
            (rw (d2.row, d1.row) at d3),
      )
