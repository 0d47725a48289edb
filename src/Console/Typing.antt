-- ===== src/Console/Typing.antt =====
-- Typing on the console of kernel-lib/src/lib.rs.
use lemola_osv.Base.{
  ℕ, ◌+◌, ◌-◌, ◌<◌, ◌≡◌, inl, inr, refl, [], ◌∷◌, ◌++◌, ap, ok, some, arith, length, length-append,
  length-set, get_elem?, get_elem?-set_self, get_elem?-set_ne, set, ltb, Bool-cases, dec_lt,
}
use lemola_osv.Console.{Writer, store, scroll, flush, new_line, just_new_line, store_next}
use lemola_osv.Console.Flush.{flush_lem, buffer_glyphs}
use lemola_osv.Console.Pictures.{
  fed, row_below, picture, picture-Holds, Draws, Draws-nil, Draws-trans,
}
use lemola_osv.Console.Scroll.{scroll_lem}
use lemola_osv.Console.Text.{
  Text, IsScreen, Holds, Holds-AllRows, pad, set-pad, length-pad, pad-nil, line_at, line_above,
  line_next, line_up,
}

module _ (n_row n_column : ℕ) (dims : IsScreen n_row n_column) where
  -- The character goes behind the row, and the cursor one column on.
  pub store_next-Holds :
      (w : Writer) (t : Text) (c : ℕ)
      → Holds n_row n_column w t
      → length t.current < n_column
      → w.y < n_row
      → (w' : Writer) × (store_next n_row n_column w c ≡ ok w')
        × Holds n_row n_column w' (record t { current = t.current ++ c ∷ [] })
        × Draws w w' w.y []
  unfolding store_next store
  store_next-Holds w t c v room inside =
      let rows = t.current ∷ t.older in
      let row = pad n_row n_column t.current in
      let here : get_elem? w.buffer w.y ≡ some row =
        ground (arith, v.rows w.y inside, line_at n_row n_column w.y t.current t.older) in
      let wide = length-pad n_row n_column t.current v.in_row in
      let small = dims.width in
      let row' = set row w.x c in
      let stored : row' ≡ pad n_row n_column (t.current ++ c ∷ []) =
        ground (arith, v.column, set-pad n_row n_column t.current c room) in
      (
        record w { buffer = set w.buffer w.y row'; x = w.x + 1 },
        ground (arith, here, wide, v.column),
        record {
          column = omega (arith, v.column, length-append t.current (c ∷ []));
          in_row = omega (arith, length-append t.current (c ∷ []));
          in_screen = inl inside;
          size = omega (arith, v.size, length-set w.buffer w.y row');
          short = v.short;
          rows = λ i h. ground (
            arith,
            v.rows i h,
            v.size,
            stored,
            get_elem?-set_self w.buffer w.y row',
            get_elem?-set_ne w.buffer w.y i row',
            line_at n_row n_column w.y (t.current ++ c ∷ []) t.older,
            line_above n_row n_column w.y i t.current (t.current ++ c ∷ []) t.older,
          );
        },
        Draws-nil w _ w.y refl refl refl refl,
      )

  flush-Holds :
      (w : Writer) (t : Text)
      → Holds n_row n_column w t
      → (w' : Writer) × (flush n_row n_column w ≡ ok w')
        × Holds n_row n_column w' t
        × Draws w w' w.y (picture n_row n_column w.background_color w.foreground_color w.y t)
  flush-Holds w t v = (
    record w { drawn = w.drawn ++ buffer_glyphs w.background_color w.foreground_color 0 w.buffer },
    flush_lem n_row n_column w v.size (Holds-AllRows n_row n_column v) dims.width dims.height,
    record {
      column = v.column;
      in_row = v.in_row;
      in_screen = v.in_screen;
      size = v.size;
      short = v.short;
      rows = v.rows;
    },
    record {
      row = refl;
      drawn =
          ap (λ glyphs. w.drawn ++ glyphs)
            (picture-Holds n_row n_column w.background_color w.foreground_color w t v);
      background_kept = refl;
      foreground_kept = refl;
    },
  )

  -- Scrolling by one row when the cursor is below the last row changes the place of the text only.
  pub scroll-Holds :
      (w : Writer) (t : Text)
      → Holds n_row n_column w t
      → w.y ≡ n_row
      → (w' : Writer) × (scroll n_row n_column w 1 ≡ ok w')
        × Holds n_row n_column w' t
        × Draws w w' (n_row - 1) []
  scroll-Holds w t v low =
      let empty : t.current ≡ [] = ground (arith, v.in_screen) in
      let pos = dims.some_row in
      let tall = dims.height in
      let (out, run, moved) =
        scroll_lem n_row n_column w 1 v.size (omega arith) pos (omega arith) in
      let quiet =
        Draws-nil w (record w { buffer = out; y = w.y - 1; x = 0 }) (n_row - 1) (omega arith) refl
          refl refl in
      (
        record w { buffer = out; y = w.y - 1; x = 0 },
        run,
        record {
          column = ground (arith, empty);
          in_row = v.in_row;
          in_screen = inl (omega arith);
          size = moved.size;
          short = v.short;
          rows = λ i h. elim (dec_lt (i + 1) n_row) [
            | yes above ↦ ground (
              arith,
              moved.moved i above,
              v.rows (i + 1) above,
              line_up n_row n_column w.y i (t.current ∷ t.older) (omega arith),
            )
            | no last ↦
                let at : i ≡ w.y - 1 = omega arith in
                ground (
                  arith,
                  moved.cleared i h (omega arith),
                  line_at n_row n_column (w.y - 1) t.current t.older,
                  pad-nil n_row n_column,
                )
          ];
        },
        quiet,
      )

  just_new_line-Holds :
      (w : Writer) (t : Text)
      → Holds n_row n_column w t
      → w.y < n_row
      → (w' : Writer) × (just_new_line n_row n_column w ≡ ok w')
        × Holds n_row n_column w' (record { current = []; older = t.current ∷ t.older })
        × Draws w w' (w.y + 1) []
  unfolding just_new_line
  just_new_line-Holds w t v inside =
      let tall = dims.height in
      (
        record w { x = 0; y = w.y + 1 },
        ground arith,
        record {
          column = refl;
          in_row = omega arith;
          in_screen = ground (arith, inside);
          size = v.size;
          short = (v.in_row, v.short);
          rows = λ i h.
              ground (arith, v.rows i h, line_next n_row n_column w.y i (t.current ∷ t.older));
        },
        Draws-nil w _ (w.y + 1) refl refl refl refl,
      )

  -- `new_line` draws the screen with the row that it has started or made room for.
  pub new_line-Holds :
      (w : Writer) (t : Text)
      → Holds n_row n_column w t
      → (w' : Writer) × (new_line n_row n_column w ≡ ok w')
        × Holds n_row n_column w' (fed n_row n_column w.y t)
        × Draws w w' (row_below n_row n_column w.y) (
            picture n_row n_column w.background_color w.foreground_color
              (row_below n_row n_column w.y)
              (fed n_row n_column w.y t))
  unfolding new_line
  new_line-Holds w t v = elim (Bool-cases (ltb w.y n_row)) [
    | inl inside ↦
        let (w1, run1, v1, d1) = just_new_line-Holds w t v (ground arith) in
        let (w2, run2, v2, d2) = flush-Holds w1 _ v1 in
        (
          w2,
          ground (arith, inside, run1, run2),
          rw inside v2,
          rw inside (
              Draws-trans w w1 w2 (w.y + 1) (w.y + 1) [] _ d1
                (rw (d1.row, d1.background_kept, d1.foreground_kept) at d2)),
        )
    | inr below ↦
        let (w1, run1, v1, d1) = scroll-Holds w t v (ground (arith, v.in_screen)) in
        let (w2, run2, v2, d2) = flush-Holds w1 t v1 in
        (
          w2,
          ground (arith, below, run1, run2),
          rw below v2,
          rw below (
              Draws-trans w w1 w2 (n_row - 1) (n_row - 1) [] _ d1
                (rw (d1.row, d1.background_kept, d1.foreground_kept) at d2)),
        )
  ]
