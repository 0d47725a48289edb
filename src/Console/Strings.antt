-- ===== src/Console/Strings.antt =====
-- `put_char` and `put_string` of kernel-lib/src/lib.rs against typing on an unbounded text.
use lemola_osv.Base.{
  ℕ, ◌<◌, ◌≡◌, ◌≢◌, ◌⊎◌, inl, inr, refl, List, [], ◌∷◌, ◌++◌, ok, arith, ltb, ◌==◌, ◌&&◌,
  if◌then◌else◌, Bool-cases,
}
use lemola_osv.Console.{Writer, newline, put_char, put_string}
use lemola_osv.Console.Text.{Text, type_char, IsScreen, Holds}
use lemola_osv.Console.Pictures.{
  fed, row_typed, drawn_char, drawn_string, Draws, Draws-nil, Draws-trans,
}
use lemola_osv.Console.Typing.{new_line-Holds, store_next-Holds}
use lemola_osv.Console.Wrapping.{wrap_char-Holds, wrapped}

module _ (n_row n_column : ℕ) (dims : IsScreen n_row n_column) where
  -- What the buffer holds after a character: a newline below the last row adds nothing.
  seen_char : Writer → Text → ℕ → Text
  seen_char w t c = if c == newline then fed n_row n_column w.y t else type_char n_column t c

  put_char-Holds :
      (w : Writer) (t : Text) (c : ℕ)
      → Holds n_row n_column w t
      → (w' : Writer) × (put_char n_row n_column w c ≡ ok w')
        × Holds n_row n_column w' (seen_char w t c)
        × Draws w w'
            (row_typed n_row n_column w.y t c)
            (drawn_char n_row n_column w.background_color w.foreground_color w.y t c)
  unfolding put_char seen_char type_char row_typed drawn_char
  put_char-Holds w t c v = elim (Bool-cases (c == newline)) [
    | inl ends ↦
        let (w1, run1, v1, d1) = new_line-Holds n_row n_column dims w t v in
        (w1, rw ends run1, rw ends v1, rw ends d1)
    | inr visible ↦ elim (Bool-cases (ltb w.x n_column && ltb w.y n_row)) [
      | inl room ↦
          let (w1, run1, v1, d1) =
            store_next-Holds n_row n_column dims w t c v (ground (arith, v.column))
              (ground arith) in
          (
            w1,
            rw (visible, room) run1,
            (let same : seen_char w t c ≡ record t { current = t.current ++ c ∷ [] } =
                  ground (arith, v.column) in
                rw same v1),
            (let here = rw v.column at room in rw (visible, here) d1),
          )
      | inr full ↦
          let (w1, run1, v1, d1) = wrap_char-Holds n_row n_column dims w t c v in
          (
            w1,
            rw (visible, full) run1,
            (let same : seen_char w t c ≡ wrapped n_row n_column dims w t c =
                  ground (arith, v.column, v.in_row, v.in_screen, dims.some_column) in
                rw same v1),
            (let here = rw v.column at full in rw (visible, here) d1),
          )
    ]
  ]

  seen-eq-typed :
      (w : Writer) (t : Text) (c : ℕ)
      → (c ≢ newline) ⊎ (w.y < n_row)
      → seen_char w t c ≡ type_char n_column t c
  unfolding seen_char type_char
  seen-eq-typed w t c ready = ground (arith, ready)

  seen_below : (w : Writer) (t : Text) → w.y ≡ n_row → seen_char w t newline ≡ t
  unfolding seen_char
  seen_below w t low = ground arith

  -- On a console whose buffer holds a text, a character that is no newline, or any character while
  -- the cursor is on the screen, is typed without a panic: the buffer then holds the text with it, and
  -- the screen was drawn anew if the character starts a row, before it stands there.
  put_char_types :
      (w : Writer) (t : Text) (c : ℕ)
      → Holds n_row n_column w t
      → (c ≢ newline) ⊎ (w.y < n_row)
      → (w' : Writer) × (put_char n_row n_column w c ≡ ok w')
        × Holds n_row n_column w' (type_char n_column t c)
        × Draws w w'
            (row_typed n_row n_column w.y t c)
            (drawn_char n_row n_column w.background_color w.foreground_color w.y t c)
  put_char_types w t c v ready =
      let (w1, run, v1, d1) = put_char-Holds w t c v in
      let same : seen_char w t c ≡ type_char n_column t c = seen-eq-typed w t c ready in
      (w1, run, rw same at v1, d1)

  -- A newline while the cursor is below the last row, which is where the previous newline at the
  -- bottom leaves it, adds no row: the buffer holds the same text as before.
  pub blank_line_lost :
      (w : Writer) (t : Text)
      → Holds n_row n_column w t
      → w.y ≡ n_row
      → (w' : Writer) × (put_char n_row n_column w newline ≡ ok w') × Holds n_row n_column w' t
  blank_line_lost w t v low =
      let (w1, run, v1, _) = put_char-Holds w t newline v in
      (w1, run, rw (seen_below w t low) at v1)

  -- Whatever is typed, no character makes the console panic or leave its buffer: after every string
  -- it holds some text.
  put_string_safe :
      (w : Writer) (t : Text) (s : List ℕ)
      → Holds n_row n_column w t
      → (w' : Writer) × (t' : Text) × (put_string n_row n_column w s ≡ ok w')
        × Holds n_row n_column w' t'
  unfolding put_string
  put_string_safe w t [] v = (w, t, refl, v)
  put_string_safe w t (c ∷ s) v =
      let (w1, run1, v1, _) = put_char-Holds w t c v in
      let (w2, t2, run2, v2) = put_string_safe w1 (seen_char w t c) s v1 in
      (w2, t2, rw run1 run2, v2)

-- A string typed character by character.
pub type_string : ℕ → Text → List ℕ → Text
type_string n_column t [] = t
type_string n_column t (c ∷ s) = type_string n_column (type_char n_column t c) s

-- No newline is typed on an empty row.
abbrev pub NoBlankLine : ℕ → Text → List ℕ → Type 0
NoBlankLine n_column t [] = Unit {0}
NoBlankLine n_column t (c ∷ s) =
    ((c ≢ newline) ⊎ (t.current ≢ [])) × NoBlankLine n_column (type_char n_column t c) s

put_string-Draws :
    (n_row n_column : ℕ) (w : Writer) (t : Text) (s : List ℕ)
    → IsScreen n_row n_column
    → Holds n_row n_column w t
    → NoBlankLine n_column t s
    → (w' : Writer) × (put_string n_row n_column w s ≡ ok w')
      × Holds n_row n_column w' (type_string n_column t s)
      × Draws w w' w'.y (drawn_string n_row n_column w.background_color w.foreground_color w.y t s)
unfolding put_string type_string drawn_string
put_string-Draws n_row n_column w t [] dims v plain =
    (w, refl, v, Draws-nil w w w.y refl refl refl refl)
put_string-Draws n_row n_column w t (c ∷ s) dims v (ready, plain) =
    let (w1, run1, v1, d1) =
      put_char_types n_row n_column dims w t c v (ground (arith, ready, v.in_screen)) in
    let (w2, run2, v2, d2) = put_string-Draws n_row n_column w1 _ s dims v1 plain in
    (
      w2,
      rw run1 run2,
      v2,
      Draws-trans w w1 w2 _ w2.y _ _ d1 (rw (d1.row, d1.background_kept, d1.foreground_kept) at d2),
    )

-- On a writer with at least one row and column, whose size in pixels is within `usize`, and whose
-- buffer holds the last rows of a text, with the cursor behind it, a string that types no newline on an
-- empty row is typed without a panic: the buffer then holds the last rows of the text with the string
-- typed at its end, and what was drawn is the whole screen for each newline
-- and for each character that finds its row full or the cursor below the screen, with the row that is
-- started and before the character stands there. Other characters are not drawn.
pub put_string_types :
    (n_row n_column : ℕ) (w : Writer) (t : Text) (s : List ℕ)
    → IsScreen n_row n_column
    → Holds n_row n_column w t
    → NoBlankLine n_column t s
    → (w' : Writer) × (put_string n_row n_column w s ≡ ok w')
      × Holds n_row n_column w' (type_string n_column t s)
      × (w'.drawn
          ≡ w.drawn ++ drawn_string n_row n_column w.background_color w.foreground_color w.y t s)
put_string_types n_row n_column w t s dims v plain =
    let (w', run, shown, d) = put_string-Draws n_row n_column w t s dims v plain in
    (w', run, shown, d.drawn)
