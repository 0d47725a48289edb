-- ===== src/Console/Text.antt =====
-- What a console of kernel-lib/src/lib.rs holds: an unbounded text, of which the buffer has the last
-- rows.
use mathlib.Core.List.{append_assoc}
use lemola_osv.Base.{
  ℕ, zero, suc, ◌+◌, ◌-◌, ◌*◌, ◌≤◌, ◌<◌, ◌≡◌, ◌≢◌, ◌∙◌, ◌⊎◌, inl, refl, ap, List, [], ◌∷◌, ◌++◌,
  some, word, arith, length, length-append, length-replicate, get_elem?, get_elem?-replicate,
  get_or, set, ltb, leb, ◌==◌, if◌then◌else◌, replicate,
}
use lemola_osv.Console.{Writer, new, blank, newline, space}
use lemola_osv.Console.Flush.{AllRows}

-- The row being typed, and the rows above it, the nearest first.
pub record Text : Type 0 where
  pub current : List ℕ
  pub older : List (List ℕ)

abbrev pub no_text : Text
no_text = record { current = []; older = [] }

-- Typing on a terminal of that width: a newline starts a row, and so does a character that finds
-- the row full.
unfoldable pub type_char : ℕ → Text → ℕ → Text
type_char n_column t c =
    if c == newline
    then record { current = []; older = t.current ∷ t.older }
    else if ltb (length t.current) n_column
    then record t { current = t.current ++ c ∷ [] }
    else record { current = c ∷ []; older = t.current ∷ t.older }

abbrev pub AllShort : ℕ → List (List ℕ) → Type 0
AllShort n [] = Unit {0}
AllShort n (row ∷ rows) = (length row ≤ n) × AllShort n rows

module _ (n_row n_column : ℕ) where
  -- Dimensions of a screen whose pixels the machine can count.
  pub record IsScreen : Type 0 where
    pub some_row : 0 < n_row
    pub some_column : 0 < n_column
    pub height : n_row * 16 < word
    pub width : n_column * 8 < word

  unfoldable pub pad : List ℕ → List ℕ
  pad row = row ++ replicate (n_column - length row) space

  -- Row `i` of a buffer whose cursor is in row `y`; `rows` are the rows of the text, newest first.
  unfoldable pub line : ℕ → List (List ℕ) → ℕ → List ℕ
  line y rows i = if leb i y then pad (get_or rows (y - i) []) else blank n_row n_column

  -- The buffer holds the last rows of the text. The cursor stands behind the row being typed; below
  -- the last row that row is still empty.
  pub record Holds (w : Writer) (t : Text) : Type 0 where
    pub column : w.x ≡ length t.current
    pub in_row : length t.current ≤ n_column
    pub in_screen : (w.y < n_row) ⊎ ((w.y ≡ n_row) × (t.current ≡ []))
    pub size : length w.buffer ≡ n_row
    pub short : AllShort n_column t.older
    pub rows : (i : ℕ) → i < n_row → get_elem? w.buffer i ≡ some (line w.y (t.current ∷ t.older) i)

  pub pad-nil : pad [] ≡ blank n_row n_column
  unfolding pad
  pad-nil = ap (λ k. replicate k space) (omega arith)

  pub length-pad : (row : List ℕ) → length row ≤ n_column → length (pad row) ≡ n_column
  unfolding pad
  length-pad row h = omega (
    arith,
    length-append row (replicate (n_column - length row) space),
    length-replicate (n_column - length row) space,
  )

  set-append :
      (row rest : List ℕ) (a c : ℕ) → set (row ++ a ∷ rest) (length row) c ≡ row ++ c ∷ rest
  set-append [] rest a c = refl
  set-append (b ∷ row) rest a c = ap (◌∷◌ b) (set-append row rest a c)

  -- Storing behind a row that is not full.
  pub set-pad :
      (row : List ℕ) (c : ℕ)
      → length row < n_column
      → set (pad row) (length row) c ≡ pad (row ++ c ∷ [])
  unfolding pad
  set-pad row c h =
      let m = n_column - suc (length row) in
      let before : n_column - length row ≡ suc m = omega arith in
      let after : n_column - length (row ++ c ∷ []) ≡ m =
        omega (arith, length-append row (c ∷ [])) in
      rw (before, after, append_assoc) (set-append row (replicate m space) space c)

  length-get_or :
      (rows : List (List ℕ)) (i : ℕ) → AllShort n_column rows → length (get_or rows i []) ≤ n_column
  length-get_or [] i a = omega arith
  length-get_or (row ∷ rows) zero a = a.0
  length-get_or (row ∷ rows) (suc i) a = length-get_or rows i a.1

  length-line :
      (y i : ℕ) (rows : List (List ℕ)) → AllShort n_column rows → length (line y rows i) ≡ n_column
  unfolding line
  length-line y i rows a = ground (
    arith,
    length-pad (get_or rows (y - i) []),
    length-get_or rows (y - i) a,
    length-replicate n_column space,
  )

  AllRows-intro :
      (rows : List (List ℕ)) (f : ℕ → List ℕ)
      → ((i : ℕ) → i < length rows → get_elem? rows i ≡ some (f i))
      → ((i : ℕ) → length (f i) ≡ n_column)
      → AllRows n_column rows
  AllRows-intro [] f h k = tt
  AllRows-intro (row ∷ rows) f h k = (
    ground (arith, h 0 (omega arith), k 0),
    AllRows-intro rows (λ i. f (suc i)) (λ i lt. h (suc i) (omega arith)) (λ i. k (suc i)),
  )

  pub Holds-AllRows : {w : Writer} {t : Text} → Holds w t → AllRows n_column w.buffer
  Holds-AllRows {w} {t} v =
      let rows = t.current ∷ t.older in
      AllRows-intro w.buffer (line w.y rows) (λ i h. v.rows i (omega (arith, v.size)))
        (λ i. length-line w.y i rows (v.in_row, v.short))

  get_or-cons :
      (k : ℕ) (row : List ℕ) (rows : List (List ℕ))
      → k ≢ 0
      → get_or (row ∷ rows) k [] ≡ get_or rows (k - 1) []
  get_or-cons zero row rows h = absurd (h refl)
  get_or-cons (suc k) row rows h = ap (λ j. get_or rows j []) (omega arith)

  -- The row under the cursor shows in no other row.
  pub line_above :
      (y i : ℕ) (a b : List ℕ) (older : List (List ℕ))
      → i ≢ y
      → line y (a ∷ older) i ≡ line y (b ∷ older) i
  unfolding line
  line_above y i a b older h =
      ground (arith, get_or-cons (y - i) a older, get_or-cons (y - i) b older)

  pub line_at : (y : ℕ) (a : List ℕ) (older : List (List ℕ)) → line y (a ∷ older) y ≡ pad a
  unfolding line
  line_at y a older =
      let none_left : y - y ≡ 0 = omega arith in
      let here : get_or (a ∷ older) (y - y) [] ≡ a = rw none_left in ground (arith, here)

  -- A new row below the cursor's.
  pub line_next : (y i : ℕ) (rows : List (List ℕ)) → line (y + 1) ([] ∷ rows) i ≡ line y rows i
  unfolding line
  line_next y i rows =
      let one_less : y + 1 - i - 1 ≡ y - i = omega arith in
      let older : i ≤ y → get_or ([] ∷ rows) (y + 1 - i) [] ≡ get_or rows (y - i) [] =
        λ h. get_or-cons (y + 1 - i) [] rows (omega arith) ∙ ap (λ k. get_or rows k []) one_less in
      let new : i ≡ y + 1 → get_or ([] ∷ rows) (y + 1 - i) [] ≡ [] =
        λ e. let z : y + 1 - i ≡ 0 = omega arith in rw z in
      ground (arith, older, new, pad-nil)

  -- The cursor moved up with the rows.
  pub line_up : (y i : ℕ) (rows : List (List ℕ)) → 1 ≤ y → line (y - 1) rows i ≡ line y rows (i + 1)
  unfolding line
  line_up y i rows h =
      let same : y - 1 - i ≡ y - (i + 1) = omega arith in
      ground (arith, ap (λ k. get_or rows k []) same)

  -- A new console shows the empty text.
  pub new-Holds : IsScreen → Holds (new n_row n_column) no_text
  unfolding new line
  new-Holds dims = record {
    column = refl;
    in_row = omega arith;
    in_screen = inl dims.some_row;
    size = length-replicate n_row (blank n_row n_column);
    short = tt;
    rows = λ i h.
        ground
          (arith, get_elem?-replicate n_row i (blank n_row n_column) h, line_at 0 [] [], pad-nil);
  }
