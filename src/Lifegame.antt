-- ===== src/Lifegame.antt =====
-- The board of kernel/src/lifegame.rs: its step and the place of a click. The board is the vector of
-- its rows; the drawing and the queue of clicks are left out.
pub mod Rule
pub mod Copy
pub mod Step
pub mod Click
pub mod Tests
use lemola_osv.Base.{
  ℕ, zero, suc, ◌+◌, ◌-◌, ◌/◌, List, [], ◌∷◌, Option, none, some, Run, ok, ◌>>=◌, unwrap, Bool,
  true, false, ltb, leb, ◌==◌, ◌&&◌, ◌||◌, if◌then◌else◌, get_elem?, set, ◌^◌,
}

abbrev pub cell : List (List Bool) → ℕ → ℕ → Run Bool
cell board i j = do row ← unwrap (get_elem? board i); unwrap (get_elem? row j)

-- One turn of the loops over `x` and `y`, which are `dx - 1` and `dy - 1` here.
pub count_at : ℕ → List (List Bool) → ℕ → ℕ → ℕ → ℕ → ℕ → Run ℕ
count_at size board i j dx dy count =
    if dx == 1 && dy == 1
    then ok count
    else if (ltb (i + dx) 1 || leb (size + 1) (i + dx))
        || (ltb (j + dy) 1 || leb (size + 1) (j + dy))
    then ok count
    else (do alive ← cell board (i + dx - 1) (j + dy - 1); ok (if alive then count + 1 else count))

pub count_along : ℕ → List (List Bool) → ℕ → ℕ → ℕ → List ℕ → ℕ → Run ℕ
count_along size board i j dx [] count = ok count
count_along size board i j dx (dy ∷ dys) count = do
  count ← count_at size board i j dx dy count
  count_along size board i j dx dys count

pub count_neighbours : ℕ → List (List Bool) → ℕ → ℕ → List ℕ → ℕ → Run ℕ
count_neighbours size board i j [] count = ok count
count_neighbours size board i j (dx ∷ dxs) count = do
  count ← count_along size board i j dx (0 ∷ 1 ∷ 2 ∷ []) count
  count_neighbours size board i j dxs count

-- The cell of the next board.
pub next_cell : ℕ → List (List Bool) → ℕ → ℕ → Run Bool
next_cell size board i j = do
  count ← count_neighbours size board i j (0 ∷ 1 ∷ 2 ∷ []) 0
  alive ← cell board i j
  ok (if alive then count == 2 || count == 3 else count == 3)

-- The loop over `j`, with `n` turns left.
pub next_row : ℕ → List (List Bool) → ℕ → ℕ → ℕ → Run (List Bool)
next_row size board i zero j = ok []
next_row size board i (suc n) j = do
  c ← next_cell size board i j
  rest ← next_row size board i n (j + 1)
  ok (c ∷ rest)

pub next_rows : ℕ → List (List Bool) → ℕ → ℕ → Run (List (List Bool))
next_rows size board zero i = ok []
next_rows size board (suc n) i = do
  row ← next_row size board i size 0
  rest ← next_rows size board n (i + 1)
  ok (row ∷ rest)

-- `board[i][j] = next_board[i][j]` along a row.
pub copy_row : ℕ → ℕ → List Bool → List Bool → Run (List Bool)
copy_row zero j next row = ok row
copy_row (suc n) j next row = do
  value ← unwrap (get_elem? next j)
  old ← unwrap (get_elem? row j)
  copy_row n (j + 1) next (set row j value)

pub copy_rows : ℕ → ℕ → ℕ → List (List Bool) → List (List Bool) → Run (List (List Bool))
copy_rows size zero i next board = ok board
copy_rows size (suc n) i next board = do
  next_row ← unwrap (get_elem? next i)
  row ← unwrap (get_elem? board i)
  row ← copy_row size 0 next_row row
  copy_rows size n (i + 1) next (set board i row)

pub process : ℕ → List (List Bool) → Run (List (List Bool))
process size board = do
  next_board ← next_rows size board size 0
  copy_rows size size 0 next_board board

-- The board stands at (0, 0); `SIZE` is 20 and `PIXCEL_SIZE` 30. A coordinate from 2 ^ 63 on is negative
-- as `isize`.
pub frame_buffer_position_to_board_position : ℕ → ℕ → Option (ℕ × ℕ)
frame_buffer_position_to_board_position x y =
    if leb (2 ^ 63) x || leb (2 ^ 63) y
    then none
    else if leb 20 (x / 30) || leb 20 (y / 30)
    then none
    else some (x / 30, y / 30)
