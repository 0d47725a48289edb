-- ===== src/Lifegame/Tests.antt =====
-- Tests of the game of life of kernel/src/lifegame.rs.
use lemola_osv.Base.{
  ℕ, zero, suc, ◌<◌, ◌≡◌, refl, List, [], ◌∷◌, some, ok, Bool, true, false, length, get_elem?,
  arith,
}
use lemola_osv.Lifegame.{
  cell, process, next_rows, next_row, next_cell, count_neighbours, count_along, count_at, copy_rows,
  copy_row,
}
use lemola_osv.Lifegame.Rule.{IsBoard, alive, neighbours, rule}
use lemola_osv.Lifegame.Step.{process_lem}

-- A blinker.
abbrev board : List (List Bool)
board = (false ∷ true ∷ false ∷ []) ∷ (false ∷ true ∷ false ∷ []) ∷ (false ∷ true ∷ false ∷ []) ∷ []

blinker :
    process 3 board
    ≡ ok (
        (false ∷ false ∷ false ∷ [])
        ∷ (true ∷ true ∷ true ∷ [])
        ∷ (false ∷ false ∷ false ∷ [])
        ∷ [])
unfolding process next_rows next_row next_cell count_neighbours count_along count_at copy_rows
    copy_row
blinker = refl

board-IsBoard : IsBoard 3 board
board-IsBoard = record { height = refl; rows = rows_of }
  where
    rows_of :
        (i : ℕ) → i < 3 → (row : List Bool) × (get_elem? board i ≡ some row) × (length row ≡ 3)
    rows_of zero h = (_, refl, refl)
    rows_of (suc zero) h = (_, refl, refl)
    rows_of (suc (suc zero)) h = (_, refl, refl)
    rows_of (suc (suc (suc i))) h = absurd (omega arith)

process_lem_example :
    (next : List (List Bool)) × (process 3 board ≡ ok next)
    × IsBoard 3 next
    × ((i j : ℕ)
        → i < 3
        → j < 3
        → cell next i j ≡ ok (rule (alive board i j) (neighbours board i j)))
process_lem_example = process_lem 3 board board-IsBoard
