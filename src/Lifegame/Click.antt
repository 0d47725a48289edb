-- ===== src/Lifegame/Click.antt =====
-- The place of a click on the board of kernel/src/lifegame.rs.
use lemola_osv.Base.{ℕ, ◌/◌, ◌<◌, ◌^◌, ◌≡◌, ◌↔◌, some, arith}
use lemola_osv.Lifegame.{frame_buffer_position_to_board_position}

-- A click is on a cell if and only if the cell is on the board and the pixel in its square of 30 by 30
-- pixels, for coordinates that are numbers of `isize`.
pub frame_buffer_position_to_board_position_lem :
    (x y i j : ℕ)
    → x < 2 ^ 63
    → y < 2 ^ 63
    → (frame_buffer_position_to_board_position x y ≡ some (i, j))
      ↔ ((x / 30 ≡ i) × (y / 30 ≡ j) × (i < 20) × (j < 20))
unfolding frame_buffer_position_to_board_position
frame_buffer_position_to_board_position_lem x y i j hx hy = ground arith
