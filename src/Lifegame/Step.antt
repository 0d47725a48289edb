-- ===== src/Lifegame/Step.antt =====
-- `process` of kernel/src/lifegame.rs against the rule of the game of life.
use native.Mathlib.Nat.{zero-add}
use lemola_osv.Base.{
  ℕ, zero, suc, ◌+◌, ◌≤◌, ◌<◌, ◌≡◌, refl, List, [], ◌∷◌, some, ok, Bool, get_elem?, length, arith,
}
use lemola_osv.Lifegame.{cell, next_row, next_rows, process}
use lemola_osv.Lifegame.Rule.{IsBoard, alive, neighbours, rule, next_cell_lem}
use lemola_osv.Lifegame.Copy.{Rows, copy_rows_whole}

IsBoard-Rows : (size : ℕ) (board : List (List Bool)) → IsBoard size board → Rows size board
unfolding Rows
IsBoard-Rows size board v i h = v.rows i (omega (arith, v.height))

module _ (size : ℕ) (board : List (List Bool)) (v : IsBoard size board) where
  abbrev pub ruled : ℕ → ℕ → Bool
  ruled i j = rule (alive board i j) (neighbours board i j)

  next_row_lem :
      (i n j : ℕ)
      → i < size
      → j + n ≤ size
      → (row : List Bool) × (next_row size board i n j ≡ ok row)
        × (length row ≡ n)
        × ((k : ℕ) → k < n → get_elem? row k ≡ some (ruled i (j + k)))
  unfolding next_row
  next_row_lem i zero j hi h = ([], refl, refl, λ k less. absurd (omega arith))
  next_row_lem i (suc n) j hi h =
      let run = next_cell_lem size board i j v hi (omega arith) in
      let (rest, runs, len, at) = next_row_lem i n (j + 1) hi (omega arith) in
      (ruled i j ∷ rest, simp (run, runs) refl, omega arith, λ k less. entry i n j rest at k less)
    where
      entry :
          (i n j : ℕ) (rest : List Bool)
          → ((k : ℕ) → k < n → get_elem? rest k ≡ some (ruled i (j + 1 + k)))
          → (k : ℕ) → k < suc n
          → get_elem? (ruled i j ∷ rest) k ≡ some (ruled i (j + k))
      entry i n j rest at zero less = let e : j + 0 ≡ j = omega arith in rw e refl
      entry i n j rest at (suc k) less =
          let e : j + suc k ≡ j + 1 + k = omega arith in rw e (at k (omega arith))

  -- Row `k` of a board is the row `i` that the rule gives.
  abbrev RuledRow : List (List Bool) → ℕ → ℕ → Type 0
  RuledRow next k i =
      (row : List Bool) × (get_elem? next k ≡ some row)
      × (length row ≡ size)
      × ((j : ℕ) → j < size → get_elem? row j ≡ some (ruled i j))

  next_rows_lem :
      (n i : ℕ)
      → i + n ≤ size
      → (next : List (List Bool)) × (next_rows size board n i ≡ ok next)
        × (length next ≡ n)
        × ((k : ℕ) → k < n → RuledRow next k (i + k))
  unfolding next_rows
  next_rows_lem zero i h = ([], refl, refl, λ k less. absurd (omega arith))
  next_rows_lem (suc n) i h =
      let (row, run, wide, at) = next_row_lem i size 0 (omega arith) (omega arith) in
      let (rest, runs, len, below) = next_rows_lem n (i + 1) (omega arith) in
      (
        row ∷ rest,
        simp (run, runs) refl,
        omega arith,
        λ k less. line n i row rest wide (λ j hj. simp zero-add at (at j hj)) below k less,
      )
    where
      line :
          (n i : ℕ) (row : List Bool) (rest : List (List Bool))
          → length row ≡ size
          → ((j : ℕ) → j < size → get_elem? row j ≡ some (ruled i j))
          → ((k : ℕ) → k < n → RuledRow rest k (i + 1 + k))
          → (k : ℕ) → k < suc n
          → RuledRow (row ∷ rest) k (i + k)
      line n i row rest wide at below zero less =
          let e : i + 0 ≡ i = omega arith in rw e (row, refl, wide, at)
      line n i row rest wide at below (suc k) less =
          let e : i + suc k ≡ i + 1 + k = omega arith in rw e (below k (omega arith))

  -- `process` on a square board does not panic and gives a square board, in which every cell is as the
  -- rule of the game of life has it, from the cell and its living neighbours in the board before.
  pub process_lem :
      (next : List (List Bool)) × (process size board ≡ ok next)
      × IsBoard size next
      × ((i j : ℕ)
          → i < size
          → j < size
          → cell next i j ≡ ok (rule (alive board i j) (neighbours board i j)))
  unfolding process
  process_lem =
      let (next, run, len, lines) = next_rows_lem size 0 (omega arith) in
      let square : IsBoard size next = record {
        height = len;
        rows = λ i h. let (row, held, wide, _) = lines i h in (row, held, wide);
      } in
      let copied =
        copy_rows_whole size next board len v.height (IsBoard-Rows size next square)
          (IsBoard-Rows size board v) in
      (
        next,
        simp run copied,
        square,
        λ i j hi hj.
            let (row, held, _, at) = lines i hi in
            let here = at j hj in ground (arith, held, here, zero-add i),
      )
