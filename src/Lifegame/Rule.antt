-- ===== src/Lifegame/Rule.antt =====
-- The rule of the game of life, and the count of neighbours of kernel/src/lifegame.rs.
use native.Mathlib.Nat.{zero-add, add-zero}
use lemola_osv.Base.{
  ℕ, zero, suc, ◌+◌, ◌-◌, ◌≤◌, ◌<◌, ◌≡◌, ◌⊎◌, inl, inr, refl, List, [], ◌∷◌, some, ok, panic, ◌>>=◌,
  Bool, true, false, ltb, leb, ◌==◌, ◌&&◌, ◌||◌, if◌then◌else◌, get_elem?, length, arith, dec_lt,
  get_elem?-some, get_elem?-none,
}
use lemola_osv.Lifegame.{cell, count_at, count_along, count_neighbours, next_cell}

-- A square board.
pub record IsBoard (size : ℕ) (board : List (List Bool)) : Type 0 where
  pub height : length board ≡ size
  pub rows :
      (i : ℕ) → i < size → (row : List Bool) × (get_elem? board i ≡ some row) × (length row ≡ size)

-- Whether a cell lives; none does outside of the board.
abbrev pub alive : List (List Bool) → ℕ → ℕ → Bool
alive board i j = elim (cell board i j) [ ok b ↦ b | panic ↦ false ]

-- The cell above and to the left.
abbrev pub before : List (List Bool) → ℕ → ℕ → Bool
before board zero q = false
before board (suc p) zero = false
before board (suc p) (suc q) = alive board p q

abbrev pub one_if : Bool → ℕ
one_if true = 1
one_if false = 0

-- The living among the eight neighbours.
abbrev pub neighbours : List (List Bool) → ℕ → ℕ → ℕ
neighbours board i j =
    one_if (before board i j)
    + one_if (before board i (j + 1))
    + one_if (before board i (j + 2))
    + one_if (before board (i + 1) j)
    + one_if (before board (i + 1) (j + 2))
    + one_if (before board (i + 2) j)
    + one_if (before board (i + 2) (j + 1))
    + one_if (before board (i + 2) (j + 2))

-- A cell lives on with two or three living neighbours, and comes to life with three.
abbrev pub rule : Bool → ℕ → Bool
rule true n = n == 2 || n == 3
rule false n = n == 3

cell_inside :
    (size : ℕ) (board : List (List Bool)) (i j : ℕ)
    → IsBoard size board
    → i < size
    → j < size
    → cell board i j ≡ ok (alive board i j)
cell_inside size board i j v hi hj =
    let (row, held, wide) = v.rows i hi in
    let (b, here) = get_elem?-some row j (omega arith) in ground (arith, held, here)

alive_outside :
    (size : ℕ) (board : List (List Bool)) (i j : ℕ)
    → IsBoard size board
    → (size ≤ i) ⊎ (size ≤ j)
    → alive board i j ≡ false
alive_outside size board i j v out = elim (dec_lt i size) [
  | yes hi ↦
      let (row, held, wide) = v.rows i hi in
      let gone = get_elem?-none row j (ground (arith, out, wide)) in ground (arith, held, gone)
  | no hi ↦ let gone = get_elem?-none board i (omega (arith, v.height)) in ground (arith, gone)
]

-- The place of a neighbour, one down and one to the right.
visit_lem :
    (size : ℕ) (board : List (List Bool)) (p q count : ℕ)
    → IsBoard size board
    → (if (ltb p 1 || leb (size + 1) p) || (ltb q 1 || leb (size + 1) q)
        then ok count
        else (cell board (p - 1) (q - 1) >>= λ alive. ok (if alive then count + 1 else count)))
      ≡ ok (count + one_if (before board p q))
visit_lem size board zero q count v = ground arith
visit_lem size board (suc p) zero count v = ground arith
visit_lem size board (suc p) (suc q) count v =
    let up : suc p - 1 ≡ p = omega arith in
    let left : suc q - 1 ≡ q = omega arith in
    elim (dec_lt p size) [
      | yes hp ↦ elim (dec_lt q size) [
        | yes hq ↦ rw (up, left) (ground (arith, cell_inside size board p q v hp hq))
        | no hq ↦ ground (arith, alive_outside size board p q v (inr (omega arith)))
      ]
      | no hp ↦ ground (arith, alive_outside size board p q v (inl (omega arith)))
    ]

count_at_lem :
    (size : ℕ) (board : List (List Bool)) (i j dx dy count : ℕ)
    → IsBoard size board
    → (dx == 1 && dy == 1) ≡ false
    → count_at size board i j dx dy count ≡ ok (count + one_if (before board (i + dx) (j + dy)))
unfolding count_at
count_at_lem size board i j dx dy count v side =
    simp side (visit_lem size board (i + dx) (j + dy) count v)

count_middle :
    (size : ℕ) (board : List (List Bool)) (i j count : ℕ)
    → count_at size board i j 1 1 count ≡ ok count
unfolding count_at
count_middle size board i j count = refl

pub count_neighbours_lem :
    (size : ℕ) (board : List (List Bool)) (i j : ℕ)
    → IsBoard size board
    → count_neighbours size board i j (0 ∷ 1 ∷ 2 ∷ []) 0 ≡ ok (neighbours board i j)
unfolding count_neighbours count_along
count_neighbours_lem size board i j v =
    let at : (dx dy count : ℕ)
        → (dx == 1 && dy == 1) ≡ false
        → count_at size board i j dx dy count
          ≡ ok (count + one_if (before board (i + dx) (j + dy))) =
      λ dx dy count. count_at_lem size board i j dx dy count v in
    simp
      (
        zero-add,
        add-zero,
        at 0 0 0 refl,
        at 0 1 _ refl,
        at 0 2 _ refl,
        at 1 0 _ refl,
        count_middle,
        at 1 2 _ refl,
        at 2 0 _ refl,
        at 2 1 _ refl,
        at 2 2 _ refl,
      )
      refl

decide : (b : Bool) (n : ℕ) → ok (if b then n == 2 || n == 3 else n == 3) ≡ ok (rule b n)
decide true n = refl
decide false n = refl

-- On a square board the next cell is the one of the rule.
pub next_cell_lem :
    (size : ℕ) (board : List (List Bool)) (i j : ℕ)
    → IsBoard size board
    → i < size
    → j < size
    → next_cell size board i j ≡ ok (rule (alive board i j) (neighbours board i j))
unfolding next_cell
next_cell_lem size board i j v hi hj =
    let count = count_neighbours_lem size board i j v in
    let here = cell_inside size board i j v hi hj in
    simp (count, here) (decide (alive board i j) (neighbours board i j))
