-- ===== src/Lifegame/Copy.antt =====
-- The loops of kernel/src/lifegame.rs that copy the next board into the board.
use lemola_osv.Base.{
  ℕ, zero, suc, ◌+◌, ◌≤◌, ◌<◌, ◌≡◌, ◌∙◌, refl, ap, sym, List, [], ◌∷◌, some, ok, Bool, get_elem?,
  get_elem?-some, get_elem?-set_self, get_elem?-set_ne, set, length, length-set, arith, ℕ_discrete,
}
use lemola_osv.Lifegame.{copy_row, copy_rows}

-- The entries from `j` on, `n` of them, are those of `next`, and those before `j` are those of `row`.
pub record IsCopied {ℓ} {A : Type ℓ} (n j : ℕ) (next row out : List A) : Type ℓ where
  pub size : length out ≡ length row
  pub kept : (k : ℕ) → k < j → get_elem? out k ≡ get_elem? row k
  pub copied : (k : ℕ) → j ≤ k → k < j + n → get_elem? out k ≡ get_elem? next k

-- One entry more.
IsCopied-step {ℓ} :
    {A : Type ℓ} (n j : ℕ) (next row out : List A) (value : A)
    → j < length row
    → get_elem? next j ≡ some value
    → IsCopied n (j + 1) next (set row j value) out
    → IsCopied (suc n) j next row out
IsCopied-step n j next row out value h here c = record {
  size = c.size ∙ length-set row j value;
  kept =
      λ k less. c.kept k (omega arith) ∙ get_elem?-set_ne row j k value (λ e. absurd (omega arith));
  copied = λ k more less. elim (ℕ_discrete k j) [
    | yes e ↦ rw e (c.kept j (omega arith) ∙ get_elem?-set_self row j value h ∙ sym here)
    | no ne ↦ c.copied k (omega arith) (omega arith)
  ];
}

pub copy_row_lem :
    (n j : ℕ) (next row : List Bool)
    → j + n ≤ length row
    → length next ≡ length row
    → (out : List Bool) × (copy_row n j next row ≡ ok out) × IsCopied n j next row out
unfolding copy_row
copy_row_lem zero j next row h same = (
  row,
  refl,
  record { size = refl; kept = λ k less. refl; copied = λ k more less. absurd (omega arith) },
)
copy_row_lem (suc n) j next row h same =
    let (value, here) = get_elem?-some next j (omega arith) in
    let (old, there) = get_elem?-some row j (omega arith) in
    let size = length-set row j value in
    let (out, run, c) = copy_row_lem n (j + 1) next (set row j value) (omega arith) (omega arith) in
    (
      out,
      ground (arith, here, there, run),
      IsCopied-step n j next row out value (omega arith) here c,
    )

-- Two lists of the same entries are one.
same_entries {ℓ} :
    {A : Type ℓ} (xs ys : List A)
    → length xs ≡ length ys
    → ((k : ℕ) → k < length ys → get_elem? xs k ≡ get_elem? ys k)
    → xs ≡ ys
same_entries [] [] size same = refl
same_entries [] (y ∷ ys) size same = absurd (omega arith)
same_entries (x ∷ xs) [] size same = absurd (omega arith)
same_entries (x ∷ xs) (y ∷ ys) size same =
    let first : x ≡ y = ground (arith, same 0 (omega arith)) in
    let rest = same_entries xs ys (omega arith) (λ k h. same (suc k) (omega arith)) in
    ground (arith, first, rest)

-- A row that is copied whole is the next row.
pub copy_row_whole :
    (next row : List Bool) → length next ≡ length row → copy_row (length row) 0 next row ≡ ok next
copy_row_whole next row same =
    let (out, run, c) = copy_row_lem (length row) 0 next row (omega arith) same in
    let e =
      same_entries out next (omega (arith, c.size))
        (λ k h. c.copied k (omega arith) (omega arith)) in
    run ∙ ap ok e

-- Square boards.
unfoldable pub Rows : ℕ → List (List Bool) → Type 0
Rows size board =
    (i : ℕ)
    → i < length board
    → (row : List Bool) × (get_elem? board i ≡ some row) × (length row ≡ size)

Rows-set :
    (size i : ℕ) (board : List (List Bool)) (row : List Bool)
    → length row ≡ size
    → Rows size board
    → Rows size (set board i row)
unfolding Rows
Rows-set size i board row wide v k h =
    let len = length-set board i row in
    elim (ℕ_discrete k i) [
      | yes e ↦ (row, rw e (get_elem?-set_self board i row (omega arith)), wide)
      | no ne ↦
          let (old, there, w) = v k (omega arith) in
          (old, get_elem?-set_ne board i k row (λ e. ne (sym e)) ∙ there, w)
    ]

pub copy_rows_lem :
    (size n i : ℕ) (next board : List (List Bool))
    → i + n ≤ length board
    → length next ≡ length board
    → Rows size next
    → Rows size board
    → (out : List (List Bool)) × (copy_rows size n i next board ≡ ok out)
      × IsCopied n i next board out
unfolding copy_rows Rows
copy_rows_lem size zero i next board h same wide v = (
  board,
  refl,
  record { size = refl; kept = λ k less. refl; copied = λ k more less. absurd (omega arith) },
)
copy_rows_lem size (suc n) i next board h same wide v =
    let (next_row, here, nw) = wide i (omega arith) in
    let (row, there, rw') = v i (omega arith) in
    let len = length-set board i next_row in
    let whole : copy_row size 0 next_row row ≡ ok next_row =
      rw rw' at (copy_row_whole next_row row (omega arith)) in
    let (out, run, c) =
      copy_rows_lem size n (i + 1) next (set board i next_row) (omega arith) (omega arith) wide
        (Rows-set size i board next_row nw v) in
    (
      out,
      ground (arith, here, there, whole, run),
      IsCopied-step n i next board out next_row (omega arith) here c,
    )

-- All rows copied, the board is the next board.
pub copy_rows_whole :
    (size : ℕ) (next board : List (List Bool))
    → length next ≡ size
    → length board ≡ size
    → Rows size next
    → Rows size board
    → copy_rows size size 0 next board ≡ ok next
copy_rows_whole size next board hn hb wide v =
    let (out, run, c) = copy_rows_lem size size 0 next board (omega arith) (omega arith) wide v in
    let e =
      same_entries out next (omega (arith, c.size))
        (λ k h. c.copied k (omega arith) (omega arith)) in
    run ∙ ap ok e
