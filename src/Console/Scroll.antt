-- ===== src/Console/Scroll.antt =====
-- `Writer::scroll` of kernel-lib/src/lib.rs: the rows after the two loops.
use lemola_osv.Base.{
  ℕ, zero, suc, ◌+◌, ◌-◌, ◌≤◌, ◌<◌, ◌≡◌, refl, List, ok, some, word, arith, length, length-set,
  get_elem?, set, get_elem?-some, get_elem?-set_self, get_elem?-set_ne, ltb, leb, ◌&&◌,
  if◌then◌else◌,
}
use lemola_osv.Console.{Writer, copy_rows, clear_rows, scroll, blank}

-- `out` is `buffer` with the rows from `y` up to `y + n` taken `dy` rows further down.
record IsCopied (n y dy : ℕ) (buffer out : List (List ℕ)) : Type 0 where
  size : length out ≡ length buffer
  rows :
      (i : ℕ)
      → get_elem? out i
        ≡ (if leb y i && ltb i (y + n) then get_elem? buffer (i + dy) else get_elem? buffer i)

copy_rows_lem :
    (n y dy : ℕ) (buffer : List (List ℕ))
    → y + n + dy ≤ length buffer
    → length buffer < word
    → (out : List (List ℕ)) × (copy_rows n y dy buffer ≡ ok out) × IsCopied n y dy buffer out
unfolding copy_rows
copy_rows_lem zero y dy buffer h hw =
    (buffer, refl, record { size = refl; rows = λ i. ground arith })
copy_rows_lem (suc n) y dy buffer h hw =
    let (row, found) = get_elem?-some buffer (y + dy) (omega arith) in
    let (old, here) = get_elem?-some buffer y (omega arith) in
    let (out, run, v) =
      copy_rows_lem n (y + 1) dy (set buffer y row) (omega (arith, length-set buffer y row))
        (omega (arith, length-set buffer y row)) in
    (
      out,
      ground (arith, found, here, run),
      record {
        size = omega (arith, v.size, length-set buffer y row);
        rows = λ i. ground (
          arith,
          v.rows i,
          found,
          get_elem?-set_self buffer y row,
          get_elem?-set_ne buffer y i row,
          get_elem?-set_ne buffer y (i + dy) row,
        );
      },
    )

record IsCleared (blank : List ℕ) (n y : ℕ) (buffer out : List (List ℕ)) : Type 0 where
  size : length out ≡ length buffer
  rows :
      (i : ℕ)
      → get_elem? out i ≡ (if leb y i && ltb i (y + n) then some blank else get_elem? buffer i)

clear_rows_lem :
    (blank : List ℕ) (n y : ℕ) (buffer : List (List ℕ))
    → y + n ≤ length buffer
    → (out : List (List ℕ)) × (clear_rows blank n y buffer ≡ ok out)
      × IsCleared blank n y buffer out
unfolding clear_rows
clear_rows_lem blank zero y buffer h =
    (buffer, refl, record { size = refl; rows = λ i. ground arith })
clear_rows_lem blank (suc n) y buffer h =
    let (old, here) = get_elem?-some buffer y (omega arith) in
    let (out, run, v) =
      clear_rows_lem blank n (y + 1) (set buffer y blank)
        (omega (arith, length-set buffer y blank)) in
    (
      out,
      ground (arith, here, run),
      record {
        size = omega (arith, v.size, length-set buffer y blank);
        rows = λ i.
            ground (
              arith,
              v.rows i,
              get_elem?-set_self buffer y blank,
              get_elem?-set_ne buffer y i blank,
            );
      },
    )

module _ (n_row n_column : ℕ) where
  -- The buffer moved up by `dy` rows.
  pub record IsScrolled (dy : ℕ) (buffer out : List (List ℕ)) : Type 0 where
    pub size : length out ≡ n_row
    pub moved : (i : ℕ) → i + dy < n_row → get_elem? out i ≡ get_elem? buffer (i + dy)
    pub cleared :
        (i : ℕ) → i < n_row → n_row ≤ i + dy → get_elem? out i ≡ some (blank n_row n_column)

  -- `scroll` by at most the rows of the buffer and the cursor's row does not panic, moves the buffer
  -- up by `dy` rows with blank rows at the end, moves the cursor up with it, to the first column, and
  -- leaves the rest as it was.
  pub scroll_lem :
      (w : Writer) (dy : ℕ)
      → length w.buffer ≡ n_row
      → n_row < word
      → dy ≤ n_row
      → dy ≤ w.y
      → (out : List (List ℕ)) × (scroll n_row n_column w dy
          ≡ ok (record w { buffer = out; y = w.y - dy; x = 0 }))
        × IsScrolled dy w.buffer out
  unfolding scroll
  scroll_lem w dy e hw hd hy =
      let (mid, run1, v) = copy_rows_lem (n_row - dy) 0 dy w.buffer (omega arith) (omega arith) in
      let (out, run2, u) =
        clear_rows_lem (blank n_row n_column) (n_row - (n_row - dy)) (n_row - dy) mid
          (omega (arith, v.size)) in
      (
        out,
        ground (arith, run1, run2),
        record {
          size = omega (arith, v.size, u.size);
          moved = λ i h. ground (arith, v.rows i, u.rows i);
          cleared = λ i h k. ground (arith, u.rows i);
        },
      )
