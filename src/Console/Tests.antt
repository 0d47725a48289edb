-- ===== src/Console/Tests.antt =====
-- The console of kernel-lib/src/lib.rs on a screen of two rows of three characters.
use lemola_osv.Base.{
  ℕ, ◌<◌, ◌≡◌, zero, suc, some, get_elem?, inl, inr, refl, List, [], ◌∷◌, ok, panic, arith,
}
use lemola_osv.Console.{Writer, Glyph, new, put_char, put_string, flush, scroll, newline, blank}
use lemola_osv.Console
use lemola_osv.Console.Text.{Text, IsScreen, Holds, new-Holds, no_text, type_char, line, pad}
use lemola_osv.Console.Pictures.{drawn_string}
use lemola_osv.Console.Strings.{put_string_types, type_string}

abbrev w0 : Writer
w0 = new 2 3

dims : IsScreen 2 3
dims = omega arith

w0-Holds : Holds 2 3 w0 no_text
w0-Holds = new-Holds 2 3 dims

-- The buffer after a string, `[]` after a panic.
rows_after : List ℕ → List (List ℕ)
unfolding put_string
rows_after s = elim (put_string 2 3 w0 s) [ ok w ↦ w.buffer | panic ↦ [] ]

-- "abcd\n" goes on in the second row, and the newline waits below the screen.
rows_after_test :
    rows_after (1 ∷ 2 ∷ 3 ∷ 4 ∷ newline ∷ []) ≡ (1 ∷ 2 ∷ 3 ∷ []) ∷ (4 ∷ 32 ∷ 32 ∷ []) ∷ []
unfolding rows_after put_string put_char Console.new_line Console.store_next Console.store
    Console.wrap_char flush Console.flush_rows Console.flush_cells new
rows_after_test = refl

-- The cursor in the second row.
abbrev w1 : Writer
w1 = record w0 { y = 1 }

put_string_types_example :
    (w : Writer) × (put_string 2 3 w0 (97 ∷ newline ∷ 98 ∷ []) ≡ ok w)
    × Holds 2 3 w (type_string 3 no_text (97 ∷ newline ∷ 98 ∷ []))
    × (w.drawn
        ≡ drawn_string 2 3 w0.background_color w0.foreground_color 0 no_text
            (97 ∷ newline ∷ 98 ∷ []))
unfolding type_char new
put_string_types_example =
    put_string_types 2 3 w0 no_text (97 ∷ newline ∷ 98 ∷ []) dims w0-Holds
      (inl (λ e. absurd (omega arith)), (inr (λ e. cc), (inl (λ e. absurd (omega arith)), tt)))

-- The cursor below the screen, with the row "a" above the row that is to be typed.
abbrev low : Writer
low = record w0 { y = 2; buffer = (32 ∷ 32 ∷ 32 ∷ []) ∷ (97 ∷ 32 ∷ 32 ∷ []) ∷ [] }

abbrev low_text : Text
low_text = record { current = []; older = (97 ∷ []) ∷ [] ∷ [] }

low_rows : (i : ℕ) → i < 2 → get_elem? low.buffer i ≡ some (line 2 3 2 ([] ∷ low_text.older) i)
unfolding line pad
low_rows zero h = refl
low_rows (suc zero) h = refl
low_rows (suc (suc i)) h = absurd (omega arith)

low-Holds : Holds 2 3 low low_text
unfolding new
low-Holds = record {
  column = refl;
  in_row = omega arith;
  in_screen = inr (refl, refl);
  size = refl;
  short = omega arith;
  rows = low_rows;
}
