-- ===== src/WriteTo/Show.antt =====
-- What `show` of kernel-lib/src/write_to.rs returns.
use mathlib.Core.List.{append-nil, append_assoc}
use lemola_osv.Base.{
  ℕ, zero, suc, ◌+◌, ◌-◌, ◌≤◌, ◌<◌, ◌≡◌, ◌∙◌, refl, ap, sym, List, [], ◌∷◌, ◌++◌, none, some, ok,
  true, false, length, length-append, length-drop, take, drop, min, word, arith, dec_le, leb,
  if◌then◌else◌, Bool-cases, inl, inr,
}
use lemola_osv.WriteTo.{WriteTo, new, as_str, write_str, write, show}

take-all : (xs : List ℕ) (n : ℕ) → length xs ≤ n → take n xs ≡ xs
take-all [] zero h = refl
take-all [] (suc n) h = refl
take-all (x ∷ xs) zero h = absurd (omega arith)
take-all (x ∷ xs) (suc n) h = ap (λ r. x ∷ r) (take-all xs n (omega arith))

take-append : (xs ys : List ℕ) → take (length xs) (xs ++ ys) ≡ xs
take-append [] ys = refl
take-append (x ∷ xs) ys = ap (λ r. x ∷ r) (take-append xs ys)

-- The text written so far.
pub record IsWritten (n : ℕ) (w : WriteTo) (text : List ℕ) : Type 0 where
  pub size : length w.buffer ≡ n
  pub end : w.used ≡ length text
  pub fits : length text ≤ n
  pub held : take w.used w.buffer ≡ text

fits_lem :
    (n : ℕ) (w : WriteTo) (text s : List ℕ)
    → IsWritten n w text
    → n < word
    → length text + length s ≤ n
    → (w' : WriteTo) × (write_str w s ≡ ok (true, w')) × IsWritten n w' (text ++ s)
unfolding write_str
fits_lem n w text s v small room =
    let whole : min (length s) (length w.buffer - w.used) ≡ length s =
      omega (arith, v.size, v.end) in
    let same = take-all s (length s) (omega arith) in
    let rest = drop (w.used + length s) w.buffer in
    let left = length-drop (w.used + length s) w.buffer in
    let len = length-append text s in
    let len2 = length-append (text ++ s) rest in
    let both : text ++ (s ++ rest) ≡ (text ++ s) ++ rest = sym (append_assoc text s rest) in
    let enough : w.used + length s ≡ length (text ++ s) = omega (arith, v.end) in
    (
      record { buffer = (text ++ s) ++ rest; used = w.used + length s },
      ground (arith, whole, same, both, v.size, v.end, v.held),
      record {
        size = omega (arith, v.size, v.end);
        end = enough;
        fits = omega arith;
        held = ap (λ k. take k ((text ++ s) ++ rest)) enough ∙ take-append (text ++ s) rest;
      },
    )

abbrev pub joined : List (List ℕ) → List ℕ
joined [] = []
joined (s ∷ pieces) = s ++ joined pieces

write_lem :
    (n : ℕ) (pieces : List (List ℕ)) (w : WriteTo) (text : List ℕ)
    → IsWritten n w text
    → n < word
    → length text + length (joined pieces) ≤ n
    → (w' : WriteTo) × (write w pieces ≡ ok (true, w')) × IsWritten n w' (text ++ joined pieces)
unfolding write
write_lem n [] w text v small room = (w, refl, rw (append-nil text) v)
write_lem n (s ∷ pieces) w text v small room =
    let len = length-append s (joined pieces) in
    let len2 = length-append text s in
    let (w1, run, v1) = fits_lem n w text s v small (omega arith) in
    let (w2, runs, v2) = write_lem n pieces w1 (text ++ s) v1 small (omega arith) in
    (w2, simp run runs, rw (sym (append_assoc text s (joined pieces))) v2)

cut_lem :
    (n : ℕ) (w : WriteTo) (text s : List ℕ)
    → IsWritten n w text
    → length text + length s < word
    → n < length text + length s
    → (w' : WriteTo) × (write_str w s ≡ ok (false, w'))
unfolding write_str
cut_lem n w text s v small long =
    let part : min (length s) (length w.buffer - w.used) ≡ n - length text =
      omega (arith, v.size, v.end, v.fits) in
    (
      record {
        buffer =
            take w.used w.buffer
            ++ (take (n - length text) s ++ drop (w.used + (n - length text)) w.buffer);
        used = w.used + length s;
      },
      ground (arith, part, v.size, v.end, v.fits),
    )

write_fails :
    (n : ℕ) (pieces : List (List ℕ)) (w : WriteTo) (text : List ℕ)
    → IsWritten n w text
    → length text + length (joined pieces) < word
    → n < length text + length (joined pieces)
    → (w' : WriteTo) × (write w pieces ≡ ok (false, w'))
unfolding write
write_fails n [] w text v small long = absurd (omega (arith, v.fits))
write_fails n (s ∷ pieces) w text v small long =
    let len = length-append s (joined pieces) in
    let len2 = length-append text s in
    elim (dec_le (length text + length s) n) [
      | yes room ↦
          let (w1, run, v1) = fits_lem n w text s v (omega arith) room in
          let (w2, runs) = write_fails n pieces w1 (text ++ s) v1 (omega arith) (omega arith) in
          (w2, simp run runs)
      | no full ↦
          let (w1, run) = cut_lem n w text s v (omega arith) (omega arith) in (w1, simp run refl)
    ]

-- A text that fits into the buffer is returned whole, if the length of the buffer is a number of
-- `usize`.
show_fits :
    (buffer : List ℕ) (pieces : List (List ℕ))
    → length buffer < word
    → length (joined pieces) ≤ length buffer
    → show buffer pieces ≡ ok (some (joined pieces))
unfolding show as_str
show_fits buffer pieces small room =
    let start : IsWritten (length buffer) (new buffer) [] = record {
      size = refl;
      end = refl;
      fits = omega arith;
      held = refl;
    } in
    let (w, run, v) = write_lem (length buffer) pieces (new buffer) [] start small (omega arith) in
    ground (arith, run, v.size, v.end, v.fits, v.held)

show_refuses :
    (buffer : List ℕ) (pieces : List (List ℕ))
    → length (joined pieces) < word
    → length buffer < length (joined pieces)
    → show buffer pieces ≡ ok none
unfolding show
show_refuses buffer pieces small long =
    let start : IsWritten (length buffer) (new buffer) [] = record {
      size = refl;
      end = refl;
      fits = omega arith;
      held = refl;
    } in
    let (w, run) =
      write_fails (length buffer) pieces (new buffer) [] start (omega arith) (omega arith) in
    ground (arith, run)

-- A text that fits into the buffer is returned whole, and a longer one is refused without a panic, if
-- the lengths of both are numbers of `usize`.
pub show_lem :
    (buffer : List ℕ) (pieces : List (List ℕ))
    → length (joined pieces) < word
    → length buffer < word
    → show buffer pieces
      ≡ ok (if leb (length (joined pieces)) (length buffer) then some (joined pieces) else none)
show_lem buffer pieces small room =
    elim (Bool-cases (leb (length (joined pieces)) (length buffer))) [
      | inl fits ↦ rw fits (show_fits buffer pieces room (ground (arith, fits)))
      | inr long ↦ rw long (show_refuses buffer pieces small (ground (arith, long)))
    ]
