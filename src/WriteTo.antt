-- ===== src/WriteTo.antt =====
-- The buffer of formatted text of kernel-lib/src/write_to.rs. A string is the list of its bytes;
-- `fmt::write` of the core library calls `write_str` for one piece after another up to the first error.
pub mod Show
pub mod Tests
use lemola_osv.Base.{
  ℕ, ◌+◌, ◌-◌, List, [], ◌∷◌, ◌++◌, Option, none, some, Run, ok, ◌>>=◌, Bool, true, false, not, ltb,
  leb, if◌then◌else◌, add64, length, take, drop, min,
}

pub record WriteTo : Type 0 where
  pub buffer : List ℕ
  pub used : ℕ

abbrev pub new : List ℕ → WriteTo
new buffer = record { buffer = buffer; used = 0 }

pub as_str : WriteTo → Option (List ℕ)
as_str w = if leb w.used (length w.buffer) then some (take w.used w.buffer) else none

-- Whether the result is `Ok`, and the buffer.
pub write_str : WriteTo → List ℕ → Run (Bool × WriteTo)
write_str w s = if ltb (length w.buffer) w.used then ok (false, w) else (do
  let write_num = min (length s) (length w.buffer - w.used)
  used ← add64 w.used (length s)
  ok (
    not (ltb write_num (length s)),
    record {
      buffer = take w.used w.buffer ++ (take write_num s ++ drop (w.used + write_num) w.buffer);
      used = used;
    },
  ))

-- `fmt::write`
pub write : WriteTo → List (List ℕ) → Run (Bool × WriteTo)
write w [] = ok (true, w)
write w (s ∷ pieces) =
    write_str w s >>= λ r. elim r.0 [ false ↦ ok (false, r.1) | true ↦ write r.1 pieces ]

pub show : List ℕ → List (List ℕ) → Run (Option (List ℕ))
show buffer pieces = write (new buffer) pieces >>= λ r. ok (if r.0 then as_str r.1 else none)
