-- ===== src/WriteTo/Tests.antt =====
-- Tests of kernel-lib/src/write_to.rs.
use lemola_osv.Base.{ℕ, ◌≡◌, List, [], ◌∷◌, some, ok, arith}
use lemola_osv.WriteTo.{show}
use lemola_osv.WriteTo.Show.{show_lem}

abbrev buffer : List ℕ
buffer = 0 ∷ 0 ∷ 0 ∷ []

show_lem_example : show buffer ((7 ∷ []) ∷ (8 ∷ 9 ∷ []) ∷ []) ≡ ok (some (7 ∷ 8 ∷ 9 ∷ []))
show_lem_example = show_lem buffer ((7 ∷ []) ∷ (8 ∷ 9 ∷ []) ∷ []) (omega arith) (omega arith)
