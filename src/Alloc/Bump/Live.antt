-- ===== src/Alloc/Bump/Live.antt =====
-- The blocks that clients hold: lists of ranges that do not overlap.
use lemola_osv.Base.{ℕ, suc, ◌≤◌, ◌≡◌, ◌⊎◌, inr, List, [], ◌∷◌, arith, length, refl, ap}
use lemola_osv.Alloc.{Range}

abbrev pub Disjoint : Range → Range → Type 0
Disjoint r s = (r.end ≤ s.start) ⊎ (s.end ≤ r.start)

abbrev pub Within : ℕ → ℕ → Range → Type 0
Within lo hi r = (lo ≤ r.start) × (r.start ≤ r.end) × (r.end ≤ hi)

abbrev pub All {ℓ κ} : {A : Type ℓ} → (A → Type κ) → List A → Type κ
All P [] = Unit
All P (x ∷ xs) = P x × All P xs

-- Every two of the blocks are disjoint.
abbrev pub Apart : List Range → Type 0
Apart [] = Unit {0}
Apart (r ∷ rs) = All (Disjoint r) rs × Apart rs

-- `Without r rs rest`: `rest` is `rs` less one occurrence of `r`.
pub data Without (r : Range) : List Range → List Range → Type 0 where
  here : {rs : List Range} → Without r (r ∷ rs) rs
  there : {s : Range} {rs rest : List Range} → Without r rs rest → Without r (s ∷ rs) (s ∷ rest)

pub Without-All {ℓ} :
    (P : Range → Type ℓ) {r : Range} {rs rest : List Range}
    → Without r rs rest
    → All P rs
    → All P rest
Without-All P here h = h.1
Without-All P (there w) h = (h.0, Without-All P w h.1)

pub length-Without :
    {r : Range} {rs rest : List Range} → Without r rs rest → length rs ≡ suc (length rest)
length-Without here = refl
length-Without (there w) = ap suc (length-Without w)

pub Without-Apart : {r : Range} {rs rest : List Range} → Without r rs rest → Apart rs → Apart rest
Without-Apart here h = h.1
Without-Apart (there {s = s} w) h = (Without-All (Disjoint s) w h.0, Without-Apart w h.1)

pub All-Within_mono :
    (lo hi hi' : ℕ) (rs : List Range) → hi ≤ hi' → All (Within lo hi) rs → All (Within lo hi') rs
All-Within_mono lo hi hi' [] h a = tt
All-Within_mono lo hi hi' (r ∷ rs) h a = (omega arith, All-Within_mono lo hi hi' rs h a.1)

-- A block behind all others is disjoint from them.
pub Within-Disjoint :
    (lo hi : ℕ) (r : Range) (rs : List Range)
    → hi ≤ r.start
    → All (Within lo hi) rs
    → All (Disjoint r) rs
Within-Disjoint lo hi r [] h a = tt
Within-Disjoint lo hi r (s ∷ rs) h a = (inr (omega arith), Within-Disjoint lo hi r rs h a.1)
