-- ===== src/Layers/Moves.antt =====
-- Relative moves of a window in kernel-lib/src/layer.rs.
use lemola_osv.Base.{ℕ, suc, ◌+◌, ◌-◌, ◌<◌, ◌^◌, ◌≡◌, ◌≢◌, refl, some, ok, arith, dec_lt}
use lemola_osv.Layers.{
  Window, LayerManager, ℤ, pos, negsuc, as_isize, add_isize, to_usize, move_window, move_relative,
  with_layer, get, insert,
}
use lemola_osv.Layers.Stack.{get-insert_self, get-insert_ne}

-- The coordinate moved, and 0 where it would be negative.
abbrev pub shifted : ℕ → ℤ → ℕ
shifted x (pos d) = x + d
shifted x (negsuc d) = x - suc d

-- The coordinate, and where it moves to, are numbers of `isize`.
abbrev pub Fits : ℕ → ℤ → Type 0
Fits x (pos d) = x + d < 2 ^ 63
Fits x (negsuc d) = x < 2 ^ 63

coordinate :
    (x : ℕ) (diff : ℤ)
    → Fits x diff
    → (z : ℤ) × (add_isize (as_isize x) diff ≡ ok z) × (to_usize z ≡ shifted x diff)
unfolding as_isize add_isize to_usize
coordinate x (pos d) h = (pos (x + d), ground arith, refl)
coordinate x (negsuc d) h = elim (dec_lt d x) [
  | yes k ↦ (pos (x - suc d), ground arith, refl)
  | no k ↦ (negsuc (d - x), ground arith, omega arith)
]

-- `move_relative` moves the window of that layer by both differences, stopping at 0, and leaves the
-- stack and the other layers, if the coordinates and where they move to are numbers of `isize`.
pub move_relative_lem :
    (m : LayerManager) (id : ℕ) (w : Window) (dx dy : ℤ)
    → get m.layers id ≡ some w
    → Fits w.position.x dx
    → Fits w.position.y dy
    → (m' : LayerManager) × (move_relative m id dx dy ≡ ok m')
      × (get m'.layers id
          ≡ some (record w {
            position = record { x = shifted w.position.x dx; y = shifted w.position.y dy };
          }))
      × ((other : ℕ) → id ≢ other → get m'.layers other ≡ get m.layers other)
      × (m'.layer_stack ≡ m.layer_stack)
unfolding move_relative with_layer move_window
move_relative_lem m id w dx dy held fx fy =
    let (zx, runx, samex) = coordinate w.position.x dx fx in
    let (zy, runy, samey) = coordinate w.position.y dy fy in
    let moved = record w {
      position = record { x = shifted w.position.x dx; y = shifted w.position.y dy };
    } in
    (
      record m { layers = insert m.layers id moved },
      ground (arith, held, runx, runy, samex, samey),
      get-insert_self m.layers id moved,
      (λ other h. get-insert_ne m.layers id other moved h),
      refl,
    )
