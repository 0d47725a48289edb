-- ===== src/Layers.antt =====
-- `LayerManager` of kernel-lib/src/layer.rs: the stack of layers, the bottom first, and the map from
-- their ids. What one window paints is in Painting, and `flush` in Flush.
pub mod Flush
pub mod Shown
pub mod Stack
pub mod History
pub mod Moves
pub mod Painting
pub mod Transparent
pub mod Opaque
pub mod Writes
pub mod PaintTests
pub mod Tests
use lemola_osv.Base.{
  ℕ, zero, suc, ◌+◌, ◌-◌, ◌^◌, List, [], ◌∷◌, ◌++◌, Option, none, some, Run, ok, panic, ◌>>=◌, ◌>>◌,
  assert, unwrap, Bool, true, false, ltb, leb, ◌==◌, if◌then◌else◌, word,
}
use lemola_osv.Console.{Color}
use lemola_osv.Pixel.{PixcelFormat}

pub record Position : Type 0 where
  pub x : ℕ
  pub y : ℕ

pub record Window : Type 0 where
  pub transparent_color : Option Color
  pub rendering_handler : PixcelFormat
  pub buffer : List ℕ
  pub pixels : List (List Color)
  pub position : Position

pub record LayerManager : Type 0 where
  pub layer_stack : List ℕ
  -- `BTreeMap<LayerId, Layer>`
  pub layers : List (ℕ × Window)
  -- The static `LATEST_UNUSED_ID` of `Layer::new`.
  pub latest_unused_id : ℕ

abbrev pub new : ℕ → LayerManager
new latest_unused_id = record { layer_stack = []; layers = []; latest_unused_id = latest_unused_id }

-- `BTreeMap::get`
abbrev pub get : List (ℕ × Window) → ℕ → Option Window
get [] id = none
get ((k, w) ∷ rest) id = if k == id then some w else get rest id

-- `BTreeMap::insert`
abbrev pub insert : List (ℕ × Window) → ℕ → Window → List (ℕ × Window)
insert [] id w = (id, w) ∷ []
insert ((k, v) ∷ rest) id w = if k == id then (id, w) ∷ rest else (k, v) ∷ insert rest id w

-- `LayerId::uninitialized`
abbrev pub uninitialized : ℕ
uninitialized = word - 1

-- The id, and the manager.
pub new_layer : LayerManager → Window → Run (ℕ × LayerManager)
new_layer m window = do
  let id = m.latest_unused_id
  let next = if id == word - 1 then 0 else id + 1
  assert (ltb id uninitialized)
  ok (
    id,
    record {
      layer_stack = id ∷ m.layer_stack;
      layers = insert m.layers id window;
      latest_unused_id = next;
    },
  )

-- A change of the layer with that id, if there is one.
pub with_layer : LayerManager → ℕ → (Window → Run Window) → Run LayerManager
with_layer m id change = elim (get m.layers id) [
  | none ↦ ok m
  | some w ↦ do w ← change w; ok (record m { layers = insert m.layers id w })
]

pub move_layer : LayerManager → ℕ → Position → Run LayerManager
move_layer m id new_position = with_layer m id (λ w. ok (record w { position = new_position }))

-- `isize`
pub data ℤ : Type 0 where
  pos : ℕ → ℤ
  negsuc : ℕ → ℤ

-- `x as isize`
pub as_isize : ℕ → ℤ
as_isize x = if ltb x (2 ^ 63) then pos x else negsuc (word - 1 - x)

-- `a + b` on `isize`
pub add_isize : ℤ → ℤ → Run ℤ
add_isize (pos a) (pos b) = if ltb (a + b) (2 ^ 63) then ok (pos (a + b)) else panic
add_isize (pos a) (negsuc b) = ok (if ltb b a then pos (a - suc b) else negsuc (b - a))
add_isize (negsuc a) (pos b) = ok (if ltb a b then pos (b - suc a) else negsuc (a - b))
add_isize (negsuc a) (negsuc b) =
    if ltb (a + b + 1) (2 ^ 63) then ok (negsuc (a + b + 1)) else panic

-- `try_into().unwrap_or(0)`
pub to_usize : ℤ → ℕ
to_usize (pos n) = n
to_usize (negsuc n) = 0

pub move_window : ℤ → ℤ → Window → Run Window
move_window x_diff y_diff w = do
  x ← add_isize (as_isize w.position.x) x_diff
  y ← add_isize (as_isize w.position.y) y_diff
  ok (record w { position = record { x = to_usize x; y = to_usize y } })

pub move_relative : LayerManager → ℕ → ℤ → ℤ → Run LayerManager
move_relative m id x_diff y_diff = with_layer m id (move_window x_diff y_diff)

-- `iter().position(|&x| x == id)`
pub position : List ℕ → ℕ → Option ℕ
position [] id = none
position (x ∷ xs) id =
    if x == id then some 0 else elim (position xs id) [ none ↦ none | some i ↦ some (suc i) ]

-- `VecDeque::remove`
pub remove : List ℕ → ℕ → List ℕ
remove [] i = []
remove (x ∷ xs) zero = xs
remove (x ∷ xs) (suc i) = x ∷ remove xs i

pub hide : LayerManager → ℕ → LayerManager
hide m id = elim (position m.layer_stack id) [
  | none ↦ m
  | some index ↦ record m { layer_stack = remove m.layer_stack index }
]

pub set_to_top : LayerManager → ℕ → LayerManager
set_to_top m id =
    let hidden = hide m id in record hidden { layer_stack = hidden.layer_stack ++ id ∷ [] }
