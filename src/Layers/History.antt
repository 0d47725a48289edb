-- ===== src/Layers/History.antt =====
-- Histories of calls to the `LayerManager` of kernel-lib/src/layer.rs.
use lemola_osv.Base.{
  ℕ, ◌+◌, ◌-◌, ◌<◌, ◌≡◌, sym, List, [], ◌∷◌, ◌++◌, none, some, Run, ok, panic, word, arith, inl,
  inr, Option-cases, Run-cases, dec_lt,
}
use lemola_osv.Layers.{
  Window, Position, LayerManager, ℤ, new, get, insert, new_layer, with_layer, move_layer,
  move_relative, move_window, hide, set_to_top,
}
use lemola_osv.Layers.Painting.{Screen}
use lemola_osv.Layers.Flush.{flush}
use lemola_osv.Layers.Shown.{
  paint_windows, AreOf, windows_of, AreOf-snoc, flush_stack_lem, flush_unknown,
}
use lemola_osv.Layers.Stack.{
  Each-imp, Each-append, Each-without, NotIn, Once, Once-without, NotIn-without, without, Known,
  Known-insert, Known-new, below-insert, IsStack, hide_lem, set_to_top_lem,
}

-- A call, without a panic. `set_to_top` is called with the id of a layer.
pub data Step (m : LayerManager) (m' : LayerManager) : Type 0 where
  adds : (w : Window) (id : ℕ) → new_layer m w ≡ ok (id, m') → Step m m'
  moves : (id : ℕ) (p : Position) → move_layer m id p ≡ ok m' → Step m m'
  moves_by : (id : ℕ) (x y : ℤ) → move_relative m id x y ≡ ok m' → Step m m'
  hides : (id : ℕ) → hide m id ≡ m' → Step m m'
  raises : (id : ℕ) → Known m.layers id → set_to_top m id ≡ m' → Step m m'

pub data Reach (first : ℕ) : LayerManager → Type 0 where
  begins : Reach first (new first)
  steps : {m m' : LayerManager} → Reach first m → Step m m' → Reach first m'

new_layer_result :
    (m m' : LayerManager) (w : Window) (id : ℕ)
    → new_layer m w ≡ ok (id, m')
    → (m.latest_unused_id < word - 1)
      × (m' ≡ record {
        layer_stack = m.latest_unused_id ∷ m.layer_stack;
        layers = insert m.layers m.latest_unused_id w;
        latest_unused_id = m.latest_unused_id + 1;
      })
unfolding new_layer
new_layer_result m m' w id run = elim (dec_lt m.latest_unused_id (word - 1)) [
  | yes h ↦ (h, ground (arith, run, h))
  | no h ↦ absurd (ground (arith, run, h))
]

changed-IsStack :
    (m : LayerManager) (id : ℕ) (w w' : Window)
    → IsStack m
    → get m.layers id ≡ some w
    → IsStack (record m { layers = insert m.layers id w' })
changed-IsStack m id w w' v held = record {
  once = v.once;
  known = Each-imp _ _ m.layer_stack (λ x k. Known-insert m.layers id x w' k) v.known;
  below = below-insert m.layers m.latest_unused_id id w' (v.below id w held) v.below;
}

with_layer-IsStack :
    (m m' : LayerManager) (id : ℕ) (change : Window → Run Window)
    → IsStack m
    → with_layer m id change ≡ ok m'
    → IsStack m'
unfolding with_layer
with_layer-IsStack m m' id change v run = elim (Option-cases (get m.layers id)) [
  | inl gone ↦ let e : m ≡ m' = ground (arith, gone, run) in rw e at v
  | inr (w, held) ↦ elim (Run-cases (change w)) [
    | inl (w', done) ↦
        let e : record m { layers = insert m.layers id w' } ≡ m' =
          ground (arith, held, done, run) in
        rw e at (changed-IsStack m id w w' v held)
    | inr bad ↦ absurd (ground (arith, held, bad, run))
  ]
]

added-IsStack :
    (m : LayerManager) (w : Window)
    → IsStack m
    → IsStack (record {
      layer_stack = m.latest_unused_id ∷ m.layer_stack;
      layers = insert m.layers m.latest_unused_id w;
      latest_unused_id = m.latest_unused_id + 1;
    })
added-IsStack m w v = record {
  once = (
    Each-imp _ _ m.layer_stack (λ x k e. absurd (omega (arith, v.below x k.0 k.1))) v.known,
    v.once,
  );
  known = (
    Known-new m.layers m.latest_unused_id w,
    Each-imp _ _ m.layer_stack (λ x k. Known-insert m.layers m.latest_unused_id x w k) v.known,
  );
  below =
      below-insert m.layers (m.latest_unused_id + 1) m.latest_unused_id w (omega arith)
        (λ k u held. omega (arith, v.below k u held));
}

pub hide-IsStack : (m : LayerManager) (id : ℕ) → IsStack m → IsStack (hide m id)
hide-IsStack m id v = rw (hide_lem m id v.once) (record {
  once = Once-without id m.layer_stack v.once;
  known = Each-without _ id m.layer_stack v.known;
  below = v.below;
})

Once-snoc : (id : ℕ) (xs : List ℕ) → NotIn id xs → Once xs → Once (xs ++ id ∷ [])
Once-snoc id [] h o = (tt, tt)
Once-snoc id (x ∷ xs) (h, hs) (fresh, o) =
    (Each-append _ xs (id ∷ []) fresh ((λ e. h (sym e)), tt), Once-snoc id xs hs o)

pub set_to_top-IsStack :
    (m : LayerManager) (id : ℕ) → IsStack m → Known m.layers id → IsStack (set_to_top m id)
set_to_top-IsStack m id v k = rw (set_to_top_lem m id v.once) (record {
  once = Once-snoc id _ (NotIn-without id m.layer_stack) (Once-without id m.layer_stack v.once);
  known =
      Each-append _ (without id m.layer_stack) (id ∷ []) (Each-without _ id m.layer_stack v.known)
        (k, tt);
  below = v.below;
})

Step-IsStack : {m m' : LayerManager} → IsStack m → Step m m' → IsStack m'
unfolding move_layer move_relative
Step-IsStack {m} {m'} v (adds w id run) =
    let (h, e) = new_layer_result m m' w id run in rw e (added-IsStack m w v)
Step-IsStack {m} {m'} v (moves id p run) =
    with_layer-IsStack m m' id (λ w. ok (record w { position = p })) v run
Step-IsStack {m} {m'} v (moves_by id x y run) = with_layer-IsStack m m' id (move_window x y) v run
Step-IsStack {m} {m'} v (hides id e) = rw e at (hide-IsStack m id v)
Step-IsStack {m} {m'} v (raises id k e) = rw e at (set_to_top-IsStack m id v k)

-- After every history of calls that raise only layers there are, no id stands twice in the stack, and
-- every id of it has a layer, whose id was given out.
pub history-IsStack : (first : ℕ) (m : LayerManager) → Reach first m → IsStack m
history-IsStack first m begins = record {
  once = tt;
  known = tt;
  below = λ id w h. absurd (ground (arith, h));
}
history-IsStack first m (steps r s) = Step-IsStack (history-IsStack first _ r) s

-- After such a history `flush` paints the windows of the stack in their order.
history_flushes :
    (first : ℕ) (m : LayerManager) (screen : Screen)
    → Reach first m
    → (ws : List Window) × AreOf m.layers m.layer_stack ws
      × (flush screen m ≡ paint_windows screen ws)
unfolding flush
history_flushes first m screen r =
    let (ws, same) = windows_of m.layers m.layer_stack (history-IsStack first m r).known in
    (ws, same, flush_stack_lem screen m.layers m.layer_stack ws same)

-- `set_to_top` with an id that has no layer leaves a manager on which `flush` panics, after any
-- history.
pub set_to_top_unknown :
    (first : ℕ) (m : LayerManager) (id : ℕ) (screen : Screen)
    → Reach first m
    → get m.layers id ≡ none
    → flush screen (set_to_top m id) ≡ panic
unfolding flush
set_to_top_unknown first m id screen r gone =
    rw (set_to_top_lem m id (history-IsStack first m r).once)
      (flush_unknown screen m.layers (without id m.layer_stack) id gone)

-- After such a history `flush` behind `set_to_top` with a layer's id paints the windows of the other
-- layers of the stack in their order and that layer's window last; it panics exactly if painting one of
-- these windows does.
pub raised_on_top :
    (first : ℕ) (m : LayerManager) (id : ℕ) (w : Window) (screen : Screen)
    → Reach first m
    → get m.layers id ≡ some w
    → (ws : List Window) × AreOf m.layers (without id m.layer_stack) ws
      × (flush screen (set_to_top m id) ≡ paint_windows screen (ws ++ w ∷ []))
unfolding flush
raised_on_top first m id w screen r held =
    let v = history-IsStack first m r in
    let others = without id m.layer_stack in
    let (ws, same) = windows_of m.layers others (Each-without _ id m.layer_stack v.known) in
    (
      ws,
      same,
      rw (set_to_top_lem m id v.once) (
          flush_stack_lem screen m.layers (others ++ id ∷ []) (ws ++ w ∷ [])
            (AreOf-snoc m.layers others ws id w same held)),
    )
