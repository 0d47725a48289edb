-- ===== src/Alloc/Bump/Heap.antt =====
-- What the clients of the bump allocator of kernel-lib/src/allocator/bump_allocator.rs may rely on.
use lemola_osv.Base.{
  ℕ, ◌+◌, ◌-◌, ◌≤◌, ◌<◌, ◌≡◌, ◌≢◌, ◌⊎◌, inl, inr, refl, List, [], ◌∷◌, ok, word, length, arith,
  Bool-cases, leb, lt→ltb, ◌%◌, ◌==◌, if◌then◌else◌,
}
use lemola_osv.Alloc.{Layout, Range}
use lemola_osv.Alloc.Boundary.{IsPow2, IsBoundary, InBlock, place, align_and_boundary_to-eq-place}
use lemola_osv.Alloc.Place.{place-IsPlaced, place_least}
use lemola_osv.Alloc.Bump.{BumpAllocator, new, init, take_range, alloc, dealloc}
use lemola_osv.Alloc.Bump.Live.{
  Within, All, Apart, Without, Without-All, Without-Apart, All-Within_mono, Within-Disjoint,
  length-Without,
}

-- The allocator and the blocks that its clients hold.
pub record World : Type 0 where
  pub heap : BumpAllocator
  pub live : List Range

-- The layouts and boundaries that the callers may ask for, where no address overflows.
pub record IsRequest (s : BumpAllocator) (layout : Layout) (boundary : ℕ) : Type 0 where
  pub pow2 : IsPow2 layout.align
  pub bounded : IsBoundary boundary layout.size
  pub small : s.next + layout.align + boundary + layout.size < word
  pub countable : s.n_allocations + 1 < word

abbrev pub block : ℕ → Layout → Range
block p layout = record { start = p; end = p + layout.size }

-- One call of a client: it gets a block, or null, or gives a block back that it holds.
pub data Step (w : World) : World → Type 0 where
  gets :
      (layout : Layout) (boundary p : ℕ) (s : BumpAllocator)
      → IsRequest w.heap layout boundary
      → alloc w.heap layout boundary ≡ ok (p, s)
      → p ≢ 0
      → Step w (record { heap = s; live = block p layout ∷ w.live })
  refused :
      (layout : Layout) (boundary : ℕ) (s : BumpAllocator)
      → IsRequest w.heap layout boundary
      → alloc w.heap layout boundary ≡ ok (0, s)
      → Step w (record { heap = s; live = w.live })
  gives_back :
      (r : Range) (rest : List Range) (s : BumpAllocator)
      → Without r w.live rest
      → dealloc w.heap ≡ ok s
      → Step w (record { heap = s; live = rest })

pub data Reach (w : World) : World → Type 0 where
  start : Reach w w
  next : {u v : World} → Reach w u → Step u v → Reach w v

-- The blocks held lie in the used part of the heap, do not overlap, and are counted; the heap's
-- bounds are those of `init`.
pub record IsSafe (lo hi : ℕ) (w : World) : Type 0 where
  pub from_lo : w.heap.heap_start ≡ lo
  pub to_hi : w.heap.heap_end ≡ hi
  pub not_null : 0 < lo
  pub used : (lo ≤ w.heap.next) × (w.heap.next ≤ hi)
  pub counted : w.heap.n_allocations ≡ length w.live
  pub within : All (Within lo w.heap.next) w.live
  pub apart : Apart w.live

-- The state after a block at `p`.
abbrev pub taken : BumpAllocator → Layout → ℕ → BumpAllocator
taken s layout p = record s { next = p + layout.size; n_allocations = s.n_allocations + 1 }

-- Both branches of `alloc`: null and no change where the next fitting block would reach the end of
-- the heap, else that block.
pub alloc_cases :
    (s : BumpAllocator) (layout : Layout) (boundary : ℕ)
    → IsRequest s layout boundary
    → let p = place s.next layout.size layout.align boundary in
      ((s.heap_end ≤ p + layout.size) × (alloc s layout boundary ≡ ok (0, s)))
      ⊎ ((p + layout.size < s.heap_end) × (alloc s layout boundary ≡ ok (p, taken s layout p)))
unfolding alloc take_range
alloc_cases s layout boundary q =
    let p = place s.next layout.size layout.align boundary in
    let found =
      align_and_boundary_to-eq-place s.next layout.size layout.align boundary q.pow2 q.bounded
        q.small in
    let fine = lt→ltb (s.n_allocations + 1) word q.countable in
    elim (Bool-cases (leb s.heap_end (p + layout.size))) [
      | inl full ↦ inl (ground arith, ground (arith, found))
      | inr room ↦ inr (ground arith, ground (arith, found, fine))
    ]

-- Where the requests are as `IsRequest` has them, `alloc` does not panic; it returns null only if no
-- address from `next` on is aligned, keeps the block within the boundary and ends it before the end
-- of the heap.
pub alloc_refuses_only_when_full :
    (s : BumpAllocator) (layout : Layout) (boundary q : ℕ) {s' : BumpAllocator}
    → 0 < s.next
    → IsRequest s layout boundary
    → alloc s layout boundary ≡ ok (0, s')
    → s.next ≤ q
    → q % layout.align ≡ 0
    → InBlock boundary q layout.size
    → s.heap_end ≤ q + layout.size
alloc_refuses_only_when_full s layout boundary q pos r e le al inside =
    let least =
      place_least s.next layout.size layout.align boundary q r.pow2 r.bounded le al inside in
    let lower = (place-IsPlaced s.next layout.size layout.align boundary r.pow2 r.bounded).lower in
    elim (alloc_cases s layout boundary r) [
      | inl (full, _) ↦ omega arith
      | inr (room, found) ↦
          let null : place s.next layout.size layout.align boundary ≡ 0 =
            ground (arith, e, found) in
          absurd (omega arith)
    ]

abbrev counted_down : BumpAllocator → BumpAllocator
counted_down s = record s { n_allocations = s.n_allocations - 1 }

given_back : BumpAllocator → BumpAllocator
given_back s =
    if s.n_allocations - 1 == 0
    then record (counted_down s) { next = s.heap_start }
    else counted_down s

module _ (lo hi : ℕ) where
  gets-IsSafe :
      (w : World) (layout : Layout) (boundary p : ℕ) {s : BumpAllocator}
      → IsRequest w.heap layout boundary
      → alloc w.heap layout boundary ≡ ok (p, s)
      → p ≢ 0
      → IsSafe lo hi w
      → IsSafe lo hi (record { heap = s; live = block p layout ∷ w.live })
  gets-IsSafe w layout boundary p {s} r e ne v =
      let start = place w.heap.next layout.size layout.align boundary in
      let lower =
        (place-IsPlaced w.heap.next layout.size layout.align boundary r.pow2 r.bounded).lower in
      elim (alloc_cases w.heap layout boundary r) [
        | inl (full, found) ↦ absurd (ne (ground (arith, e, found)))
        | inr (room, found) ↦
            let at : p ≡ start = ground (arith, e, found) in
            let after : s ≡ taken w.heap layout start = ground (arith, e, found) in
            rw (at, after)
              (record {
                from_lo = v.from_lo;
                to_hi = v.to_hi;
                not_null = v.not_null;
                used = omega arith;
                counted = omega arith;
                within = (
                  omega arith,
                  All-Within_mono lo w.heap.next (start + layout.size) w.live (omega arith)
                      v.within,
                );
                apart = (
                  Within-Disjoint lo w.heap.next (block start layout) w.live lower v.within,
                  v.apart,
                );
              })
      ]

  refused-IsSafe :
      (w : World) (layout : Layout) (boundary : ℕ) {s : BumpAllocator}
      → IsRequest w.heap layout boundary
      → alloc w.heap layout boundary ≡ ok (0, s)
      → IsSafe lo hi w
      → IsSafe lo hi (record { heap = s; live = w.live })
  refused-IsSafe w layout boundary {s} r e v =
      let start = place w.heap.next layout.size layout.align boundary in
      let lower =
        (place-IsPlaced w.heap.next layout.size layout.align boundary r.pow2 r.bounded).lower in
      elim (alloc_cases w.heap layout boundary r) [
        | inl (full, found) ↦ let same : s ≡ w.heap = ground (arith, e, found) in rw same v
        | inr (room, found) ↦
            let null : start ≡ 0 = ground (arith, e, found) in absurd (omega arith)
      ]

  -- The heap is used from its start again only when nobody holds a block.
  gives_back-IsSafe :
      (w : World) (r : Range) (rest : List Range) {s : BumpAllocator}
      → Without r w.live rest
      → dealloc w.heap ≡ ok s
      → IsSafe lo hi w
      → IsSafe lo hi (record { heap = s; live = rest })
  unfolding dealloc
  gives_back-IsSafe w r [] {s} t e v = ground (arith, e, length-Without t, v.counted)
  gives_back-IsSafe w r (x ∷ rest) {s} t e v =
      let after : s ≡ counted_down w.heap = ground (arith, e, length-Without t, v.counted) in
      rw after (record {
        from_lo = v.from_lo;
        to_hi = v.to_hi;
        not_null = v.not_null;
        used = v.used;
        counted = omega (arith, length-Without t, v.counted);
        within = Without-All (Within lo w.heap.next) t v.within;
        apart = Without-Apart t v.apart;
      })

  -- One call of a client keeps the blocks in the heap, apart and counted.
  pub Step-IsSafe : {w w' : World} → Step w w' → IsSafe lo hi w → IsSafe lo hi w'
  Step-IsSafe {w} (gets layout boundary p s r e ne) v = gets-IsSafe w layout boundary p r e ne v
  Step-IsSafe {w} (refused layout boundary s r e) v = refused-IsSafe w layout boundary r e v
  Step-IsSafe {w} (gives_back r rest s t e) v = gives_back-IsSafe w r rest t e v

  Reach-IsSafe : {w w' : World} → Reach w w' → IsSafe lo hi w → IsSafe lo hi w'
  Reach-IsSafe start v = v
  Reach-IsSafe (next h t) v = Step-IsSafe t (Reach-IsSafe h v)

  abbrev pub fresh_world : World
  fresh_world = record { heap = init new lo hi; live = [] }

  fresh_world-IsSafe : 0 < lo → lo ≤ hi → IsSafe lo hi fresh_world
  unfolding init
  fresh_world-IsSafe p le = record {
    from_lo = refl;
    to_hi = refl;
    not_null = p;
    used = omega arith;
    counted = refl;
    within = tt;
    apart = tt;
  }

  -- After `init` with a heap that does not start at address 0, and any history of calls within
  -- `IsRequest` that give back only blocks that are held: the blocks held lie in the heap below
  -- `next`, no two of them overlap, and `n_allocations` is their number.
  pub history-IsSafe : 0 < lo → lo ≤ hi → {w : World} → Reach fresh_world w → IsSafe lo hi w
  history-IsSafe p le h = Reach-IsSafe h (fresh_world-IsSafe p le)

  -- After such a history, giving back a block that is held does not panic: the counter does not go
  -- below zero. The last block given back makes the whole heap free again.
  pub history_gives_back :
      0 < lo
      → lo ≤ hi
      → {w : World} (r : Range) (rest : List Range) → Reach fresh_world w
      → Without r w.live rest
      → (s : BumpAllocator) × (dealloc w.heap ≡ ok s)
        × (s.next ≡ (if length rest == 0 then lo else w.heap.next))
  unfolding dealloc given_back
  history_gives_back p le {w} r rest h t =
      let v = history-IsSafe p le h in
      (
        given_back w.heap,
        ground (arith, v.counted, length-Without t),
        ground (arith, v.from_lo, v.counted, length-Without t),
      )
