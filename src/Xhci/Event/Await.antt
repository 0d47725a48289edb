-- ===== src/Xhci/Event/Await.antt =====
-- The futures of kernel/src/xhci/event_ring.rs polled again and again, as the executor does.
use mathlib.Core.List.{append-nil, append_assoc}
use lemola_osv.Base.{
  ℕ, zero, suc, ◌+◌, ◌<◌, ◌≡◌, ◌∙◌, inl, inr, refl, ap, sym, List, [], ◌∷◌, ◌++◌, Option, none,
  some, Run, ok, ◌>>=◌, word, arith, length, Option-cases,
}
use lemola_osv.Xhci.Trb.{LinkApi}
use lemola_osv.Xhci.Event.Segment.{BitField}
use lemola_osv.Xhci.Event.{
  EventApi, World, Poll, ready, pending, try_from_raw, poll_front, deliver, push, is_completion_of,
  poll_command,
}
use lemola_osv.Xhci.Event.Waits.{
  Waits, IsAt, next_slot, popped_world, popped_world-IsAt, poll_waiting, poll_idle,
}

module _ (B : BitField) (L : LinkApi) (V : EventApi L) where
  -- Polls until one is ready, at most `k` of them.
  unfoldable pub poll_times :
      {A : Type 0}
      → (World B L V → Run (Poll A × World B L V))
      → ℕ
      → World B L V
      → Run (Poll A × World B L V)
  poll_times poll zero w = ok (pending, w)
  poll_times poll (suc k) w =
      poll w >>= λ r. elim r.0 [ ready a ↦ ok (ready a, r.1) | pending ↦ poll_times poll k r.1 ]

  abbrev event_list : Option V.Event → List V.Event
  event_list none = []
  event_list (some e) = e ∷ []

  -- The events among some blocks.
  pub events : List L.Raw → List V.Event
  events [] = []
  events (t ∷ ts) = event_list (V.try_from t) ++ events ts

  -- None of the blocks holds what is awaited.
  abbrev pub NoneOf : {A : Type 0} → (V.Event → Option A) → List L.Raw → Type 0
  NoneOf match [] = Unit {0}
  NoneOf match (t ∷ ts) = ((e : V.Event) → V.try_from t ≡ some e → match e ≡ none) × NoneOf match ts

  -- The block awaited is delivered, those before it are kept, those behind it still wait.
  abbrev pub Delivered :
      {A : Type 0} (match : V.Event → Option A) (n : ℕ) (w : World B L V)
      (before after : List L.Raw) (a : A)
      → Type 0
  Delivered match n w before after a =
      (w' : World B L V) × (i' : ℕ) × (poll_times (poll_front B L V (deliver B L V match))
          (length before + 1) w
        ≡ ok (ready a, w'))
      × (w'.ring.popped ≡ w.ring.popped ++ events before)
      × IsAt B L V n i' w'
      × Waits L n w'.trbs i' w'.ring.cycle_bit after

  module _ {A : Type 0} (match : V.Event → Option A) (n : ℕ) where
    deliver_hit :
        (w : World B L V) (t : L.Raw) (e : V.Event) (a : A)
        → V.try_from t ≡ some e
        → match e ≡ some a
        → deliver B L V match (try_from_raw B L V t) w ≡ ok (ready a, w)
    unfolding deliver try_from_raw
    deliver_hit w t e a parsed hit = ground (arith, parsed, hit)

    -- A block that is not awaited is kept if it is an event.
    deliver_miss :
        (w : World B L V) (t : L.Raw)
        → ((e : V.Event) → V.try_from t ≡ some e → match e ≡ none)
        → (w' : World B L V) × (deliver B L V match (try_from_raw B L V t) w ≡ ok (pending, w'))
          × (w' ≡ record w {
            ring = record w.ring { popped = w.ring.popped ++ event_list (V.try_from t) };
          })
    unfolding deliver try_from_raw
    deliver_miss w t miss = elim (Option-cases (V.try_from t)) [
      | inl bad ↦ (w, ground (arith, bad), simp (bad, append-nil) refl)
      | inr (e, good) ↦ (push B L V w e, ground (arith, good, miss e good), simp good refl)
    ]

    with_popped-IsAt :
        (i : ℕ) (w : World B L V) (kept : List V.Event)
        → IsAt B L V n i w
        → IsAt B L V n i (record w { ring = record w.ring { popped = kept } })
    with_popped-IsAt i w kept v = record {
      inside = v.inside;
      dequeue = v.dequeue;
      aligned = v.aligned;
      fits = v.fits;
      base = v.base;
      size = v.size;
    }

    pub await_lem :
        (before after : List L.Raw) (t : L.Raw) (e : V.Event) (a : A) (i : ℕ) (w : World B L V)
        → IsAt B L V n i w
        → Waits L n w.trbs i w.ring.cycle_bit (before ++ t ∷ after)
        → w.ring.n_pop + length before + 1 < word
        → NoneOf match before
        → V.try_from t ≡ some e
        → match e ≡ some a
        → Delivered match n w before after a
    unfolding poll_times events
    await_lem [] after t e a i w v ((held, bit), rest) few quiet parsed hit =
        let run = poll_waiting B L V n (deliver B L V match) i w t v held bit (omega arith) in
        let got = deliver_hit (popped_world B L V n i w) t e a parsed hit in
        (
          popped_world B L V n i w,
          next_slot n i,
          simp (run, got) refl,
          sym (append-nil _),
          popped_world-IsAt B L V n i w v,
          rest,
        )
    await_lem (x ∷ before) after t e a i w v ((held, bit), rest) few (miss, quiet) parsed hit =
        let run = poll_waiting B L V n (deliver B L V match) i w x v held bit (omega arith) in
        let (w1, kept, same) = deliver_miss (popped_world B L V n i w) x miss in
        let v1 = popped_world-IsAt B L V n i w v in
        let more : suc (length before) + 1 ≡ suc (length before + 1) = omega arith in
        let few1 : w1.ring.n_pop + length before + 1 < word =
          omega (arith, few, ap (λ u. u.ring.n_pop) same) in
        let rest1 : Waits L n w1.trbs (next_slot n i) w1.ring.cycle_bit (before ++ t ∷ after) =
          rw same rest in
        let (w2, i2, run2, kept2, v2, rest2) =
          await_lem before after t e a (next_slot n i) w1
            (rw same (with_popped-IsAt _ (popped_world B L V n i w) _ v1)) rest1 few1 quiet parsed
            hit in
        (
          w2,
          i2,
          simp (more, run, kept) run2,
          kept2
              ∙ ap (λ u. u.ring.popped ++ events before) same
              ∙ append_assoc w.ring.popped (event_list (V.try_from x)) (events before),
          v2,
          rest2,
        )

  -- If blocks wait and one of them is the completion of the command awaited, with no completion of
  -- it before, polling the future once for each block up to it returns that completion; the events
  -- before it are kept in their order, and the blocks behind it still wait.
  pub poll_command-delivers :
      (n wait_on i : ℕ) (w : World B L V) (before after : List L.Raw) (t : L.Raw) (e : V.Event)
      (c : V.Completion)
      → IsAt B L V n i w
      → Waits L n w.trbs i w.ring.cycle_bit (before ++ t ∷ after)
      → w.ring.n_pop + length before + 1 < word
      → NoneOf (is_completion_of B L V wait_on) before
      → V.try_from t ≡ some e
      → V.command_completion e ≡ some c
      → V.command_trb_pointer c ≡ wait_on
      → (w' : World B L V) × (i' : ℕ) × (poll_times
            (poll_command B L V wait_on)
            (length before + 1)
            w
          ≡ ok (ready c, w'))
        × (w'.ring.popped ≡ w.ring.popped ++ events before)
        × IsAt B L V n i' w'
        × Waits L n w'.trbs i' w'.ring.cycle_bit after
  unfolding poll_command is_completion_of
  poll_command-delivers n wait_on i w before after t e c v waits few quiet parsed completes same =
      await_lem (is_completion_of B L V wait_on) n before after t e c i w v waits few quiet parsed
        (ground (arith, completes, same))

  poll_times-idle :
      (n wait_on i k : ℕ) (w : World B L V)
      → IsAt B L V n i w
      → Waits L n w.trbs i w.ring.cycle_bit []
      → poll_times (poll_command B L V wait_on) k w ≡ ok (pending, w)
  unfolding poll_times poll_command
  poll_times-idle n wait_on i zero w v s = refl
  poll_times-idle n wait_on i (suc k) w v s =
      let run = poll_idle B L V n (deliver B L V (is_completion_of B L V wait_on)) i w v s in
      simp run (poll_times-idle n wait_on i k w v s)

  -- An event that waits alone and that a future which does not await it pops is never seen by a
  -- future polled after it: however often that one is polled, and whichever command it awaits, it
  -- stays pending.
  pub poll_command-steals :
      (n first second i : ℕ) (w : World B L V) (t : L.Raw)
      → IsAt B L V n i w
      → Waits L n w.trbs i w.ring.cycle_bit (t ∷ [])
      → w.ring.n_pop + 1 < word
      → NoneOf (is_completion_of B L V first) (t ∷ [])
      → (w' : World B L V) × (poll_command B L V first w ≡ ok (pending, w'))
        × ((k : ℕ) → poll_times (poll_command B L V second) k w' ≡ ok (pending, w'))
  unfolding poll_command
  poll_command-steals n first second i w t v ((held, bit), rest) few (miss, _) =
      let handle = deliver B L V (is_completion_of B L V first) in
      let (w1, kept, same) =
        deliver_miss (is_completion_of B L V first) n (popped_world B L V n i w) t miss in
      let v1 =
        with_popped-IsAt (is_completion_of B L V first) n _ (popped_world B L V n i w) _
          (popped_world-IsAt B L V n i w v) in
      (
        w1,
        poll_waiting B L V n handle i w t v held bit few ∙ kept,
        λ k. poll_times-idle n second (next_slot n i) k w1 (rw same v1) (rw same rest),
      )
