-- ===== src/Workers/Conserved.antt =====
-- Where the bundles are that a worker group (src/worker_group.cpp) was given.
use preemptive_executor.Common.{
  ℕ, ◌+◌, ◌≡◌, refl, ap, Bool, false, Option, none, some, List, [], ◌∷◌, ◌++◌, length, keep,
  keep-append, length-append, get_elem?, if◌then◌else◌, arith,
}
use preemptive_executor.Workers.{
  ConcurrentQueue, Place, Round, WorkerGroup, work, dispatch, waiting, acquired, dequeuing, holding,
  finished, updating, stopped, dequeued, updated, accepted, checked, somes,
}
use preemptive_executor.Workers.Trace.{
  Event, System, work_at, step, run, worker, dispatcher, start, stop, close, make_group,
}
use preemptive_executor.Workers.Tally.{tally, tally-get_elem?, tally-replace, tally-repeat}

module _ {B : Type 0} (library : ConcurrentQueue (Option B)) where
  abbrev pub given_to : Option library.Queue → List B → List B
  given_to none bs = []
  given_to (some q) bs = bs

  -- The bundles that an event puts into the queue.
  pub accepted_bundles : Round → List B → WorkerGroup library → List B
  accepted_bundles Round.resting [] g = []
  accepted_bundles Round.resting (b ∷ bs) g =
      given_to (library.enqueue_bulk (somes library (b ∷ bs)) g.queue) (b ∷ bs)
  accepted_bundles _ bs g = []

  pub delivered : System library → Event B → List B
  unfolding accepted_bundles
  delivered s (dispatcher bs) = accepted_bundles s.round bs s.group
  delivered s _ = []

  -- The bundles that a run puts into the queue, in their order.
  pub handed : List (Event B) → System library → List B
  unfolding delivered
  handed [] s = []
  handed (v ∷ events) s = delivered s v ++ handed events (step library s v)

  module _ (p : B → Bool) where
    abbrev pub chosen : Option B → Bool
    chosen none = false
    chosen (some b) = p b

    -- The bundles with the property `p` in the queue, in a thread's hands, and among those run.
    abbrev pub in_queue : WorkerGroup library → ℕ
    in_queue g = library.count chosen g.queue

    abbrev pub in_hands : Place B → ℕ
    in_hands (holding (some b)) = if p b then 1 else 0
    in_hands _ = 0

    abbrev pub were_run : WorkerGroup library → ℕ
    were_run g = length (keep p g.ran)

    abbrev pub present : System library → ℕ
    present s = in_queue s.group + tally in_hands s.threads + were_run s.group

    Same : Place B → WorkerGroup library → Place B × WorkerGroup library → Type 0
    Same q g (q', g') =
        in_queue g' + in_hands q' + were_run g' ≡ in_queue g + in_hands q + were_run g

    dequeued-Same :
        (n : ℕ) (g : WorkerGroup library) (r : Option (Option B) × library.Queue)
        → library.try_dequeue g.queue ≡ r
        → Same (dequeuing n) g (dequeued library n g r)
    unfolding dequeued Same
    dequeued-Same n g (none, q) h = ground (arith, library.count-miss chosen g.queue q h)
    dequeued-Same n g (some none, q) h =
        ground (arith, library.count-try_dequeue chosen none g.queue q h)
    dequeued-Same n g (some (some x), q) h =
        ground (arith, library.count-try_dequeue chosen (some x) g.queue q h)

    work-Same : (q : Place B) (g : WorkerGroup library) → Same q g (work library q g)
    unfolding work Same updated
    work-Same waiting g = ground arith
    work-Same acquired g = ground arith
    work-Same (dequeuing n) g = dequeued-Same n g (library.try_dequeue g.queue) refl
    work-Same (holding none) g = ground arith
    work-Same (holding (some x)) g = ground arith
    work-Same finished g = ground arith
    work-Same updating g = ground arith
    work-Same (Place.comparing should) g = ground arith
    work-Same (Place.setting boost) g = ground arith
    work-Same (Place.storing boost) g = ground arith
    work-Same stopped g = ground arith
    work-Same (Place.failed x) g = ground arith

    work_at-present :
        (i : ℕ) (s : System library) (o : Option (Place B))
        → get_elem? s.threads i ≡ o
        → present (work_at library i s o) ≡ present s
    unfolding work_at Same
    work_at-present i s none h = refl
    work_at-present i s (some q) h = omega (
      arith,
      work-Same q s.group,
      tally-get_elem? in_hands i s.threads q h,
      tally-replace in_hands i s.threads q (work library q s.group).0 h,
    )

    length-chosen : (bs : List B) → length (keep chosen (somes library bs)) ≡ length (keep p bs)
    unfolding somes
    length-chosen [] = refl
    length-chosen (b ∷ bs) = ground (arith, length-chosen bs)

    accepted-present :
        (n : ℕ) (bs : List B) (g : WorkerGroup library) (r : Option library.Queue)
        → library.enqueue_bulk (somes library bs) g.queue ≡ r
        → in_queue (accepted library n g r).1 + were_run (accepted library n g r).1
          ≡ in_queue g + were_run g + length (keep p (given_to r bs))
    unfolding accepted
    accepted-present n bs g none h = omega arith
    accepted-present n bs g (some q) h =
        omega (
          arith,
          length-chosen bs,
          library.count-enqueue_bulk chosen (somes library bs) g.queue q h,
        )

    dispatch-present :
        (bs : List B) (r : Round) (g : WorkerGroup library)
        → in_queue (dispatch library bs r g).1 + were_run (dispatch library bs r g).1
          ≡ in_queue g + were_run g + length (keep p (accepted_bundles r bs g))
    unfolding dispatch checked accepted_bundles
    dispatch-present [] Round.resting g = omega arith
    dispatch-present (x ∷ bs) Round.resting g =
        accepted-present (length (x ∷ bs)) (x ∷ bs) g
          (library.enqueue_bulk (somes library (x ∷ bs)) g.queue) refl
    dispatch-present bs (Round.enqueued n) g = ground arith
    dispatch-present bs (Round.counted n) g = ground arith
    dispatch-present bs (Round.comparing n should) g = ground arith
    dispatch-present bs (Round.setting n boost) g = ground arith
    dispatch-present bs (Round.storing n boost) g = ground arith
    dispatch-present bs (Round.releasing n) g = ground arith
    dispatch-present bs (Round.failed x) g = ground arith

    step-present :
        (s : System library) (v : Event B)
        → present (step library s v) ≡ present s + length (keep p (delivered s v))
    unfolding step delivered
    step-present s (worker i) = omega (arith, work_at-present i s (get_elem? s.threads i) refl)
    step-present s (dispatcher bs) = omega (arith, dispatch-present bs s.round s.group)
    step-present s start = ground arith
    step-present s stop = omega arith
    step-present s close = ground arith

    run-present :
        (events : List (Event B)) (s : System library)
        → present (run library events s) ≡ present s + length (keep p (handed events s))
    unfolding handed
    run-present [] s = omega arith
    run-present (v ∷ events) s = omega (
      arith,
      run-present events (step library s v),
      step-present s v,
      ap length (keep-append p (delivered s v) (handed events (step library s v))),
      length-append (keep p (delivered s v)) (keep p (handed events (step library s v))),
    )

    -- In any interleaving since a group was made, of the bundles with the property `p` that were put
    -- into its queue as many as there are stand in the queue, are held by a thread before its `run`,
    -- or have been run: none is lost and none is run twice.
    pub bundles_conserved :
        (is_boosted : Option Bool) (priority n : ℕ) (events : List (Event B))
        → present (run library events (make_group library is_boosted priority n))
          ≡ length (keep p (handed events (make_group library is_boosted priority n)))
    unfolding make_group
    bundles_conserved is_boosted priority n events = omega (
      arith,
      run-present events (make_group library is_boosted priority n),
      library.count-create chosen,
      tally-repeat in_hands n waiting refl,
    )
