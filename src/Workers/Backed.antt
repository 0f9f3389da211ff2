-- ===== src/Workers/Backed.antt =====
-- The semaphore of a worker group (src/worker_group.cpp) never runs ahead of its queue.
use preemptive_executor.Common.{
  ℕ, ◌+◌, ◌≤◌, ◌≡◌, refl, sym, ap, Bool, true, false, not, Option, none, some, is_some, List, [],
  ◌∷◌, length, keep, get_elem?, if◌then◌else◌, nat_eq, arith,
}
use preemptive_executor.Workers.{
  ConcurrentQueue, Place, Round, WorkerGroup, work, dispatch, waiting, acquired, dequeuing, holding,
  finished, updating, stopped, dequeued, updated, accepted, checked, somes,
}
use preemptive_executor.Workers.Trace.{
  Event, System, work_at, step, run, worker, dispatcher, start, stop, close, make_group,
}
use preemptive_executor.Workers.Tally.{tally, others, tally-get_elem?, tally-replace, tally-repeat}

module _ {B : Type 0} where
  -- Whether a thread is at `try_dequeue`, has a permit that is not yet used, has a bundle that
  -- `num_pending` still counts, or has a null pointer.
  abbrev pub at_queue : Place B → ℕ
  at_queue (dequeuing n) = 1
  at_queue _ = 0

  abbrev pub at_test : Place B → ℕ
  at_test acquired = 1
  at_test _ = 0

  abbrev pub in_work : Place B → ℕ
  in_work (holding b) = 1
  in_work finished = 1
  in_work _ = 0

  abbrev pub with_null : Place B → ℕ
  with_null (holding none) = 1
  with_null _ = 0

-- The bundles of the dispatcher's round that are in the queue and not yet counted.
abbrev pub uncounted : Round → ℕ
uncounted (Round.enqueued n) = n
uncounted _ = 0

-- Those that are counted and whose permits are not yet released.
abbrev pub unreleased : Round → ℕ
unreleased (Round.counted n) = n
unreleased (Round.comparing n should) = n
unreleased (Round.setting n boost) = n
unreleased (Round.storing n boost) = n
unreleased (Round.releasing n) = n
unreleased _ = 0

module _ {B : Type 0} (library : ConcurrentQueue (Option B)) where
  -- The number of elements of the group's queue, and of null pointers in it.
  abbrev pub queued : WorkerGroup library → ℕ
  queued g = library.count (λ _. true) g.queue

  abbrev pub nulls : WorkerGroup library → ℕ
  nulls g = library.count (λ b. not (is_some b)) g.queue

  -- For `d` threads at the queue, `a` with a permit, `w` with a bundle, and a round with `e`
  -- bundles uncounted and `u` unreleased: there is a bundle for each thread at the queue and, until
  -- the destructor's release, for each permit; `num_pending` counts the bundles that are not done.
  abbrev pub Balanced : ℕ → ℕ → ℕ → ℕ → ℕ → WorkerGroup library → Type 0
  Balanced d a w e u g =
      (d + e + (if g.closing then 0 else a + g.semaphore + u) ≤ queued g)
      × (g.num_pending + e ≡ queued g + w)
      × (nulls g ≡ 0)
      × (g.closing ≡ true → g.running ≡ false)

  abbrev pub IsBacked : System library → Type 0
  IsBacked s =
      Balanced (tally at_queue s.threads) (tally at_test s.threads) (tally in_work s.threads)
        (uncounted s.round) (unreleased s.round) s.group
      × (tally with_null s.threads ≡ 0)

  WorkKeeps :
      ℕ → ℕ → ℕ → ℕ → ℕ → Place B → WorkerGroup library → Place B × WorkerGroup library → Type 0
  WorkKeeps d a w e u p g (p', g') =
      Balanced (d + at_queue p) (a + at_test p) (w + in_work p) e u g
      → with_null p ≡ 0
      → Balanced (d + at_queue p') (a + at_test p') (w + in_work p') e u g' × (with_null p' ≡ 0)

  dequeued-Balanced :
      (d a w e u n : ℕ) (g : WorkerGroup library) (r : Option (Option B) × library.Queue)
      → library.try_dequeue g.queue ≡ r
      → WorkKeeps d a w e u (dequeuing n) g (dequeued library n g r)
  unfolding dequeued WorkKeeps
  dequeued-Balanced d a w e u n g (none, q) h b z = ground (
    arith,
    library.count-miss (λ _. true) g.queue q h,
    library.count-miss (λ o. not (is_some o)) g.queue q h,
  )
  dequeued-Balanced d a w e u n g (some none, q) h b z =
      ground (arith, library.count-try_dequeue (λ o. not (is_some o)) none g.queue q h)
  dequeued-Balanced d a w e u n g (some (some x), q) h b z = ground (
    arith,
    library.count-try_dequeue (λ _. true) (some x) g.queue q h,
    library.count-try_dequeue (λ o. not (is_some o)) (some x) g.queue q h,
  )

  work-Balanced :
      (d a w e u : ℕ) (p : Place B) (g : WorkerGroup library)
      → WorkKeeps d a w e u p g (work library p g)
  unfolding work WorkKeeps updated
  work-Balanced d a w e u waiting g b z = ground arith
  work-Balanced d a w e u acquired g b z = ground arith
  work-Balanced d a w e u (dequeuing n) g b z =
      dequeued-Balanced d a w e u n g (library.try_dequeue g.queue) refl b z
  work-Balanced d a w e u (holding none) g b z = ground arith
  work-Balanced d a w e u (holding (some x)) g b z = ground arith
  work-Balanced d a w e u finished g b z = ground arith
  work-Balanced d a w e u updating g b z = ground arith
  work-Balanced d a w e u (Place.comparing should) g b z = ground arith
  work-Balanced d a w e u (Place.setting boost) g b z = ground arith
  work-Balanced d a w e u (Place.storing boost) g b z = ground arith
  work-Balanced d a w e u stopped g b z = ground arith
  work-Balanced d a w e u (Place.failed x) g b z = ground arith

  DispatchKeeps : ℕ → ℕ → ℕ → Round → WorkerGroup library → Round × WorkerGroup library → Type 0
  DispatchKeeps d a w r g (r', g') =
      Balanced d a w (uncounted r) (unreleased r) g
      → Balanced d a w (uncounted r') (unreleased r') g'

  length-somes : (bs : List B) → length (keep (λ _. true) (somes library bs)) ≡ length bs
  unfolding somes
  length-somes [] = refl
  length-somes (b ∷ bs) = omega (arith, length-somes bs)

  nulls-somes : (bs : List B) → keep (λ o. not (is_some o)) (somes library bs) ≡ []
  unfolding somes
  nulls-somes [] = refl
  nulls-somes (b ∷ bs) = nulls-somes bs

  accepted-Balanced :
      (d a w : ℕ) (bs : List B) (g : WorkerGroup library) (r : Option library.Queue)
      → library.enqueue_bulk (somes library bs) g.queue ≡ r
      → DispatchKeeps d a w Round.resting g (accepted library (length bs) g r)
  unfolding accepted DispatchKeeps
  accepted-Balanced d a w bs g none h b = b
  accepted-Balanced d a w bs g (some q) h b = ground (
    arith,
    length-somes bs,
    ap length (nulls-somes bs),
    library.count-enqueue_bulk (λ _. true) (somes library bs) g.queue q h,
    library.count-enqueue_bulk (λ o. not (is_some o)) (somes library bs) g.queue q h,
  )

  dispatch-Balanced :
      (d a w : ℕ) (bs : List B) (r : Round) (g : WorkerGroup library)
      → DispatchKeeps d a w r g (dispatch library bs r g)
  unfolding dispatch DispatchKeeps checked
  dispatch-Balanced d a w [] Round.resting g b = b
  dispatch-Balanced d a w (x ∷ bs) Round.resting g b =
      accepted-Balanced d a w (x ∷ bs) g (library.enqueue_bulk (somes library (x ∷ bs)) g.queue)
        refl b
  dispatch-Balanced d a w bs (Round.enqueued n) g b = ground arith
  dispatch-Balanced d a w bs (Round.counted n) g b = ground arith
  dispatch-Balanced d a w bs (Round.comparing n should) g b = ground arith
  dispatch-Balanced d a w bs (Round.setting n boost) g b = ground arith
  dispatch-Balanced d a w bs (Round.storing n boost) g b = ground arith
  dispatch-Balanced d a w bs (Round.releasing n) g b = ground arith
  dispatch-Balanced d a w bs (Round.failed x) g b = b

  work_at-IsBacked :
      (i : ℕ) (s : System library) (o : Option (Place B))
      → get_elem? s.threads i ≡ o
      → IsBacked s
      → IsBacked (work_at library i s o)
  unfolding work_at WorkKeeps
  work_at-IsBacked i s none h b = b
  work_at-IsBacked i s (some p) h b =
      let ts = s.threads in
      let q = (work library p s.group).0 in
      let null = tally-get_elem? with_null i ts p h in
      let kept =
        work-Balanced (others at_queue i ts) (others at_test i ts) (others in_work i ts)
          (uncounted s.round) (unreleased s.round) p s.group
          (rw
            (
              sym (tally-get_elem? at_queue i ts p h),
              sym (tally-get_elem? at_test i ts p h),
              sym (tally-get_elem? in_work i ts p h),
            )
            b.0)
          (omega (arith, b.1, null)) in
      rw
        (
          tally-replace at_queue i ts p q h,
          tally-replace at_test i ts p q h,
          tally-replace in_work i ts p q h,
          tally-replace with_null i ts p q h,
        )
        (kept.0, omega (arith, b.1, null, kept.1))

  -- Every step of a thread or of the dispatcher, and the start, the stop and the destructor's
  -- release, keep the balance.
  step-IsBacked : (s : System library) (v : Event B) → IsBacked s → IsBacked (step library s v)
  unfolding step DispatchKeeps
  step-IsBacked s (worker i) b = work_at-IsBacked i s (get_elem? s.threads i) refl b
  step-IsBacked s (dispatcher bs) b = (
    dispatch-Balanced (tally at_queue s.threads) (tally at_test s.threads) (tally in_work s.threads)
        bs s.round s.group b.0,
    b.1,
  )
  step-IsBacked s start b = ground arith
  step-IsBacked s stop b = ground arith
  step-IsBacked s close b = ground arith

  run-IsBacked :
      (events : List (Event B)) (s : System library) → IsBacked s → IsBacked (run library events s)
  run-IsBacked [] s b = b
  run-IsBacked (v ∷ events) s b = run-IsBacked events (step library s v) (step-IsBacked s v b)

  make_group-IsBacked :
      (boosted : Option Bool) (priority n : ℕ) → IsBacked (make_group library boosted priority n)
  unfolding make_group
  make_group-IsBacked boosted priority n = ground (
    arith,
    library.count-create (λ _. true),
    library.count-create (λ o. not (is_some o)),
    tally-repeat (at_queue {B = B}) n waiting refl,
    tally-repeat (at_test {B = B}) n waiting refl,
    tally-repeat (in_work {B = B}) n waiting refl,
    tally-repeat (with_null {B = B}) n waiting refl,
  )

  -- Whatever steps the threads, the dispatcher, the executor's start and stop and the destructor
  -- have made, in any interleaving, since a group of `n` threads was made: the queue holds a bundle
  -- for every thread at `try_dequeue` and, until the destructor's release, for every permit, taken or
  -- in the semaphore; `num_pending` is the number of bundles in the queue, less those that the
  -- dispatcher has not counted yet, and of those in work; no thread has dequeued a null pointer.
  pub permits-IsBacked :
      (is_boosted : Option Bool) (priority n : ℕ) (events : List (Event B))
      → IsBacked (run library events (make_group library is_boosted priority n))
  permits-IsBacked is_boosted priority n events =
      run-IsBacked events (make_group library is_boosted priority n)
        (make_group-IsBacked is_boosted priority n)

  -- In every such interleaving, when the thread number `i` is about to call `try_dequeue`, the queue
  -- is not empty; when it tests the pointer that it has dequeued, that is not null; and when it is
  -- about to subtract one from `num_pending`, that is not zero.
  pub thread_finds_bundle :
      (is_boosted : Option Bool) (priority n : ℕ) (events : List (Event B)) (i : ℕ) (p : Place B)
      → let s = run library events (make_group library is_boosted priority n) in
        get_elem? s.threads i ≡ some p
        → (at_queue p ≤ queued s.group) × (with_null p ≡ 0) × (in_work p ≤ s.group.num_pending)
  thread_finds_bundle is_boosted priority n events i p h =
      let s = run library events (make_group library is_boosted priority n) in
      let b = permits-IsBacked is_boosted priority n events in
      omega (
        arith,
        b,
        tally-get_elem? at_queue i s.threads p h,
        tally-get_elem? with_null i s.threads p h,
        tally-get_elem? in_work i s.threads p h,
      )
