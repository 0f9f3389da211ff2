-- ===== src/Workers/Drained.antt =====
-- A worker group (src/worker_group.cpp) that comes to rest has run every bundle it was given.
use preemptive_executor.Common.{
  ℕ, ◌+◌, ◌≤◌, ◌≡◌, refl, sym, Bool, true, false, not, Option, none, some, List, [], ◌∷◌, length,
  keep, get_elem?, All, nat_eq, arith,
}
use preemptive_executor.Workers.{
  ConcurrentQueue, Place, Round, WorkerGroup, work, dispatch, waiting, acquired, dequeuing, holding,
  finished, updating, stopped, dequeued, updated, accepted, checked, somes,
}
use preemptive_executor.Workers.Trace.{
  Event, System, work_at, step, run, worker, dispatcher, start, stop, close, make_group,
}
use preemptive_executor.Workers.Tally.{tally, others, tally-get_elem?, tally-replace}
use preemptive_executor.Workers.Backed.{at_queue, at_test, uncounted, unreleased}
use preemptive_executor.Workers.Conserved.{chosen, in_queue, in_hands, handed, bundles_conserved}

-- The executor goes on to spin, and the group is not destroyed.
abbrev pub goes_on : {B : Type 0} → Event B → Bool
goes_on stop = false
goes_on close = false
goes_on _ = true

-- A thread that has thrown, or is about to, with the permit that it has taken.
abbrev pub is_lost : {B : Type 0} → Place B → ℕ
is_lost (holding none) = 1
is_lost (Place.failed x) = 1
is_lost _ = 0

-- A round that has thrown may leave any number of bundles without permits.
abbrev pub without_permit : Round → ℕ → ℕ
without_permit (Round.failed x) q = q
without_permit _ q = 0

abbrev pub at_rest : Round → Bool
at_rest Round.resting = true
at_rest _ = false

abbrev pub is_waiting : {B : Type 0} → Place B → Bool
is_waiting waiting = true
is_waiting _ = false

module _ {B : Type 0} (library : ConcurrentQueue (Option B)) where
  abbrev pub bundles_in : WorkerGroup library → ℕ
  bundles_in g = in_queue library (λ _. true) g

  -- For `d` threads at the queue, `a` with a permit, `l` lost: no bundle in the queue is without a
  -- permit that is in the semaphore, with a thread, or to be released.
  abbrev pub Awaited : ℕ → ℕ → ℕ → Round → WorkerGroup library → Type 0
  Awaited d a l r g =
      (bundles_in g
        ≤ d + a + l + uncounted r + unreleased r + without_permit r (bundles_in g) + g.semaphore)
      × (g.running ≡ true)
      × (g.closing ≡ false)

  abbrev pub IsAwaited : System library → Type 0
  IsAwaited s =
      Awaited (tally at_queue s.threads) (tally at_test s.threads) (tally is_lost s.threads) s.round
        s.group

  WorkKeeps :
      ℕ → ℕ → ℕ → Round → Place B → WorkerGroup library → Place B × WorkerGroup library → Type 0
  WorkKeeps d a l r p g (p', g') =
      Awaited (d + at_queue p) (a + at_test p) (l + is_lost p) r g
      → Awaited (d + at_queue p') (a + at_test p') (l + is_lost p') r g'

  dequeued-Awaited :
      (d a l n : ℕ) (r : Round) (g : WorkerGroup library) (o : Option (Option B) × library.Queue)
      → library.try_dequeue g.queue ≡ o
      → WorkKeeps d a l r (dequeuing n) g (dequeued library n g o)
  unfolding dequeued WorkKeeps
  dequeued-Awaited d a l n r g (none, q) h b =
      ground (arith, library.count-miss (chosen library (λ _. true)) g.queue q h)
  dequeued-Awaited d a l n r g (some none, q) h b =
      ground (arith, library.count-try_dequeue (chosen library (λ _. true)) none g.queue q h)
  dequeued-Awaited d a l n r g (some (some x), q) h b =
      ground (arith, library.count-try_dequeue (chosen library (λ _. true)) (some x) g.queue q h)

  work-Awaited :
      (d a l : ℕ) (r : Round) (p : Place B) (g : WorkerGroup library)
      → WorkKeeps d a l r p g (work library p g)
  unfolding work WorkKeeps updated
  work-Awaited d a l r waiting g b = ground arith
  work-Awaited d a l r acquired g b = ground arith
  work-Awaited d a l r (dequeuing n) g b =
      dequeued-Awaited d a l n r g (library.try_dequeue g.queue) refl b
  work-Awaited d a l r (holding none) g b = ground arith
  work-Awaited d a l r (holding (some x)) g b = ground arith
  work-Awaited d a l r finished g b = ground arith
  work-Awaited d a l r updating g b = ground arith
  work-Awaited d a l r (Place.comparing should) g b = ground arith
  work-Awaited d a l r (Place.setting boost) g b = ground arith
  work-Awaited d a l r (Place.storing boost) g b = ground arith
  work-Awaited d a l r stopped g b = ground arith
  work-Awaited d a l r (Place.failed x) g b = ground arith

  DispatchKeeps : ℕ → ℕ → ℕ → Round → WorkerGroup library → Round × WorkerGroup library → Type 0
  DispatchKeeps d a l r g (r', g') = Awaited d a l r g → Awaited d a l r' g'

  length-somes :
      (bs : List B) → length (keep (chosen library (λ _. true)) (somes library bs)) ≡ length bs
  unfolding somes
  length-somes [] = refl
  length-somes (b ∷ bs) = omega (arith, length-somes bs)

  accepted-Awaited :
      (d a l : ℕ) (bs : List B) (g : WorkerGroup library) (o : Option library.Queue)
      → library.enqueue_bulk (somes library bs) g.queue ≡ o
      → DispatchKeeps d a l Round.resting g (accepted library (length bs) g o)
  unfolding accepted DispatchKeeps
  accepted-Awaited d a l bs g none h b = ground arith
  accepted-Awaited d a l bs g (some q) h b = ground (
    arith,
    length-somes bs,
    library.count-enqueue_bulk (chosen library (λ _. true)) (somes library bs) g.queue q h,
  )

  dispatch-Awaited :
      (d a l : ℕ) (bs : List B) (r : Round) (g : WorkerGroup library)
      → DispatchKeeps d a l r g (dispatch library bs r g)
  unfolding dispatch DispatchKeeps checked
  dispatch-Awaited d a l [] Round.resting g b = b
  dispatch-Awaited d a l (x ∷ bs) Round.resting g b =
      accepted-Awaited d a l (x ∷ bs) g (library.enqueue_bulk (somes library (x ∷ bs)) g.queue) refl
        b
  dispatch-Awaited d a l bs (Round.enqueued n) g b = ground arith
  dispatch-Awaited d a l bs (Round.counted n) g b = ground arith
  dispatch-Awaited d a l bs (Round.comparing n should) g b = ground arith
  dispatch-Awaited d a l bs (Round.setting n boost) g b = ground arith
  dispatch-Awaited d a l bs (Round.storing n boost) g b = ground arith
  dispatch-Awaited d a l bs (Round.releasing n) g b = ground arith
  dispatch-Awaited d a l bs (Round.failed x) g b = b

  work_at-IsAwaited :
      (i : ℕ) (s : System library) (o : Option (Place B))
      → get_elem? s.threads i ≡ o
      → IsAwaited s
      → IsAwaited (work_at library i s o)
  unfolding work_at WorkKeeps
  work_at-IsAwaited i s none h b = b
  work_at-IsAwaited i s (some p) h b =
      let ts = s.threads in
      let q = (work library p s.group).0 in
      rw
        (
          tally-replace at_queue i ts p q h,
          tally-replace at_test i ts p q h,
          tally-replace is_lost i ts p q h,
        )
        (work-Awaited (others at_queue i ts) (others at_test i ts) (others is_lost i ts) s.round p
          s.group
          (rw
            (
              sym (tally-get_elem? at_queue i ts p h),
              sym (tally-get_elem? at_test i ts p h),
              sym (tally-get_elem? is_lost i ts p h),
            )
            b))

  step-IsAwaited :
      (s : System library) (v : Event B)
      → goes_on v ≡ true
      → IsAwaited s
      → IsAwaited (step library s v)
  unfolding step DispatchKeeps
  step-IsAwaited s (worker i) go b = work_at-IsAwaited i s (get_elem? s.threads i) refl b
  step-IsAwaited s (dispatcher bs) go b =
      dispatch-Awaited (tally at_queue s.threads) (tally at_test s.threads)
        (tally is_lost s.threads) bs s.round s.group b
  step-IsAwaited s start go b = ground arith
  step-IsAwaited s stop go b = cc
  step-IsAwaited s close go b = cc

  run-IsAwaited :
      (events : List (Event B)) (s : System library)
      → All (λ v. goes_on v ≡ true) events
      → IsAwaited s
      → IsAwaited (run library events s)
  run-IsAwaited [] s go b = b
  run-IsAwaited (v ∷ events) s (go, rest) b =
      run-IsAwaited events (step library s v) rest (step-IsAwaited s v go b)

  make_group-IsAwaited :
      (boosted : Option Bool) (priority n : ℕ) → IsAwaited (make_group library boosted priority n)
  unfolding make_group
  make_group-IsAwaited boosted priority n =
      ground (arith, library.count-create (chosen library (λ _. true)))

  waiting-none :
      (weight : Place B → ℕ) (ts : List (Place B))
      → weight waiting ≡ 0
      → All (λ t. is_waiting t ≡ true) ts
      → tally weight ts ≡ 0
  waiting-none weight [] z h = refl
  waiting-none weight (t ∷ ts) z (h, rest) = ground (arith, z, waiting-none weight ts z rest)

  resting-none :
      (r : Round) (q : ℕ) → at_rest r ≡ true → uncounted r + unreleased r + without_permit r q ≡ 0
  resting-none Round.resting q h = refl
  resting-none (Round.enqueued n) q h = cc
  resting-none (Round.counted n) q h = cc
  resting-none (Round.comparing n should) q h = cc
  resting-none (Round.setting n boost) q h = cc
  resting-none (Round.storing n boost) q h = cc
  resting-none (Round.releasing n) q h = cc
  resting-none (Round.failed x) q h = cc

  -- The two halves of the bundles make up the whole.
  count-halves :
      (p : B → Bool) (bs : List B)
      → length (keep p bs) + length (keep (λ b. not (p b)) bs) ≡ length (keep (λ _. true) bs)
  count-halves p [] = refl
  count-halves p (b ∷ bs) = ground (arith, count-halves p bs)

  -- While the executor spins, when a group has come to rest after any interleaving (its dispatcher
  -- rests, its semaphore is at zero, and all its threads wait), the bundles that it has run are
  -- those that were put into its queue, each as often: for every property `p` there are as many
  -- among the ones as among the others.
  pub nothing_stranded :
      (is_boosted : Option Bool) (priority n : ℕ) (events : List (Event B)) (p : B → Bool)
      → let start = make_group library is_boosted priority n in
        let s = run library events start in
        All (λ v. goes_on v ≡ true) events
        → at_rest s.round ≡ true
        → s.group.semaphore ≡ 0
        → All (λ t. is_waiting t ≡ true) s.threads
        → length (keep p s.group.ran) ≡ length (keep p (handed library events start))
  nothing_stranded is_boosted priority n events p go rest permits idle =
      let start = make_group library is_boosted priority n in
      let s = run library events start in
      let awaited = run-IsAwaited events start go (make_group-IsAwaited is_boosted priority n) in
      let none_here = λ (w : Place B → ℕ) (z : w waiting ≡ 0). waiting-none w s.threads z idle in
      omega (
        arith,
        awaited.0,
        permits,
        resting-none s.round (bundles_in s.group) rest,
        none_here at_queue refl,
        none_here at_test refl,
        none_here is_lost refl,
        none_here (in_hands library p) refl,
        none_here (in_hands library (λ b. not (p b))) refl,
        none_here (in_hands library (λ _. true)) refl,
        bundles_conserved library p is_boosted priority n events,
        bundles_conserved library (λ b. not (p b)) is_boosted priority n events,
        bundles_conserved library (λ _. true) is_boosted priority n events,
        count-halves p s.group.ran,
        count-halves p (handed library events start),
      )
