-- ===== src/Executor/Populate/Handed.antt =====
-- `populate_ready_queues` (src/preemptive_executor.cpp) as a whole: which bundles reach which queue.
use preemptive_executor.Common.{
  ℕ, ◌+◌, ◌≡◌, refl, sym, ◌∙◌, ap, subst, Bool, Option, none, some, List, [], ◌∷◌, ◌++◌, lookup,
  nat_eq, Outcome, ok, err, Error, timer_handle_not_found, arith,
}
use preemptive_executor.Common.Action.{resume}
use preemptive_executor.Common.Iteration.{Iteration}
use preemptive_executor.Strategy.{Strategy}
use preemptive_executor.Strategy.Ready.{Ready, take_ready_handles}
use preemptive_executor.Bundles.{Middleware, Bundle, take_and_bundle, take_timer}
use preemptive_executor.Workers.{ConcurrentQueue}
use preemptive_executor.Workers.Trace.{System}
use preemptive_executor.Executor.Populate.{
  Sorting, Workers, Dispatching, dispatched, dispatch_all, hand_over, populate_from, populate_with,
  populate_ready_queues, place_all, place_subscriptions, place_timers,
}
use preemptive_executor.Executor.Populate.Sorted.{
  taken, weigh, total, Adds, place_all-Adds, resume-Adds,
}
use preemptive_executor.Executor.Populate.Conserved.{
  Gets, GetsIfOk, GetsIfOk-cong, one_for, dispatch_all-Gets, total-Perm,
}

err-ne-ok {ℓ} : {A : Type ℓ} {x : Error} {a : A} → Path (Outcome A) (err x) (ok a) → ⊥
err-ne-ok h = cc

none-ne-some {ℓ} : {A : Type ℓ} {a : A} → Path (Option A) none (some a) → ⊥
none-ne-some h = cc

module _ (mw : Middleware) (library : ConcurrentQueue (Option (Bundle mw))) where
  -- The bundles of the ready subscriptions and then those of the ready timers, each with the thread
  -- group of its handle; bundles whose handle has none are not among them.
  abbrev pub made_subscriptions :
      Dispatching mw library → List (ℕ × ℕ) → Ready → List (ℕ × Bundle mw) × mw.World
  made_subscriptions x hs ready =
      taken mw hs (λ p w. take_and_bundle mw (x.loaned p) p w) ready.subscriptions x.world

  abbrev pub made_timers :
      Dispatching mw library → List (ℕ × ℕ) → Ready → List (ℕ × Bundle mw) × mw.World
  made_timers x hs ready =
      taken mw hs (take_timer mw) ready.timers (made_subscriptions x hs ready).1

  abbrev pub made : Dispatching mw library → List (ℕ × ℕ) → Strategy → List (ℕ × Bundle mw)
  made x hs st =
      let ready = take_ready_handles x.weak_groups_to_nodes st in
      (made_subscriptions x hs ready).0 ++ (made_timers x hs ready).0

  module _ (it : Iteration) (i : ℕ) where
    dispatched-Gets :
        (w : (Bundle mw → Bool) → ℕ) (x y : Dispatching mw library) (v : mw.World)
        (s : System library) (m : Workers mw library)
        (out : Outcome (Unit {0}) × Workers mw library)
        → GetsIfOk mw library i w m out
        → lookup i m ≡ some s
        → dispatched mw library x v out ≡ (ok tt, y)
        → Gets mw library i w (lookup i y.thread_group_id_worker_map) s
    unfolding GetsIfOk
    dispatched-Gets w x y v s m (err z, n) g k e = absurd (err-ne-ok (ap (λ r. r.0) e))
    dispatched-Gets w x y v s m (ok u, n) g k e =
        subst (λ n. Gets mw library i w (lookup i n) s)
          (ap (λ (r : Outcome (Unit {0}) × Dispatching mw library). r.1.thread_group_id_worker_map)
            e)
          (g s k)

    hand_over-Gets :
        (new : List (ℕ × Bundle mw)) (w : mw.World) (x y : Dispatching mw library)
        (s : System library) (o : Sorting mw) (r : Outcome (Unit {0}) × Sorting mw)
        → o.bundles_by_tgid ≡ []
        → ((f : ℕ → Bundle mw → ℕ) → Adds mw f new w o r)
        → lookup i x.thread_group_id_worker_map ≡ some s
        → hand_over mw library it x r ≡ (ok tt, y)
        → Gets mw library i
            (λ p. weigh mw (one_for i p) new)
            (lookup i y.thread_group_id_worker_map)
            s
    unfolding hand_over Adds
    hand_over-Gets new w x y s o (err z, t) b a k e = absurd (err-ne-ok (ap (λ r. r.0) e))
    hand_over-Gets new w x y s o (ok u, t) b a k e =
        let es = it.order (ℕ × List (Bundle mw)) t.bundles_by_tgid in
        dispatched-Gets _ x y t.world s x.thread_group_id_worker_map
          (dispatch_all mw library es x.thread_group_id_worker_map)
          (GetsIfOk-cong mw library i (λ p. total mw (one_for i p) es)
            (λ p. weigh mw (one_for i p) new) _ _
            (λ p. sym (
              total-Perm mw (one_for i p) es t.bundles_by_tgid (it.order-perm _ t.bundles_by_tgid)
              ∙ (a (one_for i p)).0
              ∙ ap (λ m. total mw (one_for i p) m + weigh mw (one_for i p) new) b
              ∙ omega arith))
            (dispatch_all-Gets mw library i es x.thread_group_id_worker_map))
          k e

    -- The two loops over the ready entities, one after the other.
    pub placed-Adds :
        (x : Dispatching mw library) (hs : List (ℕ × ℕ)) (ready : Ready) (f : ℕ → Bundle mw → ℕ)
        → x.callback_handle_to_threadgroup_id ≡ some hs
        → let o : Sorting mw = record { world = x.world; bundles_by_tgid = [] } in
          Adds mw f
            ((made_subscriptions x hs ready).0 ++ (made_timers x hs ready).0)
            (made_timers x hs ready).1
            o
            (resume
              (λ _. place_timers mw library it x ready.timers)
              (place_subscriptions mw library it x ready.subscriptions o))
    placed-Adds x hs ready f h =
        let o : Sorting mw = record { world = x.world; bundles_by_tgid = [] } in
        let take = λ (p : ℕ) (w : mw.World). take_and_bundle mw (x.loaned p) p w in
        let subs = made_subscriptions x hs ready in
        let timers = made_timers x hs ready in
        let late : Outcome (Unit {0}) = err timer_handle_not_found in
        subst
          (λ hm. Adds mw f (subs.0 ++ timers.0) timers.1 o (
            resume (λ _. place_all mw hm late (take_timer mw) ready.timers)
              (place_all mw hm (ok tt) take ready.subscriptions o)))
          (sym h)
          (resume-Adds mw f subs.0 timers.0 subs.1 timers.1 o
            (place_all mw (some hs) (ok tt) take ready.subscriptions o)
            (λ t. place_all mw (some hs) late (take_timer mw) ready.timers t)
            (place_all-Adds mw f hs (ok tt) take ready.subscriptions o)
            λ t e.
              subst
                (λ w.
                  Adds mw f (taken mw hs (take_timer mw) ready.timers w).0
                    (taken mw hs (take_timer mw) ready.timers w).1 t
                    (place_all mw (some hs) late (take_timer mw) ready.timers t))
                e (place_all-Adds mw f hs late (take_timer mw) ready.timers t))

    populate_with-from :
        (x y : Dispatching mw library) (st : Strategy) (m : Workers mw library) (s : System library)
        → lookup i m ≡ some s
        → populate_with mw library it (some st) m x ≡ (ok tt, y)
        → populate_from mw library it (take_ready_handles x.weak_groups_to_nodes st) x ≡ (ok tt, y)
    unfolding populate_with
    populate_with-from x y st [] s k e = absurd (none-ne-some k)
    populate_with-from x y st (w ∷ ws) s k e = e

    -- With a strategy and the timing information at hand, when `populate_ready_queues` returns, and no
    -- thread of a worker group has made a step between its beginning and its end, every worker group `i` has got exactly the bundles that taking the ready subscriptions and then the
    -- ready timers makes for callbacks of thread group `i`: for every property of bundles the number
    -- of those with it in the queue has grown by their number among these, `num_pending` and the
    -- semaphore by the number of all of these, no bundle was run, and the threads are where they were.
    pub populate_conserves :
        (x y : Dispatching mw library) (st : Strategy) (hs : List (ℕ × ℕ)) (s : System library)
        → x.rt_memory_strategy ≡ some st
        → x.callback_handle_to_threadgroup_id ≡ some hs
        → lookup i x.thread_group_id_worker_map ≡ some s
        → populate_ready_queues mw library it x ≡ (ok tt, y)
        → Gets mw library i
            (λ p. weigh mw (one_for i p) (made x hs st))
            (lookup i y.thread_group_id_worker_map)
            s
    unfolding populate_ready_queues populate_from
    populate_conserves x y st hs s h g k e =
        let ready = take_ready_handles x.weak_groups_to_nodes st in
        let from =
          populate_with-from x y st x.thread_group_id_worker_map s k
            (ap (λ o. populate_with mw library it o x.thread_group_id_worker_map x) (sym h) ∙ e) in
        hand_over-Gets (made x hs st) (made_timers x hs ready).1
          (record x { rt_memory_strategy = some ready.strategy }) y s
          (record { world = x.world; bundles_by_tgid = [] }) _ refl
          (λ f. placed-Adds x hs ready f g) k from
