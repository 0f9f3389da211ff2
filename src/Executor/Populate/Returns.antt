-- ===== src/Executor/Populate/Returns.antt =====
-- When `populate_ready_queues` (src/preemptive_executor.cpp) returns.
use preemptive_executor.Common.{
  ℕ, ◌≡◌, refl, sym, ◌∙◌, ap, subst, true, Option, none, some, is_some, List, [], ◌∷◌, ◌++◌, All,
  lookup, ◌==◌, nat_eq, Outcome, ok, err, timer_handle_not_found, arith, Bool-cases, Option-cases,
  inl, inr,
}
use preemptive_executor.Common.Action.{resume}
use preemptive_executor.Common.Iteration.{Iteration}
use preemptive_executor.Ros.{Entity}
use preemptive_executor.Strategy.{Strategy}
use preemptive_executor.Strategy.Ready.{Ready, take_ready_handles}
use preemptive_executor.Bundles.{
  Middleware, Bundle, TakesReturn, get_raw_handle, take_and_bundle, take_timer,
}
use preemptive_executor.Bundles.Taken.{take_and_bundle-Returns}
use preemptive_executor.Workers.{ConcurrentQueue}
use preemptive_executor.Executor.Populate.{
  Sorting, Take, Workers, Dispatching, Handles, find_group, file_bundle, place, dispatched,
  hand_over, populate_from, populate_with, populate_ready_queues, place_all,
}
use preemptive_executor.Executor.Populate.Sorted.{
  with_group, filed, taken, weigh, total, Adds, weigh-append,
}
use preemptive_executor.Executor.Populate.Conserved.{total-Perm}
use preemptive_executor.Executor.Populate.Handed.{made_subscriptions, made_timers, placed-Adds}
use preemptive_executor.Executor.Populate.Served.{
  false-ne-true, serves, unserved, KeepsServing, dispatch_all-Returns,
}

module _ (mw : Middleware) (hs : List (ℕ × ℕ)) where
  -- The loop goes on at every bundle that an entity's take may give.
  abbrev pub Goes : Outcome (Unit {0}) → Take mw → Entity → Type 0
  Goes missing take e =
      (w : mw.World) (s : Sorting mw)
      → (t : Sorting mw) × (place mw (some hs) missing s (take e.ptr w) ≡ (ok tt, t))

  file-Goes :
      (b : Bundle mw) (o : Option ℕ) (s : Sorting mw)
      → (t : Sorting mw) × (file_bundle mw (ok tt) b (ok o) s ≡ (ok tt, t))
  unfolding file_bundle
  file-Goes b none s = (s, refl)
  file-Goes b (some t) s = (_, refl)

  place-Goes :
      (s : Sorting mw) (o : Option (Bundle mw)) (w : mw.World)
      → (t : Sorting mw) × (place mw (some hs) (ok tt) s (ok o, w) ≡ (ok tt, t))
  unfolding place find_group
  place-Goes s none w = (_, refl)
  place-Goes s (some b) w = file-Goes b (lookup (get_raw_handle mw b) hs) (record s { world = w })

  -- The take returns, with a bundle or without.
  abbrev TakeReturns : Take mw → Type 0
  TakeReturns take = (p : ℕ) (w : mw.World) → (o : Option (Bundle mw)) × ((take p w).0 ≡ ok o)

  subscription-Goes : (take : Take mw) → TakeReturns take → (e : Entity) → Goes (ok tt) take e
  subscription-Goes take q e w s =
      let (o, h) = q e.ptr w in
      let (t, k) = place-Goes s o (take e.ptr w).1 in
      (t, ap (λ r. place mw (some hs) (ok tt) s (r, (take e.ptr w).1)) h ∙ k)

  timer-Goes :
      (missing : Outcome (Unit {0})) (e : Entity)
      → TakesReturn mw
      → is_some (lookup e.ptr hs) ≡ true
      → Goes missing (take_timer mw) e
  unfolding place file_bundle find_group take_timer get_raw_handle
  timer-Goes missing e q h w s =
      let (b, called) = q.of_timer e.ptr w in
      rw called (elim (Bool-cases b) [
        | inr silent ↦ rw silent (_, refl)
        | inl due ↦ elim (Option-cases (lookup e.ptr hs)) [
          | inl none_here ↦ absurd (false-ne-true (sym (ap is_some none_here) ∙ h))
          | inr (t, found) ↦ rw (due, found) (_, refl)
        ]
      ])

  subscriptions-Goes :
      (take : Take mw) → TakeReturns take → (es : List Entity) → All (Goes (ok tt) take) es
  subscriptions-Goes take q [] = tt
  subscriptions-Goes take q (e ∷ es) = (subscription-Goes take q e, subscriptions-Goes take q es)

  timers-Goes :
      (missing : Outcome (Unit {0})) (es : List Entity)
      → TakesReturn mw
      → All (λ (e : Entity). is_some (lookup e.ptr hs) ≡ true) es
      → All (Goes missing (take_timer mw)) es
  timers-Goes missing [] q h = tt
  timers-Goes missing (e ∷ es) q (h, rest) =
      (timer-Goes missing e q h, timers-Goes missing es q rest)

  place_all-Goes :
      (missing : Outcome (Unit {0})) (take : Take mw) (es : List Entity) (s : Sorting mw)
      → All (Goes missing take) es
      → (t : Sorting mw) × (place_all mw (some hs) missing take es s ≡ (ok tt, t))
  unfolding place_all
  place_all-Goes missing take [] s h = (s, refl)
  place_all-Goes missing take (e ∷ es) s (h, rest) =
      let (t, p) = h s.world s in
      let (u, q) = place_all-Goes missing take es t rest in
      (u, ap (resume λ _ v. place_all mw (some hs) missing take es v) p ∙ q)

module _ (mw : Middleware) (library : ConcurrentQueue (Option (Bundle mw)))
    (accepts : (xs : List (Option (Bundle mw))) (q : library.Queue)
      → (r : library.Queue) × (library.enqueue_bulk xs q ≡ some r)) where
  -- Every thread group in the timing information has a worker group that can take bundles.
  abbrev pub AllServed : Workers mw library → List (ℕ × ℕ) → Type 0
  AllServed m = All λ (e : ℕ × ℕ). serves mw library accepts (lookup e.1 m) ≡ true

  abbrev weight : Workers mw library → List (ℕ × Bundle mw) → ℕ
  weight m = weigh mw (unserved mw library accepts m)

  -- The routine returns, keeps the timing information and the map of the callback groups, and each
  -- worker group that could take bundles still can.
  abbrev pub ReturnsFrom :
      Dispatching mw library → Outcome (Unit {0}) × Dispatching mw library → Type 0
  ReturnsFrom x r =
      (y : Dispatching mw library) × (r ≡ (ok tt, y))
      × (y.callback_handle_to_threadgroup_id ≡ x.callback_handle_to_threadgroup_id)
      × (y.weak_groups_to_nodes ≡ x.weak_groups_to_nodes)
      × KeepsServing mw library accepts x.thread_group_id_worker_map y.thread_group_id_worker_map

  lookup-served :
      (m : Workers mw library) (hs : List (ℕ × ℕ)) (b : Bundle mw) (h : ℕ)
      → AllServed m hs
      → weight m (with_group mw b (lookup h hs)) ≡ 0
  lookup-served m [] b h a = refl
  lookup-served m ((k, t) ∷ hs) b h (a, rest) = elim (Bool-cases (k == h)) [
    | inl same ↦ rw (same, a) (omega arith)
    | inr other ↦ rw other (lookup-served m hs b h rest)
  ]

  filed-served :
      (m : Workers mw library) (hs : List (ℕ × ℕ)) (o : Outcome (Option (Bundle mw)))
      → AllServed m hs
      → weight m (filed mw hs o) ≡ 0
  filed-served m hs (err x) a = refl
  filed-served m hs (ok none) a = refl
  filed-served m hs (ok (some b)) a = lookup-served m hs b (get_raw_handle mw b) a

  taken-served :
      (m : Workers mw library) (hs : List (ℕ × ℕ)) (take : Take mw) (es : List Entity)
      (w : mw.World)
      → AllServed m hs
      → weight m (taken mw hs take es w).0 ≡ 0
  taken-served m hs take [] w a = refl
  taken-served m hs take (e ∷ es) w a =
      let (o, v) = take e.ptr w in
      omega (
        arith,
        weigh-append mw (unserved mw library accepts m) (filed mw hs o) (taken mw hs take es v).0,
        filed-served m hs o a,
        taken-served m hs take es v a,
      )

  hand_over-Returns :
      (it : Iteration) (x : Dispatching mw library) (u : Unit {0}) (t : Sorting mw)
      → total mw (unserved mw library accepts x.thread_group_id_worker_map) t.bundles_by_tgid ≡ 0
      → ReturnsFrom x (hand_over mw library it x (ok u, t))
  unfolding hand_over
  hand_over-Returns it x u t z =
      let m = x.thread_group_id_worker_map in
      let es = it.order _ t.bundles_by_tgid in
      let (n, e, k) = dispatch_all-Returns mw library accepts es m (
        total-Perm mw (unserved mw library accepts m) es t.bundles_by_tgid
          (it.order-perm _ t.bundles_by_tgid)
        ∙ z) in
      (_, ap (dispatched mw library x t.world) e, refl, refl, k)

  populate_from-Returns :
      (it : Iteration) (x : Dispatching mw library) (hs : List (ℕ × ℕ)) (ready : Ready)
      → TakesReturn mw
      → x.callback_handle_to_threadgroup_id ≡ some hs
      → AllServed x.thread_group_id_worker_map hs
      → All (λ (e : Entity). is_some (lookup e.ptr hs) ≡ true) ready.timers
      → ReturnsFrom x (populate_from mw library it ready x)
  unfolding populate_from Adds
  populate_from-Returns it x hs ready returns h a known =
      let m = x.thread_group_id_worker_map in
      let f = unserved mw library accepts m in
      let o : Sorting mw = record { world = x.world; bundles_by_tgid = [] } in
      let (u, p) =
        place_all-Goes mw hs (ok tt) (λ p w. take_and_bundle mw (x.loaned p) p w)
          ready.subscriptions o
          (subscriptions-Goes mw hs _ (λ p. take_and_bundle-Returns mw returns (x.loaned p) p)
            ready.subscriptions) in
      let (v, q) =
        place_all-Goes mw hs (err timer_handle_not_found) (take_timer mw) ready.timers u
          (timers-Goes mw hs (err timer_handle_not_found) ready.timers returns known) in
      let take = λ (p : ℕ) (w : mw.World). take_and_bundle mw (x.loaned p) p w in
      let late : Outcome (Unit {0}) = err timer_handle_not_found in
      let loops = λ (hm : Handles).
        resume (λ _. place_all mw hm late (take_timer mw) ready.timers)
          (place_all mw hm (ok tt) take ready.subscriptions o) in
      let path : loops x.callback_handle_to_threadgroup_id ≡ (ok tt, v) =
        ap loops h
        ∙ ap (resume λ _. place_all mw (some hs) late (take_timer mw) ready.timers) p
        ∙ q in
      let subs = made_subscriptions mw library x hs ready in
      let timers = made_timers mw library x hs ready in
      let added =
        subst (Adds mw f (subs.0 ++ timers.0) timers.1 o) path
          (placed-Adds mw library it 0 x hs ready f h) in
      let z : total mw f v.bundles_by_tgid ≡ 0 = omega (
        arith,
        added.0,
        weigh-append mw f subs.0 timers.0,
        taken-served m hs take ready.subscriptions x.world a,
        taken-served m hs (take_timer mw) ready.timers subs.1 a,
      ) in
      let x' = record x { rt_memory_strategy = some ready.strategy } in
      let (y, e, same_handles, same_groups, serving) = hand_over-Returns it x' tt v z in
      (y, ap (hand_over mw library it x') path ∙ e, same_handles, same_groups, serving)

  by_map :
      (it : Iteration) (x : Dispatching mw library) (st : Strategy) (m : Workers mw library)
      → ReturnsFrom x (populate_from mw library it (take_ready_handles x.weak_groups_to_nodes st) x)
      → ReturnsFrom x (populate_with mw library it (some st) m x)
  unfolding populate_with
  by_map it x st [] r = (x, refl, refl, refl, λ t k. k)
  by_map it x st (w ∷ ws) r = r

  -- `populate_ready_queues` returns, with the strategy and the timing information at hand, if no take
  -- throws anything but an RCLError, no call of a timer throws, the queue always has memory, every
  -- thread group in the timing information has a worker group, a mutex group has one thread, every
  -- ready timer is in the timing information, and no thread of a worker group makes a step in
  -- between. The timing information and the map of the callback groups are then as before, and a
  -- worker group that could take bundles still can.
  pub populate_returns :
      (it : Iteration) (x : Dispatching mw library) (st : Strategy) (hs : List (ℕ × ℕ))
      → x.rt_memory_strategy ≡ some st
      → TakesReturn mw
      → x.callback_handle_to_threadgroup_id ≡ some hs
      → AllServed x.thread_group_id_worker_map hs
      → All
          (λ (e : Entity). is_some (lookup e.ptr hs) ≡ true)
          (take_ready_handles x.weak_groups_to_nodes st).timers
      → ReturnsFrom x (populate_ready_queues mw library it x)
  unfolding populate_ready_queues
  populate_returns it x st hs h returns g a known =
      let (y, e, same_handles, same_groups, serving) = by_map it x st x.thread_group_id_worker_map (
        populate_from-Returns it x hs (take_ready_handles x.weak_groups_to_nodes st) returns g a
          known) in
      (
        y,
        ap (λ o. populate_with mw library it o x.thread_group_id_worker_map x) h ∙ e,
        same_handles,
        same_groups,
        serving,
      )
