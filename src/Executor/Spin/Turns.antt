-- ===== src/Executor/Spin/Turns.antt =====
-- src/preemptive_executor.cpp: the loop of `spin`, after what stands before it has returned.
use preemptive_executor.Common.{
  ℕ, ◌≡◌, refl, sym, ap, ◌∙◌, subst, Bool, true, false, Option, none, some, List, [], ◌∷◌, All,
  All-map_pred, lookup, nat_eq, Outcome, Error, ok, err, unfinished, ◌&&◌, Bool-cases, ◌⊎◌, inl,
  inr,
}
use preemptive_executor.Common.Action.{Action, resume}
use preemptive_executor.Common.Iteration.{Iteration}
use preemptive_executor.Ros.{Group, Entry}
use preemptive_executor.Strategy.{Strategy}
use preemptive_executor.Bundles.{Middleware, Bundle, TakesReturn}
use preemptive_executor.Workers.{ConcurrentQueue}
use preemptive_executor.Executor.Populate.{populate_ready_queues, populate_with}
use preemptive_executor.Executor.Populate.Served.{serves}
use preemptive_executor.Executor.Populate.Returns.{ReturnsFrom, populate_returns}
use preemptive_executor.Executor.Spin.{
  PreemptiveExecutor, dispatching_of, put_dispatching, populate, spin_if, turns, prepare,
  scope_exit, spin,
}
use preemptive_executor.Executor.Spin.Known.{AddsEntry, ready_timers_known}
use preemptive_executor.Executor.Spin.Prepared.{Fit, prepared-Fit}

module _ (mw : Middleware) (library : ConcurrentQueue (Option (Bundle mw)))
    (accepts : (xs : List (Option (Bundle mw))) (q : library.Queue)
      → (r : library.Queue) × (library.enqueue_bulk xs q ≡ some r))
    (takes : TakesReturn mw) (it : Iteration) (order : List (ℕ × Entry) → List (ℕ × Entry))
    (add : Group → ℕ → List Entry → Outcome (List Entry)) (fuel : ℕ) where
  abbrev pub Fits : PreemptiveExecutor mw library → Type 0
  Fits = Fit mw library accepts

  dispatched-returns :
      (x : PreemptiveExecutor mw library) (o : Option Strategy)
      → x.rt_memory_strategy ≡ o
      → Fits x
      → ReturnsFrom mw library accepts
          (dispatching_of mw library x)
          (populate_ready_queues mw library it (dispatching_of mw library x))
  unfolding populate_ready_queues
  dispatched-returns x none e f =
      let d = dispatching_of mw library x in
      (
        d,
        ap (λ o. populate_with mw library it o x.thread_group_id_worker_map d) e,
        refl,
        refl,
        λ t k. k,
      )
  dispatched-returns x (some st) e f =
      populate_returns mw library accepts it (dispatching_of mw library x) st f.handles e takes
        f.loaded f.served (ready_timers_known f.handles x.members.weak_groups_to_nodes st f.known)

  populate-Fits :
      (x : PreemptiveExecutor mw library)
      → Fits x
      → (y : PreemptiveExecutor mw library) × (populate mw library it order add fuel x ≡ (ok tt, y))
        × Fits y
  populate-Fits x f =
      let (d, e, same_handles, same_groups, serving) =
        dispatched-returns x x.rt_memory_strategy refl f in
      (
        put_dispatching mw library d x,
        ap (λ r. (r.0, put_dispatching mw library r.1 x)) e,
        record {
          handles = f.handles;
          loaded = same_handles ∙ f.loaded;
          served =
              All-map_pred
                (λ (h : ℕ × ℕ).
                  serves mw library accepts (lookup h.1 x.thread_group_id_worker_map) ≡ true)
                (λ (h : ℕ × ℕ).
                  serves mw library accepts (lookup h.1 d.thread_group_id_worker_map) ≡ true)
                f.handles (λ h k. serving h.1 k) f.served;
          known = rw same_groups f.known;
        },
      )

  -- A wait that returns, and what the other threads do meanwhile, does not disturb what the loop
  -- needs.
  abbrev pub KeepsFit : Action (PreemptiveExecutor mw library) (Unit {0}) → Type 0
  KeepsFit turn = (x y : PreemptiveExecutor mw library) → Fits x → turn x ≡ (ok tt, y) → Fits y

  -- The outcome is what the wait throws in some state, or what one of the waits does.
  abbrev pub IsThrownBy :
      Action (PreemptiveExecutor mw library) (Unit {0}) → Outcome (Unit {0}) → Type 0
  IsThrownBy turn o =
      (x y : PreemptiveExecutor mw library) × (v : Error) × (turn x ≡ (err v, y)) × (o ≡ err v)

  abbrev pub ComesFrom :
      List (Action (PreemptiveExecutor mw library) (Unit {0})) → Outcome (Unit {0}) → Type 0
  ComesFrom [] o = ⊥
  ComesFrom (t ∷ ts) o = IsThrownBy t o ⊎ ComesFrom ts o

  abbrev pub ReturnsOrGoesOn :
      List (Action (PreemptiveExecutor mw library) (Unit {0})) → Outcome (Unit {0}) → Type 0
  ReturnsOrGoesOn ts o = (o ≡ ok tt) ⊎ ((o ≡ err unfinished) ⊎ ComesFrom ts o)

  one_more :
      (t : Action (PreemptiveExecutor mw library) (Unit {0}))
      (ts : List (Action (PreemptiveExecutor mw library) (Unit {0}))) (o : Outcome (Unit {0}))
      → ReturnsOrGoesOn ts o
      → ReturnsOrGoesOn (t ∷ ts) o
  one_more t ts o (inl r) = inl r
  one_more t ts o (inr (inl u)) = inr (inl u)
  one_more t ts o (inr (inr c)) = inr (inr (inr c))

  -- The rest of a turn, when the wait has ended.
  waited :
      (t : Action (PreemptiveExecutor mw library) (Unit {0}))
      (ts : List (Action (PreemptiveExecutor mw library) (Unit {0})))
      (x : PreemptiveExecutor mw library) (r : Outcome (Unit {0}) × PreemptiveExecutor mw library)
      → Fits x
      → t x ≡ r
      → KeepsFit t
      → ((y : PreemptiveExecutor mw library)
          → Fits y
          → ReturnsOrGoesOn ts (turns mw library it order add fuel ts y).0)
      → ReturnsOrGoesOn
          (t ∷ ts)
          (resume
            (λ _ z. turns mw library it order add fuel ts z)
            (resume (λ _ z. populate mw library it order add fuel z) r)).0
  waited t ts x (err v, y) f e k rest = inr (inr (inl (x, y, v, e, refl)))
  waited t ts x (ok u, y) f e k rest =
      let (z, p, g) = populate-Fits y (k x y f e) in
      rw p (one_more t ts (turns mw library it order add fuel ts z).0 (rest z g))

  turns-Return :
      (ts : List (Action (PreemptiveExecutor mw library) (Unit {0})))
      (x : PreemptiveExecutor mw library)
      → Fits x
      → All KeepsFit ts
      → ReturnsOrGoesOn ts (turns mw library it order add fuel ts x).0
  unfolding turns
  turns-Return [] x f k = elim (Bool-cases (x.context_ok && x.spinning)) [
    | inl go ↦ rw go (inr (inl refl))
    | inr stop ↦ rw stop (inl refl)
  ]
  turns-Return (t ∷ ts) x f (k, ks) = elim (Bool-cases (x.context_ok && x.spinning)) [
    | inl go ↦ rw go (waited t ts x (t x) f refl k λ y g. turns-Return ts y g ks)
    | inr stop ↦ rw stop (inl refl)
  ]

  spin_if-Return :
      (b : Bool) (ts : List (Action (PreemptiveExecutor mw library) (Unit {0})))
      (x y : PreemptiveExecutor mw library)
      → b ≡ false
      → prepare mw library it order add fuel (record x { spinning = true }) ≡ (ok tt, y)
      → Fits y
      → All KeepsFit ts
      → ReturnsOrGoesOn ts (spin_if mw library it order add fuel b ts x).0
  unfolding spin_if scope_exit
  spin_if-Return true ts x y b e f k = cc
  spin_if-Return false ts x y b e f k =
      subst (λ r. ReturnsOrGoesOn ts (resume (λ _ z. turns mw library it order add fuel ts z) r).0)
        (sym e) (turns-Return ts y f k)

  -- Once `load_timing_info`, `classify_callback_groups` and `spawn_worker_groups` have returned in a
  -- new executor, one without real-time groups and worker groups in a process whose registry is not
  -- made yet, `spin` throws nothing of its own: over any number of turns it returns, is still
  -- spinning, or throws what one of the calls of `wait_for_work` throws. This holds if no call of a
  -- timer throws and no take but with an RCLError, the queues always have memory, rclcpp's
  -- `add_callback_group_to_map` adds nothing but the entry, and what the other threads and
  -- a `wait_for_work` that returns do leaves the timing information, real-time groups of callbacks in
  -- it, and worker groups that can take bundles.
  pub spin_throws_nothing :
      AddsEntry add
      → (ts : List (Action (PreemptiveExecutor mw library) (Unit {0})))
        (x y : PreemptiveExecutor mw library)
      → x.spinning ≡ false
      → x.registry ≡ none
      → x.members.weak_groups_to_nodes ≡ []
      → x.thread_group_id_worker_map ≡ []
      → prepare mw library it order add fuel (record x { spinning = true }) ≡ (ok tt, y)
      → All KeepsFit ts
      → ReturnsOrGoesOn ts (spin mw library it order add fuel ts x).0
  unfolding spin
  spin_throws_nothing adds ts x y idle fresh no_groups no_workers e k =
      spin_if-Return x.spinning ts x y idle e
        (prepared-Fit mw library accepts it order add adds fuel (record x { spinning = true }) y
          fresh no_groups no_workers e).0
        k
