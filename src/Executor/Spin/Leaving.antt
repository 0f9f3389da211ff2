-- ===== src/Executor/Spin/Leaving.antt =====
-- src/preemptive_executor.cpp: what `spin` leaves when it ends.
use preemptive_executor.Common.{
  ℕ, ◌≡◌, refl, sym, Bool, true, false, Option, List, [], ◌∷◌, All, map, Outcome, err,
  already_spinning, ◌⊎◌, inl, inr,
}
use preemptive_executor.Common.Action.{Action}
use preemptive_executor.Common.Iteration.{Iteration}
use preemptive_executor.Ros.{Group, Entry}
use preemptive_executor.Bundles.{Middleware, Bundle}
use preemptive_executor.Workers.{ConcurrentQueue}
use preemptive_executor.Workers.Trace.{System, step, stop}
use preemptive_executor.Executor.Populate.{Workers}
use preemptive_executor.Executor.Spin.{PreemptiveExecutor, has_ended, scope_exit, spin_if, spin}

module _ (mw : Middleware) (library : ConcurrentQueue (Option (Bundle mw))) (it : Iteration)
    (order : List (ℕ × Entry) → List (ℕ × Entry))
    (add : Group → ℕ → List Entry → Outcome (List Entry)) (fuel : ℕ) where
  -- The threads of the worker groups leave their loops when they look next.
  abbrev pub AllStopped : Workers mw library → Type 0
  AllStopped = All λ (e : ℕ × System library). e.1.group.running ≡ false

  stopped-map :
      (m : Workers mw library)
      → AllStopped (map (λ (e : ℕ × System library). (e.0, step library e.1 stop)) m)
  unfolding step
  stopped-map [] = tt
  stopped-map (e ∷ m) = (refl, stopped-map m)

  abbrev Leaves :
      PreemptiveExecutor mw library → Outcome (Unit {0}) × PreemptiveExecutor mw library → Type 0
  Leaves x r =
      (r.1.spinning ≡ x.spinning)
      × ((r ≡ (err already_spinning, x)) ⊎ AllStopped r.1.thread_group_id_worker_map)

  spin_if-Leaves :
      (b : Bool) (ts : List (Action (PreemptiveExecutor mw library) (Unit {0})))
      (x : PreemptiveExecutor mw library)
      → x.spinning ≡ b
      → has_ended (spin_if mw library it order add fuel b ts x).0 ≡ true
      → Leaves x (spin_if mw library it order add fuel b ts x)
  unfolding spin_if scope_exit
  spin_if-Leaves true ts x e h = (refl, inl refl)
  spin_if-Leaves false ts x e h = rw h (sym e, inr (stopped-map _))

  -- A `spin` that ends, by a return or by any throw, leaves `spinning` as it was before; and either it
  -- has thrown because the executor was spinning already, and has changed nothing, or the threads of
  -- all worker groups are told to stop.
  pub spin_leaves :
      (ts : List (Action (PreemptiveExecutor mw library) (Unit {0})))
      (x : PreemptiveExecutor mw library)
      → has_ended (spin mw library it order add fuel ts x).0 ≡ true
      → ((spin mw library it order add fuel ts x).1.spinning ≡ x.spinning)
        × ((spin mw library it order add fuel ts x ≡ (err already_spinning, x))
            ⊎ AllStopped (spin mw library it order add fuel ts x).1.thread_group_id_worker_map)
  unfolding spin
  spin_leaves ts x h = spin_if-Leaves x.spinning ts x refl h
