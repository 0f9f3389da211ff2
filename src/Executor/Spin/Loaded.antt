-- ===== src/Executor/Spin/Loaded.antt =====
-- src/preemptive_executor.cpp: what `load_timing_info` leaves when it returns.
use preemptive_executor.Common.{
  ℕ, ◌≡◌, refl, sym, ap, ◌∙◌, Option, none, some, List, nat_eq, Outcome, ok, err, err-ne-ok, map,
}
use preemptive_executor.Common.Action.{Action, resume}
use preemptive_executor.Common.Iteration.{Iteration}
use preemptive_executor.Ros.{Group, Entry}
use preemptive_executor.Registry.{Registry}
use preemptive_executor.Registry.Build.{get_instance}
use preemptive_executor.Registry.Export.{TimingExport, cleared, callback_threadgroup_allocation}
use preemptive_executor.Registry.Export.Exported.{Covered, allocation_covers}
use preemptive_executor.Bundles.{Middleware, Bundle}
use preemptive_executor.Workers.{ConcurrentQueue}
use preemptive_executor.Executor.Spin.{
  PreemptiveExecutor, with_timing, take_export, allocate, load_timing_info,
}

-- What follows a routine that has ended with `ok`.
pub resumed-ok {ℓ} :
    {S : Type ℓ} (k : Action S (Unit {0})) (r : Outcome (Unit {0}) × S) (z : S)
    → resume (λ _. k) r ≡ (ok tt, z)
    → (y : S) × (r ≡ (ok tt, y)) × (k y ≡ (ok tt, z))
resumed-ok k (err v, y) z h = absurd (err-ne-ok (ap (λ p. p.0) h))
resumed-ok k (ok u, y) z h = (y, refl, h)

module _ (mw : Middleware) (library : ConcurrentQueue (Option (Bundle mw))) (it : Iteration)
    (order : List (ℕ × Entry) → List (ℕ × Entry))
    (add : Group → ℕ → List Entry → Outcome (List Entry)) (fuel : ℕ) where
  abbrev pub X : Type 0
  X = PreemptiveExecutor mw library

  unfoldable pub Loaded : X → X → Type 0
  Loaded x y =
      (e : TimingExport) × (y ≡ with_timing mw library e (record x { registry = some cleared }))
      × Covered e

  taken-Loaded :
      (x y : X) (o : Outcome TimingExport) (s : Registry)
      → take_export mw library o (record x { registry = some s }) ≡ (ok tt, y)
      → ((e : TimingExport) → o ≡ ok e → Covered e × (s ≡ cleared))
      → Loaded x y
  unfolding take_export Loaded
  taken-Loaded x y (err v) s h k = absurd (err-ne-ok (ap (λ p. p.0) h))
  taken-Loaded x y (ok e) s h k =
      let (c, same) = k e refl in
      (
        e,
        sym (ap (λ p. p.1) h)
            ∙ ap (λ r. with_timing mw library e (record x { registry = some r })) same,
        c,
      )

  allocated-Loaded :
      (x y : X) (o : Outcome Registry)
      → get_instance none x.names (map (λ e. e.1) (order x.members.pending)) x.user_chains ≡ o
      → allocate mw library it order add fuel o x ≡ (ok tt, y)
      → Loaded x y
  unfolding allocate get_instance
  allocated-Loaded x y (err v) built h = absurd (err-ne-ok (ap (λ p. p.0) h))
  allocated-Loaded x y (ok r) built h =
      taken-Loaded x y (callback_threadgroup_allocation it fuel r).0
        (callback_threadgroup_allocation it fuel r).1 h
        λ e q.
          let c =
            allocation_covers it fuel x.names (map (λ e. e.1) (order x.members.pending))
              x.user_chains r (callback_threadgroup_allocation it fuel r).1 e built
              (ap (λ o. (o, (callback_threadgroup_allocation it fuel r).1)) q) in
          (c.0, c.2)

  pub load-Loaded :
      (x y : X)
      → x.registry ≡ none
      → load_timing_info mw library it order add fuel x ≡ (ok tt, y)
      → Loaded x y
  unfolding load_timing_info
  load-Loaded x y fresh h =
      allocated-Loaded x y
        (get_instance none x.names (map (λ e. e.1) (order x.members.pending)) x.user_chains) refl
        (sym (
            ap
              (λ r.
                allocate mw library it order add fuel
                  (get_instance r x.names (map (λ e. e.1) (order x.members.pending)) x.user_chains)
                  x)
              fresh)
          ∙ h)
