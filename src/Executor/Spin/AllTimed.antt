-- ===== src/Executor/Spin/AllTimed.antt =====
-- src/preemptive_executor.cpp: a spin of a program all of whose callback groups are real-time ones.
use preemptive_executor.Common.{
  ℕ, ◌≡◌, ◌≢◌, refl, sym, ap, ◌∙◌, Bool, true, false, not, Option, none, some, List, [], ◌∷◌, All,
  keep, nat_eq, Outcome, Error, ok, err, null_dereference, arith,
}
use preemptive_executor.Common.Action.{Action, resume}
use preemptive_executor.Common.Iteration.{Iteration}
use preemptive_executor.Ros.{Group, Entry}
use preemptive_executor.Registry.Export.{ThreadGroupAttributes}
use preemptive_executor.Bundles.{Middleware, Bundle}
use preemptive_executor.Workers.{ConcurrentQueue}
use preemptive_executor.Executor.{classify_callback_groups}
use preemptive_executor.Executor.Classes.{any_timed, locked, classify_callback_groups_lem}
use preemptive_executor.Executor.Spawn.{Spawning, spawn_worker_groups}
use preemptive_executor.Executor.Spin.{
  PreemptiveExecutor, spawning_of, load_timing_info, classify, spawn_from, prepare, turns,
  scope_exit, spin_if, spin,
}
use preemptive_executor.Executor.Spin.Loaded.{Loaded, load-Loaded, resumed-ok}

keep-timed :
    (handles : List (ℕ × ℕ)) (gs : List (Group × ℕ))
    → All (λ (e : Group × ℕ). any_timed handles e.0 ≡ true) gs
    → keep (λ e. not (any_timed handles e.0)) gs ≡ []
keep-timed handles [] h = refl
keep-timed handles ((g, n) ∷ gs) (h, hs) = rw h (keep-timed handles gs hs)

never_ok {ℓ} :
    {S : Type ℓ} (v : Error) (out : Outcome (Unit {0}) × S)
    → (resume {A = Unit {0}} {B = Unit {0}} (λ _ y. (err v, y)) out).0 ≢ ok tt
never_ok v (ok u, y) = λ e. cc
never_ok v (err w, y) = λ e. cc

stays_failed {ℓ} :
    {S : Type ℓ} (out : Outcome (Unit {0}) × S) (k : Action S (Unit {0}))
    → out.0 ≢ ok tt
    → (resume (λ _. k) out).0 ≢ ok tt
stays_failed (ok u, y) k h = absurd (h refl)
stays_failed (err w, y) k h = λ e. cc

module _ (mw : Middleware) (library : ConcurrentQueue (Option (Bundle mw))) (it : Iteration)
    (order : List (ℕ × Entry) → List (ℕ × Entry))
    (add : Group → ℕ → List Entry → Outcome (List Entry)) (fuel : ℕ) where
  abbrev X : Type 0
  X = PreemptiveExecutor mw library

  empty_not_spawned :
      (ts : List (ℕ × ThreadGroupAttributes)) (s : Spawning library)
      → s.non_rt_callback_groups ≡ []
      → (spawn_worker_groups library mw.add_callback_group ts s).0 ≢ ok tt
  unfolding spawn_worker_groups
  empty_not_spawned ts s h = λ e. ground (arith, h, e)

  spawn_from-empty :
      (o : Option (List (ℕ × ThreadGroupAttributes))) (x : X)
      → x.members.non_rt_callback_groups ≡ []
      → (spawn_from mw library it order add fuel o x).0 ≢ ok tt
  unfolding spawn_from
  spawn_from-empty none x h = never_ok null_dereference _
  spawn_from-empty (some ts) x h =
      empty_not_spawned (it.order (ℕ × ThreadGroupAttributes) ts) (spawning_of mw library x) h

  classified-empty :
      (u v : X) (handles : List (ℕ × ℕ))
      → u.members.callback_handle_to_threadgroup_id ≡ some handles
      → u.members.non_rt_callback_groups ≡ []
      → All (λ (e : Group × ℕ). any_timed handles e.0 ≡ true) (locked (order u.members.pending))
      → classify mw library it order add fuel u ≡ (ok tt, v)
      → v.members.non_rt_callback_groups ≡ []
  classified-empty u v handles h e timed c =
      let r = classify_callback_groups add order u.members in
      let d =
        (classify_callback_groups_lem add order handles u.members r.1 h
          (ap (λ o. (o, r.1)) (ap (λ p. p.0) c))).0 in
      sym (ap (λ p. p.1.members.non_rt_callback_groups) c)
      ∙ d.1
      ∙ rw (e, keep-timed handles (locked (order u.members.pending)) timed) refl

  prepare-fails :
      (x u : X) (handles : List (ℕ × ℕ))
      → x.registry ≡ none
      → x.members.non_rt_callback_groups ≡ []
      → load_timing_info mw library it order add fuel x ≡ (ok tt, u)
      → u.members.callback_handle_to_threadgroup_id ≡ some handles
      → All (λ (e : Group × ℕ). any_timed handles e.0 ≡ true) (locked (order x.members.pending))
      → (prepare mw library it order add fuel x).0 ≢ ok tt
  unfolding prepare Loaded
  prepare-fails x u handles fresh empty load h timed e =
      let p = prepare mw library it order add fuel x in
      let (w, a, rest) =
        resumed-ok _ (load_timing_info mw library it order add fuel x) p.1 (ap (λ o. (o, p.1)) e) in
      let (v, c, g) = resumed-ok _ (classify mw library it order add fuel w) p.1 rest in
      let same : w ≡ u = ap (λ q. q.1) (sym a ∙ load) in
      let loaded = (load-Loaded mw library it order add fuel x w fresh a).1 in
      let none_other =
        classified-empty w v handles
          (ap (λ z. z.members.callback_handle_to_threadgroup_id) same ∙ h)
          (ap (λ z. z.members.non_rt_callback_groups) loaded ∙ empty)
          (rw (ap (λ z. z.members.pending) loaded) timed) c in
      spawn_from-empty v.thread_groups v none_other (ap (λ q. q.0) g)

  spin_if-fails :
      (b : Bool) (ts : List (Action X (Unit {0}))) (x : X)
      → (prepare mw library it order add fuel (record x { spinning = true })).0 ≢ ok tt
      → (spin_if mw library it order add fuel b ts x).0 ≢ ok tt
  unfolding spin_if scope_exit
  spin_if-fails true ts x h = λ e. cc
  spin_if-fails false ts x h =
      stays_failed (prepare mw library it order add fuel (record x { spinning = true }))
        (λ y. turns mw library it order add fuel ts y) h

  -- A program that has only real-time callback groups cannot spin: in a process whose registry is not
  -- made yet, if the timing information loads, each callback group of the executor's nodes has a
  -- callback in it, and no other callback group is noted yet, `spin` does not return.
  pub all_timed_fails :
      (ts : List (Action X (Unit {0}))) (x u : X) (handles : List (ℕ × ℕ))
      → x.registry ≡ none
      → x.members.non_rt_callback_groups ≡ []
      → load_timing_info mw library it order add fuel (record x { spinning = true }) ≡ (ok tt, u)
      → u.members.callback_handle_to_threadgroup_id ≡ some handles
      → All (λ (e : Group × ℕ). any_timed handles e.0 ≡ true) (locked (order x.members.pending))
      → (spin mw library it order add fuel ts x).0 ≢ ok tt
  unfolding spin
  all_timed_fails ts x u handles fresh empty load h timed =
      spin_if-fails x.spinning ts x
        (prepare-fails (record x { spinning = true }) u handles fresh empty load h timed)
