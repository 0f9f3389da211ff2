-- ===== src/Executor/Spin/Again.antt =====
-- src/preemptive_executor.cpp: a spin behind another one. The registry is one for the process and has
-- been cleared, and the executor for the other callback groups is there.
use preemptive_executor.Common.{
  ℕ, ◌≡◌, refl, sym, ap, ◌∙◌, Bool, true, false, Option, none, some, is_some, List, [], ◌∷◌, any,
  lookup, nat_eq, map, Outcome, ok, err, non_rt_already_spawned, err-ne-ok, Bool-cases, inl, inr,
}
use preemptive_executor.Common.Action.{Action, resume}
use preemptive_executor.Common.Iteration.{Iteration}
use preemptive_executor.Ros.{Entity, Group, Entry}
use preemptive_executor.Registry.{Registry}
use preemptive_executor.Registry.Build.{get_instance}
use preemptive_executor.Registry.Export.{ThreadGroupAttributes, TimingExport, cleared}
use preemptive_executor.Registry.Export.Cleared.{nothing_exported, cleared_exports_nothing}
use preemptive_executor.Bundles.{Middleware, Bundle}
use preemptive_executor.Workers.{ConcurrentQueue}
use preemptive_executor.Executor.{
  Executor, classify_group, classify_entry, classify_entries, classify_with,
  classify_callback_groups, flags_of,
}
use preemptive_executor.Executor.Classes.{flags_of-any, callbacks}
use preemptive_executor.Executor.Spawn.{Spawning, spawn_worker_groups}
use preemptive_executor.Executor.Spin.{
  PreemptiveExecutor, spawning_of, put_spawning, with_timing, take_export, load_timing_info,
  allocate, classify, spawn, spawn_from, prepare, turns, has_ended, scope_exit, spin_if, spin,
}
use preemptive_executor.Executor.Spin.Known.{classified_handles}

none_timed : (es : List Entity) → any (λ e. is_some (lookup {V = ℕ} e.ptr [])) es ≡ false
none_timed [] = refl
none_timed (e ∷ es) = none_timed es

no_flag : (g : Group) → (flags_of [] g).has_rt ≡ false
no_flag g = (flags_of-any [] g).0 ∙ none_timed (callbacks g.members)

module _ (add : Group → ℕ → List Entry → Outcome (List Entry)) where
  Returns : Outcome (Unit {0}) × Executor (List Entry) → Type 0
  Returns r = (y : Executor (List Entry)) × (r ≡ (ok tt, y))

  untimed_group :
      (g : Group) (n : ℕ) (x : Executor (List Entry)) → Returns (classify_group add [] g n x)
  unfolding classify_group Returns
  untimed_group g n x = rw (no_flag g) (_, refl)

  untimed_entry :
      (g : Option Group) (n : Option ℕ) (x : Executor (List Entry))
      → Returns (classify_entry add [] g n x)
  unfolding classify_entry Returns
  untimed_entry none n x = (x, refl)
  untimed_entry (some g) none x = (x, refl)
  untimed_entry (some g) (some n) x = untimed_group g n x

  untimed_entries :
      (es : List (ℕ × Entry)) (x : Executor (List Entry)) → Returns (classify_entries add [] es x)
  unfolding classify_entries Returns
  untimed_entries [] x = (x, refl)
  untimed_entries ((i, e) ∷ es) x =
      let (y, p) = untimed_entry e.group e.node x in
      let (z, q) = untimed_entries es y in
      (z, ap (resume λ _ w. classify_entries add [] es w) p ∙ q)

  untimed_classified :
      (order : List (ℕ × Entry) → List (ℕ × Entry)) (x : Executor (List Entry))
      → x.callback_handle_to_threadgroup_id ≡ some []
      → Returns (classify_callback_groups add order x)
  unfolding classify_callback_groups classify_with Returns
  untimed_classified order x h =
      let (y, p) = untimed_entries (order x.pending) x in
      (
        record y { pending = [] },
        ap (λ o. classify_with add order o x) h
            ∙ ap (resume λ _ z. (ok tt, record z { pending = [] })) p,
      )

module _ (mw : Middleware) (library : ConcurrentQueue (Option (Bundle mw))) (it : Iteration)
    (order : List (ℕ × Entry) → List (ℕ × Entry))
    (add : Group → ℕ → List Entry → Outcome (List Entry)) (fuel : ℕ) where
  abbrev X : Type 0
  X = PreemptiveExecutor mw library

  loaded_again :
      (x : X) (o : Option Registry)
      → o ≡ some cleared
      → allocate mw library it order add fuel
          (get_instance o x.names (map (λ e. e.1) (order x.members.pending)) x.user_chains)
          x
        ≡ (ok tt, with_timing mw library nothing_exported (record x { registry = some cleared }))
  unfolding allocate get_instance take_export
  loaded_again x o h =
      ap
        (λ p.
          allocate mw library it order add fuel
            (get_instance p x.names (map (λ e. e.1) (order x.members.pending)) x.user_chains) x)
        h
      ∙ ap
          (λ (r : Outcome TimingExport × Registry).
            take_export mw library r.0 (record x { registry = some r.1 }))
          (cleared_exports_nothing it fuel)

  not_spawned :
      (ts : List (ℕ × ThreadGroupAttributes)) (s : Spawning library)
      → s.non_rt_callback_groups_spawned ≡ true
      → spawn_worker_groups library mw.add_callback_group ts s ≡ (err non_rt_already_spawned, s)
  unfolding spawn_worker_groups
  not_spawned ts s h = rw h refl

  -- What a spin that comes too late leaves.
  abbrev pub Late : Outcome (Unit {0}) × X → Type 0
  Late r =
      (r.0 ≡ err non_rt_already_spawned)
      × (r.1.members.callback_handle_to_threadgroup_id ≡ some [])
      × (r.1.thread_groups ≡ some [])

  prepare-Late :
      (x : X)
      → x.registry ≡ some cleared
      → x.non_rt_callback_groups_spawned ≡ true
      → Late (prepare mw library it order add fuel x)
  unfolding prepare load_timing_info spawn_from Returns
  prepare-Late x h k =
      let u : X = with_timing mw library nothing_exported (record x { registry = some cleared }) in
      let (m, p) = untimed_classified add order u.members refl in
      let v : X = record u { members = m } in
      let q = not_spawned (it.order (ℕ × ThreadGroupAttributes) []) (spawning_of mw library v) k in
      let done =
        (ap
            (resume λ _ y.
              resume (λ _. spawn mw library it order add fuel)
                (classify mw library it order add fuel y))
            (loaded_again x x.registry h)
          ∙ ap
              (λ r.
                resume (λ _. spawn mw library it order add fuel) (r.0, record u { members = r.1 }))
              p
          ∙ ap (λ (r : Outcome (Unit {0}) × Spawning library). (r.0, put_spawning mw library r.1 v))
              q) in
      (
        ap (λ r. r.0) done,
        ap (λ r. r.1.members.callback_handle_to_threadgroup_id) done
            ∙ classified_handles add order u.members m p,
        ap (λ r. r.1.thread_groups) done,
      )

  exit-Late :
      (ts : List (Action X (Unit {0}))) (r : Outcome (Unit {0}) × X)
      → Late r
      → Late (
          scope_exit mw library it order add fuel
            (resume (λ _ y. turns mw library it order add fuel ts y) r))
  unfolding scope_exit
  exit-Late ts (ok u, y) l = absurd (err-ne-ok (sym l.0))
  exit-Late ts (err v, y) l = elim (Bool-cases (has_ended {A = Unit {0}} (err v))) [
    | inl ended ↦ rw ended l
    | inr open_ ↦ rw open_ l
  ]

  spin_if-Late :
      (b : Bool) (ts : List (Action X (Unit {0}))) (x : X)
      → b ≡ false
      → x.registry ≡ some cleared
      → x.non_rt_callback_groups_spawned ≡ true
      → Late (spin_if mw library it order add fuel b ts x)
  unfolding spin_if scope_exit
  spin_if-Late true ts x e h k = cc
  spin_if-Late false ts x e h k = exit-Late ts _ (prepare-Late (record x { spinning = true }) h k)

  -- A second spin throws: an executor that does not spin, in a process whose registry has been
  -- exported, and that has spawned its other executor, loses its timing information when it is spun
  -- again (the handles and the thread groups are then empty maps), and `spin` throws that the
  -- executor for the other callback groups is there already.
  pub respin_throws :
      (ts : List (Action X (Unit {0}))) (x : X)
      → x.spinning ≡ false
      → x.registry ≡ some cleared
      → x.non_rt_callback_groups_spawned ≡ true
      → Late (spin mw library it order add fuel ts x)
  unfolding spin
  respin_throws ts x idle h k = spin_if-Late x.spinning ts x idle h k
