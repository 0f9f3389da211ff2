-- ===== src/Executor/Spin/Prepared.antt =====
-- src/preemptive_executor.cpp: what `spin` has set up when its loop begins.
use preemptive_executor.Common.{
  ℕ, ◌≡◌, refl, sym, ap, ◌∙◌, true, Option, none, some, List, [], ◌∷◌, All, All-map_pred, lookup,
  ◌==◌, nat_eq, Outcome, ok, err, not, ◌&&◌, err-ne-ok, Bool-cases, inl, inr, length,
}
use preemptive_executor.Common.Iteration.{Iteration, any-order}
use preemptive_executor.Ros.{Group, Entry}
use preemptive_executor.Registry.Export.{ThreadGroupAttributes, cleared}
use preemptive_executor.Registry.Export.Stated.{stated}
use preemptive_executor.Bundles.{Middleware, Bundle}
use preemptive_executor.Workers.{ConcurrentQueue}
use preemptive_executor.Workers.Trace.{make_group}
use preemptive_executor.Executor.{Executor, classify_callback_groups}
use preemptive_executor.Executor.Spawn.{
  Spawning, first_for, make_group_for, spawn_all, spawned_with, spawn_worker_groups,
  lookup-spawn_all,
}
use preemptive_executor.Executor.Populate.Served.{serves}
use preemptive_executor.Executor.Populate.Returns.{AllServed}
use preemptive_executor.Executor.Spin.{
  PreemptiveExecutor, spawning_of, load_timing_info, classify, spawn_from, prepare,
}
use preemptive_executor.Executor.Spin.Loaded.{Loaded, load-Loaded, resumed-ok}
use preemptive_executor.Executor.Spin.Known.{
  KnownEntry, AddsEntry, classified_known, classified_handles,
}

module _ (mw : Middleware) (library : ConcurrentQueue (Option (Bundle mw)))
    (accepts : (xs : List (Option (Bundle mw))) (q : library.Queue)
      → (r : library.Queue) × (library.enqueue_bulk xs q ≡ some r)) where
  first_stated :
      (i : ℕ) (ts : List (ℕ × ThreadGroupAttributes))
      → stated i ts ≡ true
      → (t : ThreadGroupAttributes) × (first_for library i ts ≡ some t)
  first_stated i [] h = cc
  first_stated i ((j, t) ∷ ts) h = elim (Bool-cases (t.tg_id == i)) [
    | inl same ↦ (t, rw same refl)
    | inr other ↦ let (u, q) = first_stated i ts (rw other at h) in (u, rw other q)
  ]

  made-serves :
      (t : ThreadGroupAttributes)
      → serves mw library accepts (some (make_group_for library t)) ≡ true
  unfolding make_group_for make_group
  made-serves t = elim (Bool-cases t.is_mutex_group) [
    | inl mutex ↦ rw mutex refl
    | inr plain ↦ rw plain refl
  ]

  spawned-serves :
      (i : ℕ) (ts : List (ℕ × ThreadGroupAttributes))
      → stated i ts ≡ true
      → serves mw library accepts (lookup i (spawn_all library ts [])) ≡ true
  spawned-serves i ts h =
      let (t, q) = first_stated i ts h in rw (lookup-spawn_all library i ts [], q) (made-serves t)

  -- What the loop of `spin` needs, and what it does not change.
  pub record Fit (x : PreemptiveExecutor mw library) : Type 0 where
    pub handles : List (ℕ × ℕ)
    pub loaded : x.members.callback_handle_to_threadgroup_id ≡ some handles
    pub served : AllServed mw library accepts x.thread_group_id_worker_map handles
    pub known : All (KnownEntry handles) x.members.weak_groups_to_nodes

  spawned_with-map :
      (ts : List (ℕ × ThreadGroupAttributes)) (s t : Spawning library)
      (r : Outcome (Unit {0}) × List (Group × ℕ))
      → spawned_with library ts s r ≡ (ok tt, t)
      → (t.thread_group_id_worker_map ≡ spawn_all library ts s.thread_group_id_worker_map)
        × (t.non_rt_callback_groups_spawned ≡ true)
  unfolding spawned_with
  spawned_with-map ts s t (err x, given) h = absurd (err-ne-ok (ap (λ r. r.0) h))
  spawned_with-map ts s t (ok u, given) h = (
    sym (ap (λ r. r.1.thread_group_id_worker_map) h),
    sym (ap (λ r. r.1.non_rt_callback_groups_spawned) h),
  )

  -- `spawn_worker_groups` that returns has made the worker groups of the thread groups.
  spawned-map :
      (ts : List (ℕ × ThreadGroupAttributes)) (s t : Spawning library)
      → spawn_worker_groups library mw.add_callback_group ts s ≡ (ok tt, t)
      → (t.thread_group_id_worker_map ≡ spawn_all library ts s.thread_group_id_worker_map)
        × (t.non_rt_callback_groups_spawned ≡ true)
  unfolding spawn_worker_groups
  spawned-map ts s t h =
      elim (Bool-cases
        (not s.non_rt_callback_groups_spawned && not (length s.non_rt_callback_groups == 0))) [
          | inl go ↦ spawned_with-map ts s t _ (rw go at h)
          | inr stay ↦ absurd (err-ne-ok (ap (λ r. r.0) (rw stay at h)))
        ]

  module _ (it : Iteration) (order : List (ℕ × Entry) → List (ℕ × Entry))
      (add : Group → ℕ → List Entry → Outcome (List Entry)) (adds : AddsEntry add) (fuel : ℕ) where
    abbrev X : Type 0
    X = PreemptiveExecutor mw library

    classify-members :
        (x y : X)
        → classify mw library it order add fuel x ≡ (ok tt, y)
        → (m : Executor (List Entry)) × (classify_callback_groups add order x.members ≡ (ok tt, m))
          × (y ≡ record x { members = m })
    classify-members x y h =
        let r = classify_callback_groups add order x.members in
        (r.1, ap (λ o. (o, r.1)) (ap (λ p. p.0) h), sym (ap (λ p. p.1) h))

    spawned-Fit :
        (x y : X) (ts : List (ℕ × ThreadGroupAttributes)) (handles : List (ℕ × ℕ))
        → x.members.callback_handle_to_threadgroup_id ≡ some handles
        → x.thread_group_id_worker_map ≡ []
        → All (λ (h : ℕ × ℕ). stated h.1 ts ≡ true) handles
        → All (KnownEntry handles) x.members.weak_groups_to_nodes
        → spawn_from mw library it order add fuel (some ts) x ≡ (ok tt, y)
        → Fit y × (y.registry ≡ x.registry) × (y.non_rt_callback_groups_spawned ≡ true)
    unfolding spawn_from
    spawned-Fit x y ts handles loaded fresh covered known h =
        let groups = it.order (ℕ × ThreadGroupAttributes) ts in
        let s = spawning_of mw library x in
        let t = (spawn_worker_groups library mw.add_callback_group groups s).1 in
        let m = spawned-map groups s t (ap (λ o. (o, t)) (ap (λ p. p.0) h)) in
        let map_same =
          sym (ap (λ p. p.1.thread_group_id_worker_map) h)
          ∙ m.0
          ∙ ap (spawn_all library groups) fresh in
        (
          record {
            handles = handles;
            loaded = sym (ap (λ p. p.1.members.callback_handle_to_threadgroup_id) h) ∙ loaded;
            served = rw map_same (
                All-map_pred (λ (e : ℕ × ℕ). stated e.1 ts ≡ true)
                  (λ (e : ℕ × ℕ).
                    serves mw library accepts (lookup e.1 (spawn_all library groups [])) ≡ true)
                  handles
                  (λ e q.
                    spawned-serves e.1 groups
                      (any-order it (λ (a : ℕ × ThreadGroupAttributes). a.1.tg_id == e.1) ts ∙ q))
                  covered);
            known = rw⁻¹ (ap (λ p. p.1.members.weak_groups_to_nodes) h) known;
          },
          sym (ap (λ p. p.1.registry) h),
          sym (ap (λ p. p.1.non_rt_callback_groups_spawned) h) ∙ m.1,
        )

    -- From a new executor in a process whose registry is not made yet: when `prepare` returns,
    -- the timing information is there, every thread group in it has a worker group that can
    -- take bundles, every callback of a real-time group is in it, the registry is cleared, and the
    -- worker groups count as spawned.
    pub prepared-Fit :
        (x y : X)
        → x.registry ≡ none
        → x.members.weak_groups_to_nodes ≡ []
        → x.thread_group_id_worker_map ≡ []
        → prepare mw library it order add fuel x ≡ (ok tt, y)
        → Fit y × (y.registry ≡ some cleared) × (y.non_rt_callback_groups_spawned ≡ true)
    unfolding prepare Loaded
    prepared-Fit x y fresh no_groups no_workers h =
        let (u, e, rest) = resumed-ok _ (load_timing_info mw library it order add fuel x) y h in
        let (v, f, g) = resumed-ok _ (classify mw library it order add fuel u) y rest in
        let (export, loaded, covered) = load-Loaded mw library it order add fuel x u fresh e in
        let (m, classified, same) = classify-members u v f in
        let handles = export.callback_handle_to_threadgroup_id in
        let u_handles : u.members.callback_handle_to_threadgroup_id ≡ some handles =
          ap (λ z. z.members.callback_handle_to_threadgroup_id) loaded in
        let u_known : All (KnownEntry handles) u.members.weak_groups_to_nodes =
          rw (ap (λ z. z.members.weak_groups_to_nodes) loaded ∙ no_groups) tt in
        let m_known =
          classified_known add adds handles order u.members m u_handles u_known classified in
        let groups : v.thread_groups ≡ some export.threadgroup_attributes =
          ap (λ z. z.thread_groups) same ∙ ap (λ z. z.thread_groups) loaded in
        let (fit, registry, spawned) =
          spawned-Fit v y export.threadgroup_attributes handles
            (ap (λ z. z.members.callback_handle_to_threadgroup_id) same
              ∙ classified_handles add order u.members m classified
              ∙ u_handles)
            (ap (λ z. z.thread_group_id_worker_map) same
              ∙ ap (λ z. z.thread_group_id_worker_map) loaded
              ∙ no_workers)
            covered (rw (ap (λ z. z.members.weak_groups_to_nodes) same) m_known)
            (sym (ap (λ o. spawn_from mw library it order add fuel o v) groups) ∙ g) in
        (fit, registry ∙ ap (λ z. z.registry) same ∙ ap (λ z. z.registry) loaded, spawned)
