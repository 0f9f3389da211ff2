-- ===== src/Registry/Export/Stages.antt =====
-- src/callback_registry.cpp: the stages of `callback_threadgroup_allocation` behind the traversal write
-- nothing but priorities and numbers of threads.
use preemptive_executor.Common.{
  ℕ, zero, suc, refl, List, [], ◌∷◌, foldl, ◌==◌, nat_eq, lookup, value_or, Outcome, ok, err,
  Bool-cases, inl, inr,
}
use preemptive_executor.Common.Action.{Action, resume}
use preemptive_executor.Common.Iteration.{Iteration}
use preemptive_executor.Registry.{
  ThreadGroupAdjacencyInfo, new_group, Registry, on_group, on_links, indegree_of,
}
use preemptive_executor.Registry.Traverse.Settle.{Quiet, Quiet-refl, Quiet-trans, on_group-Quiet}
use preemptive_executor.Registry.Priorities.{
  Numbering, set_priority, group_ids, number_all, assign_priorities, priority,
}
use preemptive_executor.Registry.Threads.{
  set_threads, add_threads, links_of, store_threads, count_threads, visit_groups, visit_group,
  visit_root_group, visit_root_groups,
}

set_priority-Quiet : (s : Numbering) (i : ℕ) → Quiet s.registry (set_priority s i).registry
unfolding set_priority
set_priority-Quiet s i = elim (Bool-cases (priority i s.registry == 0)) [
  | inl open_ ↦ rw open_ (
      on_group-Quiet i (λ t. record t { fixed_priority = s.counter }) s.registry (λ t. refl)
        (λ t e. e))
  | inr kept ↦ rw kept (on_group-Quiet i (λ t. t) s.registry (λ t. refl) (λ t e. e))
]

number_all-Quiet : (is : List ℕ) (s : Numbering) → Quiet s.registry (number_all is s).registry
number_all-Quiet [] s = Quiet-refl s.registry
number_all-Quiet (i ∷ is) s =
    Quiet-trans s.registry _ _ (set_priority-Quiet s i) (number_all-Quiet is (set_priority s i))

pub assign_priorities-Quiet :
    (deadlines : List (ℕ × List ℕ)) (r : Registry) → Quiet r (assign_priorities deadlines r)
unfolding assign_priorities
assign_priorities-Quiet deadlines r =
    number_all-Quiet (group_ids deadlines) (record { counter = 1; registry = r })

set_threads-Quiet : (i n : ℕ) (r : Registry) → Quiet r (set_threads i n r)
set_threads-Quiet i n r =
    on_group-Quiet i (λ t. record t { num_threads = n }) r (λ t. refl) (λ t e. e)

touch_group-Quiet : (i : ℕ) (r : Registry) → Quiet r (on_group i (λ t. t) r)
touch_group-Quiet i r = on_group-Quiet i (λ t. t) r (λ t. refl) (λ t e. e)

add_threads-Quiet : (i : ℕ) (r : Registry) (prev : ℕ) → Quiet r (add_threads i r prev)
unfolding add_threads
add_threads-Quiet i r prev =
    Quiet-trans r _ _ (touch_group-Quiet prev r) (set_threads-Quiet i _ (on_group prev (λ t. t) r))

add_all-Quiet : (i : ℕ) (ps : List ℕ) (r : Registry) → Quiet r (foldl (add_threads i) r ps)
add_all-Quiet i [] r = Quiet-refl r
add_all-Quiet i (p ∷ ps) r =
    Quiet-trans r _ _ (add_threads-Quiet i r p) (add_all-Quiet i ps (add_threads i r p))

store_threads-Quiet : (i : ℕ) (r : Registry) (o : Outcome ℕ) → Quiet r (store_threads i r o).1
unfolding store_threads
store_threads-Quiet i r (ok n) = set_threads-Quiet i n r
store_threads-Quiet i r (err x) = Quiet-refl r

-- A quiet routine, and another after it.
abbrev IsQuiet : Registry → Outcome (Unit {0}) × Registry → Type 0
IsQuiet r out = Quiet r out.1

resume-Quiet :
    (r : Registry) (out : Outcome (Unit {0}) × Registry) (k : Action Registry (Unit {0}))
    → IsQuiet r out
    → ((s : Registry) → IsQuiet s (k s))
    → IsQuiet r (resume (λ _. k) out)
resume-Quiet r (err x, s) k q h = q
resume-Quiet r (ok u, s) k q h = Quiet-trans r s _ q (h s)

links-Quiet : (i : ℕ) (r : Registry) {s : Registry} → Quiet r s → Quiet r (on_links i (λ a. a) s)
links-Quiet i r q = record {
  callbacks = q.callbacks;
  mutexes = q.mutexes;
  next = q.next;
  flags = q.flags;
  recorded = q.recorded;
}

module _ (it : Iteration) where
  visit_groups-Quiet :
      (rec : ℕ → Action Registry (Unit {0})) (is : List ℕ) (r : Registry)
      → ((i : ℕ) (s : Registry) → IsQuiet s (rec i s))
      → IsQuiet r (visit_groups it rec is r)
  unfolding visit_groups
  visit_groups-Quiet rec [] r h = Quiet-refl r
  visit_groups-Quiet rec (i ∷ is) r h =
      resume-Quiet r (rec i r) (λ s. visit_groups it rec is s) (h i r)
        (λ s. visit_groups-Quiet rec is s h)

  count_threads-Quiet : (i : ℕ) (r : Registry) → IsQuiet r (count_threads it i r)
  unfolding count_threads
  count_threads-Quiet i r =
      let s = set_threads i 0 r in
      let t = on_links i (λ a. a) s in
      let q : Quiet r t = links-Quiet i r (set_threads-Quiet i 0 r) in
      elim (Bool-cases (indegree_of (links_of i t) == 0)) [
        | inl root ↦ rw root (Quiet-trans r t _ q (store_threads-Quiet i t _))
        | inr other ↦
            rw other (Quiet-trans r t _ q (add_all-Quiet i (it.order ℕ (links_of i t).incoming) t))
      ]

  pub visit_group-Quiet : (fuel i : ℕ) (r : Registry) → IsQuiet r (visit_group it fuel i r)
  unfolding visit_group
  visit_group-Quiet zero i r = Quiet-refl r
  visit_group-Quiet (suc fuel) i r =
      resume-Quiet r (count_threads it i r)
        (λ s.
          visit_groups it (λ j t. visit_group it fuel j t) (it.order ℕ (links_of i s).outgoing) s)
        (count_threads-Quiet i r)
        (λ s.
          visit_groups-Quiet (λ j t. visit_group it fuel j t) _ s
            (λ j t. visit_group-Quiet fuel j t))

  visit_root_group-Quiet : (fuel i : ℕ) (r : Registry) → IsQuiet r (visit_root_group it fuel i r)
  unfolding visit_root_group
  visit_root_group-Quiet fuel i r =
      elim (Bool-cases (value_or new_group (lookup i r.threadgroup_callback_map)).is_mutex_group) [
        | inl mutex ↦ rw mutex (Quiet-refl r)
        | inr other ↦ rw other (visit_group-Quiet fuel i r)
      ]

  pub visit_root_groups-Quiet :
      (fuel : ℕ) (roots : List (ℕ × ThreadGroupAdjacencyInfo)) (r : Registry)
      → IsQuiet r (visit_root_groups it fuel roots r)
  unfolding visit_root_groups
  visit_root_groups-Quiet fuel [] r = Quiet-refl r
  visit_root_groups-Quiet fuel ((i, a) ∷ rest) r =
      elim (Bool-cases (indegree_of (links_of i r) == 0)) [
        | inl root ↦ rw root (
            resume-Quiet r (visit_root_group it fuel i (on_group i (λ t. t) r))
              (λ s. visit_root_groups it fuel rest s)
              (Quiet-trans r _ _ (touch_group-Quiet i r)
                (visit_root_group-Quiet fuel i (on_group i (λ t. t) r)))
              (λ s. visit_root_groups-Quiet fuel rest s))
        | inr other ↦ rw other (visit_root_groups-Quiet fuel rest r)
      ]
