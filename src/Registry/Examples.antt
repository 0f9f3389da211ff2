-- ===== src/Registry/Examples.antt =====
-- Runs of the registry.
use preemptive_executor.Common.{
  ℕ, true, false, ◌≡◌, refl, List, [], ◌∷◌, ◌+◌, map, arith, String, Outcome, ok, err,
  not_assigned_to_threadgroup, map_ok, ◌>>=◌, ◌<◌, ◌≤◌, ◌*◌, ◌++◌, ◌≢◌, All, unfinished, contains,
  is_some, lookup, nat_eq, string_eq,
}
use preemptive_executor.Common.Iteration.{in_order}
use preemptive_executor.Ros.{Group, Entry}
use preemptive_executor.Chains.{UserChain}
use preemptive_executor.Registry.{Registry, CallbackInfo}
use preemptive_executor.Registry.Entity.{callback_entity, get_raw_pointer}
use preemptive_executor.Registry.Names.{
  Names, register_callback_name, Registered, register_callback_name_lem,
}
use preemptive_executor.Registry.Build.{new_registry, Adjacency, add_chains}
use preemptive_executor.Registry.Build.Adjacency.{info_at, any_edge, add_chains_lem}
use preemptive_executor.Registry.Traverse.{visit_roots}
use preemptive_executor.Registry.Traverse.Settle.{is_mutex}
use preemptive_executor.Registry.Traverse.Ends.{IsAssigned, root_names}
use preemptive_executor.Registry.Exclusion.{traversed, traversal_ends, mutex_group_whole}
use preemptive_executor.Registry.Priorities.{
  priority, assign_priorities, assign_priorities_monotonic,
}
use preemptive_executor.Registry.Threads.{root_threads, root_threads_lem}
use preemptive_executor.Registry.Export.{TimingExport, cleared, callback_threadgroup_allocation}
use preemptive_executor.Registry.Export.Stated.{stated}
use preemptive_executor.Registry.Export.Exported.{allocation_covers}
use preemptive_executor.Registry.Inputs.{group, sub, chain, entry, ok_or}

abbrev names : Names
names = (1, "a") ∷ (2, "b") ∷ (3, "c") ∷ []

allocate : List Group → List UserChain → Outcome TimingExport
unfolding new_registry callback_threadgroup_allocation
allocate gs chains = do
  r ← new_registry names (map entry gs) chains
  (callback_threadgroup_allocation in_order 10 r).0

-- One chain through three callbacks of one reentrant group is one thread group.
line_runs :
    map_ok
      (λ e. e.callback_handle_to_threadgroup_id)
      (allocate
        (group 10 false (sub 1 ∷ sub 2 ∷ sub 3 ∷ []) ∷ [])
        (chain "x" ("a" ∷ "b" ∷ "c" ∷ []) ∷ []))
    ≡ ok ((1, 1) ∷ (2, 1) ∷ (3, 1) ∷ [])
unfolding allocate
line_runs = refl

-- A callback with two successors, each with that predecessor alone: the second is never visited.
fork_throws :
    allocate
      (group 10 false (sub 1 ∷ sub 2 ∷ sub 3 ∷ []) ∷ [])
      (chain "x" ("a" ∷ "b" ∷ []) ∷ chain "y" ("a" ∷ "c" ∷ []) ∷ [])
    ≡ err not_assigned_to_threadgroup
unfolding allocate
fork_throws = refl

-- A mutually exclusive group with two callbacks on both sides of a reentrant one.
abbrev mixed_entries : List Entry
mixed_entries =
    entry (group 10 true (sub 1 ∷ sub 3 ∷ [])) ∷ entry (group 11 false (sub 2 ∷ [])) ∷ []

abbrev mixed_chains : List UserChain
mixed_chains = chain "x" ("a" ∷ "b" ∷ "c" ∷ []) ∷ []

abbrev mixed : Registry
unfolding new_registry
mixed = ok_or (new_registry names mixed_entries mixed_chains)

abbrev info_a : CallbackInfo
info_a = record {
  entity = callback_entity (sub 1);
  callback_group = group 10 true (sub 1 ∷ sub 3 ∷ []);
  node = 50;
  callback_name = "a";
  threadgroup_id = 1;
}

abbrev info_c : CallbackInfo
info_c = record {
  entity = callback_entity (sub 3);
  callback_group = group 10 true (sub 1 ∷ sub 3 ∷ []);
  node = 50;
  callback_name = "c";
  threadgroup_id = 1;
}

mutex_group_whole_example :
    (◌≡◌ {A = ℕ} 1 1) × (is_mutex 1 (traversed in_order mixed).1.registry ≡ true)
unfolding mixed new_registry visit_roots callback_entity
mutex_group_whole_example =
    mutex_group_whole in_order names mixed_entries mixed_chains mixed "a" "c" info_a info_c refl
      refl refl (omega arith) (omega arith) refl refl refl

traversal_ends_example :
    ((traversed in_order mixed).0 ≢ err unfinished)
    × ((traversed in_order mixed).0 ≡ ok tt
        → All
            (IsAssigned (traversed in_order mixed).1.registry)
            (root_names in_order mixed.adjacency_list))
unfolding mixed new_registry
traversal_ends_example = traversal_ends in_order names mixed_entries mixed_chains mixed refl

register_callback_name_example :
    Registered (callback_entity (sub 4)) "d" names (names ++ (4, "d") ∷ [])
unfolding register_callback_name callback_entity
register_callback_name_example =
    register_callback_name_lem (callback_entity (sub 4)) "d" names (names ++ (4, "d") ∷ []) refl

add_chains_example :
    (m : Adjacency) × (add_chains mixed_chains [] ≡ ok m)
    × ((info_at "b" m).indegree ≡ 1)
    × ((b : String) → contains b (info_at "b" m).outgoing ≡ any_edge "b" b mixed_chains)
    × ((info_at "b" m).min_deadline ≡ 250)
add_chains_example = add_chains_lem "b" mixed_chains (refl, tt)

-- Two thread groups with deadlines 100 and 250.
abbrev two_deadlines : List (ℕ × List ℕ)
two_deadlines = (100, 2 ∷ []) ∷ (250, 1 ∷ 2 ∷ []) ∷ []

assign_priorities_example :
    (0 < priority 2 (assign_priorities two_deadlines mixed))
    × (priority 2 (assign_priorities two_deadlines mixed)
        < priority 1 (assign_priorities two_deadlines mixed))
unfolding mixed new_registry
assign_priorities_example =
    assign_priorities_monotonic two_deadlines mixed [] (1 ∷ 2 ∷ []) 2 1 (λ g. refl) (omega arith)
      refl refl refl

-- A deadline of 250 and a period of 100: two threads.
root_threads_example :
    (n : ℕ) × (root_threads ("a" ∷ []) mixed ≡ ok n) × (n * 100 ≤ 250) × (250 < (n + 1) * 100)
unfolding mixed new_registry
root_threads_example =
    root_threads_lem "a" [] mixed 100 250 [] [] refl refl (omega arith) (omega arith)

root_threads_runs : root_threads ("a" ∷ []) mixed ≡ ok 2
unfolding mixed new_registry root_threads
root_threads_runs = refl

abbrev exported : Outcome TimingExport × Registry
unfolding mixed new_registry
exported = callback_threadgroup_allocation in_order 10 mixed

-- The reentrant callback in the middle stays in the thread group of the mutually exclusive group.
abbrev mixed_export : TimingExport
mixed_export = record {
  callback_handle_to_threadgroup_id = (1, 1) ∷ (3, 1) ∷ (2, 1) ∷ [];
  threadgroup_attributes =
      (1, record { tg_id = 1; number_of_threads = 1; priority = 1; is_mutex_group = true }) ∷ [];
}

exported_runs : exported ≡ (ok mixed_export, cleared)
unfolding exported callback_threadgroup_allocation
exported_runs = refl

allocation_covers_example :
    All
      (λ (h : ℕ × ℕ). stated h.1 mixed_export.threadgroup_attributes ≡ true)
      mixed_export.callback_handle_to_threadgroup_id
    × All
        (λ (c : String × CallbackInfo).
          is_some
            (lookup (get_raw_pointer c.1.entity) mixed_export.callback_handle_to_threadgroup_id)
          ≡ true)
        mixed.callback_map
    × (cleared ≡ cleared)
unfolding mixed new_registry
allocation_covers_example =
    allocation_covers in_order 10 names mixed_entries mixed_chains mixed cleared mixed_export refl
      exported_runs
