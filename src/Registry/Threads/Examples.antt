-- ===== src/Registry/Threads/Examples.antt =====
-- Runs of the walk through the thread groups (src/callback_registry.cpp).
use preemptive_executor.Common.{
  inl, inr, Bool-cases, subst, if◌then◌else◌, ◌==◌, ℕ, true, false, ◌≡◌, refl, List, [], ◌∷◌, arith,
  Outcome, ok, err, ◌>>=◌, ◌<◌, ◌≢◌, All, unfinished, contains, nat_eq, string_eq,
}
use preemptive_executor.Common.Iteration.{in_order}
use preemptive_executor.Ros.{Entry}
use preemptive_executor.Chains.{UserChain}
use preemptive_executor.Registry.{Registry}
use preemptive_executor.Registry.Names.{Names}
use preemptive_executor.Registry.Build.{new_registry}
use preemptive_executor.Registry.Traverse.{visit_roots}
use preemptive_executor.Registry.Exclusion.{traversed}
use preemptive_executor.Registry.Threads.{links_of, visit_group, visit_root_groups}
use preemptive_executor.Registry.Threads.Ends.{Walked, visit_root_groups_ends}
use preemptive_executor.Registry.Threads.Loops.{self_loop_stays}
use preemptive_executor.Registry.Export.{TimingExport, cleared, callback_threadgroup_allocation}
use preemptive_executor.Registry.Inputs.{group, sub, chain, entry, ok_or}

-- Two callbacks of a mutually exclusive group, `b` and `c`, both reached from a fork and from a
-- callback of their own: the thread group of `b` gets an edge to itself, and the walk through the
-- thread groups does not end, although the chains form no cycle.
abbrev loop_names : Names
loop_names = (1, "a") ∷ (2, "b") ∷ (3, "c") ∷ (4, "d") ∷ []

abbrev loop_entries : List Entry
loop_entries =
    entry (group 10 false (sub 1 ∷ sub 4 ∷ [])) ∷ entry (group 11 true (sub 2 ∷ sub 3 ∷ [])) ∷ []

abbrev loop_chains : List UserChain
loop_chains =
    chain "x" ("a" ∷ "b" ∷ "c" ∷ []) ∷ chain "y" ("d" ∷ "b" ∷ []) ∷ chain "z" ("d" ∷ "c" ∷ []) ∷ []

loop_allocate : ℕ → Outcome TimingExport
unfolding new_registry callback_threadgroup_allocation
loop_allocate fuel = do
  r ← new_registry loop_names loop_entries loop_chains
  (callback_threadgroup_allocation in_order fuel r).0

loop_unfinished : loop_allocate 40 ≡ err unfinished
unfolding loop_allocate
loop_unfinished = refl

abbrev looping : Registry
unfolding new_registry
looping = ok_or (new_registry loop_names loop_entries loop_chains)

abbrev looped : Registry
looped = (traversed in_order looping).1.registry

has_loop : contains 2 (links_of 2 looped).outgoing ≡ true
unfolding looping new_registry visit_roots
has_loop = refl

self_loop_stays_example : (visit_group in_order 40 2 looped).0 ≢ ok tt
self_loop_stays_example = self_loop_stays in_order 40 2 looped has_loop

-- Two thread groups, the one before the other.
abbrev linked : Registry
linked = record cleared {
  threadgroup_adjacency_list =
      (1, record { outgoing = 2 ∷ []; incoming = [] })
      ∷ (2, record { outgoing = []; incoming = 1 ∷ [] })
      ∷ [];
}

abbrev rank : ℕ → ℕ
rank i = if i == 1 then 1 else 0

linked_falls : (i : ℕ) → All (λ j. rank j < rank i) (links_of i linked).outgoing
unfolding cleared
linked_falls i = elim (Bool-cases (1 == i)) [
  | inl one ↦
      subst (λ j. All (λ k. rank k < rank j) (links_of j linked).outgoing)
        ((nat_eq.same_iff 1 i).0 one) (omega arith, tt)
  | inr other ↦ elim (Bool-cases (2 == i)) [
    | inl two ↦ rw (other, two) tt
    | inr neither ↦ rw (other, neither) tt
  ]
]

visit_root_groups_ends_example :
    Walked linked (visit_root_groups in_order 2 linked.threadgroup_adjacency_list linked)
unfolding cleared
visit_root_groups_ends_example =
    visit_root_groups_ends in_order rank 2 linked.threadgroup_adjacency_list linked linked_falls
      (omega arith, (omega arith, tt))
