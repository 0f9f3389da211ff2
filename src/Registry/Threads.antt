-- ===== src/Registry/Threads.antt =====
-- src/callback_registry.cpp: `recursive_threadgroup_traversal`, which counts a thread group's threads.
pub mod Ends
pub mod Loops
mod Examples
use preemptive_executor.Common.{
  ℕ, zero, suc, ◌+◌, ◌*◌, ◌/◌, ◌%◌, ◌<◌, ◌≤◌, ◌≡◌, List, [], ◌∷◌, arith, if◌then◌else◌, ◌==◌, ltb,
  nat_eq, string_eq, lookup, value_or, String, Outcome, ok, err, unfinished, out_of_bounds,
  division_by_zero, foldl,
}
use preemptive_executor.Common.Action.{Action, resume}
use preemptive_executor.Common.Iteration.{Iteration}
use preemptive_executor.Registry.{
  ThreadGroupAdjacencyInfo, new_group, no_links, no_edges, indegree_of, Registry, on_group,
  on_links,
}

-- `std::max_element` of a list that is not empty.
abbrev pub max_element : ℕ → List ℕ → ℕ
max_element d [] = d
max_element d (x ∷ xs) = max_element (if ltb d x then x else d) xs

-- `std::ceil(*deadline / period)`: both are `uint32_t`, so the division is that of integers, and
-- `ceil` has nothing left to round. The result is stored in a `uint16_t`; beyond its range,
-- where the conversion from `double` is undefined, the value here is the remainder.
pub divided : List ℕ → List ℕ → Outcome ℕ
divided periods [] = err out_of_bounds
divided [] (d ∷ ds) = err out_of_bounds
divided (p ∷ ps) (d ∷ ds) =
    if p == 0 then err division_by_zero else ok (max_element d ds / p % 65536)

-- The threads of a thread group without a predecessor, from its first callback.
unfoldable pub root_threads : List String → Registry → Outcome ℕ
unfolding divided
root_threads [] r = err out_of_bounds
root_threads (c ∷ cs) r =
    let a = value_or no_edges (lookup c r.adjacency_list) in divided a.periods a.deadlines

abbrev pub threads_of : ℕ → Registry → ℕ
threads_of i r = (value_or new_group (lookup i r.threadgroup_callback_map)).num_threads

abbrev pub set_threads : ℕ → ℕ → Registry → Registry
set_threads i n = on_group i λ t. record t { num_threads = n }

-- `num_threads += ...`, for one predecessor.
unfoldable pub add_threads : ℕ → Registry → ℕ → Registry
add_threads i r prev =
    let r' = on_group prev (λ t. t) r in
    set_threads i ((threads_of i r' + threads_of prev r') % 65536) r'

abbrev pub links_of : ℕ → Registry → ThreadGroupAdjacencyInfo
links_of i r = value_or no_links (lookup i r.threadgroup_adjacency_list)

-- The thread group's own count. Its callbacks are looked up in the state with `num_threads = 0`.
unfoldable pub store_threads : ℕ → Registry → Outcome ℕ → Outcome (Unit {0}) × Registry
store_threads i r (ok n) = (ok tt, set_threads i n r)
store_threads i r (err x) = (err x, r)

module _ (it : Iteration) where
  unfoldable pub count_threads : ℕ → Action Registry (Unit {0})
  unfolding root_threads add_threads store_threads
  count_threads i r =
      let r' = on_links i (λ a. a) (set_threads i 0 r) in
      if indegree_of (links_of i r') == 0
      then store_threads i r'
          (root_threads (value_or new_group (lookup i r'.threadgroup_callback_map)).callbacks r')
      else (ok tt, foldl (add_threads i) r' (it.order ℕ (links_of i r').incoming))

  unfoldable pub visit_groups :
      (ℕ → Action Registry (Unit {0})) → List ℕ → Action Registry (Unit {0})
  visit_groups rec [] r = (ok tt, r)
  visit_groups rec (i ∷ is) r = resume (λ _. visit_groups rec is) (rec i r)

  -- `recursive_threadgroup_traversal`, with fuel for its depth.
  unfoldable pub visit_group : ℕ → ℕ → Action Registry (Unit {0})
  unfolding count_threads visit_groups
  visit_group zero i r = (err unfinished, r)
  visit_group (suc fuel) i r =
      resume
        (λ _ s. visit_groups (λ j t. visit_group fuel j t) (it.order ℕ (links_of i s).outgoing) s)
        (count_threads i r)

  unfoldable pub visit_root_group : ℕ → ℕ → Action Registry (Unit {0})
  unfolding visit_group
  visit_root_group fuel i r =
      if (value_or new_group (lookup i r.threadgroup_callback_map)).is_mutex_group
      then (ok tt, r)
      else visit_group fuel i r

  -- The loop over `threadgroup_adjacency_list_`: the thread groups without a predecessor that belong
  -- to no mutually exclusive callback group.
  unfoldable pub visit_root_groups :
      ℕ → List (ℕ × ThreadGroupAdjacencyInfo) → Action Registry (Unit {0})
  unfolding visit_root_group
  visit_root_groups fuel [] r = (ok tt, r)
  visit_root_groups fuel ((i, a) ∷ rest) r =
      resume (λ _. visit_root_groups fuel rest)
        (if indegree_of (links_of i r) == 0
          then visit_root_group fuel i (on_group i (λ t. t) r)
          else (ok tt, r))

div_bounds : (m p : ℕ) → 0 < p → (m / p * p ≤ m) × (m < (m / p + 1) * p) × (m / p ≤ m)
div_bounds m p h = (grind arith, grind arith, grind arith)

-- The threads of a thread group without a predecessor are the quotient of the greatest deadline and
-- the first period of its first callback, rounded down: the count times the period does not exceed
-- that deadline, and one thread more does. (So a deadline below the period gives no thread at all.)
-- This is for deadlines below 2 ^ 16 and a period that is not 0.
pub root_threads_lem :
    (c : String) (cs : List String) (r : Registry) (p d : ℕ) (ps ds : List ℕ)
    → (value_or no_edges (lookup c r.adjacency_list)).periods ≡ p ∷ ps
    → (value_or no_edges (lookup c r.adjacency_list)).deadlines ≡ d ∷ ds
    → 0 < p
    → max_element d ds < 65536
    → (n : ℕ) × (root_threads (c ∷ cs) r ≡ ok n)
      × (n * p ≤ max_element d ds)
      × (max_element d ds < (n + 1) * p)
unfolding root_threads
root_threads_lem c cs r p d ps ds periods deadlines positive small =
    let b = div_bounds (max_element d ds) p positive in
    (max_element d ds / p, rw (periods, deadlines) (quotient b.2), b.0, b.1)
  where
    quotient :
        max_element d ds / p ≤ max_element d ds
        → (if p == 0 then err division_by_zero else ok (max_element d ds / p % 65536))
          ≡ ok (max_element d ds / p)
    quotient le = ground arith
