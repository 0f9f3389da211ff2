-- ===== src/Registry/Threads/Ends.antt =====
-- `recursive_threadgroup_traversal` (src/callback_registry.cpp) ends if the thread groups form no
-- cycle.
use preemptive_executor.Common.{
  ℕ, zero, suc, ◌<◌, ◌≡◌, ◌≢◌, refl, ap, ◌∙◌, not, List, [], ◌∷◌, arith, foldl, any_of_All,
  none_of_any, All, All-map_pred, if◌then◌else◌, ◌==◌, ltb, nat_eq, lookup, value_or, lookup-upsert,
  String, string_eq, Outcome, ok, err, map_ok, unfinished, Bool-cases, inl, inr,
}
use preemptive_executor.Common.Action.{Action, resume}
use preemptive_executor.Common.Iteration.{Iteration, any-order}
use preemptive_executor.Registry.{
  ThreadGroupAdjacencyInfo, new_group, no_links, no_edges, indegree_of, Registry, on_group,
  on_links,
}
use preemptive_executor.Registry.Threads.{
  divided, root_threads, add_threads, set_threads, links_of, store_threads, count_threads,
  visit_groups, visit_group, visit_root_group, visit_root_groups,
}

-- The edges between thread groups are as before.
abbrev pub SameLinks : Registry → Registry → Type 0
SameLinks r s = (i : ℕ) → links_of i s ≡ links_of i r

touch_links-same : (i : ℕ) (r : Registry) → SameLinks r (on_links i (λ a. a) r)
touch_links-same i r j =
    ground
      (arith, lookup-upsert i j no_links (λ a. a) r.threadgroup_adjacency_list, nat_eq.same_iff i j)

add_all-same : (i : ℕ) (ps : List ℕ) (r : Registry) → SameLinks r (foldl (add_threads i) r ps)
unfolding add_threads
add_all-same i [] r j = refl
add_all-same i (p ∷ ps) r j = add_all-same i ps (add_threads i r p) j

divided-ends : (ps ds : List ℕ) → divided ps ds ≢ err unfinished
unfolding divided
divided-ends ps [] = λ h. cc
divided-ends [] (d ∷ ds) = λ h. cc
divided-ends (p ∷ ps) (d ∷ ds) = λ h. ground (arith, h)

root_threads-ends : (cs : List String) (r : Registry) → root_threads cs r ≢ err unfinished
unfolding root_threads
root_threads-ends [] r = λ h. cc
root_threads-ends (c ∷ cs) r =
    divided-ends (value_or no_edges (lookup c r.adjacency_list)).periods
      (value_or no_edges (lookup c r.adjacency_list)).deadlines

-- A routine that ends, and keeps the edges.
abbrev pub Walked : Registry → Outcome (Unit {0}) × Registry → Type 0
Walked r out = (out.0 ≢ err unfinished) × SameLinks r out.1

store_threads-Walked :
    (i : ℕ) (r : Registry) (o : Outcome ℕ) → o ≢ err unfinished → Walked r (store_threads i r o)
unfolding store_threads
store_threads-Walked i r (ok n) h = (λ e. cc, λ j. refl)
store_threads-Walked i r (err x) h = (λ e. h (ap (λ o. map_ok (λ _. 0) o) e), λ j. refl)

module _ (it : Iteration) where
  pub count_threads-Walked : (i : ℕ) (r : Registry) → Walked r (count_threads it i r)
  unfolding count_threads
  count_threads-Walked i r =
      let t = on_links i (λ a. a) (set_threads i 0 r) in
      let same : SameLinks r t = touch_links-same i (set_threads i 0 r) in
      elim (Bool-cases (indegree_of (links_of i t) == 0)) [
        | inl root ↦
            let w = store_threads-Walked i t _ (
              root_threads-ends (value_or new_group (lookup i t.threadgroup_callback_map)).callbacks
                t) in
            rw root (w.0, λ j. w.1 j ∙ same j)
        | inr other ↦
            rw other
              (λ e. cc, λ j. add_all-same i (it.order ℕ (links_of i t).incoming) t j ∙ same j)
      ]

  resume-Walked :
      (r : Registry) (out : Outcome (Unit {0}) × Registry) (k : Action Registry (Unit {0}))
      → Walked r out
      → ((s : Registry) → SameLinks r s → Walked s (k s))
      → Walked r (resume (λ _. k) out)
  resume-Walked r (err x, s) k w h = w
  resume-Walked r (ok u, s) k (e, same) h = let (f, more) = h s same in (f, λ j. more j ∙ same j)

  visit_groups-Walked :
      (rec : ℕ → Action Registry (Unit {0})) (is : List ℕ) (r : Registry)
      → All (λ i. (s : Registry) → SameLinks r s → Walked s (rec i s)) is
      → (s : Registry) → SameLinks r s
      → Walked s (visit_groups it rec is s)
  unfolding visit_groups
  visit_groups-Walked rec [] r h s same = (λ e. cc, λ j. refl)
  visit_groups-Walked rec (i ∷ is) r (h, hs) s same =
      resume-Walked s (rec i s) (λ t. visit_groups it rec is t) (h s same)
        (λ t more. visit_groups-Walked rec is r hs t (λ j. more j ∙ same j))

  module _ (rank : ℕ → ℕ) (r : Registry)
      (falls : (i : ℕ) → All (λ j. rank j < rank i) (links_of i r).outgoing) where
    falls_in_order : (i : ℕ) → All (λ j. rank j < rank i) (it.order ℕ (links_of i r).outgoing)
    falls_in_order i =
        none_of_any (λ j. rank j < rank i) (λ j. not (ltb (rank j) (rank i))) _
          (λ j h. ground (arith, h))
          (any-order it (λ j. not (ltb (rank j) (rank i))) (links_of i r).outgoing
            ∙ any_of_All (λ j. rank j < rank i) (λ j. not (ltb (rank j) (rank i)))
                (links_of i r).outgoing (λ j h. ground (arith, h)) (falls i))

    visit_group-Walked :
        (fuel i : ℕ) (s : Registry)
        → rank i < fuel
        → SameLinks r s
        → Walked s (visit_group it fuel i s)
    unfolding visit_group
    visit_group-Walked zero i s h same = absurd (omega arith)
    visit_group-Walked (suc fuel) i s h same =
        resume-Walked s (count_threads it i s) _ (count_threads-Walked i s) (λ t more.
          visit_groups-Walked (λ j u. visit_group it fuel j u) _ r
            (rw (more i ∙ same i) (
              All-map_pred (λ j. rank j < rank i) _ (it.order ℕ (links_of i r).outgoing)
                (λ j lower u keeps. visit_group-Walked fuel j u (omega (arith, lower)) keeps)
                (falls_in_order i)))
            t (λ j. more j ∙ same j))

    visit_root_group-Walked :
        (fuel i : ℕ) (s : Registry)
        → rank i < fuel
        → SameLinks r s
        → Walked s (visit_root_group it fuel i s)
    unfolding visit_root_group
    visit_root_group-Walked fuel i s h same =
        elim (Bool-cases
          (value_or new_group (lookup i s.threadgroup_callback_map)).is_mutex_group) [
            | inl mutex ↦ rw mutex (λ e. cc, λ j. refl)
            | inr other ↦ rw other (visit_group-Walked fuel i s h same)
          ]

    visit_root_groups-Walked :
        (fuel : ℕ) (roots : List (ℕ × ThreadGroupAdjacencyInfo)) (s : Registry)
        → All (λ (e : ℕ × ThreadGroupAdjacencyInfo). rank e.0 < fuel) roots
        → SameLinks r s
        → Walked s (visit_root_groups it fuel roots s)
    unfolding visit_root_groups
    visit_root_groups-Walked fuel [] s h same = (λ e. cc, λ j. refl)
    visit_root_groups-Walked fuel ((i, a) ∷ rest) s (h, hs) same =
        resume-Walked s _ _ (first_root fuel i s h same)
          (λ t more. visit_root_groups-Walked fuel rest t hs (λ j. more j ∙ same j))
      where
        first_root :
            (fuel i : ℕ) (s : Registry)
            → rank i < fuel
            → SameLinks r s
            → Walked s (
                if indegree_of (links_of i s) == 0
                then visit_root_group it fuel i (on_group i (λ t. t) s)
                else (ok tt, s))
        first_root fuel i s h same = elim (Bool-cases (indegree_of (links_of i s) == 0)) [
          | inl root ↦ rw root (visit_root_group-Walked fuel i (on_group i (λ t. t) s) h same)
          | inr other ↦ rw other (λ e. cc, λ j. refl)
        ]

  -- The loop that counts the threads ends, by a return or by a throw, if the edges between the
  -- thread groups form no cycle (each edge leads to a thread group of smaller rank), with fuel
  -- above the ranks of the thread groups that it starts from; and it keeps the edges.
  pub visit_root_groups_ends :
      (rank : ℕ → ℕ) (fuel : ℕ) (roots : List (ℕ × ThreadGroupAdjacencyInfo)) (r : Registry)
      → ((i : ℕ) → All (λ j. rank j < rank i) (links_of i r).outgoing)
      → All (λ (e : ℕ × ThreadGroupAdjacencyInfo). rank e.0 < fuel) roots
      → Walked r (visit_root_groups it fuel roots r)
  visit_root_groups_ends rank fuel roots r falls above =
      visit_root_groups-Walked rank r falls fuel roots r above (λ j. refl)
