-- ===== src/Registry/Threads/Loops.antt =====
-- `recursive_threadgroup_traversal` (src/callback_registry.cpp) at a thread group with an edge to
-- itself.
use preemptive_executor.Common.{
  ℕ, zero, suc, ◌≡◌, ◌≢◌, refl, sym, subst, ◌∙◌, true, List, [], ◌∷◌, any, contains, ◌==◌, ◌||◌, ap,
  nat_eq, Outcome, ok, err, Bool-cases, inl, inr,
}
use preemptive_executor.Common.Action.{Action, resume}
use preemptive_executor.Common.Iteration.{Iteration, any-order}
use preemptive_executor.Registry.{Registry}
use preemptive_executor.Registry.Threads.{links_of, count_threads, visit_groups, visit_group}
use preemptive_executor.Registry.Threads.Ends.{SameLinks, count_threads-Walked}

-- A routine that does not return, whatever it does otherwise.
abbrev Stays : Outcome (Unit {0}) × Registry → Type 0
Stays out = out.0 ≢ ok tt

-- A routine that keeps the edges between thread groups.
abbrev Keeps : Registry → Outcome (Unit {0}) × Registry → Type 0
Keeps r out = SameLinks r out.1

resume-Keeps :
    (r : Registry) (out : Outcome (Unit {0}) × Registry) (k : Action Registry (Unit {0}))
    → Keeps r out
    → ((s : Registry) → Keeps s (k s))
    → Keeps r (resume (λ _. k) out)
resume-Keeps r (err x, s) k w h = w
resume-Keeps r (ok u, s) k w h = λ j. h s j ∙ w j

resume-Stays :
    (out : Outcome (Unit {0}) × Registry) (k : Action Registry (Unit {0}))
    → ((s : Registry) → SameLinks out.1 s → Stays (k s))
    → Stays (resume (λ _. k) out)
resume-Stays (err x, s) k h = λ e. cc
resume-Stays (ok u, s) k h = h s (λ j. refl)

resume-Stays_first :
    (out : Outcome (Unit {0}) × Registry) (k : Action Registry (Unit {0}))
    → Stays out
    → Stays (resume (λ _. k) out)
resume-Stays_first (err x, s) k h = λ e. cc
resume-Stays_first (ok u, s) k h = absurd (h refl)

contains-any : (i : ℕ) (is : List ℕ) → contains i is ≡ any (λ j. j == i) is
contains-any i [] = refl
contains-any i (j ∷ is) = ap (λ b. j == i || b) (contains-any i is)

module _ (it : Iteration) where
  visit_groups-Keeps :
      (rec : ℕ → Action Registry (Unit {0})) (is : List ℕ) (r : Registry)
      → ((i : ℕ) (s : Registry) → Keeps s (rec i s))
      → Keeps r (visit_groups it rec is r)
  unfolding visit_groups
  visit_groups-Keeps rec [] r h = λ j. refl
  visit_groups-Keeps rec (i ∷ is) r h =
      resume-Keeps r (rec i r) (λ s. visit_groups it rec is s) (h i r)
        (λ s. visit_groups-Keeps rec is s h)

  visit_group-Keeps : (fuel i : ℕ) (r : Registry) → Keeps r (visit_group it fuel i r)
  unfolding visit_group
  visit_group-Keeps zero i r = λ j. refl
  visit_group-Keeps (suc fuel) i r =
      resume-Keeps r (count_threads it i r) _ (count_threads-Walked it i r).1 (λ s.
        visit_groups-Keeps (λ j t. visit_group it fuel j t) _ s (λ j t. visit_group-Keeps fuel j t))

  visit_groups-Stays :
      (rec : ℕ → Action Registry (Unit {0})) (i : ℕ) (is : List ℕ) (r s : Registry)
      → contains i is ≡ true
      → ((j : ℕ) (t : Registry) → Keeps t (rec j t))
      → ((t : Registry) → SameLinks r t → Stays (rec i t))
      → SameLinks r s
      → Stays (visit_groups it rec is s)
  unfolding visit_groups
  visit_groups-Stays rec i [] r s c keeps h same = cc
  visit_groups-Stays rec i (j ∷ is) r s c keeps h same = elim (Bool-cases (j == i)) [
    | inl here ↦
        resume-Stays_first (rec j s) (λ t. visit_groups it rec is t)
          (subst (λ l. Stays (rec l s)) (sym ((nat_eq.same_iff j i).0 here)) (h s same))
    | inr later ↦
        resume-Stays (rec j s) (λ t. visit_groups it rec is t)
          (λ t more.
            visit_groups-Stays rec i is r t (rw later at c) keeps h
              (λ l. more l ∙ keeps j s l ∙ same l))
  ]

  contains-order : (i : ℕ) (is : List ℕ) → contains i (it.order ℕ is) ≡ contains i is
  contains-order i is =
      contains-any i (it.order ℕ is) ∙ any-order it (λ j. j == i) is ∙ sym (contains-any i is)

  visit_group-Stays :
      (fuel i : ℕ) (r s : Registry)
      → contains i (links_of i r).outgoing ≡ true
      → SameLinks r s
      → Stays (visit_group it fuel i s)
  unfolding visit_group
  visit_group-Stays zero i r s c same = λ e. cc
  visit_group-Stays (suc fuel) i r s c same = resume-Stays (count_threads it i s) _ (λ t more.
      let kept : SameLinks r t = λ j. more j ∙ (count_threads-Walked it i s).1 j ∙ same j in
      visit_groups-Stays (λ j u. visit_group it fuel j u) i (it.order ℕ (links_of i t).outgoing) r t
        (contains-order i (links_of i t).outgoing ∙ rw (kept i) c)
        (λ j u. visit_group-Keeps fuel j u) (λ u keeps. visit_group-Stays fuel i r u c keeps) kept)

  -- From a thread group with an edge to itself `recursive_threadgroup_traversal` never returns,
  -- whatever the depth of the recursion: it throws or goes on.
  pub self_loop_stays :
      (fuel i : ℕ) (r : Registry)
      → contains i (links_of i r).outgoing ≡ true
      → (visit_group it fuel i r).0 ≢ ok tt
  self_loop_stays fuel i r c = visit_group-Stays fuel i r r c (λ j. refl)
