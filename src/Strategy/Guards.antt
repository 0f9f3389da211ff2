-- ===== src/Strategy/Guards.antt =====
-- `add_guard_condition` and `remove_guard_condition`: the vector is a set.
use preemptive_executor.Common.{
  ℕ, false, ◌≡◌, refl, List, [], ◌∷◌, arith, if◌then◌else◌, ◌==◌, ◌||◌, contains, Distinct, nat_eq,
}
use preemptive_executor.Strategy.{
  Strategy, push_unless_present, remove_first, add_guard_condition, remove_guard_condition,
}

contains-push :
    (g h : ℕ) (xs : List ℕ) → contains h (push_unless_present g xs) ≡ (g == h || contains h xs)
unfolding push_unless_present
contains-push g h [] = refl
contains-push g h (x ∷ xs) = ground (arith, contains-push g h xs)

push-Distinct : (g : ℕ) (xs : List ℕ) → Distinct xs → Distinct (push_unless_present g xs)
unfolding push_unless_present
push-Distinct g [] d = (refl, tt)
push-Distinct g (x ∷ xs) d = ground (arith, push-Distinct g xs d.1, contains-push g x xs)

contains-remove_first :
    (g h : ℕ) (xs : List ℕ)
    → Distinct xs
    → contains h (remove_first g xs) ≡ (if g == h then false else contains h xs)
unfolding remove_first
contains-remove_first g h [] d = ground arith
contains-remove_first g h (x ∷ xs) d = ground (arith, contains-remove_first g h xs d.1)

remove_first-Distinct : (g : ℕ) (xs : List ℕ) → Distinct xs → Distinct (remove_first g xs)
unfolding remove_first
remove_first-Distinct g [] d = tt
remove_first-Distinct g (x ∷ xs) d =
    ground (arith, remove_first-Distinct g xs d.1, contains-remove_first g x xs d.1)

-- Each guard condition stands in the vector at most once.
abbrev pub DistinctGuards : Strategy → Type 0
DistinctGuards s = Distinct s.guard_conditions

-- From a strategy that lists no guard condition twice: adding one lists it beside the others and
-- removing one takes out that one alone, and neither lists a condition twice.
pub guard_conditions_lem :
    (g : ℕ) (s : Strategy)
    → DistinctGuards s
    → DistinctGuards (add_guard_condition g s)
      × DistinctGuards (remove_guard_condition g s)
      × ((h : ℕ)
          → contains h (add_guard_condition g s).guard_conditions
            ≡ (g == h || contains h s.guard_conditions))
      × ((h : ℕ)
          → contains h (remove_guard_condition g s).guard_conditions
            ≡ (if g == h then false else contains h s.guard_conditions))
unfolding add_guard_condition remove_guard_condition
guard_conditions_lem g s d = (
  push-Distinct g s.guard_conditions d,
  remove_first-Distinct g s.guard_conditions d,
  λ h. contains-push g h s.guard_conditions,
  λ h. contains-remove_first g h s.guard_conditions d,
)
