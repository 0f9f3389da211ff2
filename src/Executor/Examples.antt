-- ===== src/Executor/Examples.antt =====
-- Callback groups on their way through the executor (src/preemptive_executor.cpp).
use preemptive_executor.Common.{
  ℕ, ◌≡◌, refl, true, false, Option, none, some, List, [], ◌∷◌, ◌++◌, Outcome, ok, err,
  mixed_callback_group, node_already_added,
}
use preemptive_executor.Ros.{Member, timer, Group, Entry}
use preemptive_executor.Executor.{Node, Executor, add_node, classify_callback_groups}
use preemptive_executor.Executor.Accepts.{unmixed_groups_accepted}
use preemptive_executor.Executor.Classes.{Divides, locked, classify_callback_groups_lem}

abbrev add : Group → ℕ → List (Group × ℕ) → Outcome (List (Group × ℕ))
add g n m = ok (m ++ (g, n) ∷ [])

abbrev with_timers : ℕ → List Member → Group
with_timers i ms = record {
  id = i;
  can_be_taken_from = true;
  automatically_add = true;
  associated = false;
  mutually_exclusive = true;
  members = ms;
}

abbrev clock : ℕ → Member
clock p = timer (record { ptr = p; handle = some p })

abbrev drive : Group
drive = with_timers 1 (clock 11 ∷ [])

abbrev log : Group
log = with_timers 2 (clock 12 ∷ [])

abbrev both : Group
both = with_timers 3 (clock 11 ∷ clock 12 ∷ [])

abbrev fresh : Executor (List (Group × ℕ))
fresh = record {
  callback_handle_to_threadgroup_id = some ((11, 1) ∷ []);
  pending = [];
  weak_groups_to_nodes = [];
  non_rt_callback_groups = [];
  weak_nodes = [];
}

abbrev robot : List (Option Group) → Node
robot gs = record { ptr = 7; has_executor = false; groups = gs }

abbrev added : List (Option Group) → Executor (List (Group × ℕ))
added gs = (add_node (some (robot gs), fresh)).1.1

abbrev entry_of : Group → ℕ × Entry
entry_of g = (g.id, record { group = some g; node = some 7 })

add_node_runs :
    (added (some drive ∷ none ∷ some log ∷ [])).pending ≡ entry_of drive ∷ entry_of log ∷ []
unfolding add_node
add_node_runs = refl

add_node_twice :
    (add_node (some (record (robot []) { has_executor = true }), fresh)).0 ≡ err node_already_added
unfolding add_node
add_node_twice = refl

abbrev two_groups : Executor (List (Group × ℕ))
two_groups = record fresh { pending = entry_of drive ∷ entry_of log ∷ [] }

abbrev divided_groups : Executor (List (Group × ℕ))
divided_groups = record fresh {
  weak_groups_to_nodes = (drive, 7) ∷ [];
  non_rt_callback_groups = (log, 7) ∷ [];
}

classify_runs : classify_callback_groups add (λ es. es) two_groups ≡ (ok tt, divided_groups)
unfolding classify_callback_groups
classify_runs = refl

mixed_throws :
    (classify_callback_groups add (λ es. es) (record fresh { pending = entry_of both ∷ [] })).0
    ≡ err mixed_callback_group
unfolding classify_callback_groups
mixed_throws = refl

classify_callback_groups_example :
    Divides add ((11, 1) ∷ []) (locked two_groups.pending) two_groups divided_groups
    × (divided_groups.pending ≡ [])
classify_callback_groups_example =
    classify_callback_groups_lem add (λ es. es) ((11, 1) ∷ []) two_groups divided_groups refl
      classify_runs

unmixed_groups_accepted_example :
    (y : Executor (List (Group × ℕ))) × (classify_callback_groups add (λ es. es) two_groups
      ≡ (ok tt, y))
unmixed_groups_accepted_example =
    unmixed_groups_accepted add (λ g n m. (m ++ (g, n) ∷ [], refl)) (λ es. es) ((11, 1) ∷ [])
      two_groups refl (refl, (refl, tt))
