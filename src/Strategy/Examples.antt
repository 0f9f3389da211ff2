-- ===== src/Strategy/Examples.antt =====
-- Runs of the strategy on small inputs, and the theorems at such inputs.
use preemptive_executor.Common.{
  ℕ, Outcome, true, false, ◌≡◌, refl, ◌||◌, err, rclcpp_exception, none, some, List, [], ◌∷◌, ◌++◌,
  arith, ok, contains, nat_eq, if◌then◌else◌, ◌==◌,
}
use preemptive_executor.Ros.{Entity, subscription, timer, Group, Entry, collect_all_ptrs}
use preemptive_executor.Strategy.{
  Strategy, add_guard_condition, remove_guard_condition, collect_entities,
}
use preemptive_executor.Strategy.Guards.{DistinctGuards, guard_conditions_lem}
use preemptive_executor.Strategy.Collect.{Collected, collect_entities_lem}
use preemptive_executor.Strategy.Nulls.{WaitSet, remove_null_handles, remove_null_handles_lem}
use preemptive_executor.Strategy.Waiting.{
  WaitSetApi, want_subscription, want_timer, add_handles_to_wait_set, add_handles_accepted,
  add_handles_refused,
}
use preemptive_executor.Strategy.Next.{
  Lookups, AnyExecutable, Taken, get_next_timer, get_next_subscription,
}
use preemptive_executor.Strategy.Next.Selects.{
  Selects, Served, EndsWith, TimerGiven, SubscriptionGiven, get_next_timer_lem, get_next_lem,
}
use preemptive_executor.Strategy.Ready.{take_ready_handles}
use preemptive_executor.Strategy.Ready.Exact.{Took, take_ready_handles_lem}
use preemptive_executor.Strategy.Counts.{
  Reports, number_of_ready_subscriptions, number_of_ready_lem,
}

abbrev sub_a : Entity
sub_a = record { ptr = 100; handle = some 1 }

abbrev sub_b : Entity
sub_b = record { ptr = 101; handle = some 2 }

abbrev timer_a : Entity
timer_a = record { ptr = 200; handle = some 7 }

abbrev sensors : Group
sensors = record {
  id = 10;
  can_be_taken_from = true;
  automatically_add = true;
  associated = false;
  mutually_exclusive = true;
  members = subscription sub_a ∷ timer timer_a ∷ subscription sub_b ∷ [];
}

abbrev entries : List Entry
entries =
    record { group = some sensors; node = some 50 } ∷ record { group = none; node = some 51 } ∷ []

abbrev empty : Strategy
empty = record {
  guard_conditions = 3 ∷ [];
  subscription_handles = [];
  service_handles = [];
  client_handles = [];
  timer_handles = [];
  waitable_handles = some 90 ∷ [];
}

abbrev waiting : Strategy
waiting = record empty {
  subscription_handles = some 2 ∷ some 2 ∷ some 9 ∷ [];
  timer_handles = some 7 ∷ [];
}

collect_runs : (collect_entities entries empty).0.subscription_handles ≡ some 1 ∷ some 2 ∷ []
unfolding collect_entities collect_all_ptrs
collect_runs = refl

take_runs : (take_ready_handles entries waiting).subscriptions ≡ sub_b ∷ []
unfolding take_ready_handles collect_all_ptrs
take_runs = refl

guard_conditions_example :
    DistinctGuards (add_guard_condition 4 empty)
    × DistinctGuards (remove_guard_condition 4 empty)
    × ((h : ℕ)
        → contains h (add_guard_condition 4 empty).guard_conditions
          ≡ (4 == h || contains h (3 ∷ [])))
    × ((h : ℕ)
        → contains h (remove_guard_condition 4 empty).guard_conditions
          ≡ (if 4 == h then false else contains h (3 ∷ [])))
guard_conditions_example = guard_conditions_lem 4 empty (refl, tt)

collect_entities_example :
    Collected entries empty (collect_entities entries empty).0
    × ((collect_entities entries empty).1 ≡ true)
collect_entities_example = collect_entities_lem entries empty

abbrev ready_slots : WaitSet
ready_slots = record {
  subscriptions = none ∷ some 2 ∷ none ∷ some 5 ∷ [];
  services = [];
  clients = [];
  timers = some 7 ∷ [];
}

remove_null_handles_example :
    remove_null_handles (λ w. w == 91) ready_slots waiting
    ≡ ok (record waiting { subscription_handles = some 2 ∷ []; waitable_handles = [] })
remove_null_handles_example =
    remove_null_handles_lem (λ w. w == 91) ready_slots waiting
      (record {
        subscriptions = omega arith;
        services = omega arith;
        clients = omega arith;
        timers = omega arith;
        waitables = (refl, tt);
      })

-- A wait set that logs what is added to it and refuses handle 9.
abbrev log : WaitSetApi
log = record {
  W = List ℕ;
  add_subscription = λ h w. elim h [
    | none ↦ (false, w)
    | some x ↦ if x == 9 then (false, w) else (true, w ++ x ∷ [])
  ];
  add_client = λ h w. (true, w);
  add_service = λ h w. (true, w);
  add_timer = λ h w. elim h [ none ↦ (false, w) | some x ↦ (true, w ++ x ∷ []) ];
  add_guard_condition = λ g w. if g == 9 then err rclcpp_exception else ok (w ++ g ∷ []);
  add_waitable = λ a w. ok (w ++ a ∷ []);
}

abbrev accepted : Strategy
accepted = record waiting { subscription_handles = some 2 ∷ [] }

add_handles_accepted_example :
    add_handles_to_wait_set log accepted [] ≡ ok (true, 2 ∷ 7 ∷ 3 ∷ 90 ∷ [])
add_handles_accepted_example =
    add_handles_accepted log accepted [] (2 ∷ 7 ∷ []) (2 ∷ 7 ∷ 3 ∷ []) (2 ∷ 7 ∷ 3 ∷ 90 ∷ []) refl
      (refl, tt) (_, refl, refl) (_, refl, refl)

add_handles_refused_example : add_handles_to_wait_set log waiting [] ≡ ok (false, 2 ∷ 2 ∷ [])
add_handles_refused_example =
    add_handles_refused log waiting [] (2 ∷ 2 ∷ []) (2 ∷ 2 ∷ [])
      (want_subscription (some 2) ∷ want_subscription (some 2) ∷ []) (want_timer (some 7) ∷ [])
      (want_subscription (some 9)) refl refl refl

-- Every handle but 9 is the timer's, and its calls succeed while the counter is not 0.
abbrev table : Lookups
table = record {
  W = ℕ;
  subscription_by_handle = λ h es. some sub_b;
  service_by_handle = λ h es. none;
  client_by_handle = λ h es. none;
  timer_by_handle = λ h es. some timer_a;
  group_by_subscription = λ e es. some sensors;
  group_by_service = λ e es. none;
  group_by_client = λ e es. none;
  group_by_timer = λ e es. some sensors;
  group_by_waitable = λ e es. none;
  node_by_group = λ g es. some 50;
  call = λ e w. (if w == 0 then (ok false, 1) else (ok true, w));
}

abbrev blank : AnyExecutable
blank = record {
  subscription = none;
  service = none;
  client = none;
  timer = none;
  waitable = none;
  callback_group = none;
  node_base = none;
}

abbrev two_timers : Strategy
two_timers = record waiting { timer_handles = some 7 ∷ some 8 ∷ [] }

next_timer_runs : (get_next_timer table entries blank two_timers 0).2.timer_handles ≡ some 7 ∷ []
unfolding get_next_timer
next_timer_runs = refl

-- The first call throws: the two handles stay.
abbrev broken : Lookups
broken = record table { call = λ e w. (err rclcpp_exception, 3) }

next_timer_throws :
    get_next_timer broken entries blank two_timers 0 ≡ (err rclcpp_exception, blank, two_timers, 3)
unfolding get_next_timer
next_timer_throws = refl

get_next_timer_example :
    (t : Taken Entity ℕ) × (o : Outcome (Unit {0})) × (r : AnyExecutable) × (get_next_timer table
        entries blank two_timers 0
      ≡ (o, r, record two_timers { timer_handles = t.handles }, t.world))
    × Selects
        (λ h. some timer_a)
        (λ e. some sensors)
        (λ e w. (if w == 0 then (ok false, 1) else (ok true, w)))
        two_timers.timer_handles
        0
        t
    × EndsWith t.thrown o
    × TimerGiven (λ g. some 50) blank t.chosen r
get_next_timer_example = get_next_timer_lem table entries blank two_timers 0

take_ready_handles_example : Took entries waiting (take_ready_handles entries waiting)
take_ready_handles_example = take_ready_handles_lem entries waiting

abbrev two_each : Reports
two_each = record {
  subscriptions = λ w. 2;
  services = λ w. 2;
  events = λ w. 2;
  clients = λ w. 2;
  guard_conditions = λ w. 2;
  timers = λ w. 2;
}

get_next_example :
    (t : Taken Entity (Unit {0})) × (r : AnyExecutable) × (get_next_subscription table entries blank
        waiting
      ≡ (r, record waiting { subscription_handles = t.handles }))
    × Served (λ h. some sub_b) (λ e. some sensors) waiting.subscription_handles t
    × SubscriptionGiven (λ g. some 50) blank t.chosen r
get_next_example = (get_next_lem table entries blank waiting).0

number_of_ready_example : number_of_ready_subscriptions two_each waiting ≡ ok 5
number_of_ready_example =
    (number_of_ready_lem two_each waiting
      (record {
        subscriptions = omega arith;
        services = omega arith;
        clients = omega arith;
        guard_conditions = omega arith;
        timers = omega arith;
      })
      (refl, tt)).0
