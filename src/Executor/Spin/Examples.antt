-- ===== src/Executor/Spin/Examples.antt =====
-- The executor (src/preemptive_executor.cpp) at concrete inputs.
use preemptive_executor.Common.{
  ◌≢◌, ℕ, ap, ◌≡◌, refl, true, false, Option, none, some, List, [], ◌∷◌, ◌++◌, map, All, nat_eq,
  Outcome, ok, err, already_spinning, ok-injective, subst, ◌⊎◌, rclcpp_exception,
}
use preemptive_executor.Common.Action.{Action}
use preemptive_executor.Common.Iteration.{in_order}
use preemptive_executor.Ros.{Entity, Member, subscription, timer, Group, Entry}
use preemptive_executor.Chains.{UserChain}
use preemptive_executor.Registry.Names.{Names}
use preemptive_executor.Registry.Export.{cleared}
use preemptive_executor.Strategy.{Strategy}
use preemptive_executor.Strategy.Ready.{take_ready_handles}
use preemptive_executor.Executor.Populate.{find_group}
use preemptive_executor.Bundles.{Bundle, take_and_bundle, get_raw_handle, take_timer}
use preemptive_executor.Bundles.Recorder.{middleware, takes_return}
use preemptive_executor.Workers.{ConcurrentQueue, update_prio}
use preemptive_executor.Workers.Trace.{System}
use preemptive_executor.Workers.ListQueue.{list_queue}
use preemptive_executor.Executor.Spin.{
  PreemptiveExecutor, has_ended, make_executor, load_timing_info, prepare, spin,
}
use preemptive_executor.Executor.Spin.Known.{AddsEntry}
use preemptive_executor.Executor.Spin.Prepared.{Fit}
use preemptive_executor.Executor.Spin.Turns.{KeepsFit, ReturnsOrGoesOn, spin_throws_nothing}
use preemptive_executor.Executor.Spin.Leaving.{AllStopped, spin_leaves}
use preemptive_executor.Executor.Spin.AllTimed.{all_timed_fails}
use preemptive_executor.Executor.Spin.Again.{Late, respin_throws}

abbrev library : ConcurrentQueue (Option (Bundle middleware))
library = list_queue (Option (Bundle middleware))

abbrev entity : ℕ → Entity
entity p = record { ptr = p; handle = some p }

abbrev group : ℕ → List Member → Group
group i ms = record {
  id = i;
  can_be_taken_from = true;
  automatically_add = true;
  associated = false;
  mutually_exclusive = false;
  members = ms;
}

-- A subscription and a timer in a chain, and a timer of its own.
abbrev drive : Group
drive = group 1 (subscription (entity 4) ∷ timer (entity 11) ∷ [])

abbrev log : Group
log = group 2 (timer (entity 12) ∷ [])

abbrev entry : Group → Entry
entry g = record { group = some g; node = some 7 }

abbrev names : Names
names = (4, "a") ∷ (11, "b") ∷ []

abbrev chain : UserChain
chain = record { chain_name = "x"; callbacks = "a" ∷ "b" ∷ []; deadline = 250; period = 100 }

abbrev ready : Strategy
ready = record {
  guard_conditions = [];
  subscription_handles = some 4 ∷ [];
  service_handles = [];
  client_handles = [];
  timer_handles = some 11 ∷ [];
  waitable_handles = [];
}

abbrev new : PreemptiveExecutor middleware library
new = make_executor middleware library none names (some ready) (chain ∷ []) (λ s. none) []

-- With the nodes added.
abbrev executor : PreemptiveExecutor middleware library
executor = record new {
  members = record new.members { pending = (1, entry drive) ∷ (2, entry log) ∷ [] };
}

abbrev add : Group → ℕ → List Entry → Outcome (List Entry)
add g n m = ok (record { group = some g; node = some n } ∷ m)

adds : AddsEntry add
adds P g n m m' e p h = subst (All P) (ok-injective e) (p, h)

accepts :
    (xs : List (Option (Bundle middleware))) (q : library.Queue)
    → (r : library.Queue) × (library.enqueue_bulk xs q ≡ some r)
accepts xs q = (q ++ xs, refl)

abbrev prepared : Outcome (Unit {0}) × PreemptiveExecutor middleware library
prepared =
    prepare middleware library in_order (λ es. es) add 5 (record executor { spinning = true })

prepared_runs : prepared ≡ (ok tt, prepared.1)
unfolding prepare make_executor
prepared_runs = refl

-- One wait in which nothing happens, one in which somebody cancels, and one that throws.
abbrev quiet_turn : Action (PreemptiveExecutor middleware library) (Unit {0})
quiet_turn x = (ok tt, x)

abbrev broken_turn : Action (PreemptiveExecutor middleware library) (Unit {0})
broken_turn x = (err rclcpp_exception, x)

abbrev cancelling_turn : Action (PreemptiveExecutor middleware library) (Unit {0})
cancelling_turn x = (ok tt, record x { spinning = false })

abbrev spun : Outcome (Unit {0}) × PreemptiveExecutor middleware library
spun =
    spin middleware library in_order (λ es. es) add 5
      (quiet_turn ∷ cancelling_turn ∷ quiet_turn ∷ []) executor

-- It returns before the last turn, and the ready subscription and timer are with the worker group
-- of their thread group.
spin_runs :
    (spun.0 ≡ ok tt)
    × (spun.1.spinning ≡ false)
    × (spun.1.registry ≡ some cleared)
    × (spun.1.non_rt_callback_groups_spawned ≡ true)
    × (map {B = ℕ × ℕ}
          (λ (e : ℕ × System library). (e.0, e.1.group.num_pending))
          spun.1.thread_group_id_worker_map
        ≡ (1, 2) ∷ [])
unfolding spin make_executor take_ready_handles take_and_bundle find_group get_raw_handle take_timer
    update_prio
spin_runs = (refl, refl, refl, refl, refl)

abbrev Fits : PreemptiveExecutor middleware library → Type 0
Fits = Fit middleware library accepts

abbrev Keeps : Action (PreemptiveExecutor middleware library) (Unit {0}) → Type 0
Keeps = KeepsFit middleware library accepts takes_return in_order (λ es. es) add 5

quiet_turn-Keeps : Keeps quiet_turn
quiet_turn-Keeps x y f e = subst Fits (ap (λ r. r.1) e) f

cancelling_turn-Keeps : Keeps cancelling_turn
cancelling_turn-Keeps x y f e =
    subst Fits (ap (λ r. r.1) e)
      (record { handles = f.handles; loaded = f.loaded; served = f.served; known = f.known })

-- A wait that throws ends `spin` with its exception.
wait_throws :
    (spin middleware library in_order (λ es. es) add 5 (quiet_turn ∷ broken_turn ∷ []) executor).0
    ≡ err rclcpp_exception
unfolding spin make_executor take_ready_handles take_and_bundle find_group get_raw_handle take_timer
    update_prio
wait_throws = refl

spun_ends : has_ended spun.0 ≡ true
unfolding has_ended
spun_ends = ap has_ended spin_runs.0

spin_throws_nothing_example :
    ReturnsOrGoesOn middleware library accepts takes_return in_order
      (λ es. es)
      add
      5
      (quiet_turn ∷ cancelling_turn ∷ quiet_turn ∷ [])
      spun.0
unfolding make_executor
spin_throws_nothing_example =
    spin_throws_nothing middleware library accepts takes_return in_order (λ es. es) add 5 adds
      (quiet_turn ∷ cancelling_turn ∷ quiet_turn ∷ []) executor prepared.1 refl refl refl refl
      prepared_runs (quiet_turn-Keeps, (cancelling_turn-Keeps, (quiet_turn-Keeps, tt)))

spin_leaves_example :
    (spun.1.spinning ≡ false)
    × ((spun ≡ (err already_spinning, executor))
        ⊎ AllStopped middleware library in_order (λ es. es) add 5 spun.1.thread_group_id_worker_map)
unfolding make_executor
spin_leaves_example =
    spin_leaves middleware library in_order (λ es. es) add 5
      (quiet_turn ∷ cancelling_turn ∷ quiet_turn ∷ []) executor spun_ends

respin_throws_example :
    Late middleware library in_order
      (λ es. es)
      add
      5
      (spin middleware library in_order (λ es. es) add 5 [] spun.1)
respin_throws_example =
    respin_throws middleware library in_order (λ es. es) add 5 [] spun.1 spin_runs.1 spin_runs.2
      spin_runs.3

-- Without the timer of its own.
abbrev timed_only : PreemptiveExecutor middleware library
timed_only = record new { members = record new.members { pending = (1, entry drive) ∷ [] } }

abbrev loaded_only : Outcome (Unit {0}) × PreemptiveExecutor middleware library
loaded_only =
    load_timing_info middleware library in_order (λ es. es) add 5
      (record timed_only { spinning = true })

abbrev timed_handles : List (ℕ × ℕ)
timed_handles = (4, 1) ∷ (11, 1) ∷ []

timed_loads :
    (loaded_only ≡ (ok tt, loaded_only.1))
    × (loaded_only.1.members.callback_handle_to_threadgroup_id ≡ some timed_handles)
unfolding load_timing_info make_executor
timed_loads = (refl, refl)

all_timed_fails_example :
    (spin middleware library in_order (λ es. es) add 5 (quiet_turn ∷ []) timed_only).0 ≢ ok tt
unfolding make_executor
all_timed_fails_example =
    all_timed_fails middleware library in_order (λ es. es) add 5 (quiet_turn ∷ []) timed_only
      loaded_only.1 timed_handles refl refl timed_loads.0 timed_loads.1 (refl, tt)
