-- ===== src/Executor/Populate/Examples.antt =====
-- Dispatch of ready entities (src/preemptive_executor.cpp, `populate_ready_queues`) at concrete inputs.
use preemptive_executor.Common.{
  ℕ, ◌≡◌, refl, true, false, Option, none, some, List, [], ◌∷◌, ◌++◌, lookup, All, is_some, nat_eq,
  Outcome, ok, err, timer_handle_not_found,
}
use preemptive_executor.Common.Iteration.{in_order}
use preemptive_executor.Ros.{Entity, subscription, timer, Group, collect_all_ptrs}
use preemptive_executor.Strategy.{Strategy}
use preemptive_executor.Strategy.Ready.{take_ready_handles}
use preemptive_executor.Bundles.{Bundle, generic, take_and_bundle, take_timer, get_raw_handle}
use preemptive_executor.Bundles.Recorder.{middleware, takes_return}
use preemptive_executor.Workers.{ConcurrentQueue, update_prio, somes}
use preemptive_executor.Workers.Trace.{System, make_group, make_worker_group}
use preemptive_executor.Workers.ListQueue.{list_queue}
use preemptive_executor.Executor.Populate.{Dispatching, find_group, populate_ready_queues}
use preemptive_executor.Executor.Populate.Sorted.{weigh}
use preemptive_executor.Executor.Populate.Conserved.{Gets, one_for}
use preemptive_executor.Executor.Populate.Handed.{made, populate_conserves}
use preemptive_executor.Executor.Populate.Returns.{AllServed, ReturnsFrom, populate_returns}

abbrev library : ConcurrentQueue (Option (Bundle middleware))
library = list_queue (Option (Bundle middleware))

abbrev entity : ℕ → Entity
entity p = record { ptr = p; handle = some p }

abbrev drive : Group
drive = record {
  id = 1;
  can_be_taken_from = true;
  automatically_add = true;
  associated = true;
  mutually_exclusive = false;
  members = subscription (entity 4) ∷ timer (entity 11) ∷ [];
}

-- Subscription 4 and timer 11 are ready.
abbrev ready : Strategy
ready = record {
  guard_conditions = [];
  subscription_handles = some 4 ∷ [];
  service_handles = [];
  client_handles = [];
  timer_handles = some 11 ∷ [];
  waitable_handles = [];
}

abbrev workers : ℕ → System library
workers n = make_worker_group library 10 n

abbrev executor : List (ℕ × ℕ) → Dispatching middleware library
executor hs = record {
  rt_memory_strategy = some ready;
  weak_groups_to_nodes = record { group = some drive; node = some 7 } ∷ [];
  callback_handle_to_threadgroup_id = some hs;
  thread_group_id_worker_map = (1, workers 2) ∷ (2, workers 1) ∷ [];
  loaned = λ s. none;
  world = [];
}

abbrev known : List (ℕ × ℕ)
known = (4, 2) ∷ (11, 1) ∷ []

abbrev populated : Outcome (Unit {0}) × Dispatching middleware library
populated = populate_ready_queues middleware library in_order (executor known)

populated_returns : populated ≡ (ok tt, populated.1)
unfolding populate_ready_queues take_ready_handles make_group collect_all_ptrs take_and_bundle
    find_group get_raw_handle take_timer update_prio
populated_returns = refl

subscription_queued :
    (lookup 2 populated.1.thread_group_id_worker_map)
    ≡ some (record (workers 1) {
      group = record (workers 1).group {
        queue = some (generic 4 (some 9) 5) ∷ [];
        num_pending = 1;
        semaphore = 1;
      };
    })
unfolding populate_ready_queues take_ready_handles make_group collect_all_ptrs take_and_bundle
    find_group get_raw_handle take_timer update_prio somes
subscription_queued = refl

-- A timer outside the timing information ends the routine; the bundle made before it is lost.
unknown_timer :
    (populate_ready_queues middleware library in_order (executor ((4, 2) ∷ []))).0
    ≡ err timer_handle_not_found
unfolding populate_ready_queues take_ready_handles collect_all_ptrs take_and_bundle find_group
    get_raw_handle take_timer
unknown_timer = refl

populate_conserves_example :
    Gets middleware library 2
      (λ p. weigh middleware (one_for 2 p) (made middleware library (executor known) known ready))
      (lookup 2 populated.1.thread_group_id_worker_map)
      (workers 1)
populate_conserves_example =
    populate_conserves middleware library in_order 2 (executor known) populated.1 ready known
      (workers 1) refl refl refl populated_returns

accepts :
    (xs : List (Option (Bundle middleware))) (q : library.Queue)
    → (r : library.Queue) × (library.enqueue_bulk xs q ≡ some r)
accepts xs q = (q ++ xs, refl)

all_served : AllServed middleware library accepts (executor known).thread_group_id_worker_map known
unfolding make_group
all_served = (refl, (refl, tt))

timers_known :
    All
      (λ (e : Entity). is_some (lookup e.ptr known) ≡ true)
      (take_ready_handles (executor known).weak_groups_to_nodes ready).timers
unfolding take_ready_handles collect_all_ptrs
timers_known = (refl, tt)

populate_returns_example : ReturnsFrom middleware library accepts (executor known) populated
populate_returns_example =
    populate_returns middleware library accepts in_order (executor known) ready known refl
      takes_return refl all_served timers_known
