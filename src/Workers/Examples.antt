-- ===== src/Workers/Examples.antt =====
-- Runs of worker groups (src/worker_group.cpp), and the theorems about them at concrete inputs.
use preemptive_executor.Common.{
  ℕ, ◌≤◌, ◌≡◌, refl, true, false, Option, none, some, List, [], ◌∷◌, ◌++◌, get_elem?, Bool, ◌==◌,
  nat_eq, length, keep, All,
}
use preemptive_executor.Workers.{
  ConcurrentQueue, Round, WorkerGroup, work, dispatch, update_prio, waiting, dequeuing,
}
use preemptive_executor.Workers.Trace.{
  Event, System, step, run, worker, dispatcher, make_group, make_worker_group, make_mutex_group,
  repeat,
}
use preemptive_executor.Workers.Backed.{
  IsBacked, at_queue, with_null, in_work, queued, permits-IsBacked, thread_finds_bundle,
}
use preemptive_executor.Workers.Conserved.{present, handed, bundles_conserved}
use preemptive_executor.Workers.Drained.{goes_on, at_rest, is_waiting, nothing_stranded}
use preemptive_executor.Workers.ListQueue.{list_queue}
use preemptive_executor.Workers.Boost.{HasPriority, update_prio_lem}

abbrev library : ConcurrentQueue (Option ℕ)
library = list_queue (Option ℕ)

-- One bundle goes through a group of two threads.
abbrev one_bundle : List (Event ℕ)
one_bundle = dispatcher (7 ∷ []) ∷ repeat 4 (dispatcher []) ++ repeat 7 (worker 1)

one_bundle_runs : (run library one_bundle (make_worker_group library 10 2)).group.ran ≡ 7 ∷ []
unfolding make_group step work dispatch
one_bundle_runs = refl

-- Two bundles boost the thread of a mutex group. When it is done with the first it finds one bundle
-- pending; before it sets its priority back, the dispatcher adds a third bundle and finds the group
-- boosted still. Afterwards two bundles are pending and the group is not boosted.
abbrev late_bundle : List (Event ℕ)
late_bundle =
    dispatcher (1 ∷ 2 ∷ []) ∷ repeat 6 (dispatcher [])
    ++ repeat 7 (worker 0)
    ++ dispatcher (3 ∷ []) ∷ repeat 4 (dispatcher [])
    ++ repeat 2 (worker 0)

boost_lost :
    let s = run library late_bundle (make_mutex_group library 10) in
    (s.group.num_pending ≡ 2)
    × (s.group.is_boosted ≡ some false)
    × (s.group.fifo ≡ 10 ∷ [])
    × (s.threads ≡ waiting ∷ [])
    × (s.round ≡ Round.resting)
unfolding make_group step work dispatch
boost_lost = (refl, refl, refl, refl, refl)

-- The same with the third bundle added between the two loads of the thread: it compares the flag with
-- the number that it found pending before.
abbrev between_loads : List (Event ℕ)
between_loads =
    dispatcher (1 ∷ 2 ∷ []) ∷ repeat 6 (dispatcher [])
    ++ repeat 6 (worker 0)
    ++ dispatcher (3 ∷ []) ∷ repeat 4 (dispatcher [])
    ++ repeat 3 (worker 0)

stale_count :
    let s = run library between_loads (make_mutex_group library 10) in
    (s.group.num_pending ≡ 2) × (s.group.is_boosted ≡ some false) × (s.threads ≡ waiting ∷ [])
unfolding make_group step work dispatch
stale_count = (refl, refl, refl)

permits-IsBacked_example :
    IsBacked library (run library late_bundle (make_group library (some false) 10 1))
permits-IsBacked_example = permits-IsBacked library (some false) 10 1 late_bundle

-- The thread of a group at `try_dequeue`.
abbrev at_try_dequeue : List (Event ℕ)
at_try_dequeue = dispatcher (7 ∷ []) ∷ repeat 4 (dispatcher []) ++ repeat 2 (worker 0)

abbrev before_dequeue : System library
before_dequeue = run library at_try_dequeue (make_group library none 10 1)

at_try_dequeue_place : get_elem? before_dequeue.threads 0 ≡ some (dequeuing 0)
unfolding make_group step work dispatch
at_try_dequeue_place = refl

thread_finds_bundle_example :
    (at_queue {B = ℕ} (dequeuing 0) ≤ queued library before_dequeue.group)
    × (with_null {B = ℕ} (dequeuing 0) ≡ 0)
    × (in_work {B = ℕ} (dequeuing 0) ≤ before_dequeue.group.num_pending)
thread_finds_bundle_example =
    thread_finds_bundle library none 10 1 at_try_dequeue 0 (dequeuing 0) at_try_dequeue_place

abbrev two_pending : WorkerGroup library
two_pending = record {
  priority = 10;
  is_boosted = some false;
  fifo = 10 ∷ [];
  semaphore = 2;
  queue = some 1 ∷ some 2 ∷ [];
  num_pending = 2;
  running = true;
  closing = false;
  ran = [];
}

update_prio_example :
    let r = update_prio library two_pending in
    (r.0 ≡ none)
    × HasPriority library true r.1
    × (r.1.num_pending ≡ 2)
    × (r.1.semaphore ≡ 2)
    × (r.1.queue ≡ some 1 ∷ some 2 ∷ [])
update_prio_example = update_prio_lem library false two_pending (refl, refl)

abbrev is_three : ℕ → Bool
is_three b = b == 3

-- The late third bundle is in the queue.
bundles_conserved_example :
    present library is_three (run library late_bundle (make_group library (some false) 10 1))
    ≡ length (keep is_three (handed library late_bundle (make_group library (some false) 10 1)))
bundles_conserved_example = bundles_conserved library is_three (some false) 10 1 late_bundle

abbrev after_one : System library
after_one = run library one_bundle (make_group library none 10 2)

at_rest_after :
    (at_rest after_one.round ≡ true)
    × (after_one.group.semaphore ≡ 0)
    × All (λ t. is_waiting t ≡ true) after_one.threads
unfolding make_group step work dispatch
at_rest_after = (refl, refl, (refl, (refl, tt)))

all_going : All (λ (v : Event ℕ). goes_on v ≡ true) one_bundle
all_going = (
  refl,
  (refl, (refl, (refl, (refl, (refl, (refl, (refl, (refl, (refl, (refl, (refl, tt))))))))))),
)

abbrev is_seven : ℕ → Bool
is_seven b = b == 7

nothing_stranded_example :
    length (keep is_seven after_one.group.ran)
    ≡ length (keep is_seven (handed library one_bundle (make_group library none 10 2)))
nothing_stranded_example =
    nothing_stranded library none 10 2 one_bundle is_seven all_going at_rest_after.0 at_rest_after.1
      at_rest_after.2
