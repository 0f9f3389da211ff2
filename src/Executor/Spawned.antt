-- ===== src/Executor/Spawned.antt =====
-- Spawning worker groups (src/preemptive_executor.cpp) at concrete inputs.
use preemptive_executor.Common.{
  ℕ, ◌≡◌, refl, true, false, Option, none, some, List, [], ◌∷◌, ◌+◌, lookup, nat_eq, ok, err, ap,
  arith, non_rt_already_spawned, rclcpp_exception, Outcome, if◌then◌else◌, any, ◌==◌,
}
use preemptive_executor.Ros.{Group}
use preemptive_executor.Registry.Export.{ThreadGroupAttributes}
use preemptive_executor.Workers.{ConcurrentQueue}
use preemptive_executor.Executor.Spawn.{Spawning, spawn_worker_groups}
use preemptive_executor.Executor.Spawn.Made.{Spawned, spawn_worker_groups_lem}

abbrev logging : Group
logging = record {
  id = 2;
  can_be_taken_from = true;
  automatically_add = true;
  associated = false;
  mutually_exclusive = true;
  members = [];
}

abbrev attributes : ThreadGroupAttributes
attributes = record { tg_id = 1; number_of_threads = 3; priority = 2; is_mutex_group = false }

none_is_not_some : {A : Type 0} (x : A) → Path (Option A) none (some x) → ⊥
none_is_not_some x h = ground (arith, h)

-- A queue for which there is never memory.
abbrev no_queue : ConcurrentQueue (Option ℕ)
no_queue = record {
  Queue = Unit {0};
  create = tt;
  enqueue_bulk = λ xs q. none;
  try_dequeue = λ q. (none, q);
  count = λ p q. 0;
  count-create = λ p. refl;
  count-enqueue_bulk = λ p xs q r h. absurd (none_is_not_some r h);
  count-try_dequeue = λ p x q r h. absurd (none_is_not_some x (ap (λ w. w.0) h));
  count-miss = λ p q r h. refl;
}

abbrev before : List (Group × ℕ) → Spawning no_queue
before gs = record {
  non_rt_callback_groups = gs;
  non_rt_executor = none;
  non_rt_threads = 0;
  non_rt_callback_groups_spawned = false;
  thread_group_id_worker_map = [];
}

-- It takes each callback group, but not one that it has already.
abbrev takes_new : Group → ℕ → List (Group × ℕ) → Outcome (Unit {0})
takes_new g n given =
    if any (λ (e : Group × ℕ). e.0.id == g.id) given then err rclcpp_exception else ok tt

-- A group that is there twice: the throw leaves the executor with the first, and no worker group.
twice_refused :
    spawn_worker_groups no_queue takes_new
      ((1, attributes) ∷ [])
      (before ((logging, 7) ∷ (logging, 7) ∷ []))
    ≡ (
      err rclcpp_exception,
      record (before ((logging, 7) ∷ (logging, 7) ∷ [])) {
        non_rt_executor = some ((logging, 7) ∷ []);
      },
    )
unfolding spawn_worker_groups
twice_refused = refl

-- Without callback groups outside the timing information no worker group is made.
nothing_spawned :
    spawn_worker_groups no_queue takes_new ((1, attributes) ∷ []) (before [])
    ≡ (err non_rt_already_spawned, before [])
unfolding spawn_worker_groups
nothing_spawned = refl

spawn_worker_groups_example :
    let r =
      spawn_worker_groups no_queue takes_new ((1, attributes) ∷ []) (before ((logging, 7) ∷ [])) in
    (r.0 ≡ ok tt)
    × (r.1.non_rt_executor ≡ some ((logging, 7) ∷ []))
    × (r.1.non_rt_threads ≡ 0 + 1)
    × Spawned no_queue none (some attributes) (lookup 1 r.1.thread_group_id_worker_map)
spawn_worker_groups_example =
    spawn_worker_groups_lem no_queue takes_new 1 ((1, attributes) ∷ []) (before ((logging, 7) ∷ []))
      refl refl (refl, tt)
