-- ===== src/Executor/Spin.antt =====
-- src/preemptive_executor.cpp: the executor as a whole, from its constructor to its destructor:
-- `load_timing_info` and `spin`, with the function's static registry that `get_instance` keeps.
pub mod Loaded
pub mod Known
pub mod Prepared
pub mod Turns
pub mod Again
pub mod AllTimed
pub mod Leaving
mod Examples
use preemptive_executor.Common.{
  ℕ, Bool, true, false, ◌&&◌, if◌then◌else◌, Option, none, some, List, [], ◌∷◌, map, Outcome, ok,
  err, unfinished, already_spinning, null_dereference,
}
use preemptive_executor.Common.Action.{Action, resume}
use preemptive_executor.Common.Iteration.{Iteration}
use preemptive_executor.Ros.{Group, Entry}
use preemptive_executor.Chains.{UserChain}
use preemptive_executor.Registry.{Registry}
use preemptive_executor.Registry.Names.{Names}
use preemptive_executor.Registry.Build.{get_instance}
use preemptive_executor.Registry.Export.{
  ThreadGroupAttributes, TimingExport, callback_threadgroup_allocation,
}
use preemptive_executor.Strategy.{Strategy}
use preemptive_executor.Bundles.{Middleware, Bundle}
use preemptive_executor.Workers.{ConcurrentQueue}
use preemptive_executor.Workers.Trace.{System, step, stop}
use preemptive_executor.Executor.{Executor, classify_callback_groups}
use preemptive_executor.Executor.Spawn.{Spawning, spawn_worker_groups, stop_non_rt_executor}
use preemptive_executor.Executor.Populate.{Workers, Dispatching, populate_ready_queues}

-- Whether a run has come to its end.
unfoldable pub has_ended {ℓ} : {A : Type ℓ} → Outcome A → Bool
has_ended (err unfinished) = false
has_ended _ = true

-- A routine on a part of the state.
abbrev pub within {ℓ κ μ} :
    {X : Type ℓ} {S : Type κ} {A : Type μ} → (X → S) → (S → X → X) → Action S A → Action X A
within get put m x = let (o, s) = m (get x) in (o, put s x)

module _ (mw : Middleware) (library : ConcurrentQueue (Option (Bundle mw))) where
  -- `members` are those that `add_node` and the classification use; `context_ok` is
  -- `rclcpp::ok(context_)`, `registry` the static of `get_instance`, `names` the registered callback
  -- names. `user_chains` is in the order in which the map is walked.
  pub record PreemptiveExecutor : Type 0 where
    pub spinning : Bool
    pub context_ok : Bool
    pub registry : Option Registry
    pub names : Names
    pub user_chains : List UserChain
    pub members : Executor (List Entry)
    pub thread_groups : Option (List (ℕ × ThreadGroupAttributes))
    pub non_rt_executor : Option (List (Group × ℕ))
    pub non_rt_threads : ℕ
    pub non_rt_callback_groups_spawned : Bool
    pub thread_group_id_worker_map : Workers mw library
    pub rt_memory_strategy : Option Strategy
    pub loaned : ℕ → Option ℕ
    pub world : mw.World

  -- The constructor, in a process with this registry and these callback names. Its log message for
  -- another memory strategy in the options is left out.
  pub make_executor :
      Option Registry
      → Names
      → Option Strategy
      → List UserChain
      → (ℕ → Option ℕ)
      → mw.World
      → PreemptiveExecutor
  make_executor registry names strategy chains loaned world = record {
    spinning = false;
    context_ok = true;
    registry = registry;
    names = names;
    user_chains = chains;
    members = record {
      callback_handle_to_threadgroup_id = none;
      pending = [];
      weak_groups_to_nodes = [];
      non_rt_callback_groups = [];
      weak_nodes = [];
    };
    thread_groups = none;
    non_rt_executor = none;
    non_rt_threads = 0;
    non_rt_callback_groups_spawned = false;
    thread_group_id_worker_map = [];
    rt_memory_strategy = strategy;
    loaned = loaned;
    world = world;
  }

  abbrev pub spawning_of : PreemptiveExecutor → Spawning library
  spawning_of x = record {
    non_rt_callback_groups = x.members.non_rt_callback_groups;
    non_rt_executor = x.non_rt_executor;
    non_rt_threads = x.non_rt_threads;
    non_rt_callback_groups_spawned = x.non_rt_callback_groups_spawned;
    thread_group_id_worker_map = x.thread_group_id_worker_map;
  }

  abbrev pub put_spawning : Spawning library → PreemptiveExecutor → PreemptiveExecutor
  put_spawning s x = record x {
    members = record x.members { non_rt_callback_groups = s.non_rt_callback_groups };
    non_rt_executor = s.non_rt_executor;
    non_rt_threads = s.non_rt_threads;
    non_rt_callback_groups_spawned = s.non_rt_callback_groups_spawned;
    thread_group_id_worker_map = s.thread_group_id_worker_map;
  }

  abbrev pub dispatching_of : PreemptiveExecutor → Dispatching mw library
  dispatching_of x = record {
    rt_memory_strategy = x.rt_memory_strategy;
    weak_groups_to_nodes = x.members.weak_groups_to_nodes;
    callback_handle_to_threadgroup_id = x.members.callback_handle_to_threadgroup_id;
    thread_group_id_worker_map = x.thread_group_id_worker_map;
    loaned = x.loaned;
    world = x.world;
  }

  abbrev pub put_dispatching : Dispatching mw library → PreemptiveExecutor → PreemptiveExecutor
  put_dispatching d x = record x {
    rt_memory_strategy = d.rt_memory_strategy;
    members = record x.members {
      weak_groups_to_nodes = d.weak_groups_to_nodes;
      callback_handle_to_threadgroup_id = d.callback_handle_to_threadgroup_id;
    };
    thread_group_id_worker_map = d.thread_group_id_worker_map;
    loaned = d.loaned;
    world = d.world;
  }

  -- The destructor.
  pub destroy : PreemptiveExecutor → PreemptiveExecutor
  unfolding stop_non_rt_executor
  destroy x = put_spawning (stop_non_rt_executor library (spawning_of x)) x

  abbrev pub with_timing : TimingExport → PreemptiveExecutor → PreemptiveExecutor
  with_timing e x = record x {
    members = record x.members {
      callback_handle_to_threadgroup_id = some e.callback_handle_to_threadgroup_id;
    };
    thread_groups = some e.threadgroup_attributes;
  }

  -- The two swaps: what was there before is dropped with `result`.
  unfoldable pub take_export : Outcome TimingExport → Action PreemptiveExecutor (Unit {0})
  take_export (err v) x = (err v, x)
  take_export (ok e) x = (ok tt, with_timing e x)

  -- `order` is that of the entries of a map with weak pointers as keys. The fuel is that of the walk
  -- through the thread groups. rclcpp's `add_callback_group_to_map` is a parameter.
  module _ (it : Iteration) (order : List (ℕ × Entry) → List (ℕ × Entry))
      (add_callback_group_to_map : Group → ℕ → List Entry → Outcome (List Entry)) (fuel : ℕ) where
    unfoldable pub allocate : Outcome Registry → Action PreemptiveExecutor (Unit {0})
    unfolding take_export callback_threadgroup_allocation
    allocate (err v) x = (err v, x)
    allocate (ok r) x =
        let (o, s) = callback_threadgroup_allocation it fuel r in
        take_export o (record x { registry = some s })

    unfoldable pub load_timing_info : Action PreemptiveExecutor (Unit {0})
    unfolding allocate get_instance
    load_timing_info x =
        allocate
          (get_instance x.registry x.names (map (λ e. e.1) (order x.members.pending)) x.user_chains)
          x

    abbrev pub classify : Action PreemptiveExecutor (Unit {0})
    classify =
        within (λ x. x.members) (λ m x. record x { members = m })
          (classify_callback_groups add_callback_group_to_map order)

    -- Only the loop at the end of `spawn_worker_groups` reads the pointer to the thread groups.
    unfoldable pub spawn_from :
        Option (List (ℕ × ThreadGroupAttributes)) → Action PreemptiveExecutor (Unit {0})
    unfolding spawn_worker_groups
    spawn_from none x =
        resume (λ _ y. (err null_dereference, y))
          (within spawning_of put_spawning (spawn_worker_groups library mw.add_callback_group []) x)
    spawn_from (some groups) x =
        within spawning_of put_spawning
          (spawn_worker_groups library mw.add_callback_group
            (it.order (ℕ × ThreadGroupAttributes) groups))
          x

    abbrev pub spawn : Action PreemptiveExecutor (Unit {0})
    spawn x = spawn_from x.thread_groups x

    -- `spin` up to its loop.
    unfoldable pub prepare : Action PreemptiveExecutor (Unit {0})
    unfolding load_timing_info spawn_from classify_callback_groups
    prepare x = resume (λ _ y. resume (λ _. spawn) (classify y)) (load_timing_info x)

    abbrev pub populate : Action PreemptiveExecutor (Unit {0})
    populate = within dispatching_of put_dispatching (populate_ready_queues mw library it)

    -- A turn stands for one `wait_for_work`, with all that other threads do until it returns or throws;
    -- the run that is observed ends where no turn is left.
    abbrev pub Turn : Type 0
    Turn = Action PreemptiveExecutor (Unit {0})

    -- The test of the loop.
    abbrev pub while_spinning :
        Bool → Action PreemptiveExecutor (Unit {0}) → Action PreemptiveExecutor (Unit {0})
    while_spinning true k x = k x
    while_spinning false k x = (ok tt, x)

    unfoldable pub turns : List Turn → Action PreemptiveExecutor (Unit {0})
    unfolding populate_ready_queues
    turns [] x = while_spinning (x.context_ok && x.spinning) (λ y. (err unfinished, y)) x
    turns (wait_for_work ∷ rest) x =
        while_spinning (x.context_ok && x.spinning)
          (λ y. resume (λ _ z. turns rest z) (resume (λ _ z. populate z) (wait_for_work y))) x

    -- The worker groups refer to `spinning`.
    abbrev pub stop_spinning : PreemptiveExecutor → PreemptiveExecutor
    stop_spinning x = record x {
      spinning = false;
      thread_group_id_worker_map =
          map (λ (e : ℕ × System library). (e.0, step library e.1 stop))
            x.thread_group_id_worker_map;
    }

    -- The scope's exit, by a return or a throw.
    unfoldable pub scope_exit :
        Outcome (Unit {0}) × PreemptiveExecutor → Outcome (Unit {0}) × PreemptiveExecutor
    unfolding step has_ended
    scope_exit r = (r.0, if has_ended r.0 then stop_spinning r.1 else r.1)

    -- The flag's old value decides.
    unfoldable pub spin_if : Bool → List Turn → Action PreemptiveExecutor (Unit {0})
    unfolding prepare turns scope_exit
    spin_if true ts x = (err already_spinning, x)
    spin_if false ts x =
        scope_exit (resume (λ _ y. turns ts y) (prepare (record x { spinning = true })))

    unfoldable pub spin : List Turn → Action PreemptiveExecutor (Unit {0})
    unfolding spin_if
    spin ts x = spin_if x.spinning ts x
