-- ===== src/Registry/Export.antt =====
-- src/callback_registry.cpp: `export_timing_information`, and `callback_threadgroup_allocation`,
-- which runs the stages in a row. The output to `std::cout` is left out.
pub mod Stages
pub mod Stated
pub mod Exported
pub mod Cleared
use preemptive_executor.Common.{
  ℕ, suc, Bool, List, [], ◌∷◌, length, if◌then◌else◌, ◌==◌, nat_eq, upsert, emplace, String,
  Outcome, ok, err, not_assigned_to_threadgroup,
}
use preemptive_executor.Common.Action.{Action, resume}
use preemptive_executor.Common.Iteration.{Iteration}
use preemptive_executor.Registry.{
  CallbackInfo, ThreadGroupInfo, CallbackAdjacencyInfo, ThreadGroupAdjacencyInfo, Registry,
}
use preemptive_executor.Registry.Build.{Callbacks}
use preemptive_executor.Registry.Entity.{get_raw_pointer}
use preemptive_executor.Registry.Traverse.{Walk, visit_roots}
use preemptive_executor.Registry.Priorities.{assign_priorities}
use preemptive_executor.Registry.Threads.{visit_root_groups}

pub record ThreadGroupAttributes : Type 0 where
  pub tg_id : ℕ
  pub number_of_threads : ℕ
  pub priority : ℕ
  pub is_mutex_group : Bool

pub record TimingExport : Type 0 where
  pub callback_handle_to_threadgroup_id : List (ℕ × ℕ)
  pub threadgroup_attributes : List (ℕ × ThreadGroupAttributes)

abbrev pub attributes_of : ThreadGroupInfo → ThreadGroupAttributes
attributes_of t = record {
  tg_id = t.threadgroup_id;
  number_of_threads = t.num_threads;
  priority = t.fixed_priority;
  is_mutex_group = t.is_mutex_group;
}

-- The first loop: the key is the id that the thread group states.
pub export_groups :
    List (ℕ × ThreadGroupInfo) → List (ℕ × ThreadGroupAttributes) → List (ℕ × ThreadGroupAttributes)
export_groups [] m = m
export_groups ((i, t) ∷ rest) m = export_groups rest (emplace t.threadgroup_id (attributes_of t) m)

-- The second loop: a callback without a thread group ends it.
pub export_callbacks : Callbacks → List (ℕ × ℕ) → Outcome (List (ℕ × ℕ))
export_callbacks [] m = ok m
export_callbacks ((n, info) ∷ rest) m =
    let more =
      export_callbacks rest (upsert (get_raw_pointer info.entity) 0 (λ _. info.threadgroup_id) m) in
    if info.threadgroup_id == 0 then err not_assigned_to_threadgroup else more

unfoldable pub cleared : Registry
cleared = record {
  adjacency_list = [];
  threadgroup_adjacency_list = [];
  mutex_threadgroup_map = [];
  callback_map = [];
  threadgroup_callback_map = [];
  next_threadgroup_id = 1;
}

export_end :
    List (ℕ × ThreadGroupAttributes)
    → Registry
    → Outcome (List (ℕ × ℕ))
    → Outcome TimingExport × Registry
unfolding cleared
export_end attributes r (ok handles) = (
  ok (record { callback_handle_to_threadgroup_id = handles; threadgroup_attributes = attributes }),
  cleared,
)
export_end attributes r (err x) = (err x, r)

module _ (it : Iteration) where
  unfoldable pub export_timing_information : Action Registry TimingExport
  unfolding export_groups export_callbacks export_end
  export_timing_information r =
      export_end (export_groups (it.order (ℕ × ThreadGroupInfo) r.threadgroup_callback_map) []) r
        (export_callbacks (it.order (String × CallbackInfo) r.callback_map) [])

  -- The stages behind the traversal. The fuel is that of the walk through the thread groups.
  finish : ℕ → Walk → Outcome TimingExport × Registry
  unfolding assign_priorities visit_root_groups export_timing_information
  finish fuel w =
      let r = assign_priorities w.deadlines w.registry in
      resume (λ _. export_timing_information)
        (visit_root_groups it fuel
          (it.order (ℕ × ThreadGroupAdjacencyInfo) r.threadgroup_adjacency_list) r)

  after_roots : ℕ → Outcome (Unit {0}) × Walk → Outcome TimingExport × Registry
  unfolding finish
  after_roots fuel (ok u, w) = finish fuel w
  after_roots fuel (err x, w) = (err x, w.registry)

  -- The traversal has one unit of fuel more than there are callbacks.
  unfoldable pub callback_threadgroup_allocation : ℕ → Action Registry TimingExport
  unfolding visit_roots after_roots
  callback_threadgroup_allocation fuel r = after_roots fuel (
      visit_roots it (suc (length r.callback_map))
        (it.order (String × CallbackAdjacencyInfo) r.adjacency_list)
        (record { registry = r; deadlines = [] }))
