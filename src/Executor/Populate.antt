-- ===== src/Executor/Populate.antt =====
-- src/preemptive_executor.cpp: `populate_ready_queues`. The lock and the output are left out.
pub mod Sorted
pub mod Conserved
pub mod Handed
pub mod Served
pub mod Returns
mod Examples
use preemptive_executor.Common.{
  ℕ, Bool, Option, none, some, List, [], ◌∷◌, ◌++◌, lookup, upsert, nat_eq, Outcome, ok, err,
  null_dereference, timer_handle_not_found, unknown_thread_group,
}
use preemptive_executor.Common.Action.{Action, resume}
use preemptive_executor.Common.Iteration.{Iteration}
use preemptive_executor.Ros.{Entity, Entry}
use preemptive_executor.Strategy.{Strategy}
use preemptive_executor.Strategy.Ready.{Ready, take_ready_handles}
use preemptive_executor.Bundles.{Middleware, Bundle, get_raw_handle, take_and_bundle, take_timer}
use preemptive_executor.Workers.{ConcurrentQueue}
use preemptive_executor.Workers.Trace.{System}
use preemptive_executor.Executor.Deliver.{deliver}

-- `callback_handle_to_threadgroup_id` is null before the timing information is loaded.
abbrev pub Handles : Type 0
Handles = Option (List (ℕ × ℕ))

unfoldable pub find_group : Handles → ℕ → Outcome (Option ℕ)
find_group none h = err null_dereference
find_group (some handles) h = ok (lookup h handles)

module _ (mw : Middleware) where
  abbrev pub Bundles : Type 0
  Bundles = List (ℕ × List (Bundle mw))

  -- What the loops over the ready entities change: `bundles_by_tgid`, and rclcpp's own state.
  pub record Sorting : Type 0 where
    pub world : mw.World
    pub bundles_by_tgid : Bundles

  unfoldable pub emplace_bundle : ℕ → Bundle mw → Bundles → Bundles
  emplace_bundle tgid b m = upsert tgid [] (λ bs. bs ++ b ∷ []) m

  -- A bundle whose handle is not in the map is dropped with a warning, or ends the routine.
  unfoldable pub file_bundle :
      Outcome (Unit {0}) → Bundle mw → Outcome (Option ℕ) → Action Sorting (Unit {0})
  unfolding emplace_bundle
  file_bundle missing b (err x) s = (err x, s)
  file_bundle missing b (ok none) s = (missing, s)
  file_bundle missing b (ok (some tgid)) s =
      (ok tt, record s { bundles_by_tgid = emplace_bundle tgid b s.bundles_by_tgid })

  -- What the loop does with the end of a take: a throw ends the routine, without a bundle it goes on.
  unfoldable pub place :
      Handles
      → Outcome (Unit {0})
      → Sorting
      → Outcome (Option (Bundle mw)) × mw.World
      → Outcome (Unit {0}) × Sorting
  unfolding file_bundle
  place handles missing s (err x, w) = (err x, record s { world = w })
  place handles missing s (ok none, w) = (ok tt, record s { world = w })
  place handles missing s (ok (some b), w) =
      file_bundle missing b (find_group handles (get_raw_handle mw b)) (record s { world = w })

  -- How an entity is taken: `take_and_bundle` for a subscription, `take_timer` for a timer.
  abbrev pub Take : Type 0
  Take = ℕ → mw.World → Outcome (Option (Bundle mw)) × mw.World

  unfoldable pub place_all :
      Handles → Outcome (Unit {0}) → Take → List Entity → Action Sorting (Unit {0})
  unfolding place
  place_all handles missing take [] s = (ok tt, s)
  place_all handles missing take (e ∷ es) s =
      resume (λ _. place_all handles missing take es) (place handles missing s (take e.ptr s.world))

  module _ (library : ConcurrentQueue (Option (Bundle mw))) where
    abbrev pub Workers : Type 0
    Workers = List (ℕ × System library)

    unfoldable pub dispatch_to :
        ℕ → List (Bundle mw) → Option (System library) → Action Workers (Unit {0})
    unfolding deliver
    dispatch_to tgid bundles none m = (err unknown_thread_group, m)
    dispatch_to tgid bundles (some s) m =
        let (r, g) = deliver library bundles s.group in
        (r, upsert tgid s (λ _. record s { group = g }) m)

    -- `worker_it` is found before the bundles are handed over; an entry without bundles is skipped.
    unfoldable pub dispatch_entry : ℕ → List (Bundle mw) → Action Workers (Unit {0})
    unfolding dispatch_to
    dispatch_entry tgid [] m = (ok tt, m)
    dispatch_entry tgid (b ∷ bs) m = dispatch_to tgid (b ∷ bs) (lookup tgid m) m

    -- The last loop, with no step of a worker group's thread in between.
    unfoldable pub dispatch_all : Bundles → Action Workers (Unit {0})
    unfolding dispatch_entry
    dispatch_all [] m = (ok tt, m)
    dispatch_all ((tgid, bundles) ∷ rest) m =
        resume (λ _. dispatch_all rest) (dispatch_entry tgid bundles m)

    -- The executor's members that the routine reads and writes. `loaned` is what the uninitialised
    -- member of the new LoanedMsgSubscription for a subscription holds.
    pub record Dispatching : Type 0 where
      pub rt_memory_strategy : Option Strategy
      pub weak_groups_to_nodes : List Entry
      pub callback_handle_to_threadgroup_id : Handles
      pub thread_group_id_worker_map : Workers
      pub loaned : ℕ → Option ℕ
      pub world : mw.World

    abbrev pub dispatched :
        Dispatching → mw.World → Outcome (Unit {0}) × Workers → Outcome (Unit {0}) × Dispatching
    dispatched x w (r, m) = (r, record x { world = w; thread_group_id_worker_map = m })

    module _ (it : Iteration) where
      unfoldable pub hand_over :
          Dispatching → Outcome (Unit {0}) × Sorting → Outcome (Unit {0}) × Dispatching
      unfolding dispatch_all
      hand_over x (err v, s) = (err v, record x { world = s.world })
      hand_over x (ok u, s) = dispatched x s.world (
          dispatch_all (it.order (ℕ × List (Bundle mw)) s.bundles_by_tgid)
            x.thread_group_id_worker_map)

      abbrev pub place_subscriptions : Dispatching → List Entity → Action Sorting (Unit {0})
      place_subscriptions x =
          place_all x.callback_handle_to_threadgroup_id (ok tt)
            (λ p w. take_and_bundle mw (x.loaned p) p w)

      abbrev pub place_timers : Dispatching → List Entity → Action Sorting (Unit {0})
      place_timers x =
          place_all x.callback_handle_to_threadgroup_id (err timer_handle_not_found) (take_timer mw)

      unfoldable pub populate_from : Ready → Action Dispatching (Unit {0})
      unfolding hand_over place_all
      populate_from ready x =
          hand_over (record x { rt_memory_strategy = some ready.strategy })
            (resume (λ _. place_timers x ready.timers)
              (place_subscriptions x ready.subscriptions
                (record { world = x.world; bundles_by_tgid = [] })))

      unfoldable pub populate_with : Option Strategy → Workers → Action Dispatching (Unit {0})
      unfolding populate_from
      populate_with none m x = (ok tt, x)
      populate_with (some s) [] x = (ok tt, x)
      populate_with (some s) (w ∷ ws) x =
          populate_from (take_ready_handles x.weak_groups_to_nodes s) x

      unfoldable pub populate_ready_queues : Action Dispatching (Unit {0})
      unfolding populate_with
      populate_ready_queues x = populate_with x.rt_memory_strategy x.thread_group_id_worker_map x
