-- ===== src/Workers/Boost.antt =====
-- The priority of a mutex group's thread (src/worker_group.cpp: `MutexGroup::update_prio`).
use preemptive_executor.Common.{
  ◌≡◌, Bool, true, false, Option, none, some, [], ◌∷◌, if◌then◌else◌, ltb, nat_eq, arith,
}
use preemptive_executor.Workers.{
  ConcurrentQueue, WorkerGroup, update_prio, wanted_boost, apply_boost, set_fifo, max_fifo_prio,
}

module _ {B : Type 0} (library : ConcurrentQueue (Option B)) where
  -- The thread's priority is the boosted one exactly if `is_boosted` is set.
  abbrev pub HasPriority : Bool → WorkerGroup library → Type 0
  HasPriority boosted g =
      (g.is_boosted ≡ some boosted)
      × (g.fifo ≡ ((if boosted then max_fifo_prio else g.priority) ∷ []))

  -- A mutex group whose one thread has the priority that `is_boosted` says: `update_prio`, run by
  -- itself, throws nothing and leaves the group boosted, with the thread at priority 99, exactly if
  -- more than one bundle is pending, and the thread at the group's own priority if not; no number of
  -- bundles and no permit changes.
  pub update_prio_lem :
      (boosted : Bool) (g : WorkerGroup library)
      → HasPriority boosted g
      → let r = update_prio library g in
        (r.0 ≡ none)
        × HasPriority (ltb 1 g.num_pending) r.1
        × (r.1.num_pending ≡ g.num_pending)
        × (r.1.semaphore ≡ g.semaphore)
        × (r.1.queue ≡ g.queue)
  unfolding update_prio wanted_boost apply_boost set_fifo
  update_prio_lem true g h = ground arith
  update_prio_lem false g h = ground arith
