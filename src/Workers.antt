-- ===== src/Workers.antt =====
-- include/preemptive_executor/worker_group.hpp and src/worker_group.cpp: a worker group, the steps
-- of its threads through `worker_main`, and the steps of the dispatcher that feeds it (the last loop
-- of `populate_ready_queues` in src/preemptive_executor.cpp, for one group).
--
-- A step is what a thread does between two accesses of the others to what it reads or writes. A step
-- of a blocked thread changes nothing. The pauses between two attempts are left out.
use preemptive_executor.Common.{
  ℕ, zero, suc, ◌+◌, ◌-◌, ◌≡◌, Bool, true, false, not, ◌&&◌, Option, none, some, is_some, List, [],
  ◌∷◌, ◌++◌, length, keep, get_elem?, if◌then◌else◌, ltb, ◌==◌, nat_eq, Error, enqueue_failed,
  mutex_group_threads, ready_queue_invalid,
}
pub mod Trace
mod Tally
pub mod Backed
pub mod Conserved
pub mod Drained
pub mod Boost
pub mod ListQueue
mod Examples

-- What the program uses of `moodycamel::ConcurrentQueue`. A queue's `try_dequeue` may fail though
-- it holds elements; `count p` is the number of its elements with the property `p`.
pub record ConcurrentQueue (A : Type 0) : Type 1 where
  pub Queue : Type 0
  pub create : Queue
  pub enqueue_bulk : List A → Queue → Option Queue
  pub try_dequeue : Queue → Option A × Queue
  pub count : (A → Bool) → Queue → ℕ
  pub count-create : (p : A → Bool) → count p create ≡ 0
  pub count-enqueue_bulk :
      (p : A → Bool) (xs : List A) (q r : Queue)
      → enqueue_bulk xs q ≡ some r
      → count p r ≡ count p q + length (keep p xs)
  pub count-try_dequeue :
      (p : A → Bool) (x : A) (q r : Queue)
      → try_dequeue q ≡ (some x, r)
      → count p q ≡ count p r + (if p x then 1 else 0)
  pub count-miss : (p : A → Bool) (q r : Queue) → try_dequeue q ≡ (none, r) → count p q ≡ count p r

-- Where a thread stands in `worker_main`. A pointer to a bundle may be null.
pub data Place (B : Type 0) : Type 0 where
  waiting : Place B  -- at the semaphore
  acquired : Place B  -- has taken a permit, before the test of the context and of `exec_spinning`
  dequeuing : ℕ → Place B  -- before `try_dequeue`, with `failed_attempts`
  holding : Option B → Place B  -- after `try_dequeue`, before `run`
  finished : Place B  -- after `run`, before `fetch_sub`
  updating : Place B  -- before `update_prio` loads `num_pending`
  comparing : Bool → Place B  -- with `should_boost`, before it loads `is_boosted`
  setting : Bool → Place B  -- in `update_prio`, before the thread's priority is set
  storing : Bool → Place B  -- in `update_prio`, before `is_boosted` is stored
  stopped : Place B  -- has left the loop
  failed : Error → Place B  -- has thrown

-- Where the dispatcher stands, with the number of bundles of this round.
pub data Round : Type 0 where
  resting : Round
  enqueued : ℕ → Round  -- before `fetch_add`
  counted : ℕ → Round  -- before `update_prio` loads `num_pending`
  comparing : ℕ → Bool → Round  -- before it loads `is_boosted`
  setting : ℕ → Bool → Round
  storing : ℕ → Bool → Round
  releasing : ℕ → Round  -- before `semaphore.release`
  failed : Error → Round

abbrev pub max_fifo_prio : ℕ
max_fifo_prio = 99

module _ {B : Type 0} (library : ConcurrentQueue (Option B)) where
  open library use {Queue, create, enqueue_bulk, try_dequeue}

  -- WorkerGroup and MutexGroup: `is_boosted` is `none` for a group that is no MutexGroup. `fifo` are
  -- the threads' scheduling priorities, `running` is whether the context is fine and the executor
  -- spins, `closing` whether the destructor has begun, `ran` the bundles whose `run` was called.
  pub record WorkerGroup : Type 0 where
    pub priority : ℕ
    pub is_boosted : Option Bool
    pub fifo : List ℕ
    pub semaphore : ℕ
    pub queue : Queue
    pub num_pending : ℕ
    pub running : Bool
    pub closing : Bool
    pub ran : List B

  -- `update_prio` up to its early return: what the priority is to become, if it is to change. In a
  -- group that is no MutexGroup `update_prio` does nothing.
  abbrev boost_change : Bool → Option Bool → Option Bool
  boost_change should_boost none = none
  boost_change should_boost (some boosted) =
      if should_boost
      then (if boosted then none else some true)
      else (if boosted then some false else none)

  unfoldable pub wanted_boost : WorkerGroup → Option Bool → Option Bool
  wanted_boost g o = boost_change (ltb 1 g.num_pending) o

  -- The result of pthread_setschedparam, which the code ignores, is taken to be success: `fifo` is
  -- what was asked for.
  unfoldable pub set_fifo : Bool → WorkerGroup → WorkerGroup
  set_fifo boost g = record g { fifo = (if boost then max_fifo_prio else g.priority) ∷ [] }

  -- `update_prio` without another thread's steps in between, and what it throws.
  unfoldable pub apply_boost : WorkerGroup → Option Bool → Option Error × WorkerGroup
  unfolding set_fifo
  apply_boost g none = (none, g)
  apply_boost g (some boost) =
      if length g.fifo == 1
      then (none, record (set_fifo boost g) { is_boosted = some boost })
      else (some mutex_group_threads, g)

  unfoldable pub update_prio : WorkerGroup → Option Error × WorkerGroup
  unfolding wanted_boost apply_boost
  update_prio g = apply_boost g (wanted_boost g g.is_boosted)

  unfoldable pub dequeued : ℕ → WorkerGroup → Option (Option B) × Queue → Place B × WorkerGroup
  dequeued failed_attempts g (some exec, q) = (holding exec, record g { queue = q })
  dequeued failed_attempts g (none, q) = (
    (if ltb 10 failed_attempts
        then failed ready_queue_invalid
        else dequeuing (suc failed_attempts)),
    record g { queue = q },
  )

  unfoldable pub updated : WorkerGroup → Option Bool → Place B × WorkerGroup
  updated g none = (waiting, g)
  updated g (some boost) = (setting boost, g)

  -- A step of a thread.
  unfoldable pub work : Place B → WorkerGroup → Place B × WorkerGroup
  unfolding dequeued updated wanted_boost set_fifo
  work waiting g =
      if g.semaphore == 0
      then (waiting, g)
      else (acquired, record g { semaphore = g.semaphore - 1 })
  work acquired g = ((if g.running then dequeuing 0 else stopped), g)
  work (dequeuing n) g = dequeued n g (try_dequeue g.queue)
  work (holding none) g = (failed ready_queue_invalid, g)
  work (holding (some exec)) g = (finished, record g { ran = exec ∷ g.ran })
  work finished g = (updating, record g { num_pending = g.num_pending - 1 })
  work updating g = (comparing (ltb 1 g.num_pending), g)
  work (comparing should_boost) g = updated g (boost_change should_boost g.is_boosted)
  work (setting boost) g =
      if length g.fifo == 1
      then (storing boost, set_fifo boost g)
      else (failed mutex_group_threads, g)
  work (storing boost) g = (waiting, record g { is_boosted = some boost })
  work stopped g = (stopped, g)
  work (failed x) g = (failed x, g)

  unfoldable pub accepted : ℕ → WorkerGroup → Option Queue → Round × WorkerGroup
  accepted n g none = (failed enqueue_failed, g)
  accepted n g (some q) = (enqueued n, record g { queue = q })

  unfoldable pub checked : ℕ → WorkerGroup → Option Bool → Round × WorkerGroup
  checked n g none = (releasing n, g)
  checked n g (some boost) = (setting n boost, g)

  -- The bundles that the dispatcher hands over are not null: `emplace_bundle` drops null pointers.
  unfoldable pub somes : List B → List (Option B)
  somes [] = []
  somes (b ∷ bs) = some b ∷ somes bs

  -- A step of the dispatcher; `bundles` are those of the round that it begins.
  unfoldable pub dispatch : List B → Round → WorkerGroup → Round × WorkerGroup
  unfolding accepted checked somes wanted_boost set_fifo
  dispatch [] resting g = (resting, g)
  dispatch (b ∷ bs) resting g = accepted (suc (length bs)) g (enqueue_bulk (somes (b ∷ bs)) g.queue)
  dispatch bundles (enqueued n) g = (counted n, record g { num_pending = g.num_pending + n })
  dispatch bundles (counted n) g = (comparing n (ltb 1 g.num_pending), g)
  dispatch bundles (comparing n should_boost) g =
      checked n g (boost_change should_boost g.is_boosted)
  dispatch bundles (setting n boost) g =
      if length g.fifo == 1
      then (storing n boost, set_fifo boost g)
      else (failed mutex_group_threads, g)
  dispatch bundles (storing n boost) g = (releasing n, record g { is_boosted = some boost })
  dispatch bundles (releasing n) g = (resting, record g { semaphore = g.semaphore + n })
  dispatch bundles (failed x) g = (failed x, g)
