-- ===== src/Workers/Trace.antt =====
-- A worker group with its threads and its dispatcher, as they run side by side
-- (src/worker_group.cpp: constructors, `worker_main`, destructor). An interleaving is a list of
-- events: who makes the next step.
use preemptive_executor.Common.{
  ℕ, zero, suc, ◌+◌, Bool, true, false, Option, none, some, List, [], ◌∷◌, length, get_elem?,
  if◌then◌else◌, foldl,
}
use preemptive_executor.Workers.{
  ConcurrentQueue, Place, Round, WorkerGroup, work, dispatch, waiting,
}

pub data Event (B : Type 0) : Type 0 where
  worker : ℕ → Event B  -- the thread of that number makes a step
  dispatcher : List B → Event B
  start : Event B  -- the executor spins, and the context is fine
  stop : Event B  -- it does not, or the context is shut down
  close : Event B  -- the destructor's release; one before the executor has stopped is left out

abbrev pub replace {ℓ} : {A : Type ℓ} → ℕ → A → List A → List A
replace i a [] = []
replace zero a (x ∷ xs) = a ∷ xs
replace (suc i) a (x ∷ xs) = x ∷ replace i a xs

abbrev pub repeat {ℓ} : {A : Type ℓ} → ℕ → A → List A
repeat zero a = []
repeat (suc n) a = a ∷ repeat n a

module _ {B : Type 0} (library : ConcurrentQueue (Option B)) where
  pub record System : Type 0 where
    pub group : WorkerGroup library
    pub threads : List (Place B)
    pub round : Round

  -- The constructors: a MutexGroup has one thread and is not boosted.
  unfoldable pub make_group : Option Bool → ℕ → ℕ → System
  make_group is_boosted priority number_of_threads = record {
    group = record {
      priority = priority;
      is_boosted = is_boosted;
      fifo = repeat number_of_threads priority;
      semaphore = 0;
      queue = library.create;
      num_pending = 0;
      running = true;
      closing = false;
      ran = [];
    };
    threads = repeat number_of_threads waiting;
    round = Round.resting;
  }

  abbrev pub make_worker_group : ℕ → ℕ → System
  make_worker_group priority number_of_threads = make_group none priority number_of_threads

  abbrev pub make_mutex_group : ℕ → System
  make_mutex_group priority = make_group (some false) priority 1

  unfoldable pub work_at : ℕ → System → Option (Place B) → System
  unfolding work
  work_at i s none = s
  work_at i s (some p) =
      let next = work library p s.group in
      record s { group = next.1; threads = replace i next.0 s.threads }

  unfoldable pub step : System → Event B → System
  unfolding work_at dispatch
  step s (worker i) = work_at i s (get_elem? s.threads i)
  step s (dispatcher bundles) =
      let next = dispatch library bundles s.round s.group in
      record s { group = next.1; round = next.0 }
  step s start =
      if s.group.closing then s else record s { group = record s.group { running = true } }
  step s stop = record s { group = record s.group { running = false } }
  step s close = if s.group.running then s else record s {
    group = record s.group { closing = true; semaphore = s.group.semaphore + length s.threads };
  }

  abbrev pub run : List (Event B) → System → System
  run events s = foldl step s events
