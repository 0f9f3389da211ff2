-- ===== src/Executor/Spawn/Made.antt =====
-- The worker groups that `spawn_worker_groups` (src/preemptive_executor.cpp) makes.
use preemptive_executor.Common.{
  ℕ, ◌+◌, ◌≡◌, refl, Bool, true, false, Option, none, some, List, [], ◌∷◌, ◌++◌, lookup, length,
  if◌then◌else◌, ◌==◌, nat_eq, Outcome, ok, Bool-cases, inl, inr, sym, ap, ◌∙◌, append-nil,
  append_assoc,
}
use preemptive_executor.Ros.{Group}
use preemptive_executor.Registry.Export.{ThreadGroupAttributes}
use preemptive_executor.Workers.{ConcurrentQueue, waiting}
use preemptive_executor.Workers.Trace.{System, make_group, repeat}
use preemptive_executor.Executor.Spawn.{
  Spawning, make_group_for, first_for, made_for, add_to_non_rt, spawned_with, spawn_worker_groups,
  lookup-spawn_all,
}

module _ {B : Type 0} (library : ConcurrentQueue (Option B)) where
  -- A worker group as its constructor is to leave it: the threads of the stated number all wait, at
  -- the stated priority; there is no bundle and no permit; and there is a boost flag, which is
  -- down, exactly in a mutex group.
  pub record IsNew (boosted : Option Bool) (priority threads : ℕ) (w : System library)
      : Type 0 where
    pub running : w.group.running ≡ true
    pub closing : w.group.closing ≡ false
    pub queue : w.group.queue ≡ library.create
    pub num_pending : w.group.num_pending ≡ 0
    pub semaphore : w.group.semaphore ≡ 0
    pub is_boosted : w.group.is_boosted ≡ boosted
    pub own_priority : w.group.priority ≡ priority
    pub fifo : w.group.fifo ≡ repeat threads priority
    pub all_waiting : w.threads ≡ repeat threads waiting
    pub nothing_ran : w.group.ran ≡ []

  abbrev pub IsFor : ThreadGroupAttributes → System library → Type 0
  IsFor t w =
      if t.is_mutex_group
      then IsNew (some false) t.priority 1 w
      else IsNew none t.priority t.number_of_threads w

  -- The worker group of an id: the one that was there, or else one for the thread group that states
  -- the id first.
  abbrev pub Spawned :
      Option (System library) → Option ThreadGroupAttributes → Option (System library) → Type 0
  Spawned (some w) o after = after ≡ some w
  Spawned none none after = after ≡ none
  Spawned none (some t) after = (w : System library) × (after ≡ some w) × IsFor t w

  make_group_for-IsFor : (t : ThreadGroupAttributes) → IsFor t (make_group_for library t)
  unfolding make_group_for make_group
  make_group_for-IsFor t = elim (Bool-cases t.is_mutex_group) [
    | inl mutex ↦ rw mutex (record {
      running = refl;
      closing = refl;
      queue = refl;
      num_pending = refl;
      semaphore = refl;
      is_boosted = refl;
      own_priority = refl;
      fifo = refl;
      all_waiting = refl;
      nothing_ran = refl;
    })
    | inr plain ↦ rw plain (record {
      running = refl;
      closing = refl;
      queue = refl;
      num_pending = refl;
      semaphore = refl;
      is_boosted = refl;
      own_priority = refl;
      fifo = refl;
      all_waiting = refl;
      nothing_ran = refl;
    })
  ]

  made_for-Spawned :
      (before : Option (System library)) (o : Option ThreadGroupAttributes)
      (after : Option (System library))
      → after ≡ made_for library before o
      → Spawned before o after
  made_for-Spawned (some w) o after h = h
  made_for-Spawned none none after h = h
  made_for-Spawned none (some t) after h = (make_group_for library t, h, make_group_for-IsFor t)

  module _ (add_callback_group : Group → ℕ → List (Group × ℕ) → Outcome (Unit {0})) where
    -- The other executor takes each of the callback groups, after those before it.
    abbrev pub AllTaken : List (Group × ℕ) → List (Group × ℕ) → Type 0
    AllTaken [] given = Unit
    AllTaken ((g, n) ∷ gs) given =
        (add_callback_group g n given ≡ ok tt) × AllTaken gs (given ++ (g, n) ∷ [])

    add_to_non_rt-append :
        (gs given : List (Group × ℕ))
        → AllTaken gs given
        → add_to_non_rt library add_callback_group gs given ≡ (ok tt, given ++ gs)
    unfolding add_to_non_rt
    add_to_non_rt-append [] given h = ap (λ l. (ok tt, l)) (sym (append-nil given))
    add_to_non_rt-append ((g, n) ∷ gs) given (h, rest) = rw h (
        add_to_non_rt-append gs (given ++ (g, n) ∷ []) rest
        ∙ ap (λ l. (ok tt, l)) (append_assoc given ((g, n) ∷ []) gs))

    -- With callback groups outside the timing information at hand, no executor spawned for them, and
    -- rclcpp's `add_callback_group` throwing for none of them, `spawn_worker_groups` returns; the
    -- other executor has exactly those callback groups, in their order, and one thread more spins it;
    -- and for every id the map then holds the worker group that it held before or, if it held none,
    -- a new one for the first thread group that states that id, at the stated priority: with one
    -- thread and a boost flag for a mutex group, and otherwise with the stated number of
    -- threads and without a flag.
    pub spawn_worker_groups_lem :
        (i : ℕ) (thread_groups : List (ℕ × ThreadGroupAttributes)) (s : Spawning library)
        → s.non_rt_callback_groups_spawned ≡ false
        → (length s.non_rt_callback_groups == 0) ≡ false
        → AllTaken s.non_rt_callback_groups []
        → let r = spawn_worker_groups library add_callback_group thread_groups s in
          (r.0 ≡ ok tt)
          × (r.1.non_rt_executor ≡ some s.non_rt_callback_groups)
          × (r.1.non_rt_threads ≡ s.non_rt_threads + 1)
          × Spawned
              (lookup i s.thread_group_id_worker_map)
              (first_for library i thread_groups)
              (lookup i r.1.thread_group_id_worker_map)
    unfolding spawn_worker_groups spawned_with
    spawn_worker_groups_lem i thread_groups s h e taken =
        rw (h, e, add_to_non_rt-append s.non_rt_callback_groups [] taken)
          (
            refl,
            refl,
            refl,
            made_for-Spawned (lookup i s.thread_group_id_worker_map)
                (first_for library i thread_groups) _
                (lookup-spawn_all library i thread_groups s.thread_group_id_worker_map),
          )
