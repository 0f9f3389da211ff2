-- ===== src/Executor/Spawn.antt =====
-- src/preemptive_executor.cpp: `spawn_worker_groups` and `stop_non_rt_executor`. rclcpp's
-- MultiThreadedExecutor is what it was given: the callback groups that were added to it. Its
-- `add_callback_group`, which may throw, is a parameter.
pub mod Made
use preemptive_executor.Common.{
  ℕ, ◌+◌, ◌≡◌, refl, Bool, true, false, not, ◌&&◌, Option, none, some, List, [], ◌∷◌, lookup,
  lookup-upsert, emplace, length, ◌++◌, Outcome, if◌then◌else◌, ◌==◌, nat_eq, ok, err,
  non_rt_already_spawned, Bool-cases, inl, inr, value_or, sym, ap, ◌∙◌,
}
use preemptive_executor.Common.Action.{Action, resume}
use preemptive_executor.Ros.{Group}
use preemptive_executor.Registry.Export.{ThreadGroupAttributes}
use preemptive_executor.Workers.{ConcurrentQueue}
use preemptive_executor.Workers.Trace.{System, make_group, make_worker_group, make_mutex_group}

module _ {B : Type 0} (library : ConcurrentQueue (Option B)) where
  -- `non_rt_threads` counts the threads that spin the other executor.
  pub record Spawning : Type 0 where
    pub non_rt_callback_groups : List (Group × ℕ)
    pub non_rt_executor : Option (List (Group × ℕ))
    pub non_rt_threads : ℕ
    pub non_rt_callback_groups_spawned : Bool
    pub thread_group_id_worker_map : List (ℕ × System library)

  unfoldable pub make_group_for : ThreadGroupAttributes → System library
  unfolding make_group
  make_group_for t =
      if t.is_mutex_group
      then make_mutex_group library t.priority
      else make_worker_group library t.priority t.number_of_threads

  -- The loop over the thread groups. A worker group whose id is taken is made and dropped: what its
  -- threads do until they are joined, while `spinning` holds, is left out.
  unfoldable pub spawn_all :
      List (ℕ × ThreadGroupAttributes) → List (ℕ × System library) → List (ℕ × System library)
  unfolding make_group_for
  spawn_all [] m = m
  spawn_all ((i, t) ∷ ts) m = spawn_all ts (emplace t.tg_id (make_group_for t) m)

  -- A throw leaves the member with the new executor.
  unfoldable pub spawned_with :
      List (ℕ × ThreadGroupAttributes)
      → Spawning
      → Outcome (Unit {0}) × List (Group × ℕ)
      → Outcome (Unit {0}) × Spawning
  unfolding spawn_all
  spawned_with thread_groups s (err x, given) = (err x, record s { non_rt_executor = some given })
  spawned_with thread_groups s (ok u, given) = (
    ok tt,
    record s {
      non_rt_executor = some given;
      non_rt_threads = s.non_rt_threads + 1;
      non_rt_callback_groups_spawned = true;
      thread_group_id_worker_map = spawn_all thread_groups s.thread_group_id_worker_map;
    },
  )

  module _ (add_callback_group : Group → ℕ → List (Group × ℕ) → Outcome (Unit {0})) where
    -- The loop over `non_rt_callback_groups`, on what the other executor has been given so far. The
    -- pointers were tested before they were stored.
    unfoldable pub add_to_non_rt : List (Group × ℕ) → Action (List (Group × ℕ)) (Unit {0})
    add_to_non_rt [] given = (ok tt, given)
    add_to_non_rt ((g, n) ∷ gs) given =
        resume (λ _ given. add_to_non_rt gs (given ++ (g, n) ∷ []))
          (add_callback_group g n given, given)

    unfoldable pub spawn_worker_groups :
        List (ℕ × ThreadGroupAttributes) → Action Spawning (Unit {0})
    unfolding add_to_non_rt spawned_with
    spawn_worker_groups thread_groups s =
        if not s.non_rt_callback_groups_spawned && not (length s.non_rt_callback_groups == 0)
        then spawned_with thread_groups s (add_to_non_rt s.non_rt_callback_groups [])
        else (err non_rt_already_spawned, s)

  unfoldable pub stop_non_rt_executor : Spawning → Spawning
  stop_non_rt_executor s = record s {
    non_rt_executor = none;
    non_rt_threads = 0;
    non_rt_callback_groups_spawned = false;
  }

  -- The attributes that come first for an id.
  abbrev pub first_for : ℕ → List (ℕ × ThreadGroupAttributes) → Option ThreadGroupAttributes
  first_for i [] = none
  first_for i ((j, t) ∷ ts) = if t.tg_id == i then some t else first_for i ts

  abbrev pub made_for :
      Option (System library) → Option ThreadGroupAttributes → Option (System library)
  made_for (some w) o = some w
  made_for none none = none
  made_for none (some t) = some (make_group_for t)

  made_for-none : (o : Option (System library)) → made_for o none ≡ o
  made_for-none none = refl
  made_for-none (some w) = refl

  made_for-present :
      (t : ThreadGroupAttributes) (o : Option (System library))
      (rest : Option ThreadGroupAttributes)
      → made_for (some (value_or (make_group_for t) o)) rest ≡ made_for o (some t)
  made_for-present t none rest = refl
  made_for-present t (some w) rest = refl

  lookup-emplace :
      (i : ℕ) (t : ThreadGroupAttributes) (m : List (ℕ × System library))
      (rest : Option ThreadGroupAttributes)
      → made_for (lookup i (emplace t.tg_id (make_group_for t) m)) rest
        ≡ made_for (lookup i m) (if t.tg_id == i then some t else rest)
  lookup-emplace i t m rest =
      let v = make_group_for t in
      rw (lookup-upsert t.tg_id i v (λ w. w) m) (elim (Bool-cases (t.tg_id == i)) [
        | inr other ↦ rw other refl
        | inl same ↦ rw same (
            made_for-present t (lookup t.tg_id m) rest
            ∙ ap (λ k. made_for (lookup k m) (some t)) ((nat_eq.same_iff t.tg_id i).0 same))
      ])

  pub lookup-spawn_all :
      (i : ℕ) (ts : List (ℕ × ThreadGroupAttributes)) (m : List (ℕ × System library))
      → lookup i (spawn_all ts m) ≡ made_for (lookup i m) (first_for i ts)
  unfolding spawn_all
  lookup-spawn_all i [] m = sym (made_for-none (lookup i m))
  lookup-spawn_all i ((j, t) ∷ ts) m =
      lookup-spawn_all i ts (emplace t.tg_id (make_group_for t) m)
      ∙ lookup-emplace i t m (first_for i ts)
