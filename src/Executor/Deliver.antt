-- ===== src/Executor/Deliver.antt =====
-- src/preemptive_executor.cpp: what the last loop of `populate_ready_queues` does for one worker
-- group, without another thread's steps in between.
use preemptive_executor.Common.{
  ℕ, suc, ◌+◌, ◌≡◌, refl, Bool, Option, none, some, List, [], ◌∷◌, length, Error, Outcome, ok, err,
  enqueue_failed, Bool-cases, inl, inr, subst, ap, sym, ◌==◌, nat_eq,
}
use preemptive_executor.Common.Action.{Action}
use preemptive_executor.Workers.{
  ConcurrentQueue, Round, WorkerGroup, update_prio, wanted_boost, apply_boost, dispatch, accepted,
  checked, somes,
}
use preemptive_executor.Workers.Trace.{System, step, run, repeat, dispatcher}

module _ {B : Type 0} (library : ConcurrentQueue (Option B)) where
  -- `update_prio` may throw; only then is no permit released.
  unfoldable pub released :
      ℕ → Option Error × WorkerGroup library → Outcome (Unit {0}) × WorkerGroup library
  released n (none, g) = (ok tt, record g { semaphore = g.semaphore + n })
  released n (some x, g) = (err x, g)

  unfoldable pub counted : ℕ → WorkerGroup library → Outcome (Unit {0}) × WorkerGroup library
  unfolding released
  counted n g = released n (update_prio library (record g { num_pending = g.num_pending + n }))

  unfoldable pub enqueued :
      ℕ → WorkerGroup library → Option library.Queue → Outcome (Unit {0}) × WorkerGroup library
  unfolding counted
  enqueued n g none = (err enqueue_failed, g)
  enqueued n g (some q) = counted n (record g { queue = q })

  unfoldable pub deliver : List B → Action (WorkerGroup library) (Unit {0})
  unfolding enqueued
  deliver [] g = (ok tt, g)
  deliver (b ∷ bs) g =
      enqueued (suc (length bs)) g (library.enqueue_bulk (somes library (b ∷ bs)) g.queue)

  -- The system after a delivery that was not interrupted.
  abbrev after_delivery : System library → Outcome (Unit {0}) × WorkerGroup library → System library
  after_delivery s (ok u, g) = record s { group = g; round = Round.resting }
  after_delivery s (err x, g) = record s { group = g; round = Round.failed x }

  -- The rounds `s` of the dispatcher that a function of the group has led to.
  abbrev pub entering : System library → Round × WorkerGroup library → System library
  entering s (round, g) = record s { group = g; round = round }

  boost_steps :
      (n : ℕ) (s : System library) (o : Option Bool)
      → run library (repeat 3 (dispatcher [])) (entering s (checked library n s.group o))
        ≡ after_delivery s (released n (apply_boost library s.group o))
  unfolding step dispatch apply_boost released checked
  boost_steps n s none = refl
  boost_steps n s (some boost) = elim (Bool-cases (length s.group.fifo == 1)) [
    | inl one ↦ rw one refl
    | inr more ↦ rw more refl
  ]

  enqueue_steps :
      (n : ℕ) (s : System library) (o : Option library.Queue)
      → run library (repeat 6 (dispatcher [])) (entering s (accepted library n s.group o))
        ≡ after_delivery s (enqueued n s.group o)
  unfolding enqueued counted step dispatch accepted update_prio wanted_boost
  enqueue_steps n s none = refl
  enqueue_steps n s (some q) =
      let g = record s.group { queue = q; num_pending = s.group.num_pending + n } in
      boost_steps n (record s { group = g }) (wanted_boost library g g.is_boosted)

  from_rest :
      (bs : List B) (s : System library)
      → run library (dispatcher bs ∷ repeat 6 (dispatcher [])) (record s { round = Round.resting })
        ≡ after_delivery s (deliver bs s.group)
  unfolding deliver step dispatch
  from_rest [] s = refl
  from_rest (b ∷ bs) s =
      enqueue_steps (suc (length bs)) s
        (library.enqueue_bulk (somes library (b ∷ bs)) s.group.queue)

  -- The delivery of bundles to a group whose dispatcher rests is one of the interleavings of its
  -- steps: the begin of a round with these bundles and six more steps of the dispatcher, with no
  -- step of a thread in between, lead to the group that the delivery returns, and to the end of the
  -- round or to the exception that the delivery throws.
  deliver_steps :
      (bs : List B) (s : System library)
      → s.round ≡ Round.resting
      → run library (dispatcher bs ∷ repeat 6 (dispatcher [])) s
        ≡ after_delivery s (deliver bs s.group)
  deliver_steps bs s h =
      subst
        (λ t.
          run library (dispatcher bs ∷ repeat 6 (dispatcher [])) t
          ≡ after_delivery s (deliver bs s.group))
        (ap (λ r. record s { round = r }) (sym h)) (from_rest bs s)
