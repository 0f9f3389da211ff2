-- ===== src/Executor/Delivered.antt =====
-- What a delivery (src/preemptive_executor.cpp, the last loop of `populate_ready_queues`) adds to a
-- worker group.
use preemptive_executor.Common.{
  ℕ, ◌+◌, ◌≡◌, refl, Bool, true, false, Option, none, some, List, [], ◌∷◌, length, keep, Outcome,
  ok, err, Error, arith, ◌∙◌, ap, Bool-cases, inl, inr, ◌==◌, nat_eq,
}
use preemptive_executor.Workers.{
  ConcurrentQueue, WorkerGroup, update_prio, wanted_boost, apply_boost, set_fifo, somes,
}
use preemptive_executor.Executor.Deliver.{deliver, enqueued, counted, released}

abbrev pub held {ℓ} : {B : Type ℓ} → (B → Bool) → Option B → Bool
held p none = false
held p (some b) = p b

abbrev pub anything {ℓ} : {B : Type ℓ} → B → Bool
anything b = true

module _ {B : Type 0} (library : ConcurrentQueue (Option B)) where
  -- For every property `p` of bundles, `w p` bundles with it have come to the queue; `num_pending`
  -- and the semaphore have grown by the number of all of them, and no bundle was run.
  pub record Gains (w : (B → Bool) → ℕ) (g h : WorkerGroup library) : Type 0 where
    pub queued :
        (p : B → Bool) → library.count (held p) h.queue ≡ library.count (held p) g.queue + w p
    pub pending : h.num_pending ≡ g.num_pending + w anything
    pub permits : h.semaphore ≡ g.semaphore + w anything
    pub ran : h.ran ≡ g.ran

  pub Gains-none :
      (g : WorkerGroup library) (w : (B → Bool) → ℕ) → ((p : B → Bool) → w p ≡ 0) → Gains w g g
  Gains-none g w z = record {
    queued = λ p. omega (arith, z p);
    pending = omega (arith, z anything);
    permits = omega (arith, z anything);
    ran = refl;
  }

  pub Gains-trans :
      (v w u : (B → Bool) → ℕ) (g h k : WorkerGroup library)
      → ((p : B → Bool) → u p ≡ v p + w p)
      → Gains v g h
      → Gains w h k
      → Gains u g k
  Gains-trans v w u g h k e a b = record {
    queued = λ p. omega (arith, e p, a.queued p, b.queued p);
    pending = omega (arith, e anything, a.pending, b.pending);
    permits = omega (arith, e anything, a.permits, b.permits);
    ran = b.ran ∙ a.ran;
  }

  pub Gains-cong :
      (v w : (B → Bool) → ℕ) (g h : WorkerGroup library)
      → ((p : B → Bool) → w p ≡ v p)
      → Gains v g h
      → Gains w g h
  Gains-cong v w g h e a = record {
    queued = λ p. omega (arith, e p, a.queued p);
    pending = omega (arith, e anything, a.pending);
    permits = omega (arith, e anything, a.permits);
    ran = a.ran;
  }

  length-keep-somes :
      (p : B → Bool) (bs : List B) → length (keep (held p) (somes library bs)) ≡ length (keep p bs)
  unfolding somes
  length-keep-somes p [] = refl
  length-keep-somes p (b ∷ bs) = ground (arith, length-keep-somes p bs)

  keep-anything : (bs : List B) → length (keep anything bs) ≡ length bs
  keep-anything [] = refl
  keep-anything (b ∷ bs) = omega (arith, keep-anything bs)

  -- `update_prio` changes priorities only.
  pub record Reprioritised (g h : WorkerGroup library) : Type 0 where
    pub queue : h.queue ≡ g.queue
    pub pending : h.num_pending ≡ g.num_pending
    pub permits : h.semaphore ≡ g.semaphore
    pub ran : h.ran ≡ g.ran

  apply_boost-Reprioritised :
      (g : WorkerGroup library) (o : Option Bool) → Reprioritised g (apply_boost library g o).1
  unfolding apply_boost set_fifo
  apply_boost-Reprioritised g none = record {
    queue = refl;
    pending = refl;
    permits = refl;
    ran = refl;
  }
  apply_boost-Reprioritised g (some boost) = elim (Bool-cases (length g.fifo == 1)) [
    | inl one ↦ rw one (record { queue = refl; pending = refl; permits = refl; ran = refl })
    | inr more ↦ rw more (record { queue = refl; pending = refl; permits = refl; ran = refl })
  ]

  update_prio-Reprioritised : (g : WorkerGroup library) → Reprioritised g (update_prio library g).1
  unfolding update_prio
  update_prio-Reprioritised g = apply_boost-Reprioritised g (wanted_boost library g g.is_boosted)

  unfoldable pub GainsIfOk :
      ((B → Bool) → ℕ) → WorkerGroup library → Outcome (Unit {0}) × WorkerGroup library → Type 0
  GainsIfOk w g (ok u, h) = Gains w g h
  GainsIfOk w g (err x, h) = Unit

  released-Gains :
      (bs : List B) (g k : WorkerGroup library) (r : Option Error × WorkerGroup library)
      → ((p : B → Bool)
          → library.count (held p) k.queue ≡ library.count (held p) g.queue + length (keep p bs))
      → k.num_pending ≡ g.num_pending + length bs
      → k.semaphore ≡ g.semaphore
      → k.ran ≡ g.ran
      → Reprioritised k r.1
      → GainsIfOk (λ p. length (keep p bs)) g (released library (length bs) r)
  unfolding released GainsIfOk
  released-Gains bs g k (some x, h) q n s r m = tt
  released-Gains bs g k (none, h) q n s r m = record {
    queued = λ p. ap (library.count (held p)) m.queue ∙ q p;
    pending = omega (arith, m.pending, n, keep-anything bs);
    permits = omega (arith, m.permits, s, keep-anything bs);
    ran = m.ran ∙ r;
  }

  enqueued-Gains :
      (bs : List B) (g : WorkerGroup library) (o : Option library.Queue)
      → library.enqueue_bulk (somes library bs) g.queue ≡ o
      → GainsIfOk (λ p. length (keep p bs)) g (enqueued library (length bs) g o)
  unfolding enqueued counted GainsIfOk
  enqueued-Gains bs g none h = tt
  enqueued-Gains bs g (some q) h =
      let k = record g { queue = q; num_pending = g.num_pending + length bs } in
      released-Gains bs g k (update_prio library k)
        (λ p.
          library.count-enqueue_bulk (held p) (somes library bs) g.queue q h
          ∙ ap (λ n. library.count (held p) g.queue + n) (length-keep-somes p bs))
        refl refl refl (update_prio-Reprioritised k)

  pub deliver-Gains :
      (bs : List B) (g : WorkerGroup library)
      → GainsIfOk (λ p. length (keep p bs)) g (deliver library bs g)
  unfolding deliver GainsIfOk
  deliver-Gains [] g = Gains-none g (λ p. 0) (λ p. refl)
  deliver-Gains (b ∷ bs) g =
      enqueued-Gains (b ∷ bs) g (library.enqueue_bulk (somes library (b ∷ bs)) g.queue) refl
