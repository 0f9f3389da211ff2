-- ===== src/Executor/Populate/Served.antt =====
-- When the dispatch of `populate_ready_queues` (src/preemptive_executor.cpp) throws nothing.
use preemptive_executor.Common.{
  ℕ, suc, ◌+◌, ◌≤◌, ◌≡◌, refl, ◌∙◌, ap, Bool, true, false, Option, none, some, List, [], ◌∷◌,
  length, lookup, upsert, lookup-upsert, if◌then◌else◌, ◌==◌, nat_eq, Outcome, ok, arith,
  Bool-cases, inl, inr,
}
use preemptive_executor.Common.Action.{resume}
use preemptive_executor.Bundles.{Middleware, Bundle}
use preemptive_executor.Workers.{
  ConcurrentQueue, WorkerGroup, update_prio, wanted_boost, apply_boost, set_fifo, somes,
}
use preemptive_executor.Workers.Trace.{System}
use preemptive_executor.Executor.Deliver.{deliver, enqueued, counted, released}
use preemptive_executor.Executor.Populate.{
  Bundles, Workers, dispatch_to, dispatch_entry, dispatch_all,
}
use preemptive_executor.Executor.Populate.Sorted.{weigh_bundles, total}

some-ne-none {ℓ} : {A : Type ℓ} {a : A} → Path (Option A) (some a) none → ⊥
some-ne-none h = cc

pub false-ne-true : Path Bool false true → ⊥
false-ne-true h = cc

-- A mutex group has one thread, as its constructor makes it.
abbrev pub boostable : Option Bool → ℕ → Bool
boostable none n = true
boostable (some b) n = n == 1

module _ {B : Type 0} (library : ConcurrentQueue (Option B))
    (accepts : (xs : List (Option B)) (q : library.Queue)
      → (r : library.Queue) × (library.enqueue_bulk xs q ≡ some r)) where
  abbrev pub can_serve : WorkerGroup library → Bool
  can_serve g = boostable g.is_boosted (length g.fifo)

  pub Succeeds : Outcome (Unit {0}) × WorkerGroup library → Type 0
  Succeeds r = (h : WorkerGroup library) × (r ≡ (ok tt, h)) × (can_serve h ≡ true)

  released-Succeeds :
      (n : ℕ) (g : WorkerGroup library) (o w : Option Bool)
      → g.is_boosted ≡ o
      → boostable o (length g.fifo) ≡ true
      → w ≡ wanted_boost library g o
      → Succeeds (released library n (apply_boost library g w))
  unfolding Succeeds released apply_boost set_fifo wanted_boost
  released-Succeeds n g none none e c h =
      (record g { semaphore = g.semaphore + n }, refl, ap (λ o. boostable o (length g.fifo)) e)
  released-Succeeds n g none (some boost) e c h = absurd (some-ne-none h)
  released-Succeeds n g (some b) none e c h =
      (record g { semaphore = g.semaphore + n }, refl, ap (λ o. boostable o (length g.fifo)) e ∙ c)
  released-Succeeds n g (some b) (some boost) e c h = rw c (_, refl, refl)

  deliver-Succeeds :
      (bs : List B) (g : WorkerGroup library) → can_serve g ≡ true → Succeeds (deliver library bs g)
  unfolding Succeeds deliver enqueued counted update_prio
  deliver-Succeeds [] g c = (g, refl, c)
  deliver-Succeeds (b ∷ bs) g c =
      let (q, h) = accepts (somes library (b ∷ bs)) g.queue in
      rw h (
        released-Succeeds (suc (length bs))
          (record g { queue = q; num_pending = g.num_pending + suc (length bs) }) g.is_boosted
          (wanted_boost library
            (record g { queue = q; num_pending = g.num_pending + suc (length bs) }) g.is_boosted)
          refl c refl)

module _ (mw : Middleware) (library : ConcurrentQueue (Option (Bundle mw)))
    (accepts : (xs : List (Option (Bundle mw))) (q : library.Queue)
      → (r : library.Queue) × (library.enqueue_bulk xs q ≡ some r)) where
  -- A worker group that can take bundles.
  abbrev pub serves : Option (System library) → Bool
  serves none = false
  serves (some s) = boostable s.group.is_boosted (length s.group.fifo)

  -- One for a bundle whose thread group has no such worker group.
  abbrev pub unserved : Workers mw library → ℕ → Bundle mw → ℕ
  unserved m t b = if serves (lookup t m) then 0 else 1

  -- The worker groups that could take bundles still can.
  abbrev pub KeepsServing : Workers mw library → Workers mw library → Type 0
  KeepsServing m n = (t : ℕ) → serves (lookup t m) ≡ true → serves (lookup t n) ≡ true

  Returns : Outcome (Unit {0}) × Workers mw library → Workers mw library → Type 0
  Returns r m = (n : Workers mw library) × (r ≡ (ok tt, n)) × KeepsServing m n

  put_serves :
      (t j : ℕ) (s u : System library) (m : Workers mw library)
      → serves (some u) ≡ true
      → serves (lookup j m) ≡ true
      → serves (lookup j (upsert t s (λ _. u) m)) ≡ true
  put_serves t j s u m a b =
      rw (lookup-upsert t j s (λ _. u) m)
        (elim (Bool-cases (t == j)) [ inl same ↦ rw same a | inr other ↦ rw other b ])

  dispatch_to-Returns :
      (t : ℕ) (bs : List (Bundle mw)) (o : Option (System library)) (m : Workers mw library)
      → serves o ≡ true
      → Returns (dispatch_to mw library t bs o m) m
  unfolding dispatch_to Returns Succeeds
  dispatch_to-Returns t bs none m h = absurd (false-ne-true h)
  dispatch_to-Returns t bs (some s) m h =
      let (g, e, c) = deliver-Succeeds library accepts bs s.group h in
      (
        upsert t s (λ _. record s { group = g }) m,
        ap
            (λ (r : Outcome (Unit {0}) × WorkerGroup library).
              (r.0, upsert t s (λ _. record s { group = r.1 }) m))
            e,
        λ j k. put_serves t j s (record s { group = g }) m c k,
      )

  dispatch_entry-Returns :
      (t : ℕ) (bs : List (Bundle mw)) (m : Workers mw library)
      → weigh_bundles mw (unserved m) t bs ≡ 0
      → Returns (dispatch_entry mw library t bs m) m
  unfolding dispatch_entry Returns
  dispatch_entry-Returns t [] m h = (m, refl, λ j k. k)
  dispatch_entry-Returns t (b ∷ bs) m h =
      dispatch_to-Returns t (b ∷ bs) (lookup t m) m (ground (arith, h))

  weigh_mono :
      (m n : Workers mw library) (t : ℕ) (bs : List (Bundle mw))
      → ((j : ℕ) → serves (lookup j m) ≡ true → serves (lookup j n) ≡ true)
      → weigh_bundles mw (unserved n) t bs ≤ weigh_bundles mw (unserved m) t bs
  weigh_mono m n t [] k = omega arith
  weigh_mono m n t (b ∷ bs) k = ground (arith, weigh_mono m n t bs k, k t)

  total_mono :
      (m n : Workers mw library) (es : Bundles mw)
      → ((j : ℕ) → serves (lookup j m) ≡ true → serves (lookup j n) ≡ true)
      → total mw (unserved n) es ≤ total mw (unserved m) es
  total_mono m n [] k = omega arith
  total_mono m n ((t, bs) ∷ es) k = omega (arith, weigh_mono m n t bs k, total_mono m n es k)

  -- When every bundle's thread group has a worker group that can take bundles, the queue never runs
  -- out of memory, and mutex groups have one thread, all bundles are handed over.
  pub dispatch_all-Returns :
      (es : Bundles mw) (m : Workers mw library)
      → total mw (unserved m) es ≡ 0
      → (n : Workers mw library) × (dispatch_all mw library es m ≡ (ok tt, n)) × KeepsServing m n
  unfolding dispatch_all Returns
  dispatch_all-Returns [] m h = (m, refl, λ t k. k)
  dispatch_all-Returns ((t, bs) ∷ es) m h =
      let (n, e, k) = dispatch_entry-Returns t bs m (omega (arith, h)) in
      let (l, f, q) = dispatch_all-Returns es n (omega (arith, h, total_mono m n es k)) in
      (l, ap (resume λ _ x. dispatch_all mw library es x) e ∙ f, λ j p. q j (k j p))
