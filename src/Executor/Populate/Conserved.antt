-- ===== src/Executor/Populate/Conserved.antt =====
-- `populate_ready_queues` (src/preemptive_executor.cpp) hands every bundle that it has made to the
-- worker group of its callback.
use mathlib.Core.List.{Perm, Permᴰ}
use mathlib.Core.Logic.{∥∥₁_elim}
use native.Mathlib.Nat.{ℕ_set}
use preemptive_executor.Common.{
  ℕ, ◌+◌, ◌≡◌, refl, sym, ◌∙◌, ap, subst, Bool, true, false, ◌&&◌, Option, none, some, List, [],
  ◌∷◌, length, keep, lookup, upsert, lookup-upsert, if◌then◌else◌, ◌==◌, nat_eq, Outcome, ok, err,
  arith, Bool-cases, inl, inr,
}
use preemptive_executor.Common.Action.{resume}
use preemptive_executor.Bundles.{Middleware, Bundle}
use preemptive_executor.Workers.{ConcurrentQueue, WorkerGroup}
use preemptive_executor.Workers.Trace.{System}
use preemptive_executor.Executor.Deliver.{deliver}
use preemptive_executor.Executor.Delivered.{
  Gains, GainsIfOk, Gains-none, Gains-cong, Gains-trans, deliver-Gains,
}
use preemptive_executor.Executor.Populate.{
  Bundles, Workers, dispatch_to, dispatch_entry, dispatch_all,
}
use preemptive_executor.Executor.Populate.Sorted.{weigh_bundles, weigh_entry, total}

some-injective {ℓ} : {A : Type ℓ} {a b : A} → some a ≡ some b → a ≡ b
some-injective h = cc

total-Permᴰ :
    (mw : Middleware) (f : ℕ → Bundle mw → ℕ) {xs ys : Bundles mw}
    → Permᴰ xs ys
    → total mw f xs ≡ total mw f ys
total-Permᴰ mw f Permᴰ.nil = refl
total-Permᴰ mw f (Permᴰ.cons e p) =
    omega (arith, ap (λ x. weigh_entry mw f x) e, total-Permᴰ mw f p)
total-Permᴰ mw f (Permᴰ.swap e h) =
    omega (arith, ap (λ x. weigh_entry mw f x) e, ap (λ x. weigh_entry mw f x) h)
total-Permᴰ mw f (Permᴰ.trans p q) = total-Permᴰ mw f p ∙ total-Permᴰ mw f q

pub total-Perm :
    (mw : Middleware) (f : ℕ → Bundle mw → ℕ) (xs ys : Bundles mw)
    → Perm xs ys
    → total mw f xs ≡ total mw f ys
total-Perm mw f xs ys h = ∥∥₁_elim h (ℕ_set _ _) (λ p. total-Permᴰ mw f p)

-- One for a bundle with the property `p` that is meant for the thread group `i`.
abbrev pub one_for : {mw : Middleware} → ℕ → (Bundle mw → Bool) → ℕ → Bundle mw → ℕ
one_for i p t b = if t == i && p b then 1 else 0

module _ (mw : Middleware) (library : ConcurrentQueue (Option (Bundle mw))) (i : ℕ) where
  weigh-length :
      (p : Bundle mw → Bool) (t : ℕ) (bs : List (Bundle mw))
      → (t == i) ≡ true
      → weigh_bundles mw (one_for i p) t bs ≡ length (keep p bs)
  weigh-length p t [] h = refl
  weigh-length p t (b ∷ bs) h = ground (arith, weigh-length p t bs h, h)

  weigh-other :
      (p : Bundle mw → Bool) (t : ℕ) (bs : List (Bundle mw))
      → (t == i) ≡ false
      → weigh_bundles mw (one_for i p) t bs ≡ 0
  weigh-other p t [] h = refl
  weigh-other p t (b ∷ bs) h = ground (arith, weigh-other p t bs h, h)

  -- The worker group `i` has got what `w` counts, and its threads and its round are as before.
  abbrev pub Gets : ((Bundle mw → Bool) → ℕ) → Option (System library) → System library → Type 0
  Gets w o s =
      (s' : System library) × (o ≡ some s')
      × Gains library w s.group s'.group
      × (s'.threads ≡ s.threads)
      × (s'.round ≡ s.round)

  unfoldable pub GetsIfOk :
      ((Bundle mw → Bool) → ℕ)
      → Workers mw library
      → Outcome (Unit {0}) × Workers mw library
      → Type 0
  GetsIfOk w m (err x, n) = Unit
  GetsIfOk w m (ok u, n) = (s : System library) → lookup i m ≡ some s → Gets w (lookup i n) s

  pub GetsIfOk-cong :
      (v w : (Bundle mw → Bool) → ℕ) (m : Workers mw library)
      (out : Outcome (Unit {0}) × Workers mw library)
      → ((p : Bundle mw → Bool) → w p ≡ v p)
      → GetsIfOk v m out
      → GetsIfOk w m out
  unfolding GetsIfOk
  GetsIfOk-cong v w m (err x, n) e g = tt
  GetsIfOk-cong v w m (ok u, n) e g = λ s k.
      let (t, h, a, threads, round) = g s k in
      (t, h, Gains-cong library v w s.group t.group e a, threads, round)

  Gets-none :
      (w : (Bundle mw → Bool) → ℕ) (o : Option (System library)) (s : System library)
      → ((p : Bundle mw → Bool) → w p ≡ 0)
      → o ≡ some s
      → Gets w o s
  Gets-none w o s z h = (s, h, Gains-none library s.group w z, refl, refl)

  delivered-Gets :
      (t : ℕ) (bs : List (Bundle mw)) (s : System library) (m : Workers mw library)
      (r : Outcome (Unit {0}) × WorkerGroup library)
      → lookup t m ≡ some s
      → GainsIfOk library (λ p. length (keep p bs)) s.group r
      → GetsIfOk
          (λ p. weigh_bundles mw (one_for i p) t bs)
          m
          (r.0, upsert t s (λ _. record s { group = r.1 }) m)
  unfolding GetsIfOk GainsIfOk
  delivered-Gets t bs s m (err x, g) h a = tt
  delivered-Gets t bs s m (ok u, g) h a = λ s₀ k.
      let put = lookup-upsert t i s (λ _. record s { group = g }) m in
      let w = λ (p : Bundle mw → Bool). weigh_bundles mw (one_for i p) t bs in
      elim (Bool-cases (t == i)) [
        | inl same ↦
            let e : t ≡ i = (nat_eq.same_iff t i).0 same in
            let z : s ≡ s₀ = some-injective (sym h ∙ ap (λ j. lookup j m) e ∙ k) in
            subst (Gets w (lookup i (upsert t s (λ _. record s { group = g }) m))) z (
              record s { group = g },
              put ∙ ap (λ b. if b then some (record s { group = g }) else lookup i m) same,
              Gains-cong library (λ p. length (keep p bs)) w s.group g
                  (λ p. weigh-length p t bs same) a,
              refl,
              refl,
            )
        | inr other ↦
            Gets-none w _ s₀ (λ p. weigh-other p t bs other)
              (put ∙ ap (λ b. if b then some (record s { group = g }) else lookup i m) other ∙ k)
      ]

  dispatch_to-Gets :
      (t : ℕ) (bs : List (Bundle mw)) (o : Option (System library)) (m : Workers mw library)
      → lookup t m ≡ o
      → GetsIfOk (λ p. weigh_bundles mw (one_for i p) t bs) m (dispatch_to mw library t bs o m)
  unfolding dispatch_to GetsIfOk
  dispatch_to-Gets t bs none m h = tt
  dispatch_to-Gets t bs (some s) m h =
      delivered-Gets t bs s m (deliver library bs s.group) h (deliver-Gains library bs s.group)

  dispatch_entry-Gets :
      (t : ℕ) (bs : List (Bundle mw)) (m : Workers mw library)
      → GetsIfOk (λ p. weigh_bundles mw (one_for i p) t bs) m (dispatch_entry mw library t bs m)
  unfolding dispatch_entry GetsIfOk
  dispatch_entry-Gets t [] m = λ s k. Gets-none (λ p. 0) (lookup i m) s (λ p. refl) k
  dispatch_entry-Gets t (b ∷ bs) m = dispatch_to-Gets t (b ∷ bs) (lookup t m) m refl

  Gets-trans :
      (v w u : (Bundle mw → Bool) → ℕ) (o o' : Option (System library)) (s : System library)
      → ((p : Bundle mw → Bool) → u p ≡ v p + w p)
      → Gets v o s
      → ((s' : System library) → o ≡ some s' → Gets w o' s')
      → Gets u o' s
  Gets-trans v w u o o' s e (s₁, k, g, threads, round) next =
      let (s₂, k₂, g₂, threads₂, round₂) = next s₁ k in
      (
        s₂,
        k₂,
        Gains-trans library v w u s.group s₁.group s₂.group e g g₂,
        threads₂ ∙ threads,
        round₂ ∙ round,
      )

  resume-Gets :
      (v w u : (Bundle mw → Bool) → ℕ) (m : Workers mw library)
      (r : Outcome (Unit {0}) × Workers mw library)
      (next : Workers mw library → Outcome (Unit {0}) × Workers mw library)
      → ((p : Bundle mw → Bool) → u p ≡ v p + w p)
      → GetsIfOk v m r
      → ((n : Workers mw library) → GetsIfOk w n (next n))
      → GetsIfOk u m (resume (λ _. next) r)
  unfolding GetsIfOk
  resume-Gets v w u m (err x, n) next e a b = tt
  resume-Gets v w u m (ok y, n) next e a b = both (next n) (b n)
    where
      both : (out : Outcome (Unit {0}) × Workers mw library) → GetsIfOk w n out → GetsIfOk u m out
      both (err x, l) c = tt
      both (ok y, l) c = λ s k. Gets-trans v w u (lookup i n) (lookup i l) s e (a s k) c

  pub dispatch_all-Gets :
      (es : Bundles mw) (m : Workers mw library)
      → GetsIfOk (λ p. total mw (one_for i p) es) m (dispatch_all mw library es m)
  unfolding dispatch_all GetsIfOk
  dispatch_all-Gets [] m = λ s k. Gets-none (λ p. 0) (lookup i m) s (λ p. refl) k
  dispatch_all-Gets ((t, bs) ∷ es) m =
      resume-Gets (λ p. weigh_bundles mw (one_for i p) t bs) (λ p. total mw (one_for i p) es)
        (λ p. total mw (one_for i p) ((t, bs) ∷ es)) m (dispatch_entry mw library t bs m)
        (λ n. dispatch_all mw library es n) (λ p. refl) (dispatch_entry-Gets t bs m)
        (λ n. dispatch_all-Gets es n)
