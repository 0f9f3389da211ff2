-- ===== src/Registry/Traverse/Ends/Rounds.antt =====
-- What one call of `recursive_callback_traversal` (src/callback_registry.cpp) does when its recursive
-- calls do what they should.
use preemptive_executor.Common.{
  ℕ, ◌<◌, ◌≡◌, ◌≢◌, refl, inl, inr, some, List, [], ◌∷◌, ◌++◌, arith, ◌==◌, nat_eq, string_eq,
  lookup, value_or, String, All, Outcome, ok, err, unfinished, Bool-cases,
}
use preemptive_executor.Common.Action.{resume}
use preemptive_executor.Registry.{CallbackInfo, no_edges, Registry, on_group}
use preemptive_executor.Registry.Traverse.{
  Walk, Visit, assign, visit_each, push_callback, touch, branch, follow,
}
use preemptive_executor.Registry.Traverse.Settle.{Quiet, Recorded, on_group-Quiet, lookup-assign}
use preemptive_executor.Registry.Traverse.Invariant.{
  Inv, Grows, Grows-refl, Grows-trans, Quiet-Grows, Quiet-Inv, unassigned,
}

-- The callback has a thread group.
abbrev pub IsAssigned : Registry → String → Type 0
IsAssigned r n =
    (info : CallbackInfo) × (lookup n r.callback_map ≡ some info) × (info.threadgroup_id ≢ 0)

-- A routine that starts in `r` with the callbacks `names` to visit.
pub record Post (names : List String) (r : Registry) (out : Outcome (Unit {0}) × Walk)
    : Type 0 where
  pub ends : out.0 ≢ err unfinished
  pub inv : Inv out.1.registry
  pub grows : Grows r out.1.registry
  pub visited : out.0 ≡ ok tt → All (IsAssigned out.1.registry) names

Assigned-Grows : (r s : Registry) (n : String) → Grows r s → IsAssigned r n → IsAssigned s n
Assigned-Grows r s n g (info, h, a) = (info, g.kept n info h a, a)

Post-from :
    (names : List String) (r s : Registry) (out : Outcome (Unit {0}) × Walk)
    → Grows r s
    → Post names s out
    → Post names r out
Post-from names r s out g p = record {
  ends = p.ends;
  inv = p.inv;
  grows = Grows-trans r s out.1.registry g p.grows;
  visited = p.visited;
}

-- One visit and then the rest.
pub resume-Post :
    (n : String) (names : List String) (r : Registry) (out : Outcome (Unit {0}) × Walk)
    (rest : Walk → Outcome (Unit {0}) × Walk)
    → Post (n ∷ []) r out
    → ((v : Walk) → Inv v.registry → Grows r v.registry → Post names v.registry (rest v))
    → Post (n ∷ names) r (resume (λ _. rest) out)
resume-Post n names r (err x, v) rest p k = record {
  ends = p.ends;
  inv = p.inv;
  grows = p.grows;
  visited = λ h. cc;
}
resume-Post n names r (ok u, v) rest p k =
    let q = k v p.inv p.grows in
    record {
      ends = q.ends;
      inv = q.inv;
      grows = Grows-trans r v.registry (rest v).1.registry p.grows q.grows;
      visited = λ h.
          (Assigned-Grows v.registry (rest v).1.registry n q.grows (p.visited refl).0, q.visited h);
    }

-- The recursive calls are right for registries with fewer than `k` callbacks to assign.
abbrev pub Good : Visit → ℕ → Type 0
Good rec k =
    (n : String) (t p : ℕ) (v : Walk)
    → unassigned v.registry.callback_map < k
    → t < v.registry.next_threadgroup_id
    → (t ≢ 0 → Recorded t v.registry)
    → Inv v.registry
    → Post (n ∷ []) v.registry (rec n t p v)

touch_group-Quiet : (tg : ℕ) (r : Registry) → Quiet r (on_group tg (λ t. t) r)
touch_group-Quiet tg r = on_group-Quiet tg (λ t. t) r (λ t. refl) (λ t e. e)

pub touch-Quiet : (n : String) (w : Walk) → Quiet w.registry (touch n w).registry
touch-Quiet n w = record {
  callbacks = refl;
  mutexes = refl;
  next = refl;
  flags = λ j h. h;
  recorded = λ j h. h;
}

push-Quiet :
    (tg : ℕ) (n : String) (w : Walk) → Quiet w.registry (push_callback tg n (touch n w)).registry
push-Quiet tg n w =
    let q =
      on_group-Quiet tg (λ t. record t { callbacks = t.callbacks ++ n ∷ [] }) w.registry (λ t. refl)
        (λ t e. e) in
    record { callbacks = refl; mutexes = refl; next = refl; flags = q.flags; recorded = q.recorded }

module _ (rec : Visit) (k : ℕ) (good : Good rec k) where
  pub visit_each-Post :
      (tg : ℕ) (ns : List String) (w : Walk)
      → unassigned w.registry.callback_map < k
      → Inv w.registry
      → Post ns w.registry (visit_each rec tg ns w)
  unfolding visit_each
  visit_each-Post tg [] w h v = record {
    ends = λ e. cc;
    inv = v;
    grows = Grows-refl w.registry;
    visited = λ e. tt;
  }
  visit_each-Post tg (n ∷ ns) w h v =
      let r = on_group tg (λ t. t) w.registry in
      let q = touch_group-Quiet tg w.registry in
      let u = Quiet-Inv w.registry r q v in
      Post-from (n ∷ ns) w.registry r _ (Quiet-Grows w.registry r q) (
        resume-Post n ns r _ (λ x. visit_each rec tg ns x)
          (good n 0 tg (record w { registry = r }) h (u.ids.positive) (λ z. absurd (z refl)) u)
          (λ x i g. visit_each-Post tg ns x (omega (arith, g.fewer)) i))

  no_names :
      (names : List String) (r : Registry) (out : Outcome (Unit {0}) × Walk)
      → Post names r out
      → Post [] r out
  no_names names r out p = record { ends = p.ends; inv = p.inv; grows = p.grows; visited = λ e. tt }

  branch-Post :
      (tg prev : ℕ) (n : String) (ns : List String) (w : Walk)
      → unassigned w.registry.callback_map < k
      → tg < w.registry.next_threadgroup_id
      → Recorded tg w.registry
      → Inv w.registry
      → Post [] w.registry (branch rec tg prev n ns w)
  unfolding branch
  branch-Post tg prev n ns w h b told v =
      elim (Bool-cases ((value_or no_edges (lookup n w.registry.adjacency_list)).indegree == 1)) [
        | inl e ↦ rw e (no_names (n ∷ []) w.registry _ (good n tg prev w h b (λ _. told) v))
        | inr e ↦ rw e (no_names (n ∷ ns) w.registry _ (visit_each-Post tg (n ∷ ns) w h v))
      ]

  pub follow-Post :
      (tg prev : ℕ) (ns : List String) (w : Walk)
      → unassigned w.registry.callback_map < k
      → tg < w.registry.next_threadgroup_id
      → Recorded tg w.registry
      → Inv w.registry
      → Post [] w.registry (follow rec tg prev ns w)
  unfolding follow
  follow-Post tg prev [] w h b told v = record {
    ends = λ e. cc;
    inv = v;
    grows = Grows-refl w.registry;
    visited = λ e. tt;
  }
  follow-Post tg prev (n ∷ []) w h b told v =
      let w' = push_callback tg n (touch n w) in
      let q = push-Quiet tg n w in
      Post-from [] w.registry w'.registry _ (Quiet-Grows w.registry w'.registry q) (
        branch-Post tg prev n [] w' h b (q.recorded tg told) (Quiet-Inv w.registry w'.registry q v))
  follow-Post tg prev (n ∷ m ∷ ns) w h b told v =
      Post-from [] w.registry (touch n w).registry _
        (Quiet-Grows w.registry (touch n w).registry (touch-Quiet n w))
        (branch-Post tg prev n (m ∷ ns) (touch n w) h b told
          (Quiet-Inv w.registry (touch n w).registry (touch-Quiet n w) v))

-- The callback that was settled first is assigned when the routine ends.
pub settled_visited :
    (name : String) (info : CallbackInfo) (i : ℕ) (r s t : Registry)
    (out : Outcome (Unit {0}) × Walk)
    → lookup name r.callback_map ≡ some info
    → Grows r s
    → s.callback_map ≡ assign name i r.callback_map
    → 0 < i
    → Quiet s t
    → Post [] t out
    → Post (name ∷ []) r out
settled_visited name info i r s t out found grown callbacks positive q p = record {
  ends = p.ends;
  inv = p.inv;
  grows = Grows-trans r t out.1.registry (Grows-trans r s t grown (Quiet-Grows s t q)) p.grows;
  visited = λ h. (Assigned-Grows t out.1.registry name p.grows assigned, tt);
}
  where
    assigned : IsAssigned t name
    assigned = (
      record info { threadgroup_id = i },
      ground (
        arith,
        q.callbacks,
        callbacks,
        lookup-assign name i name r.callback_map,
        string_eq.same_iff name name,
      ),
      omega arith,
    )
