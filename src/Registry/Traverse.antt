-- ===== src/Registry/Traverse.antt =====
-- src/callback_registry.cpp: `recursive_callback_traversal`, and the loop that starts it at the
-- callbacks without a predecessor. The output to `std::cout` is left out.
pub mod Settle
pub mod Invariant
pub mod Ends
use preemptive_executor.Common.{
  ℕ, suc, zero, ◌+◌, Bool, true, false, Option, none, some, List, [], ◌∷◌, ◌++◌, contains,
  if◌then◌else◌, ◌==◌, ltb, nat_eq, string_eq, lookup, upsert, value_or, String, Outcome, ok, err,
  callback_not_found, unfinished,
}
use preemptive_executor.Common.Action.{Action, pure, throw, ◌>>◌, ◌>>=◌, modify, resume}
use preemptive_executor.Common.Iteration.{Iteration}
use preemptive_executor.Registry.{
  CallbackInfo, ThreadGroupInfo, CallbackAdjacencyInfo, ThreadGroupAdjacencyInfo, no_edges,
  Registry, on_adjacency, on_links, on_group,
}
use preemptive_executor.Registry.Build.{Callbacks}

-- The registry, and the map from deadlines to thread groups that the traversal fills: a `std::map`,
-- sorted by deadline.
pub record Walk : Type 0 where
  pub registry : Registry
  pub deadlines : List (ℕ × List ℕ)

pub push_deadline : ℕ → ℕ → List (ℕ × List ℕ) → List (ℕ × List ℕ)
push_deadline d i [] = (d, i ∷ []) ∷ []
push_deadline d i ((k, is) ∷ m) =
    if d == k
    then (k, is ++ i ∷ []) ∷ m
    else if ltb d k
    then (d, i ∷ []) ∷ (k, is) ∷ m
    else (k, is) ∷ push_deadline d i m

-- `callback_info.threadgroup_id = i`, through the reference into the map.
pub assign : String → ℕ → Callbacks → Callbacks
assign name i [] = []
assign name i ((k, info) ∷ m) =
    if k == name then (k, record info { threadgroup_id = i }) ∷ m else (k, info) ∷ assign name i m

abbrev pub assign_in : String → ℕ → Registry → Registry
assign_in name i r = record r { callback_map = assign name i r.callback_map }

pub generate_threadgroup_id : Registry → ℕ × Registry
generate_threadgroup_id r =
    (r.next_threadgroup_id, record r { next_threadgroup_id = r.next_threadgroup_id + 1 })

-- The thread group of a mutually exclusive callback group: the one it has, or a new one.
pub mutex_group : ℕ → Option ℕ → Registry → ℕ × Registry
unfolding generate_threadgroup_id
mutex_group g (some i) r = (i, r)
mutex_group g none r =
    let (i, r') = generate_threadgroup_id r in
    (
      i,
      on_group i (λ t. record t { is_mutex_group = true })
          (record r' { mutex_threadgroup_map = upsert g 0 (λ _. i) r'.mutex_threadgroup_map }),
    )

pub choose_group : CallbackInfo → Registry → ℕ × Registry
unfolding mutex_group
choose_group info r =
    if info.callback_group.mutually_exclusive
    then mutex_group info.callback_group.id (lookup info.callback_group.id r.mutex_threadgroup_map)
        r
    else generate_threadgroup_id r

-- `std::unordered_set::insert`
abbrev pub insert_id : ℕ → List ℕ → List ℕ
insert_id i set = if contains i set then set else set ++ i ∷ []

-- The edge between the thread groups, where there is a previous one.
pub link : ℕ → ℕ → Registry → Registry
link prev i r =
    if prev == 0
    then r
    else on_links i (λ a. record a { incoming = insert_id prev a.incoming })
        (on_links prev (λ a. record a { outgoing = insert_id i a.outgoing }) r)

-- The callback joins thread group `i`, and its deadline is noted for the group.
pub join_group : String → ℕ → Walk → Walk
unfolding push_deadline assign
join_group name i w =
    let r =
      on_adjacency name (λ a. a)
        (assign_in name i (
          on_group i (λ t. record t { callbacks = t.callbacks ++ name ∷ []; threadgroup_id = i })
            w.registry)) in
    record {
      registry = r;
      deadlines =
          push_deadline (value_or no_edges (lookup name r.adjacency_list)).min_deadline i
            w.deadlines;
    }

-- The local `threadgroup_id` behind the `if`, and the state.
pub enter_group : String → CallbackInfo → ℕ → ℕ → Walk → ℕ × Walk
unfolding choose_group link join_group
enter_group name info tg prev w =
    let (i, r) = choose_group info w.registry in
    let w' = join_group name i (record w { registry = r }) in
    if tg == 0 then (i, record w' { registry = link prev i w'.registry }) else (tg, w')

-- A callback that has no thread group yet gets one: without a `threadgroup_id` to continue it opens
-- one, with one it is marked, and a mutually exclusive callback enters its own all the same.
pub settle_by : Bool → String → CallbackInfo → ℕ → ℕ → Walk → ℕ × Walk
unfolding enter_group assign
settle_by true name info tg prev w = enter_group name info tg prev w
settle_by false name info tg prev w =
    let marked = record w { registry = assign_in name tg w.registry } in
    if info.callback_group.mutually_exclusive
    then enter_group name info tg prev marked
    else (tg, marked)

pub settle : String → CallbackInfo → ℕ → ℕ → Walk → ℕ × Walk
unfolding settle_by
settle name info tg prev w = settle_by (tg == 0) name info tg prev w

-- The recursive calls, as an argument: name, `threadgroup_id`, `prev_threadgroup_id`.
abbrev pub Visit : Type 0
Visit = String → ℕ → ℕ → Action Walk (Unit {0})

-- The last loop: each successor starts a thread group. Its read of `is_mutex_group` may insert the
-- group; what it assigns to `prev_threadgroup_id` is not read again.
pub visit_each : Visit → ℕ → List String → Action Walk (Unit {0})
visit_each rec tg [] w = (ok tt, w)
visit_each rec tg (n ∷ ns) w =
    resume (λ _. visit_each rec tg ns)
      (rec n 0 tg (record w { registry = on_group tg (λ t. t) w.registry }))

-- `threadgroup_callback_map_[threadgroup_id].callbacks.push_back(next_callback)`
abbrev pub push_callback : ℕ → String → Walk → Walk
push_callback tg n w = record w {
  registry = on_group tg (λ t. record t { callbacks = t.callbacks ++ n ∷ [] }) w.registry;
}

abbrev pub touch : String → Walk → Walk
touch n w = record w { registry = on_adjacency n (λ a. a) w.registry }

-- The case of one predecessor goes on with the first successor alone.
pub branch : Visit → ℕ → ℕ → String → List String → Walk → Outcome (Unit {0}) × Walk
unfolding visit_each
branch rec tg prev n ns w =
    if (value_or no_edges (lookup n w.registry.adjacency_list)).indegree == 1
    then rec n tg prev w
    else visit_each rec tg (n ∷ ns) w

-- What follows once the callback has its thread group. The list is the set `outgoing` in the order
-- of its iterator.
pub follow : Visit → ℕ → ℕ → List String → Action Walk (Unit {0})
unfolding branch
follow rec tg prev [] w = (ok tt, w)
follow rec tg prev (n ∷ []) w = branch rec tg prev n [] (push_callback tg n (touch n w))
follow rec tg prev (n ∷ m ∷ ns) w = branch rec tg prev n (m ∷ ns) (touch n w)

module _ (it : Iteration) where
  abbrev pub successors : String → Walk → List String
  successors name w =
      it.order String (value_or no_edges (lookup name w.registry.adjacency_list)).outgoing

  pub visit_unassigned : Visit → String → CallbackInfo → ℕ → ℕ → Walk → Outcome (Unit {0}) × Walk
  unfolding settle follow
  visit_unassigned rec name info tg prev w =
      let (tg', w') = settle name info tg prev w in
      follow rec tg' prev (successors name w') (touch name w')

  -- The test of the visited set, on what `callback_map_.find` returns.
  pub visit_found : Visit → String → ℕ → ℕ → Option CallbackInfo → Walk → Outcome (Unit {0}) × Walk
  unfolding visit_unassigned
  visit_found rec name tg prev none w = (err callback_not_found, w)
  visit_found rec name tg prev (some info) w =
      if info.threadgroup_id == 0 then visit_unassigned rec name info tg prev w else (ok tt, w)

  -- `recursive_callback_traversal`, with fuel for its depth.
  unfoldable pub visit : ℕ → Visit
  unfolding visit_found
  visit zero name tg prev w = (err unfinished, w)
  visit (suc fuel) name tg prev w =
      visit_found (λ n t p v. visit fuel n t p v) name tg prev (lookup name w.registry.callback_map)
        w

  -- The loop over the callbacks without a predecessor.
  unfoldable pub visit_roots : ℕ → List (String × CallbackAdjacencyInfo) → Action Walk (Unit {0})
  unfolding visit
  visit_roots fuel [] w = (ok tt, w)
  visit_roots fuel ((name, a) ∷ rest) w =
      resume (λ _. visit_roots fuel rest)
        (if a.indegree == 0 then visit fuel name 0 0 w else (ok tt, w))
