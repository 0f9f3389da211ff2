-- ===== src/Registry/Exclusion.antt =====
-- The traversal from a new registry: it ends, and it keeps a mutually exclusive callback group in one
-- thread group.
use preemptive_executor.Common.{
  suc, ◌≤◌, true, ◌≡◌, ◌≢◌, subst, some, List, [], ◌∷◌, arith, length, string_eq, nat_eq, lookup,
  String, Outcome, ok, err, map_ok, unfinished, ok-injective, All, All-map_pred,
}
use preemptive_executor.Common.Iteration.{Iteration}
use preemptive_executor.Ros.{Entry}
use preemptive_executor.Chains.{UserChain}
use preemptive_executor.Registry.{CallbackInfo, CallbackAdjacencyInfo, Registry}
use preemptive_executor.Registry.Names.{Names}
use preemptive_executor.Registry.Build.{Callbacks, Adjacency, register_groups, new_registry}
use preemptive_executor.Registry.Traverse.{Walk, visit_roots}
use preemptive_executor.Registry.Traverse.Settle.{is_mutex, mutex_of}
use preemptive_executor.Registry.Traverse.Invariant.{Inv, unassigned}
use preemptive_executor.Registry.Traverse.Ends.{IsAssigned, Post, root_names, visit_roots-Post}
use preemptive_executor.Registry.Build.Fresh.{IsFresh, groups-IsFresh}

unassigned-le : (m : Callbacks) → unassigned m ≤ length m
unassigned-le [] = omega arith
unassigned-le ((k, info) ∷ m) = ground (arith, unassigned-le m)

new-Inv :
    (names : Names) (entries : List Entry) (r : Registry) (o : Outcome Adjacency)
    → map_ok
        (λ adjacency. record {
          adjacency_list = adjacency;
          threadgroup_adjacency_list = [];
          mutex_threadgroup_map = [];
          callback_map = register_groups names entries [];
          threadgroup_callback_map = [];
          next_threadgroup_id = 1;
        })
        o
      ≡ ok r
    → Inv r
new-Inv names entries r (err x) h = cc
new-Inv names entries r (ok adjacency) h = subst Inv (ok-injective h) (record {
  ids = record { positive = omega arith; mutex_ids = λ g i e. cc };
  callback_ids = λ n info e. omega (arith, fresh.zero_id n info e);
  exclusive = λ n info e a b. absurd (a (fresh.zero_id n info e));
  recorded =
      All-map_pred _ _ (register_groups names entries []) (λ e z a. absurd (a z)) fresh.zero_ids;
})
  where
    fresh : IsFresh (register_groups names entries [])
    fresh = groups-IsFresh names entries [] (record { zero_id = λ n info e. cc; zero_ids = tt })

-- The traversal of `callback_threadgroup_allocation`, from a new registry.
abbrev pub traversed : Iteration → Registry → Outcome (Unit {0}) × Walk
traversed it r =
    visit_roots it (suc (length r.callback_map))
      (it.order (String × CallbackAdjacencyInfo) r.adjacency_list)
      (record { registry = r; deadlines = [] })

pub traversed-Post :
    (it : Iteration) (names : Names) (entries : List Entry) (chains : List UserChain) (r : Registry)
    → new_registry names entries chains ≡ ok r
    → Post
        (root_names it (it.order (String × CallbackAdjacencyInfo) r.adjacency_list))
        r
        (traversed it r)
unfolding new_registry
traversed-Post it names entries chains r h =
    visit_roots-Post it (suc (length r.callback_map)) _ (record { registry = r; deadlines = [] })
      (omega (arith, unassigned-le r.callback_map)) (new-Inv names entries r _ h)

-- On a new registry, in whatever order the hash containers are walked, the traversal ends, even if
-- the chains form a cycle, and unless it throws each callback without a predecessor has got a thread
-- group.
pub traversal_ends :
    (it : Iteration) (names : Names) (entries : List Entry) (chains : List UserChain) (r : Registry)
    → new_registry names entries chains ≡ ok r
    → ((traversed it r).0 ≢ err unfinished)
      × ((traversed it r).0 ≡ ok tt
          → All
              (IsAssigned (traversed it r).1.registry)
              (root_names it (it.order (String × CallbackAdjacencyInfo) r.adjacency_list)))
traversal_ends it names entries chains r h =
    let p = traversed-Post it names entries chains r h in (p.ends, p.visited)

-- After the traversal of a new registry two callbacks of one mutually exclusive callback group that
-- have thread groups have the same one, and it is marked as a mutex group (which gets one thread).
pub mutex_group_whole :
    (it : Iteration) (names : Names) (entries : List Entry) (chains : List UserChain) (r : Registry)
    (m n : String) (a b : CallbackInfo)
    → new_registry names entries chains ≡ ok r
    → lookup m (traversed it r).1.registry.callback_map ≡ some a
    → lookup n (traversed it r).1.registry.callback_map ≡ some b
    → a.threadgroup_id ≢ 0
    → b.threadgroup_id ≢ 0
    → a.callback_group.mutually_exclusive ≡ true
    → b.callback_group.mutually_exclusive ≡ true
    → a.callback_group.id ≡ b.callback_group.id
    → (a.threadgroup_id ≡ b.threadgroup_id)
      × (is_mutex a.threadgroup_id (traversed it r).1.registry ≡ true)
mutex_group_whole it names entries chains r m n a b h p q x y u v same = (
  ground (arith, of_a, of_b, same),
  (inv.ids.mutex_ids a.callback_group.id a.threadgroup_id of_a).2,
)
  where
    inv : Inv (traversed it r).1.registry
    inv = (traversed-Post it names entries chains r h).inv

    of_a : mutex_of a.callback_group.id (traversed it r).1.registry ≡ some a.threadgroup_id
    of_a = inv.exclusive m a p x u

    of_b : mutex_of b.callback_group.id (traversed it r).1.registry ≡ some b.threadgroup_id
    of_b = inv.exclusive n b q y v
