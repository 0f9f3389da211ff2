-- ===== src/Registry/Build.antt =====
-- src/callback_registry.cpp: the constructor of `CallbackRegistry`, `register_callback_entity`, and
-- `get_instance`.
pub mod Fresh
pub mod Adjacency
pub mod Total
use preemptive_executor.Common.{
  ℕ, ◌+◌, ◌%◌, ◌<◌, Bool, true, false, ◌≡◌, refl, Option, none, some, List, [], ◌∷◌, ◌++◌, arith,
  contains, if◌then◌else◌, ◌==◌, Eq, string_eq, nat_eq, lookup, upsert, emplace, ltb, String,
  Outcome, ok, err, ◌>>=◌, out_of_bounds, map_ok,
}
use preemptive_executor.Ros.{Member, Group, Entry, collect_all_ptrs}
use preemptive_executor.Chains.{UserChain}
use preemptive_executor.Registry.{CallbackInfo, CallbackAdjacencyInfo, no_edges, Registry}
use preemptive_executor.Registry.Entity.{CallbackEntity, callback_entity, get_raw_pointer}
use preemptive_executor.Registry.Names.{Names}

abbrev pub Callbacks : Type 0
Callbacks = List (String × CallbackInfo)

abbrev pub Adjacency : Type 0
Adjacency = List (String × CallbackAdjacencyInfo)

emplace_info : CallbackEntity → Group → ℕ → Option String → Callbacks → Callbacks
emplace_info e group node none m = m
emplace_info e group node (some name) m =
    emplace name
      (record {
        entity = e;
        callback_group = group;
        node = node;
        callback_name = name;
        threadgroup_id = 0;
      })
      m

pub register_callback_entity : Names → CallbackEntity → Group → ℕ → Callbacks → Callbacks
unfolding emplace_info
register_callback_entity names e group node m =
    emplace_info e group node (lookup (get_raw_pointer e) names) m

-- The guards of the first loop, and its five callbacks.
register_group : Names → Option Group → Option ℕ → Callbacks → Callbacks
unfolding register_callback_entity callback_entity
register_group names none n m = m
register_group names (some g) none m = m
register_group names (some g) (some n) m =
    if g.can_be_taken_from
    then collect_all_ptrs (λ s e. register_callback_entity names (callback_entity e) g n s)
        g.members m
    else m

pub register_groups : Names → List Entry → Callbacks → Callbacks
unfolding register_group
register_groups names [] m = m
register_groups names (e ∷ es) m = register_groups names es (register_group names e.group e.node m)

-- `std::unordered_set::emplace`
abbrev pub insert_name : String → List String → List String
insert_name c set = if contains c set then set else set ++ c ∷ []

abbrev pub min_of : ℕ → ℕ → ℕ
min_of a b = if ltb b a then b else a

-- `outgoing.emplace` and `indegree++` for the edge from one callback of a chain to the next.
abbrev pub add_edge : String → String → Adjacency → Adjacency
add_edge p c m =
    upsert c no_edges (λ a. record a { indegree = (a.indegree + 1) % 256 })
      (upsert p no_edges (λ a. record a { outgoing = insert_name c a.outgoing }) m)

-- The chain's deadline and period at one of its callbacks.
abbrev pub add_timing : UserChain → String → Adjacency → Adjacency
add_timing chain c m =
    upsert c no_edges
      (λ a. record a {
        deadlines = a.deadlines ++ chain.deadline ∷ [];
        periods = a.periods ++ chain.period ∷ [];
        min_deadline = min_of a.min_deadline chain.deadline;
      })
      m

-- The rounds `i = 1, 2, ...` of the inner loop: `p` is callback `i - 1`.
pub add_links : UserChain → String → List String → Adjacency → Adjacency
add_links chain p [] m = m
add_links chain p (c ∷ cs) m = add_links chain c cs (add_timing chain c (add_edge p c m))

-- One round of the outer loop. An empty chain reads `callbacks[0]`.
pub add_callbacks : UserChain → List String → Adjacency → Outcome Adjacency
unfolding add_links
add_callbacks chain [] m = err out_of_bounds
add_callbacks chain (c ∷ []) m = ok (upsert c no_edges (λ _. no_edges) m)
add_callbacks chain (c ∷ d ∷ cs) m = ok (add_links chain c (d ∷ cs) (add_timing chain c m))

pub add_chains : List UserChain → Adjacency → Outcome Adjacency
unfolding add_callbacks
add_chains [] m = ok m
add_chains (chain ∷ chains) m = do m' ← add_callbacks chain chain.callbacks m; add_chains chains m'

unfoldable pub new_registry : Names → List Entry → List UserChain → Outcome Registry
unfolding register_groups add_chains collect_all_ptrs
new_registry names entries chains =
    map_ok
      (λ adjacency. record {
        adjacency_list = adjacency;
        threadgroup_adjacency_list = [];
        mutex_threadgroup_map = [];
        callback_map = register_groups names entries [];
        threadgroup_callback_map = [];
        next_threadgroup_id = 1;
      })
      (add_chains chains [])

-- The function's static instance: later calls return it and do not read their arguments.
unfoldable pub get_instance :
    Option Registry → Names → List Entry → List UserChain → Outcome Registry
unfolding new_registry
get_instance none names entries chains = new_registry names entries chains
get_instance (some r) names entries chains = ok r
