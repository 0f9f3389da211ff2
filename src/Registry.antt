-- ===== src/Registry.antt =====
-- include/preemptive_executor/callback_registry.hpp: the data of the callback registry.
pub mod Entity
pub mod Names
pub mod Build
pub mod Traverse
pub mod Priorities
pub mod Threads
pub mod Export
pub mod Exclusion
mod Inputs
mod Examples
use preemptive_executor.Common.{
  ℕ, ◌-◌, ◌^◌, ◌%◌, Bool, false, List, [], length, upsert, String, string_eq, nat_eq,
}
use preemptive_executor.Ros.{Group}
use Entity.{CallbackEntity}

pub record CallbackInfo : Type 0 where
  pub entity : CallbackEntity
  pub callback_group : Group
  pub node : ℕ
  pub callback_name : String
  pub threadgroup_id : ℕ

pub record ThreadGroupInfo : Type 0 where
  pub threadgroup_id : ℕ
  pub callbacks : List String
  pub fixed_priority : ℕ  -- uint16_t
  pub num_threads : ℕ  -- uint16_t
  pub is_mutex_group : Bool

abbrev pub new_group : ThreadGroupInfo
new_group = record {
  threadgroup_id = 0;
  callbacks = [];
  fixed_priority = 0;
  num_threads = 1;
  is_mutex_group = false;
}

pub record CallbackAdjacencyInfo : Type 0 where
  pub outgoing : List String  -- std::unordered_set
  pub indegree : ℕ  -- uint8_t
  pub deadlines : List ℕ
  pub periods : List ℕ
  pub min_deadline : ℕ  -- uint32_t

abbrev pub uint32_max : ℕ
uint32_max = 2 ^ 32 - 1

abbrev pub no_edges : CallbackAdjacencyInfo
no_edges = record {
  outgoing = [];
  indegree = 0;
  deadlines = [];
  periods = [];
  min_deadline = uint32_max;
}

pub record ThreadGroupAdjacencyInfo : Type 0 where
  pub outgoing : List ℕ  -- std::unordered_set
  pub incoming : List ℕ  -- std::unordered_set

abbrev pub no_links : ThreadGroupAdjacencyInfo
no_links = record { outgoing = []; incoming = [] }

-- The size of the set, as a `uint8_t`.
abbrev pub indegree_of : ThreadGroupAdjacencyInfo → ℕ
indegree_of a = length a.incoming % 256

-- The maps are keyed by a callback's name, a thread group's id or a callback group's address.
pub record Registry : Type 0 where
  pub adjacency_list : List (String × CallbackAdjacencyInfo)
  pub threadgroup_adjacency_list : List (ℕ × ThreadGroupAdjacencyInfo)
  pub mutex_threadgroup_map : List (ℕ × ℕ)
  pub callback_map : List (String × CallbackInfo)
  pub threadgroup_callback_map : List (ℕ × ThreadGroupInfo)
  pub next_threadgroup_id : ℕ

-- `map[key]` as the target of a write, for each of the maps.
abbrev pub on_adjacency :
    String → (CallbackAdjacencyInfo → CallbackAdjacencyInfo) → Registry → Registry
on_adjacency n f r = record r { adjacency_list = upsert n no_edges f r.adjacency_list }

abbrev pub on_links :
    ℕ → (ThreadGroupAdjacencyInfo → ThreadGroupAdjacencyInfo) → Registry → Registry
on_links i f r = record r {
  threadgroup_adjacency_list = upsert i no_links f r.threadgroup_adjacency_list;
}

abbrev pub on_group : ℕ → (ThreadGroupInfo → ThreadGroupInfo) → Registry → Registry
on_group i f r = record r {
  threadgroup_callback_map = upsert i new_group f r.threadgroup_callback_map;
}
