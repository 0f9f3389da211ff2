-- ===== src/Registry/Inputs.antt =====
-- Inputs of the registry's runs (src/callback_registry.cpp).
use preemptive_executor.Common.{
  ℕ, Bool, true, false, some, List, [], ◌+◌, String, Outcome, ok, err, nat_eq, string_eq,
}
use preemptive_executor.Ros.{Member, subscription, Group, Entry}
use preemptive_executor.Chains.{UserChain}
use preemptive_executor.Registry.{Registry}

abbrev pub group : ℕ → Bool → List Member → Group
group i exclusive ms = record {
  id = i;
  can_be_taken_from = true;
  automatically_add = true;
  associated = false;
  mutually_exclusive = exclusive;
  members = ms;
}

abbrev pub sub : ℕ → Member
sub p = subscription (record { ptr = p; handle = some (p + 1000) })

abbrev pub chain : String → List String → UserChain
chain n cs = record { chain_name = n; callbacks = cs; deadline = 250; period = 100 }

abbrev pub entry : Group → Entry
entry g = record { group = some g; node = some 50 }

abbrev pub ok_or : Outcome Registry → Registry
ok_or (ok r) = r
ok_or (err x) = record {
  adjacency_list = [];
  threadgroup_adjacency_list = [];
  mutex_threadgroup_map = [];
  callback_map = [];
  threadgroup_callback_map = [];
  next_threadgroup_id = 1;
}
