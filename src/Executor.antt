-- ===== src/Executor.antt =====
-- include/preemptive_executor/preemptive_executor.hpp and src/preemptive_executor.cpp: the callback
-- groups of the executor, from the nodes that are added to it (`add_node`) to their classification
-- into real-time and other groups (`classify_callback_groups`).
use preemptive_executor.Common.{
  ℕ, ◌≡◌, Bool, true, false, not, ◌||◌, ◌&&◌, Option, none, some, is_some, List, [], ◌∷◌, ◌++◌,
  lookup, upsert, if◌then◌else◌, nat_eq, Outcome, ok, err, null_node, node_already_added,
  timing_info_missing, mixed_callback_group,
}
use preemptive_executor.Common.Action.{Action, resume}
use preemptive_executor.Ros.{
  Entity, Member, subscription, service, client, timer, waitable, Group, Entry, collect_all_ptrs,
}
pub mod Classes
pub mod Accepts
pub mod Spawn
pub mod Deliver
pub mod Populate
pub mod Delivered
pub mod Spin
mod Spawned
mod Examples

-- A node's base interface: `groups` are the pointers that `for_each_callback_group` visits.
pub record Node : Type 0 where
  pub ptr : ℕ
  pub has_executor : Bool
  pub groups : List (Option Group)

-- `pending` has the address of a group as its key; `M` is the executor's `weak_groups_to_nodes_`.
pub record Executor (M : Type 0) : Type 0 where
  pub callback_handle_to_threadgroup_id : Option (List (ℕ × ℕ))
  pub pending : List (ℕ × Entry)
  pub weak_groups_to_nodes : M
  pub non_rt_callback_groups : List (Group × ℕ)
  pub weak_nodes : List ℕ

module _ {M : Type 0} where
  unfoldable pub add_group : Node → Executor M → Option Group → Executor M
  add_group node x none = x
  add_group node x (some g) = if g.associated || not g.automatically_add then x else record x {
    pending =
        let entry : Entry = record { group = some g; node = some node.ptr } in
        upsert g.id entry (λ _. entry) x.pending;
  }

  unfoldable pub add_groups : Node → Executor M → List (Option Group) → Executor M
  unfolding add_group
  add_groups node x [] = x
  add_groups node x (g ∷ gs) = add_groups node (add_group node x g) gs

  -- The state is the node, whose flag `exchange` sets, and the executor.
  unfoldable pub add_node : Action (Option Node × Executor M) (Unit {0})
  unfolding add_groups
  add_node (none, x) = (err null_node, (none, x))
  add_node (some n, x) =
      let y = add_groups n x n.groups in
      if n.has_executor then (err node_already_added, (some n, x)) else (
        ok tt,
        (
          some (record n { has_executor = true }),
          record y { weak_nodes = y.weak_nodes ++ n.ptr ∷ [] },
        ),
      )

-- `has_rt` and `has_non_rt`.
pub record Flags : Type 0 where
  pub has_rt : Bool
  pub has_non_rt : Bool

abbrev pub flag : List (ℕ × ℕ) → Flags → Entity → Flags
flag handles f e =
    let in_map = is_some (lookup e.ptr handles) in
    record { has_rt = f.has_rt || in_map; has_non_rt = f.has_non_rt || not in_map }

unfoldable pub flag_member : List (ℕ × ℕ) → Flags → Member → Flags
flag_member handles f (subscription e) = flag handles f e
flag_member handles f (service e) = f
flag_member handles f (client e) = f
flag_member handles f (timer e) = flag handles f e
flag_member handles f (waitable e) = f

unfoldable pub flags_of : List (ℕ × ℕ) → Group → Flags
unfolding flag_member collect_all_ptrs
flags_of handles g =
    collect_all_ptrs (flag_member handles) g.members (record { has_rt = false; has_non_rt = false })

-- rclcpp's `add_callback_group_to_map` is the parameter.
module _ {M : Type 0} (add_callback_group_to_map : Group → ℕ → M → Outcome M) where
  unfoldable pub add_rt : Executor M → Outcome M → Outcome (Unit {0}) × Executor M
  add_rt x (ok m) = (ok tt, record x { weak_groups_to_nodes = m })
  add_rt x (err e) = (err e, x)

  unfoldable pub classify_group : List (ℕ × ℕ) → Group → ℕ → Action (Executor M) (Unit {0})
  unfolding flags_of add_rt
  classify_group handles g n x =
      let f = flags_of handles g in
      if f.has_rt && f.has_non_rt
      then (err mixed_callback_group, x)
      else (if f.has_rt then add_rt x (add_callback_group_to_map g n x.weak_groups_to_nodes) else (
        ok tt,
        record x { non_rt_callback_groups = x.non_rt_callback_groups ++ (g, n) ∷ [] },
      ))

  unfoldable pub classify_entry :
      List (ℕ × ℕ) → Option Group → Option ℕ → Action (Executor M) (Unit {0})
  unfolding classify_group
  classify_entry handles none n x = (ok tt, x)
  classify_entry handles (some g) none x = (ok tt, x)
  classify_entry handles (some g) (some n) x = classify_group handles g n x

  unfoldable pub classify_entries : List (ℕ × ℕ) → List (ℕ × Entry) → Action (Executor M) (Unit {0})
  unfolding classify_entry
  classify_entries handles [] x = (ok tt, x)
  classify_entries handles ((i, e) ∷ es) x =
      resume (λ _ y. classify_entries handles es y) (classify_entry handles e.group e.node x)

  abbrev pub clear_pending : Action (Executor M) (Unit {0})
  clear_pending x = (ok tt, record x { pending = [] })

  -- Some `order` of the entries: that of the addresses of the groups' control blocks.
  unfoldable pub classify_with :
      (List (ℕ × Entry) → List (ℕ × Entry)) → Option (List (ℕ × ℕ)) → Action (Executor M) (Unit {0})
  unfolding classify_entries
  classify_with order none x = (err timing_info_missing, x)
  classify_with order (some handles) x =
      resume (λ _. clear_pending) (classify_entries handles (order x.pending) x)

  unfoldable pub classify_callback_groups :
      (List (ℕ × Entry) → List (ℕ × Entry)) → Action (Executor M) (Unit {0})
  unfolding classify_with
  classify_callback_groups order x = classify_with order x.callback_handle_to_threadgroup_id x
