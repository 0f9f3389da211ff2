-- ===== src/Strategy.antt =====
-- include/preemptive_executor/rt_allocator_memory_strategy.hpp: the vectors of handles that the
-- executor waits on. A handle is an address, and `none` a null pointer. The allocator is left out.
pub mod Guards
pub mod Collect
pub mod Nulls
pub mod Waiting
pub mod Next
pub mod Ready
pub mod Counts
mod Examples
use preemptive_executor.Common.{
  length, ℕ, ◌+◌, Bool, true, false, ◌||◌, Option, none, some, List, [], ◌∷◌, ◌++◌, Outcome, ok,
  err, waitable_null, if◌then◌else◌, ◌==◌, nat_eq,
}
use preemptive_executor.Ros.{
  Entity, Member, subscription, service, client, timer, waitable, Group, Entry, collect_all_ptrs,
}

pub record Strategy : Type 0 where
  pub guard_conditions : List ℕ
  pub subscription_handles : List (Option ℕ)
  pub service_handles : List (Option ℕ)
  pub client_handles : List (Option ℕ)
  pub timer_handles : List (Option ℕ)
  pub waitable_handles : List (Option ℕ)

-- The loop over `guard_conditions_` returns where it meets the condition, and pushes it at the end.
push_unless_present : ℕ → List ℕ → List ℕ
push_unless_present g [] = g ∷ []
push_unless_present g (x ∷ xs) = if x == g then x ∷ xs else x ∷ push_unless_present g xs

pub add_guard_condition : ℕ → Strategy → Strategy
unfolding push_unless_present
add_guard_condition g s = record s { guard_conditions = push_unless_present g s.guard_conditions }

-- The first match is erased, and the loop breaks.
remove_first : ℕ → List ℕ → List ℕ
remove_first g [] = []
remove_first g (x ∷ xs) = if x == g then xs else x ∷ remove_first g xs

pub remove_guard_condition : ℕ → Strategy → Strategy
unfolding remove_first
remove_guard_condition g s = record s { guard_conditions = remove_first g s.guard_conditions }

pub clear_handles : Strategy → Strategy
clear_handles s = record s {
  subscription_handles = [];
  service_handles = [];
  client_handles = [];
  timer_handles = [];
  waitable_handles = [];
}

-- The five callbacks of `collect_entities`: each pushes the entity's handle.
push_handle : Strategy → Member → Strategy
push_handle s (subscription e) = record s {
  subscription_handles = s.subscription_handles ++ e.handle ∷ [];
}
push_handle s (service e) = record s { service_handles = s.service_handles ++ e.handle ∷ [] }
push_handle s (client e) = record s { client_handles = s.client_handles ++ e.handle ∷ [] }
push_handle s (timer e) = record s { timer_handles = s.timer_handles ++ e.handle ∷ [] }
push_handle s (waitable e) = record s { waitable_handles = s.waitable_handles ++ some e.ptr ∷ [] }

-- One round of the loop: a group or a node that is gone is reported, a group in use is passed over.
collect_pair : Option Group → Option ℕ → Strategy × Bool → Strategy × Bool
unfolding push_handle
collect_pair none n (s, invalid) = (s, true)
collect_pair (some g) none (s, invalid) = (s, true)
collect_pair (some g) (some n) (s, invalid) =
    if g.can_be_taken_from
    then (collect_all_ptrs push_handle g.members s, invalid)
    else (s, invalid)

collect_from : List Entry → Strategy × Bool → Strategy × Bool
unfolding collect_pair
collect_from [] r = r
collect_from (e ∷ es) r = collect_from es (collect_pair e.group e.node r)

pub collect_entities : List Entry → Strategy → Strategy × Bool
unfolding collect_from
collect_entities es s = collect_from es (s, false)

pub add_waitable_handle : Option ℕ → Strategy → Outcome Strategy
add_waitable_handle none s = err waitable_null
add_waitable_handle (some w) s =
    ok (record s { waitable_handles = s.waitable_handles ++ some w ∷ [] })

pub number_of_waitables : Strategy → ℕ
number_of_waitables s = length s.waitable_handles
