-- ===== src/Strategy/Ready.antt =====
-- `take_ready_handles`: which subscriptions and timers the executor dispatches.
pub mod Sets
pub mod Loop
pub mod Exact
use preemptive_executor.Common.{
  ℕ, Bool, true, false, ◌&&◌, ◌||◌, ◌≡◌, refl, Option, none, some, List, [], ◌∷◌, ◌++◌, arith,
  foldl, contains, erase, if◌then◌else◌, nat_eq,
}
use preemptive_executor.Ros.{
  Entity, Member, subscription, service, client, timer, waitable, Group, Entry, collect_all_ptrs,
}
use preemptive_executor.Strategy.{Strategy}

abbrev pub is_empty {ℓ} : {A : Type ℓ} → List A → Bool
is_empty [] = true
is_empty (x ∷ xs) = false

-- An `std::unordered_set` of handles; null handles are left out.
pub insert_handle : List ℕ → Option ℕ → List ℕ
insert_handle set none = set
insert_handle set (some h) = if contains h set then set else h ∷ set

pub handle_set : List (Option ℕ) → List ℕ
unfolding insert_handle
handle_set hs = foldl insert_handle [] hs

-- For one kind: the handles not yet claimed, and the entities found so far.
pub record Claims : Type 0 where
  pub remaining : List ℕ
  pub ready : List Entity

pub claim_handle : Entity → Option ℕ → Claims → Claims
claim_handle e none c = c
claim_handle e (some h) c =
    if contains h c.remaining
    then record { remaining = erase h c.remaining; ready = c.ready ++ e ∷ [] }
    else c

-- The callback for a subscription, and that for a timer.
pub claim : Claims → Entity → Claims
unfolding claim_handle
claim c e = if is_empty c.remaining then c else claim_handle e e.handle c

pub record Gathered : Type 0 where
  pub subscriptions : Claims
  pub timers : Claims

pub gather : Gathered → Member → Gathered
unfolding claim
gather r (subscription e) = record r { subscriptions = claim r.subscriptions e }
gather r (service e) = r
gather r (client e) = r
gather r (timer e) = record r { timers = claim r.timers e }
gather r (waitable e) = r

pub gather_group : Option Group → Gathered → Gathered
unfolding gather
gather_group none r = r
gather_group (some g) r = collect_all_ptrs gather g.members r

pub gather_all : List Entry → Gathered → Gathered
unfolding gather_group
gather_all [] r = r
gather_all (e ∷ es) r = gather_all es (gather_group e.group r)

abbrev pub cleared : Strategy → Strategy
cleared s = record s { subscription_handles = []; timer_handles = [] }

pub record Ready : Type 0 where
  pub strategy : Strategy
  pub subscriptions : List Entity
  pub timers : List Entity

pub start : Strategy → Gathered
unfolding handle_set
start s = record {
  subscriptions = record { remaining = handle_set s.subscription_handles; ready = [] };
  timers = record { remaining = handle_set s.timer_handles; ready = [] };
}

pub from_sets : List Entry → Strategy → Gathered → Ready
unfolding gather_all
from_sets es s r =
    if is_empty r.subscriptions.remaining && is_empty r.timers.remaining
    then record { strategy = cleared s; subscriptions = []; timers = [] }
    else record {
      strategy = cleared s;
      subscriptions = (gather_all es r).subscriptions.ready;
      timers = (gather_all es r).timers.ready;
    }

unfoldable pub take_ready_handles : List Entry → Strategy → Ready
unfolding start from_sets
take_ready_handles es s =
    if is_empty s.subscription_handles && is_empty s.timer_handles
    then record { strategy = s; subscriptions = []; timers = [] }
    else from_sets es s (start s)
