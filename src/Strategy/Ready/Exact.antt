-- ===== src/Strategy/Ready/Exact.antt =====
-- `take_ready_handles` hands out each ready handle exactly once.
use preemptive_executor.Common.{
  ℕ, Bool, true, ◌≡◌, refl, subst, ◌&&◌, inl, inr, Bool-cases, Option, none, some, List, [], ◌∷◌,
  ◌++◌, arith, flat_map, append_assoc,
}
use preemptive_executor.Ros.{
  Entity, Member, subscription, timer, Group, Entry, collect_all_ptrs-foldl, foldl-append,
}
use preemptive_executor.Strategy.{Strategy}
use preemptive_executor.Strategy.Ready.{
  is_empty, handle_set, Claims, claim, Gathered, gather, gather_group, gather_all, cleared, Ready,
  start, from_sets, take_ready_handles,
}
use preemptive_executor.Strategy.Ready.Loop.{
  claim_all, begun, Exactly, claim_all-Exactly, claim_all-nothing,
}

abbrev pub group_members : Option Group → List Member
group_members none = []
group_members (some g) = g.members

-- The members of the groups that are alive; their nodes, and whether they may be taken from, do not
-- matter here.
abbrev pub live_members : List Entry → List Member
live_members = flat_map λ e. group_members e.group

abbrev pub as_subscription : Member → List Entity
as_subscription (subscription e) = e ∷ []
as_subscription _ = []

abbrev pub as_timer : Member → List Entity
as_timer (timer e) = e ∷ []
as_timer _ = []

abbrev pub subscriptions_of : List Member → List Entity
subscriptions_of = flat_map as_subscription

abbrev pub timers_of : List Member → List Entity
timers_of = flat_map as_timer

flat_map-append {ℓ κ} :
    {A : Type ℓ} {B : Type κ} (f : A → List B) (xs ys : List A)
    → flat_map f (xs ++ ys) ≡ flat_map f xs ++ flat_map f ys
flat_map-append f [] ys = refl
flat_map-append f (x ∷ xs) ys = rw (flat_map-append f xs ys, append_assoc)

-- The two kinds do not disturb one another.
module _ (view : Gathered → Claims) (own : Member → List Entity)
    (step : (r : Gathered) (m : Member) → view (gather r m) ≡ claim_all (own m) (view r)) where
  gather_group-view :
      (g : Option Group) (r : Gathered)
      → view (gather_group g r) ≡ claim_all (flat_map own (group_members g)) (view r)
  unfolding gather_group
  gather_group-view none r = refl
  gather_group-view (some g) r = collect_all_ptrs-foldl gather view own claim step g.members r

  gather_all-view :
      (es : List Entry) (r : Gathered)
      → view (gather_all es r) ≡ claim_all (flat_map own (live_members es)) (view r)
  unfolding gather_all
  gather_all-view [] r = refl
  gather_all-view (e ∷ es) r = rw (
    gather_all-view es (gather_group e.group r),
    gather_group-view e.group r,
    flat_map-append own (group_members e.group) (live_members es),
    foldl-append claim (view r) (flat_map own (group_members e.group))
        (flat_map own (live_members es)),
  )

subscriptions-step :
    (r : Gathered) (m : Member)
    → (gather r m).subscriptions ≡ claim_all (as_subscription m) r.subscriptions
unfolding gather
subscriptions-step r (subscription e) = refl
subscriptions-step r _ = refl

timers-step : (r : Gathered) (m : Member) → (gather r m).timers ≡ claim_all (as_timer m) r.timers
unfolding gather
timers-step r (timer e) = refl
timers-step r _ = refl

gathered_subscriptions :
    (es : List Entry) (s : Strategy)
    → Exactly s.subscription_handles
        (subscriptions_of (live_members es))
        (gather_all es (start s)).subscriptions.ready
unfolding start
gathered_subscriptions es s =
    rw (gather_all-view (λ r. r.subscriptions) as_subscription subscriptions-step es (start s))
      (claim_all-Exactly s.subscription_handles (subscriptions_of (live_members es)))

gathered_timers :
    (es : List Entry) (s : Strategy)
    → Exactly s.timer_handles (timers_of (live_members es)) (gather_all es (start s)).timers.ready
unfolding start
gathered_timers es s =
    rw (gather_all-view (λ r. r.timers) as_timer timers-step es (start s))
      (claim_all-Exactly s.timer_handles (timers_of (live_members es)))

-- Nothing is found where there is nothing to look for.
nothing_listed :
    (hs : List (Option ℕ)) (es : List Entity) → is_empty (handle_set hs) ≡ true → Exactly hs es []
nothing_listed hs es q =
    subst (λ (c : Claims). Exactly hs es c.ready)
      (claim_all-nothing es (begun hs) (empty_lem (handle_set hs) q)) (claim_all-Exactly hs es)
  where
    empty_lem : (l : List ℕ) → is_empty l ≡ true → l ≡ []
    empty_lem [] h = refl
    empty_lem (x ∷ l) h = cc

empty-handle_set : (hs : List (Option ℕ)) → is_empty hs ≡ true → is_empty (handle_set hs) ≡ true
unfolding handle_set
empty-handle_set [] h = refl
empty-handle_set (x ∷ hs) h = cc

-- What `take_ready_handles` promises.
pub record Took (es : List Entry) (s : Strategy) (r : Ready) : Type 0 where
  pub subscriptions :
      Exactly s.subscription_handles (subscriptions_of (live_members es)) r.subscriptions
  pub timers : Exactly s.timer_handles (timers_of (live_members es)) r.timers
  pub strategy : r.strategy ≡ cleared s

and_parts : (a b : Bool) → (a && b) ≡ true → (a ≡ true) × (b ≡ true)
and_parts a b h = ground arith

from_sets-Took : (es : List Entry) (s : Strategy) → Took es s (from_sets es s (start s))
unfolding from_sets handle_set start
from_sets-Took es s = elim (Bool-cases (no_subscription && no_timer)) [
  | inl e ↦
      let (a, b) = and_parts no_subscription no_timer e in
      rw e (record {
        subscriptions = nothing_listed s.subscription_handles _ a;
        timers = nothing_listed s.timer_handles _ b;
        strategy = refl;
      })
  | inr e ↦ rw e (record {
    subscriptions = gathered_subscriptions es s;
    timers = gathered_timers es s;
    strategy = refl;
  })
]
  where
    no_subscription : Bool
    no_subscription = is_empty (start s).subscriptions.remaining

    no_timer : Bool
    no_timer = is_empty (start s).timers.remaining

cleared_self :
    (s : Strategy)
    → is_empty s.subscription_handles ≡ true
    → is_empty s.timer_handles ≡ true
    → s ≡ cleared s
cleared_self s a b = ground arith

-- `take_ready_handles` returns subscriptions and timers of groups that are alive: for each handle in
-- the strategy's vector that belongs to such an entity exactly one entity with that handle, and no
-- entity for any other handle. It empties the two vectors and changes nothing else.
pub take_ready_handles_lem : (es : List Entry) (s : Strategy) → Took es s (take_ready_handles es s)
unfolding take_ready_handles
take_ready_handles_lem es s =
    elim (Bool-cases (is_empty s.subscription_handles && is_empty s.timer_handles)) [
      | inl e ↦
          let (a, b) = and_parts (is_empty s.subscription_handles) (is_empty s.timer_handles) e in
          rw e (record {
            subscriptions =
                nothing_listed s.subscription_handles _ (empty-handle_set s.subscription_handles a);
            timers = nothing_listed s.timer_handles _ (empty-handle_set s.timer_handles b);
            strategy = cleared_self s a b;
          })
      | inr e ↦ rw e (from_sets-Took es s)
    ]
