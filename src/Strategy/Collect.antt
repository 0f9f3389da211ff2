-- ===== src/Strategy/Collect.antt =====
-- `collect_entities` against a description by lists.
use preemptive_executor.Common.{
  ℕ, Bool, false, ◌||◌, ◌&&◌, not, ◌≡◌, refl, Option, none, some, List, [], ◌∷◌, ◌++◌, arith,
  if◌then◌else◌, flat_map, is_some, append-nil, append_assoc,
}
use preemptive_executor.Ros.{
  Member, subscription, service, client, timer, waitable, Group, Entry, collect_all_ptrs-append,
}
use preemptive_executor.Strategy.{
  Strategy, push_handle, collect_pair, collect_from, collect_entities,
}

-- The members of an entry whose group and node are alive and whose group may be taken from.
abbrev pub members_of : Option Group → Option ℕ → List Member
members_of none n = []
members_of (some g) none = []
members_of (some g) (some n) = if g.can_be_taken_from then g.members else []

abbrev pub open_members : Entry → List Member
open_members e = members_of e.group e.node

abbrev pub is_dead : Entry → Bool
is_dead e = not (is_some e.group && is_some e.node)

abbrev pub any_dead : List Entry → Bool
any_dead [] = false
any_dead (e ∷ es) = is_dead e || any_dead es

-- What a member adds to each of the five vectors.
abbrev pub on_subscription : Member → List (Option ℕ)
on_subscription (subscription e) = e.handle ∷ []
on_subscription _ = []

abbrev pub on_service : Member → List (Option ℕ)
on_service (service e) = e.handle ∷ []
on_service _ = []

abbrev pub on_client : Member → List (Option ℕ)
on_client (client e) = e.handle ∷ []
on_client _ = []

abbrev pub on_timer : Member → List (Option ℕ)
on_timer (timer e) = e.handle ∷ []
on_timer _ = []

abbrev pub on_waitable : Member → List (Option ℕ)
on_waitable (waitable e) = some e.ptr ∷ []
on_waitable _ = []

flat_map-append {ℓ κ} :
    {A : Type ℓ} {B : Type κ} (f : A → List B) (xs ys : List A)
    → flat_map f (xs ++ ys) ≡ flat_map f xs ++ flat_map f ys
flat_map-append f [] ys = refl
flat_map-append f (x ∷ xs) ys = rw (flat_map-append f xs ys, append_assoc)

-- A vector that each member extends by `own` is extended by all open members in order.
module _ (view : Strategy → List (Option ℕ)) (own : Member → List (Option ℕ))
    (step : (s : Strategy) (m : Member) → view (push_handle s m) ≡ view s ++ own m) where
  collect_pair-view :
      (g : Option Group) (n : Option ℕ) (r : Strategy × Bool)
      → view (collect_pair g n r).0 ≡ view r.0 ++ flat_map own (members_of g n)
  unfolding collect_pair
  collect_pair-view none n (s, invalid) = rw append-nil
  collect_pair-view (some g) none (s, invalid) = rw append-nil
  collect_pair-view (some g) (some n) (s, invalid) =
      ground
        (arith, append-nil (view s), collect_all_ptrs-append push_handle view own step g.members s)

  collect_from-view :
      (es : List Entry) (r : Strategy × Bool)
      → view (collect_from es r).0 ≡ view r.0 ++ flat_map own (flat_map open_members es)
  unfolding collect_from
  collect_from-view [] r = rw append-nil
  collect_from-view (e ∷ es) r = rw (
    collect_from-view es (collect_pair e.group e.node r),
    collect_pair-view e.group e.node r,
    flat_map-append own (open_members e) (flat_map open_members es),
    append_assoc,
  )

collect_pair-flag :
    (g : Option Group) (n : Option ℕ) (r : Strategy × Bool)
    → (collect_pair g n r).1 ≡ (r.1 || not (is_some g && is_some n))
unfolding collect_pair
collect_pair-flag none n r = ground arith
collect_pair-flag (some g) none r = ground arith
collect_pair-flag (some g) (some n) r = ground arith

collect_from-flag :
    (es : List Entry) (r : Strategy × Bool) → (collect_from es r).1 ≡ (r.1 || any_dead es)
unfolding collect_from
collect_from-flag [] r = ground arith
collect_from-flag (e ∷ es) r = ground (
  arith,
  collect_from-flag es (collect_pair e.group e.node r),
  collect_pair-flag e.group e.node r,
)

subscription-step :
    (s : Strategy) (m : Member)
    → (push_handle s m).subscription_handles ≡ s.subscription_handles ++ on_subscription m
unfolding push_handle
subscription-step s (subscription e) = refl
subscription-step s _ = rw append-nil

service-step :
    (s : Strategy) (m : Member)
    → (push_handle s m).service_handles ≡ s.service_handles ++ on_service m
unfolding push_handle
service-step s (service e) = refl
service-step s _ = rw append-nil

client-step :
    (s : Strategy) (m : Member) → (push_handle s m).client_handles ≡ s.client_handles ++ on_client m
unfolding push_handle
client-step s (client e) = refl
client-step s _ = rw append-nil

timer-step :
    (s : Strategy) (m : Member) → (push_handle s m).timer_handles ≡ s.timer_handles ++ on_timer m
unfolding push_handle
timer-step s (timer e) = refl
timer-step s _ = rw append-nil

waitable-step :
    (s : Strategy) (m : Member)
    → (push_handle s m).waitable_handles ≡ s.waitable_handles ++ on_waitable m
unfolding push_handle
waitable-step s (waitable e) = refl
waitable-step s _ = rw append-nil

-- What one call of `collect_entities` is to do to the strategy `s`.
pub record Collected (es : List Entry) (s t : Strategy) : Type 0 where
  pub subscriptions :
      t.subscription_handles
      ≡ s.subscription_handles ++ flat_map on_subscription (flat_map open_members es)
  pub services :
      t.service_handles ≡ s.service_handles ++ flat_map on_service (flat_map open_members es)
  pub clients : t.client_handles ≡ s.client_handles ++ flat_map on_client (flat_map open_members es)
  pub timers : t.timer_handles ≡ s.timer_handles ++ flat_map on_timer (flat_map open_members es)
  pub waitables :
      t.waitable_handles ≡ s.waitable_handles ++ flat_map on_waitable (flat_map open_members es)

-- `collect_entities` appends to each of the five vectors, in order, the handles (for waitables the
-- addresses) of the entities of that kind in the groups that are alive, have a live node and can be
-- taken from; it returns true exactly when some entry has lost its group or its node.
pub collect_entities_lem :
    (es : List Entry) (s : Strategy)
    → Collected es s (collect_entities es s).0 × ((collect_entities es s).1 ≡ any_dead es)
unfolding collect_entities
collect_entities_lem es s = (
  record {
    subscriptions =
        collect_from-view (λ t. t.subscription_handles) on_subscription subscription-step es
          (s, false);
    services = collect_from-view (λ t. t.service_handles) on_service service-step es (s, false);
    clients = collect_from-view (λ t. t.client_handles) on_client client-step es (s, false);
    timers = collect_from-view (λ t. t.timer_handles) on_timer timer-step es (s, false);
    waitables = collect_from-view (λ t. t.waitable_handles) on_waitable waitable-step es (s, false);
  },
  collect_from-flag es (s, false),
)
