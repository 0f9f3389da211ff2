-- ===== src/Strategy/Next/Selects.antt =====
-- Which entity the `get_next_...` functions serve, and which handles they erase.
use preemptive_executor.Common.{
  ℕ, Bool, true, false, ◌≡◌, refl, sym, ap, ◌∙◌, append_assoc, Option, none, some, List, [], ◌∷◌,
  ◌++◌, Outcome, ok, err, Error,
}
use preemptive_executor.Ros.{Entity, Group, Entry}
use preemptive_executor.Strategy.{Strategy}
use preemptive_executor.Strategy.Next.{
  Lookups, AnyExecutable, Taken, ended, after_call, if_free, if_grouped, if_found, take_next,
  set_subscription, set_service, set_client, set_timer, set_waitable, get_next_subscription,
  get_next_service, get_next_client, get_next_timer, get_next_waitable,
}

module _ {ℓ κ} {E : Type ℓ} {W : Type κ} (find : Option ℕ → Option E) (group_of : E → Option Group)
    (call : E → W → Outcome Bool × W) where
  -- Why the loop moves on from a handle, with what stays of it: an entity or a group that is gone
  -- is erased, one in use or cancelled stays.
  pub data Skip (h : Option ℕ) (w : W) : List (Option ℕ) → W → Type (ℓ ⊔ κ) where
    lost : find h ≡ none → Skip h w [] w
    ungrouped : (e : E) → find h ≡ some e → group_of e ≡ none → Skip h w [] w
    busy :
        (e : E) (g : Group)
        → find h ≡ some e
        → group_of e ≡ some g
        → g.can_be_taken_from ≡ false
        → Skip h w (h ∷ []) w
    cancelled :
        (e : E) (g : Group) {v : W}
        → find h ≡ some e
        → group_of e ≡ some g
        → g.can_be_taken_from ≡ true
        → call e w ≡ (ok false, v)
        → Skip h w (h ∷ []) v

  pub data Skips : List (Option ℕ) → W → List (Option ℕ) → W → Type (ℓ ⊔ κ) where
    done : {w : W} → Skips [] w [] w
    next :
        {h : Option ℕ} {hs kept rest : List (Option ℕ)} {u v w : W}
        → Skip h u kept v
        → Skips hs v rest w
        → Skips (h ∷ hs) u (kept ++ rest) w

  -- The entity `e` of the handle `h`, whose group `g` is free and whose call succeeds, is served.
  pub record Serves (h : Option ℕ) (before after kept : List (Option ℕ)) (v : W) (e : E) (g : Group)
      (t : Taken E W) : Type (ℓ ⊔ κ) where
    pub found : find h ≡ some e
    pub grouped : group_of e ≡ some g
    pub free : g.can_be_taken_from ≡ true
    pub called : call e v ≡ (ok true, t.world)
    pub chosen : t.chosen ≡ some (e, g)
    pub handles : t.handles ≡ kept ++ after
    pub thrown : t.thrown ≡ none

  -- The call for the entity `e` of the handle `h`, whose group `g` is free, throws `x`.
  pub record Fails (h : Option ℕ) (before after kept : List (Option ℕ)) (v : W) (e : E) (g : Group)
      (x : Error) (t : Taken E W) : Type (ℓ ⊔ κ) where
    pub found : find h ≡ some e
    pub grouped : group_of e ≡ some g
    pub free : g.can_be_taken_from ≡ true
    pub called : call e v ≡ (err x, t.world)
    pub chosen : t.chosen ≡ none
    pub handles : t.handles ≡ kept ++ h ∷ after
    pub thrown : t.thrown ≡ some x

  pub data Selects (hs : List (Option ℕ)) (w : W) (t : Taken E W) : Type (ℓ ⊔ κ) where
    nothing : t.chosen ≡ none → t.thrown ≡ none → Skips hs w t.handles t.world → Selects hs w t
    first :
        (h : Option ℕ) (before after kept : List (Option ℕ)) (v : W) (e : E) (g : Group)
        → hs ≡ before ++ h ∷ after
        → Skips before w kept v
        → Serves h before after kept v e g t
        → Selects hs w t
    failed :
        (h : Option ℕ) (before after kept : List (Option ℕ)) (v : W) (e : E) (g : Group) (x : Error)
        → hs ≡ before ++ h ∷ after
        → Skips before w kept v
        → Fails h before after kept v e g x t
        → Selects hs w t

  Selects-skip :
      {h : Option ℕ} {kept : List (Option ℕ)} {v w : W} (hs : List (Option ℕ)) (t : Taken E W)
      → Skip h w kept v
      → Selects hs v t
      → Selects (h ∷ hs) w (record t { handles = kept ++ t.handles })
  Selects-skip hs t s (nothing c n r) = nothing c n (next s r)
  Selects-skip {h} {kept} hs t s (failed h' before after kept' v e g x split r f) =
      failed h' (h ∷ before) after (kept ++ kept') v e g x (ap (◌∷◌ h) split) (next s r) (record {
        found = f.found;
        grouped = f.grouped;
        free = f.free;
        called = f.called;
        chosen = f.chosen;
        handles = ap (◌++◌ kept) f.handles ∙ sym (append_assoc kept kept' (h' ∷ after));
        thrown = f.thrown;
      })
  Selects-skip {h} {kept} hs t s (first h' before after kept' v e g split r x) =
      first h' (h ∷ before) after (kept ++ kept') v e g (ap (◌∷◌ h) split) (next s r) (record {
        found = x.found;
        grouped = x.grouped;
        free = x.free;
        called = x.called;
        chosen = x.chosen;
        handles = ap (◌++◌ kept) x.handles ∙ sym (append_assoc kept kept' after);
        thrown = x.thrown;
      })

  -- The tests on one handle, when the loop behind it is right.
  module _ (h : Option ℕ) (hs : List (Option ℕ)) (rest : W → Taken E W)
      (goes_on : (v : W) → Selects hs v (rest v)) where
    after_call-Selects :
        (e : E) (g : Group) (w : W) (r : Outcome Bool × W)
        → find h ≡ some e
        → group_of e ≡ some g
        → g.can_be_taken_from ≡ true
        → call e w ≡ r
        → Selects (h ∷ hs) w (after_call find group_of call h e g hs rest r)
    unfolding after_call
    after_call-Selects e g w (ok true, v) p q b c = first h [] hs [] w e g refl done (record {
      found = p;
      grouped = q;
      free = b;
      called = c;
      chosen = refl;
      handles = refl;
      thrown = refl;
    })
    after_call-Selects e g w (ok false, v) p q b c =
        Selects-skip hs (rest v) (cancelled e g p q b c) (goes_on v)
    after_call-Selects e g w (err x, v) p q b c = failed h [] hs [] w e g x refl done (record {
      found = p;
      grouped = q;
      free = b;
      called = c;
      chosen = refl;
      handles = refl;
      thrown = refl;
    })

    if_free-Selects :
        (e : E) (g : Group) (w : W) (b : Bool)
        → find h ≡ some e
        → group_of e ≡ some g
        → g.can_be_taken_from ≡ b
        → Selects (h ∷ hs) w (if_free find group_of call h e g hs rest w b)
    unfolding if_free
    if_free-Selects e g w true p q b = after_call-Selects e g w (call e w) p q b refl
    if_free-Selects e g w false p q b = Selects-skip hs (rest w) (busy e g p q b) (goes_on w)

    if_grouped-Selects :
        (e : E) (w : W) (o : Option Group)
        → find h ≡ some e
        → group_of e ≡ o
        → Selects (h ∷ hs) w (if_grouped find group_of call h e hs rest w o)
    unfolding if_grouped
    if_grouped-Selects e w none p q = Selects-skip hs (rest w) (ungrouped e p q) (goes_on w)
    if_grouped-Selects e w (some g) p q = if_free-Selects e g w g.can_be_taken_from p q refl

    if_found-Selects :
        (w : W) (o : Option E)
        → find h ≡ o
        → Selects (h ∷ hs) w (if_found find group_of call h hs rest w o)
    unfolding if_found
    if_found-Selects w none p = Selects-skip hs (rest w) (lost p) (goes_on w)
    if_found-Selects w (some e) p = if_grouped-Selects e w (group_of e) p refl

  pub take_next-Selects :
      (hs : List (Option ℕ)) (w : W) → Selects hs w (take_next find group_of call hs w)
  unfolding take_next
  take_next-Selects [] w = nothing refl refl done
  take_next-Selects (h ∷ hs) w =
      if_found-Selects h hs (λ v. take_next find group_of call hs v) (λ v. take_next-Selects hs v) w
        (find h) refl

-- What a `get_next_...` loop may do to one vector, when its entities need no call.
abbrev pub Served {ℓ} :
    {E : Type ℓ}
    → (Option ℕ → Option E)
    → (E → Option Group)
    → List (Option ℕ)
    → Taken E (Unit {0})
    → Type ℓ
Served find group_of hs t = Selects find group_of (λ e w. (ok true, w)) hs tt t

-- What a `get_next_...` function leaves in `any_exec`, member by member: what it found there, or the
-- entity in the member of its kind with the entity's group and node.
module _ (node_of : Group → Option ℕ) (any : AnyExecutable) where
  abbrev pub SubscriptionGiven : Option (Entity × Group) → AnyExecutable → Type 0
  SubscriptionGiven none r = r ≡ any
  SubscriptionGiven (some (e, g)) r = r ≡ record {
    subscription = some e;
    service = any.service;
    client = any.client;
    timer = any.timer;
    waitable = any.waitable;
    callback_group = some g;
    node_base = node_of g;
  }

  abbrev pub ServiceGiven : Option (Entity × Group) → AnyExecutable → Type 0
  ServiceGiven none r = r ≡ any
  ServiceGiven (some (e, g)) r = r ≡ record {
    subscription = any.subscription;
    service = some e;
    client = any.client;
    timer = any.timer;
    waitable = any.waitable;
    callback_group = some g;
    node_base = node_of g;
  }

  abbrev pub ClientGiven : Option (Entity × Group) → AnyExecutable → Type 0
  ClientGiven none r = r ≡ any
  ClientGiven (some (e, g)) r = r ≡ record {
    subscription = any.subscription;
    service = any.service;
    client = some e;
    timer = any.timer;
    waitable = any.waitable;
    callback_group = some g;
    node_base = node_of g;
  }

  abbrev pub TimerGiven : Option (Entity × Group) → AnyExecutable → Type 0
  TimerGiven none r = r ≡ any
  TimerGiven (some (e, g)) r = r ≡ record {
    subscription = any.subscription;
    service = any.service;
    client = any.client;
    timer = some e;
    waitable = any.waitable;
    callback_group = some g;
    node_base = node_of g;
  }

  abbrev pub WaitableGiven : Option (ℕ × Group) → AnyExecutable → Type 0
  WaitableGiven none r = r ≡ any
  WaitableGiven (some (e, g)) r = r ≡ record {
    subscription = any.subscription;
    service = any.service;
    client = any.client;
    timer = any.timer;
    waitable = some e;
    callback_group = some g;
    node_base = node_of g;
  }

-- How a function ends that has thrown the exception, or none.
abbrev pub EndsWith : Option Error → Outcome (Unit {0}) → Type 0
EndsWith none o = o ≡ ok tt
EndsWith (some x) o = o ≡ err x

module _ (api : Lookups) (es : List Entry) (any : AnyExecutable) (s : Strategy) where
  open api use {
    W, subscription_by_handle, service_by_handle, client_by_handle, timer_by_handle,
    group_by_subscription, group_by_service, group_by_client, group_by_timer, group_by_waitable,
    node_by_group, call,
  }

  set_subscription-SubscriptionGiven :
      (c : Option (Entity × Group))
      → SubscriptionGiven (λ g. node_by_group g es) any c (set_subscription api es c any)
  set_subscription-SubscriptionGiven none = refl
  set_subscription-SubscriptionGiven (some (e, g)) = refl

  set_service-ServiceGiven :
      (c : Option (Entity × Group))
      → ServiceGiven (λ g. node_by_group g es) any c (set_service api es c any)
  set_service-ServiceGiven none = refl
  set_service-ServiceGiven (some (e, g)) = refl

  set_client-ClientGiven :
      (c : Option (Entity × Group))
      → ClientGiven (λ g. node_by_group g es) any c (set_client api es c any)
  set_client-ClientGiven none = refl
  set_client-ClientGiven (some (e, g)) = refl

  set_timer-TimerGiven :
      (c : Option (Entity × Group))
      → TimerGiven (λ g. node_by_group g es) any c (set_timer api es c any)
  set_timer-TimerGiven none = refl
  set_timer-TimerGiven (some (e, g)) = refl

  set_waitable-WaitableGiven :
      (c : Option (ℕ × Group))
      → WaitableGiven (λ g. node_by_group g es) any c (set_waitable api es c any)
  set_waitable-WaitableGiven none = refl
  set_waitable-WaitableGiven (some (e, g)) = refl

  ended-EndsWith : (x : Option Error) → EndsWith x (ended api es x)
  ended-EndsWith none = refl
  ended-EndsWith (some x) = refl

  -- `get_next_timer` serves the first timer that is alive, has a group, whose group can be taken
  -- from and whose `call()` returns true; `any_exec` gets that timer, its group and the group's node,
  -- and its other members stay. On the way it erases exactly the handles whose timer or group is gone,
  -- leaves those whose group is in use or whose timer is cancelled in their order, and calls no timer
  -- behind the one served. With no such timer `any_exec` stays as it was. When a `call()` throws
  -- before that, so does the function: `any_exec` stays, and so do the handle and those behind it. The
  -- other vectors stay.
  pub get_next_timer_lem :
      (w : W)
      → (t : Taken Entity W) × (o : Outcome (Unit {0})) × (r : AnyExecutable) × (get_next_timer api
            es any s w
          ≡ (o, r, record s { timer_handles = t.handles }, t.world))
        × Selects (λ h. timer_by_handle h es) (λ e. group_by_timer e es) call s.timer_handles w t
        × EndsWith t.thrown o
        × TimerGiven (λ g. node_by_group g es) any t.chosen r
  unfolding get_next_timer
  get_next_timer_lem w = (
    _,
    _,
    _,
    refl,
    take_next-Selects (λ h. timer_by_handle h es) (λ e. group_by_timer e es) call _ w,
    ended-EndsWith _,
    set_timer-TimerGiven _,
  )

  -- `get_next_subscription`, `get_next_service`, `get_next_client` and `get_next_waitable`, which call
  -- nothing, each serve the first entity that is alive and has a group that can be taken from;
  -- `any_exec` gets it in the member of its kind, with its group and the group's node, its other
  -- members stay, and without such an entity it stays as it was; exactly the handles before it whose
  -- entity or group is gone are erased, and no other vector changes.
  pub get_next_lem :
      ((t : Taken Entity (Unit {0})) × (r : AnyExecutable) × (get_next_subscription api es any s
          ≡ (r, record s { subscription_handles = t.handles }))
        × Served
            (λ h. subscription_by_handle h es)
            (λ e. group_by_subscription e es)
            s.subscription_handles
            t
        × SubscriptionGiven (λ g. node_by_group g es) any t.chosen r)
      × ((t : Taken Entity (Unit {0})) × (r : AnyExecutable) × (get_next_service api es any s
            ≡ (r, record s { service_handles = t.handles }))
          × Served (λ h. service_by_handle h es) (λ e. group_by_service e es) s.service_handles t
          × ServiceGiven (λ g. node_by_group g es) any t.chosen r)
      × ((t : Taken Entity (Unit {0})) × (r : AnyExecutable) × (get_next_client api es any s
            ≡ (r, record s { client_handles = t.handles }))
          × Served (λ h. client_by_handle h es) (λ e. group_by_client e es) s.client_handles t
          × ClientGiven (λ g. node_by_group g es) any t.chosen r)
      × ((t : Taken ℕ (Unit {0})) × (r : AnyExecutable) × (get_next_waitable api es any s
            ≡ (r, record s { waitable_handles = t.handles }))
          × Served (λ h. h) (λ e. group_by_waitable e es) s.waitable_handles t
          × WaitableGiven (λ g. node_by_group g es) any t.chosen r)
  unfolding get_next_subscription get_next_service get_next_client get_next_waitable
  get_next_lem = (
    (
      _,
      _,
      refl,
      take_next-Selects (λ h. subscription_by_handle h es) (λ e. group_by_subscription e es)
          (λ e w. (ok true, w)) _ tt,
      set_subscription-SubscriptionGiven _,
    ),
    (
      _,
      _,
      refl,
      take_next-Selects (λ h. service_by_handle h es) (λ e. group_by_service e es)
          (λ e w. (ok true, w)) _ tt,
      set_service-ServiceGiven _,
    ),
    (
      _,
      _,
      refl,
      take_next-Selects (λ h. client_by_handle h es) (λ e. group_by_client e es)
          (λ e w. (ok true, w)) _ tt,
      set_client-ClientGiven _,
    ),
    (
      _,
      _,
      refl,
      take_next-Selects (λ h. h) (λ e. group_by_waitable e es) (λ e w. (ok true, w)) _ tt,
      set_waitable-WaitableGiven _,
    ),
  )
