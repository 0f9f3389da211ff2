-- ===== src/Strategy/Next.antt =====
-- `get_next_subscription`, `get_next_service`, `get_next_client`, `get_next_timer` and
-- `get_next_waitable`. rclcpp's lookups by handle are parameters, and so is `timer->call()`, which
-- may change the state `W` of the timers, and may throw.
pub mod Selects
use preemptive_executor.Common.{
  ℕ, Bool, true, false, ◌≡◌, refl, sym, ap, ◌∙◌, append_assoc, ◌⊎◌, inl, inr, Option, none, some,
  List, [], ◌∷◌, ◌++◌, arith, keep, is_some, Option-cases, Bool-cases, if◌then◌else◌, Outcome, ok,
  err, Error,
}
use preemptive_executor.Ros.{Entity, Group, Entry}
use preemptive_executor.Strategy.{Strategy}

pub record Lookups : Type 1 where
  pub W : Type 0
  pub subscription_by_handle : Option ℕ → List Entry → Option Entity
  pub service_by_handle : Option ℕ → List Entry → Option Entity
  pub client_by_handle : Option ℕ → List Entry → Option Entity
  pub timer_by_handle : Option ℕ → List Entry → Option Entity
  pub group_by_subscription : Entity → List Entry → Option Group
  pub group_by_service : Entity → List Entry → Option Group
  pub group_by_client : Entity → List Entry → Option Group
  pub group_by_timer : Entity → List Entry → Option Group
  pub group_by_waitable : ℕ → List Entry → Option Group
  pub node_by_group : Group → List Entry → Option ℕ
  pub call : Entity → W → Outcome Bool × W

pub record AnyExecutable : Type 0 where
  pub subscription : Option Entity
  pub service : Option Entity
  pub client : Option Entity
  pub timer : Option Entity
  pub waitable : Option ℕ
  pub callback_group : Option Group
  pub node_base : Option ℕ

-- What the loop of a `get_next_...` ends with: the entity to serve, the handles that stay, and the
-- exception that has ended it, if any.
pub record Taken {ℓ κ} (E : Type ℓ) (W : Type κ) : Type (ℓ ⊔ κ) where
  pub chosen : Option (E × Group)
  pub handles : List (Option ℕ)
  pub world : W
  pub thrown : Option Error

-- The five loops differ in the lookups, and in the last test that an entity has to pass.
module _ {ℓ κ} {E : Type ℓ} {W : Type κ} (find : Option ℕ → Option E) (group_of : E → Option Group)
    (call : E → W → Outcome Bool × W) where
  -- The handle stays in the vector, `++it`.
  abbrev pass_over : Option ℕ → Taken E W → Taken E W
  pass_over h t = record t { handles = h ∷ t.handles }

  -- `call` has answered. `rest` goes on behind the handle, with the state of the timers.
  after_call :
      Option ℕ → E → Group → List (Option ℕ) → (W → Taken E W) → Outcome Bool × W → Taken E W
  after_call h e g hs rest (ok true, w) = record {
    chosen = some (e, g);
    handles = hs;
    world = w;
    thrown = none;
  }
  after_call h e g hs rest (ok false, w) = pass_over h (rest w)
  after_call h e g hs rest (err x, w) = record {
    chosen = none;
    handles = h ∷ hs;
    world = w;
    thrown = some x;
  }

  -- `group->can_be_taken_from().load()`
  if_free : Option ℕ → E → Group → List (Option ℕ) → (W → Taken E W) → W → Bool → Taken E W
  unfolding after_call
  if_free h e g hs rest w true = after_call h e g hs rest (call e w)
  if_free h e g hs rest w false = pass_over h (rest w)

  -- Without a group the handle is erased.
  if_grouped : Option ℕ → E → List (Option ℕ) → (W → Taken E W) → W → Option Group → Taken E W
  unfolding if_free
  if_grouped h e hs rest w none = rest w
  if_grouped h e hs rest w (some g) = if_free h e g hs rest w g.can_be_taken_from

  -- Without an entity the handle is erased.
  if_found : Option ℕ → List (Option ℕ) → (W → Taken E W) → W → Option E → Taken E W
  unfolding if_grouped
  if_found h hs rest w none = rest w
  if_found h hs rest w (some e) = if_grouped h e hs rest w (group_of e)

  pub take_next : List (Option ℕ) → W → Taken E W
  unfolding if_found
  take_next [] w = record { chosen = none; handles = []; world = w; thrown = none }
  take_next (h ∷ hs) w = if_found h hs (λ v. take_next hs v) w (find h)

-- `any_exec` gets the entity, its group and the group's node.
module _ (api : Lookups) (es : List Entry) where
  open api use {
    W, subscription_by_handle, service_by_handle, client_by_handle, timer_by_handle,
    group_by_subscription, group_by_service, group_by_client, group_by_timer, group_by_waitable,
    node_by_group, call,
  }

  abbrev node_of : Group → Option ℕ
  node_of g = node_by_group g es

  abbrev pub set_subscription : Option (Entity × Group) → AnyExecutable → AnyExecutable
  set_subscription none any = any
  set_subscription (some (e, g)) any = record any {
    subscription = some e;
    callback_group = some g;
    node_base = node_of g;
  }

  abbrev pub set_service : Option (Entity × Group) → AnyExecutable → AnyExecutable
  set_service none any = any
  set_service (some (e, g)) any = record any {
    service = some e;
    callback_group = some g;
    node_base = node_of g;
  }

  abbrev pub set_client : Option (Entity × Group) → AnyExecutable → AnyExecutable
  set_client none any = any
  set_client (some (e, g)) any = record any {
    client = some e;
    callback_group = some g;
    node_base = node_of g;
  }

  abbrev pub set_timer : Option (Entity × Group) → AnyExecutable → AnyExecutable
  set_timer none any = any
  set_timer (some (e, g)) any = record any {
    timer = some e;
    callback_group = some g;
    node_base = node_of g;
  }

  abbrev pub set_waitable : Option (ℕ × Group) → AnyExecutable → AnyExecutable
  set_waitable none any = any
  set_waitable (some (e, g)) any = record any {
    waitable = some e;
    callback_group = some g;
    node_base = node_of g;
  }

  -- The loops over the four vectors whose entities need no call, and the one over the timers.
  abbrev pub next_subscription : Strategy → Taken Entity (Unit {0})
  next_subscription s =
      take_next (λ h. subscription_by_handle h es) (λ e. group_by_subscription e es)
        (λ e w. (ok true, w)) s.subscription_handles tt

  abbrev pub next_service : Strategy → Taken Entity (Unit {0})
  next_service s =
      take_next (λ h. service_by_handle h es) (λ e. group_by_service e es) (λ e w. (ok true, w))
        s.service_handles tt

  abbrev pub next_client : Strategy → Taken Entity (Unit {0})
  next_client s =
      take_next (λ h. client_by_handle h es) (λ e. group_by_client e es) (λ e w. (ok true, w))
        s.client_handles tt

  abbrev pub next_timer : Strategy → W → Taken Entity W
  next_timer s w =
      take_next (λ h. timer_by_handle h es) (λ e. group_by_timer e es) call s.timer_handles w

  -- A waitable is looked up by itself: it stands in the vector.
  abbrev pub next_waitable : Strategy → Taken ℕ (Unit {0})
  next_waitable s =
      take_next (λ h. h) (λ e. group_by_waitable e es) (λ e w. (ok true, w)) s.waitable_handles tt

  pub get_next_subscription : AnyExecutable → Strategy → AnyExecutable × Strategy
  unfolding take_next
  get_next_subscription any s =
      let t = next_subscription s in
      (set_subscription t.chosen any, record s { subscription_handles = t.handles })

  pub get_next_service : AnyExecutable → Strategy → AnyExecutable × Strategy
  unfolding take_next
  get_next_service any s =
      let t = next_service s in (set_service t.chosen any, record s { service_handles = t.handles })

  pub get_next_client : AnyExecutable → Strategy → AnyExecutable × Strategy
  unfolding take_next
  get_next_client any s =
      let t = next_client s in (set_client t.chosen any, record s { client_handles = t.handles })

  abbrev pub ended : Option Error → Outcome (Unit {0})
  ended none = ok tt
  ended (some x) = err x

  unfoldable pub get_next_timer :
      AnyExecutable → Strategy → W → Outcome (Unit {0}) × AnyExecutable × Strategy × W
  unfolding take_next
  get_next_timer any s w =
      let t = next_timer s w in
      (ended t.thrown, set_timer t.chosen any, record s { timer_handles = t.handles }, t.world)

  pub get_next_waitable : AnyExecutable → Strategy → AnyExecutable × Strategy
  unfolding take_next
  get_next_waitable any s =
      let t = next_waitable s in
      (set_waitable t.chosen any, record s { waitable_handles = t.handles })
