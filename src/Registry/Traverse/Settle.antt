-- ===== src/Registry/Traverse/Settle.antt =====
-- What `settle` does: the callback gets one thread group, and the maps grow.
mod Writes
mod Choose
pub use Writes.{
  lookup-assign, assign-assign, group_at, is_mutex, mutex_of, Recorded, Quiet, on_group-Quiet,
  Quiet-refl, Quiet-trans,
}
pub use Choose.{
  HasIds, Chosen, choose_group-Chosen, join_group-Quiet, join_group-Recorded, link-Quiet,
}
use preemptive_executor.Common.{
  ℕ, ◌<◌, ◌≤◌, Bool, true, false, ◌≡◌, ◌≢◌, refl, ◌∙◌, ◌⊎◌, inl, inr, some, arith, if◌then◌else◌,
  ◌==◌, nat_eq, string_eq, String, Bool-cases,
}
use preemptive_executor.Registry.{CallbackInfo, Registry}
use preemptive_executor.Registry.Traverse.{
  Walk, assign, assign_in, choose_group, link, join_group, enter_group, settle, settle_by,
}

-- The callback `name` has got thread group `i`, which is its mutex group's if it has one.
pub record Settled (name : String) (info : CallbackInfo) (r s : Registry) (i : ℕ) : Type 0 where
  pub callbacks : s.callback_map ≡ assign name i r.callback_map
  pub below : i < s.next_threadgroup_id
  pub positive : 0 < i
  pub grows : r.next_threadgroup_id ≤ s.next_threadgroup_id
  pub keeps : (g j : ℕ) → mutex_of g r ≡ some j → mutex_of g s ≡ some j
  pub back :
      (g j : ℕ)
      → mutex_of g s ≡ some j
      → (mutex_of g r ≡ some j) ⊎ ((j ≡ i) × (is_mutex i s ≡ true))
  pub own :
      info.callback_group.mutually_exclusive ≡ true → mutex_of info.callback_group.id s ≡ some i
  pub flags : (j : ℕ) → is_mutex j r ≡ true → is_mutex j s ≡ true
  pub recorded : (j : ℕ) → Recorded j r → Recorded j s
  pub own_record : Recorded i s

-- A chosen group that the callback joins, with quiet writes behind it.
Chosen-Settled :
    (name : String) (info : CallbackInfo) (r s t : Registry) (i : ℕ)
    → Chosen info r s i
    → Quiet (assign_in name i s) t
    → Recorded i t
    → Settled name info r t i
Chosen-Settled name info r s t i c q own = record {
  callbacks = ground (arith, q.callbacks, c.callbacks);
  below = ground (arith, q.next, c.below);
  positive = c.positive;
  grows = ground (arith, q.next, c.grows);
  keeps = λ g j e. rw q.mutexes (c.keeps g j e);
  back = λ g j e. ground (arith, q.mutexes, c.back g j, q.flags i);
  own = λ e. rw q.mutexes (c.own e);
  flags = λ j e. q.flags j (c.flags j e);
  recorded = λ j e. q.recorded j (c.recorded j e);
  own_record = own;
}

-- What `settle` leaves: the callback's thread group, and the local `threadgroup_id`.
pub record Result (name : String) (info : CallbackInfo) (r : Registry) (out : ℕ × Walk)
    : Type 0 where
  pub id : ℕ
  pub settled : Settled name info r out.1.registry id
  pub local_positive : 0 < out.0
  pub local_below : out.0 < out.1.registry.next_threadgroup_id
  pub local_recorded : Recorded out.0 out.1.registry

enter_group-Result :
    (name : String) (info : CallbackInfo) (tg prev : ℕ) (w : Walk)
    → tg < w.registry.next_threadgroup_id
    → (tg ≢ 0 → Recorded tg w.registry)
    → HasIds w.registry
    → Result name info w.registry (enter_group name info tg prev w)
unfolding enter_group
enter_group-Result name info tg prev w h told ids = elim (Bool-cases (tg == 0)) [
  | inl e ↦ rw e (record {
    id = i;
    settled =
        Chosen-Settled name info w.registry s _ i c
          (Quiet-trans _ _ _ joined (link-Quiet prev i (join_group name i v).registry)) linked;
    local_positive = c.positive;
    local_below =
        ground
          (arith, c.below, joined.next, (link-Quiet prev i (join_group name i v).registry).next);
    local_recorded = linked;
  })
  | inr e ↦ rw e (record {
    id = i;
    settled = Chosen-Settled name info w.registry s _ i c joined (join_group-Recorded name i v);
    local_positive = ground arith;
    local_below = ground (arith, c.grows, joined.next);
    local_recorded = joined.recorded tg (c.recorded tg (told (ground arith)));
  })
]
  where
    i : ℕ
    i = (choose_group info w.registry).0

    s : Registry
    s = (choose_group info w.registry).1

    v : Walk
    v = record w { registry = s }

    c : Chosen info w.registry s i
    c = choose_group-Chosen info w.registry ids

    joined : Quiet (assign_in name i s) (join_group name i v).registry
    joined = join_group-Quiet name i v

    linked : Recorded i (link prev i (join_group name i v).registry)
    linked =
        (link-Quiet prev i (join_group name i v).registry).recorded i (join_group-Recorded name i v)

-- Marking the callback first changes nothing else that matters.
marked-Settled :
    (name : String) (info : CallbackInfo) (tg i : ℕ) (r s : Registry)
    → Settled name info (assign_in name tg r) s i
    → Settled name info r s i
marked-Settled name info tg i r s t = record {
  callbacks = t.callbacks ∙ assign-assign name i tg r.callback_map;
  below = t.below;
  positive = t.positive;
  grows = t.grows;
  keeps = t.keeps;
  back = t.back;
  own = t.own;
  flags = t.flags;
  recorded = t.recorded;
  own_record = t.own_record;
}

marked-HasIds : (name : String) (tg : ℕ) (r : Registry) → HasIds r → HasIds (assign_in name tg r)
marked-HasIds name tg r h = record { positive = h.positive; mutex_ids = h.mutex_ids }

reentrant-Result :
    (name : String) (info : CallbackInfo) (tg : ℕ) (w : Walk)
    → 0 < tg
    → tg < w.registry.next_threadgroup_id
    → Recorded tg w.registry
    → info.callback_group.mutually_exclusive ≡ false
    → Result name info w.registry (tg, record w { registry = assign_in name tg w.registry })
reentrant-Result name info tg w p h told e = record {
  id = tg;
  settled = record {
    callbacks = refl;
    below = h;
    positive = p;
    grows = omega arith;
    keeps = λ g j q. q;
    back = λ g j q. inl q;
    own = λ q. cc;
    flags = λ j q. q;
    recorded = λ j q. q;
    own_record = told;
  };
  local_positive = p;
  local_below = h;
  local_recorded = told;
}

settle_marked :
    (name : String) (info : CallbackInfo) (tg prev : ℕ) (w : Walk) (b : Bool)
    → info.callback_group.mutually_exclusive ≡ b
    → 0 < tg
    → tg < w.registry.next_threadgroup_id
    → Recorded tg w.registry
    → HasIds w.registry
    → let marked : Walk = record w { registry = assign_in name tg w.registry } in
      Result name info w.registry (if b then enter_group name info tg prev marked else (tg, marked))
settle_marked name info tg prev w true e p h told ids =
    let marked : Walk = record w { registry = assign_in name tg w.registry } in
    let x =
      enter_group-Result name info tg prev marked h (λ _. told)
        (marked-HasIds name tg w.registry ids) in
    record {
      id = x.id;
      settled = marked-Settled name info tg x.id w.registry _ x.settled;
      local_positive = x.local_positive;
      local_below = x.local_below;
      local_recorded = x.local_recorded;
    }
settle_marked name info tg prev w false e p h told ids = reentrant-Result name info tg w p h told e

settle_by-Result :
    (b : Bool) (name : String) (info : CallbackInfo) (tg prev : ℕ) (w : Walk)
    → (tg == 0) ≡ b
    → tg < w.registry.next_threadgroup_id
    → (tg ≢ 0 → Recorded tg w.registry)
    → HasIds w.registry
    → Result name info w.registry (settle_by b name info tg prev w)
unfolding settle_by
settle_by-Result true name info tg prev w e h told ids =
    enter_group-Result name info tg prev w h told ids
settle_by-Result false name info tg prev w e h told ids =
    settle_marked name info tg prev w info.callback_group.mutually_exclusive refl (ground arith) h
      (told (ground arith)) ids

pub settle-Result :
    (name : String) (info : CallbackInfo) (tg prev : ℕ) (w : Walk)
    → tg < w.registry.next_threadgroup_id
    → (tg ≢ 0 → Recorded tg w.registry)
    → HasIds w.registry
    → Result name info w.registry (settle name info tg prev w)
unfolding settle
settle-Result name info tg prev w h told ids =
    settle_by-Result (tg == 0) name info tg prev w refl h told ids
