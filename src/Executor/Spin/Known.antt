-- ===== src/Executor/Spin/Known.antt =====
-- src/preemptive_executor.cpp: the callbacks of the groups that `classify_callback_groups` has taken as
-- real-time groups are in the timing information, and so are the timers that are handed out.
use preemptive_executor.Common.{
  ℕ, ◌≡◌, refl, sym, ap, ◌∙◌, subst, Bool, true, false, not, Option, none, some, is_some, List, [],
  ◌∷◌, ◌++◌, All, All-append, All-map_pred, any, keep, lookup, nat_eq, Outcome, ok, err, ◌>>=◌,
  ok-injective, err-ne-ok, arith, Bool-cases, inl, inr, ◌&&◌,
}
use preemptive_executor.Common.Action.{Action, resume}
use preemptive_executor.Ros.{
  Entity, Member, subscription, service, client, timer, waitable, Group, Entry,
}
use preemptive_executor.Strategy.{Strategy}
use preemptive_executor.Strategy.Ready.{take_ready_handles}
use preemptive_executor.Strategy.Ready.Sets.{Among}
use preemptive_executor.Strategy.Ready.Exact.{
  group_members, live_members, timers_of, take_ready_handles_lem,
}
use preemptive_executor.Executor.{
  Executor, add_rt, classify_group, classify_entry, classify_entries, classify_with,
  classify_callback_groups, flags_of,
}
use preemptive_executor.Executor.Classes.{
  callbacks, any_timed, any_untimed, add_all, locked, classify_callback_groups_lem,
}

-- A handle of the timing information.
abbrev pub is_known : List (ℕ × ℕ) → Entity → Bool
is_known handles e = is_some (lookup e.ptr handles)

-- Every callback among the members of the entry's group is in the timing information.
abbrev pub KnownEntry : List (ℕ × ℕ) → Entry → Type 0
KnownEntry handles e =
    any (λ x. not (is_known handles x)) (callbacks (group_members e.group)) ≡ false

known_timers :
    (handles : List (ℕ × ℕ)) (ms : List Member)
    → any (λ x. not (is_known handles x)) (callbacks ms) ≡ false
    → All (λ x. is_known handles x ≡ true) (timers_of ms)
known_timers handles [] h = tt
known_timers handles (subscription e ∷ ms) h = known_timers handles ms (ground (arith, h))
known_timers handles (service e ∷ ms) h = known_timers handles ms h
known_timers handles (client e ∷ ms) h = known_timers handles ms h
known_timers handles (timer e ∷ ms) h =
    (ground (arith, h), known_timers handles ms (ground (arith, h)))
known_timers handles (waitable e ∷ ms) h = known_timers handles ms h

timers_of-append : (ms ns : List Member) → timers_of (ms ++ ns) ≡ timers_of ms ++ timers_of ns
timers_of-append [] ns = refl
timers_of-append (timer e ∷ ms) ns = ap (λ es. e ∷ es) (timers_of-append ms ns)
timers_of-append (subscription e ∷ ms) ns = timers_of-append ms ns
timers_of-append (service e ∷ ms) ns = timers_of-append ms ns
timers_of-append (client e ∷ ms) ns = timers_of-append ms ns
timers_of-append (waitable e ∷ ms) ns = timers_of-append ms ns

known_live :
    (handles : List (ℕ × ℕ)) (es : List Entry)
    → All (KnownEntry handles) es
    → All (λ x. is_known handles x ≡ true) (timers_of (live_members es))
known_live handles [] h = tt
known_live handles (e ∷ es) (h, hs) =
    rw (timers_of-append (group_members e.group) (live_members es)) (
      All-append (λ x. is_known handles x ≡ true) (timers_of (group_members e.group)) _
        (known_timers handles (group_members e.group) h) (known_live handles es hs))

one_is_known :
    (handles : List (ℕ × ℕ)) (e : Entity) (es : List Entity)
    → All (λ x. is_known handles x ≡ true) es
    → Among e es
    → is_known handles e ≡ true
one_is_known handles e [] h a = absurd a
one_is_known handles e (x ∷ es) (h, hs) (inl same) = ap (is_known handles) same ∙ h
one_is_known handles e (x ∷ es) (h, hs) (inr a) = one_is_known handles e es hs a

-- The timers that `take_ready_handles` hands out.
pub ready_timers_known :
    (handles : List (ℕ × ℕ)) (es : List Entry) (s : Strategy)
    → All (KnownEntry handles) es
    → All (λ x. is_known handles x ≡ true) (take_ready_handles es s).timers
ready_timers_known handles es s h =
    All-map_pred (λ e. Among e (timers_of (live_members es))) (λ x. is_known handles x ≡ true)
      (take_ready_handles es s).timers
      (λ e a. one_is_known handles e (timers_of (live_members es)) (known_live handles es h) a)
      (take_ready_handles_lem es s).timers.among

-- The classification does not touch the timing information.
SameHandles : Executor (List Entry) → Outcome (Unit {0}) × Executor (List Entry) → Type 0
SameHandles x r = r.1.callback_handle_to_threadgroup_id ≡ x.callback_handle_to_threadgroup_id

module _ (add : Group → ℕ → List Entry → Outcome (List Entry)) where
  resumed_same :
      (x : Executor (List Entry)) (r : Outcome (Unit {0}) × Executor (List Entry))
      (k : Action (Executor (List Entry)) (Unit {0}))
      → SameHandles x r
      → ((y : Executor (List Entry)) → SameHandles y (k y))
      → SameHandles x (resume (λ _. k) r)
  unfolding SameHandles
  resumed_same x (err v, y) k h l = h
  resumed_same x (ok u, y) k h l = l y ∙ h

  add_rt_same :
      (x : Executor (List Entry)) (o : Outcome (List Entry)) → SameHandles x (add_rt add x o)
  unfolding SameHandles add_rt
  add_rt_same x (ok m) = refl
  add_rt_same x (err v) = refl

  classify_group_same :
      (handles : List (ℕ × ℕ)) (g : Group) (n : ℕ) (x : Executor (List Entry))
      → SameHandles x (classify_group add handles g n x)
  unfolding SameHandles classify_group
  classify_group_same handles g n x =
      let f = flags_of handles g in
      elim (Bool-cases (f.has_rt && f.has_non_rt)) [
        | inl mixed ↦ rw mixed refl
        | inr plain ↦ rw plain (elim (Bool-cases f.has_rt) [
          | inl timed ↦ rw timed (add_rt_same x (add g n x.weak_groups_to_nodes))
          | inr other ↦ rw other refl
        ])
      ]

  classify_entry_same :
      (handles : List (ℕ × ℕ)) (g : Option Group) (n : Option ℕ) (x : Executor (List Entry))
      → SameHandles x (classify_entry add handles g n x)
  unfolding SameHandles classify_entry
  classify_entry_same handles none n x = refl
  classify_entry_same handles (some g) none x = refl
  classify_entry_same handles (some g) (some n) x = classify_group_same handles g n x

  classify_entries_same :
      (handles : List (ℕ × ℕ)) (es : List (ℕ × Entry)) (x : Executor (List Entry))
      → SameHandles x (classify_entries add handles es x)
  unfolding SameHandles classify_entries
  classify_entries_same handles [] x = refl
  classify_entries_same handles ((i, e) ∷ es) x =
      resumed_same x (classify_entry add handles e.group e.node x)
        (λ y. classify_entries add handles es y) (classify_entry_same handles e.group e.node x)
        λ y. classify_entries_same handles es y

  classify_with_same :
      (order : List (ℕ × Entry) → List (ℕ × Entry)) (o : Option (List (ℕ × ℕ)))
      (x : Executor (List Entry))
      → SameHandles x (classify_with add order o x)
  unfolding SameHandles classify_with
  classify_with_same order none x = refl
  classify_with_same order (some handles) x =
      resumed_same x (classify_entries add handles (order x.pending) x) _
        (classify_entries_same handles (order x.pending) x) (λ y. refl)

  pub classified_handles :
      (order : List (ℕ × Entry) → List (ℕ × Entry)) (x y : Executor (List Entry))
      → classify_callback_groups add order x ≡ (ok tt, y)
      → y.callback_handle_to_threadgroup_id ≡ x.callback_handle_to_threadgroup_id
  unfolding classify_callback_groups SameHandles
  classified_handles order x y h =
      sym (ap (λ r. r.1.callback_handle_to_threadgroup_id) h)
      ∙ classify_with_same order x.callback_handle_to_threadgroup_id x

-- What is documented of rclcpp's `add_callback_group_to_map`: when it returns, the map has only the
-- entries that it had, and the one of the callback group and its node.
abbrev pub AddsEntry : (Group → ℕ → List Entry → Outcome (List Entry)) → Type 1
AddsEntry add =
    (P : Entry → Type 0) (g : Group) (n : ℕ) (m m' : List Entry)
    → add g n m ≡ ok m'
    → P (record { group = some g; node = some n })
    → All P m
    → All P m'

module _ (add : Group → ℕ → List Entry → Outcome (List Entry)) (adds : AddsEntry add)
    (handles : List (ℕ × ℕ)) where
  added-Known :
      (g : Group) (n : ℕ) (m : List Entry) (gs : List (Group × ℕ)) (m' : List Entry)
      (o : Outcome (List Entry))
      → add g n m ≡ o
      → ((k : List Entry)
          → All (KnownEntry handles) k
          → add_all add gs k ≡ ok m'
          → All (KnownEntry handles) m')
      → any_untimed handles g ≡ false
      → All (KnownEntry handles) m
      → (o >>= add_all add gs) ≡ ok m'
      → All (KnownEntry handles) m'
  added-Known g n m gs m' (err v) q rec u h e = absurd (err-ne-ok e)
  added-Known g n m gs m' (ok k) q rec u h e = rec k (adds (KnownEntry handles) g n m k q u h) e

  add_all-Known :
      (gs : List (Group × ℕ)) (m m' : List Entry)
      → All (λ (e : Group × ℕ). any_untimed handles e.0 ≡ false) gs
      → All (KnownEntry handles) m
      → add_all add gs m ≡ ok m'
      → All (KnownEntry handles) m'
  add_all-Known [] m m' u h e = subst (All (KnownEntry handles)) (ok-injective e) h
  add_all-Known ((g, n) ∷ gs) m m' (u, us) h e =
      added-Known g n m gs m' (add g n m) refl (λ k a b. add_all-Known gs k m' us a b) u h e

  kept_untimed :
      (gs : List (Group × ℕ))
      → All (λ (e : Group × ℕ). (any_timed handles e.0 && any_untimed handles e.0) ≡ false) gs
      → All
          (λ (e : Group × ℕ). any_untimed handles e.0 ≡ false)
          (keep (λ e. any_timed handles e.0) gs)
  kept_untimed [] h = tt
  kept_untimed ((g, n) ∷ gs) (h, hs) = elim (Bool-cases (any_timed handles g)) [
    | inl timed ↦ rw timed (ground (arith, h, timed), kept_untimed gs hs)
    | inr other ↦ rw other (kept_untimed gs hs)
  ]

  -- When the classification returns, the map of the real-time groups has only such groups.
  pub classified_known :
      (order : List (ℕ × Entry) → List (ℕ × Entry)) (x y : Executor (List Entry))
      → x.callback_handle_to_threadgroup_id ≡ some handles
      → All (KnownEntry handles) x.weak_groups_to_nodes
      → classify_callback_groups add order x ≡ (ok tt, y)
      → All (KnownEntry handles) y.weak_groups_to_nodes
  classified_known order x y h known e =
      let d = (classify_callback_groups_lem add order handles x y h e).0 in
      add_all-Known (keep (λ e. any_timed handles e.0) (locked (order x.pending)))
        x.weak_groups_to_nodes y.weak_groups_to_nodes (kept_untimed (locked (order x.pending)) d.0)
        known d.2
