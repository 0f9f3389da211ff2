-- ===== src/Registry/Traverse/Settle/Choose.antt =====
-- The thread group that a callback is given (src/callback_registry.cpp).
use preemptive_executor.Common.{
  ℕ, ◌<◌, ◌≤◌, Bool, true, false, ◌≡◌, refl, ◌⊎◌, inl, Option, none, some, [], ◌∷◌, ◌++◌, arith,
  if◌then◌else◌, ◌==◌, nat_eq, string_eq, lookup, upsert, lookup-upsert, String,
}
use preemptive_executor.Registry.{CallbackInfo, new_group, Registry}
use preemptive_executor.Registry.Traverse.{
  Walk, assign_in, generate_threadgroup_id, mutex_group, choose_group, link, join_group,
}
use preemptive_executor.Registry.Traverse.Settle.Writes.{
  group_at, is_mutex, mutex_of, Recorded, Quiet, on_group-Quiet,
}

-- The thread group that a callback is given, and the registry that it is taken from and left.
pub record Chosen (info : CallbackInfo) (r s : Registry) (i : ℕ) : Type 0 where
  pub callbacks : s.callback_map ≡ r.callback_map
  pub below : i < s.next_threadgroup_id
  pub positive : 0 < i
  pub grows : r.next_threadgroup_id ≤ s.next_threadgroup_id
  pub keeps : (g j : ℕ) → mutex_of g r ≡ some j → mutex_of g s ≡ some j
  pub back :
      (g j : ℕ)
      → mutex_of g s ≡ some j
      → (mutex_of g r ≡ some j) ⊎ ((j ≡ i) × (is_mutex i s ≡ true))
  pub own :
      info.callback_group.mutually_exclusive ≡ true → mutex_of info.callback_group.id s ≡ some i
  pub flags : (j : ℕ) → is_mutex j r ≡ true → is_mutex j s ≡ true
  pub recorded : (j : ℕ) → Recorded j r → Recorded j s

-- What holds of the counter and of the groups of mutually exclusive callback groups.
pub record HasIds (r : Registry) : Type 0 where
  pub positive : 0 < r.next_threadgroup_id
  pub mutex_ids :
      (g i : ℕ)
      → mutex_of g r ≡ some i
      → (0 < i) × (i < r.next_threadgroup_id) × (is_mutex i r ≡ true)

mutex_group-Chosen :
    (info : CallbackInfo) (o : Option ℕ) (r : Registry)
    → mutex_of info.callback_group.id r ≡ o
    → HasIds r
    → Chosen info r
        (mutex_group info.callback_group.id o r).1
        (mutex_group info.callback_group.id o r).0
unfolding mutex_group
mutex_group-Chosen info (some i) r q h =
    let ids = h.mutex_ids info.callback_group.id i q in
    record {
      callbacks = refl;
      below = ids.1;
      positive = ids.0;
      grows = omega arith;
      keeps = λ g j e. e;
      back = λ g j e. inl e;
      own = λ e. q;
      flags = λ j e. e;
      recorded = λ j e. e;
    }
mutex_group-Chosen info none r q h = record {
  callbacks = refl;
  below = omega arith;
  positive = h.positive;
  grows = omega arith;
  keeps = λ g j e. ground (arith, added g, nat_eq.same_iff info.callback_group.id g);
  back = λ g j e. ground (arith, added g, flagged i);
  own = λ e. ground (arith, added info.callback_group.id);
  flags = λ j e. ground (arith, flagged j);
  recorded = λ j e. ground (arith, flagged j, nat_eq.same_iff i j);
}
  where
    i : ℕ
    i = r.next_threadgroup_id

    added :
        (g : ℕ)
        → lookup g (upsert info.callback_group.id 0 (λ _. i) r.mutex_threadgroup_map)
          ≡ (if info.callback_group.id == g then some i else lookup g r.mutex_threadgroup_map)
    added g = lookup-upsert info.callback_group.id g 0 (λ _. i) r.mutex_threadgroup_map

    flagged :
        (j : ℕ)
        → lookup j (
            upsert i new_group (λ t. record t { is_mutex_group = true }) r.threadgroup_callback_map)
          ≡ (if i == j
              then some (record (group_at i r) { is_mutex_group = true })
              else lookup j r.threadgroup_callback_map)
    flagged j =
        lookup-upsert i j new_group (λ t. record t { is_mutex_group = true })
          r.threadgroup_callback_map

generate-Chosen :
    (info : CallbackInfo) (r : Registry)
    → info.callback_group.mutually_exclusive ≡ false
    → HasIds r
    → Chosen info r (generate_threadgroup_id r).1 (generate_threadgroup_id r).0
unfolding generate_threadgroup_id
generate-Chosen info r e h = record {
  callbacks = refl;
  below = omega arith;
  positive = h.positive;
  grows = omega arith;
  keeps = λ g j q. q;
  back = λ g j q. inl q;
  own = λ q. cc;
  flags = λ j q. q;
  recorded = λ j q. q;
}

choose_by :
    (info : CallbackInfo) (r : Registry) (b : Bool)
    → info.callback_group.mutually_exclusive ≡ b
    → HasIds r
    → let c =
        (if b
          then mutex_group info.callback_group.id (mutex_of info.callback_group.id r) r
          else generate_threadgroup_id r) in
      Chosen info r c.1 c.0
choose_by info r true e h = mutex_group-Chosen info (mutex_of info.callback_group.id r) r refl h
choose_by info r false e h = generate-Chosen info r e h

pub choose_group-Chosen :
    (info : CallbackInfo) (r : Registry)
    → HasIds r
    → Chosen info r (choose_group info r).1 (choose_group info r).0
unfolding choose_group
choose_group-Chosen info r h = choose_by info r info.callback_group.mutually_exclusive refl h

pub join_group-Quiet :
    (name : String) (i : ℕ) (w : Walk)
    → Quiet (assign_in name i w.registry) (join_group name i w).registry
unfolding join_group
join_group-Quiet name i w =
    let q =
      on_group-Quiet i (λ t. record t { callbacks = t.callbacks ++ name ∷ []; threadgroup_id = i })
        w.registry (λ t. refl) (λ t e. refl) in
    record { callbacks = refl; mutexes = refl; next = refl; flags = q.flags; recorded = q.recorded }

pub join_group-Recorded :
    (name : String) (i : ℕ) (w : Walk) → Recorded i (join_group name i w).registry
unfolding join_group
join_group-Recorded name i w = ground (
  arith,
  lookup-upsert i i new_group
      (λ t. record t { callbacks = t.callbacks ++ name ∷ []; threadgroup_id = i })
      w.registry.threadgroup_callback_map,
  nat_eq.same_iff i i,
)

pub link-Quiet : (prev i : ℕ) (r : Registry) → Quiet r (link prev i r)
unfolding link
link-Quiet prev i r = ground arith
