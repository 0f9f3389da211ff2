-- ===== src/Registry/Traverse/Settle/Writes.antt =====
-- Writes to the registry (src/callback_registry.cpp) that leave the callbacks alone.
use preemptive_executor.Common.{
  ℕ, Bool, true, ◌≡◌, refl, ◌∙◌, Option, none, some, [], ◌∷◌, arith, if◌then◌else◌, ◌==◌, nat_eq,
  string_eq, lookup, value_or, lookup-upsert, String,
}
use preemptive_executor.Registry.{CallbackInfo, ThreadGroupInfo, new_group, Registry, on_group}
use preemptive_executor.Registry.Build.{Callbacks}
use preemptive_executor.Registry.Traverse.{assign}

abbrev pub set_group : ℕ → Option CallbackInfo → Option CallbackInfo
set_group i none = none
set_group i (some info) = some (record info { threadgroup_id = i })

pub lookup-assign :
    (name : String) (i : ℕ) (n : String) (m : Callbacks)
    → lookup n (assign name i m) ≡ (if name == n then set_group i (lookup n m) else lookup n m)
unfolding assign
lookup-assign name i n [] = ground arith
lookup-assign name i n ((k, info) ∷ m) = ground (
  arith,
  string_eq.same_iff k name,
  string_eq.same_iff k n,
  string_eq.same_iff name n,
  lookup-assign name i n m,
)

pub assign-assign :
    (name : String) (i j : ℕ) (m : Callbacks) → assign name i (assign name j m) ≡ assign name i m
unfolding assign
assign-assign name i j [] = refl
assign-assign name i j ((k, info) ∷ m) = ground (arith, assign-assign name i j m)

abbrev pub group_at : ℕ → Registry → ThreadGroupInfo
group_at i r = value_or new_group (lookup i r.threadgroup_callback_map)

abbrev pub is_mutex : ℕ → Registry → Bool
is_mutex i r = (group_at i r).is_mutex_group

abbrev pub mutex_of : ℕ → Registry → Option ℕ
mutex_of g r = lookup g r.mutex_threadgroup_map

-- The thread group's entry states its id. (A missing entry would read as id 0.)
abbrev pub Recorded : ℕ → Registry → Type 0
Recorded i r = (group_at i r).threadgroup_id ≡ i

-- Writes that only extend the description of thread groups and edges.
pub record Quiet (r s : Registry) : Type 0 where
  pub callbacks : s.callback_map ≡ r.callback_map
  pub mutexes : s.mutex_threadgroup_map ≡ r.mutex_threadgroup_map
  pub next : s.next_threadgroup_id ≡ r.next_threadgroup_id
  pub flags : (j : ℕ) → is_mutex j r ≡ true → is_mutex j s ≡ true
  pub recorded : (j : ℕ) → Recorded j r → Recorded j s

pub on_group-Quiet :
    (i : ℕ) (f : ThreadGroupInfo → ThreadGroupInfo) (r : Registry)
    → ((t : ThreadGroupInfo) → (f t).is_mutex_group ≡ t.is_mutex_group)
    → ((t : ThreadGroupInfo) → t.threadgroup_id ≡ i → (f t).threadgroup_id ≡ i)
    → Quiet r (on_group i f r)
on_group-Quiet i f r same keeps = record {
  callbacks = refl;
  mutexes = refl;
  next = refl;
  flags = λ j h. ground (
    arith,
    lookup-upsert i j new_group f r.threadgroup_callback_map,
    nat_eq.same_iff i j,
    same (group_at i r),
  );
  recorded = λ j h. ground (
    arith,
    lookup-upsert i j new_group f r.threadgroup_callback_map,
    nat_eq.same_iff i j,
    keeps (group_at i r),
  );
}

pub Quiet-refl : (r : Registry) → Quiet r r
Quiet-refl r = record {
  callbacks = refl;
  mutexes = refl;
  next = refl;
  flags = λ j h. h;
  recorded = λ j h. h;
}

pub Quiet-trans : (r s t : Registry) → Quiet r s → Quiet s t → Quiet r t
Quiet-trans r s t p q = record {
  callbacks = q.callbacks ∙ p.callbacks;
  mutexes = q.mutexes ∙ p.mutexes;
  next = q.next ∙ p.next;
  flags = λ j e. q.flags j (p.flags j e);
  recorded = λ j e. q.recorded j (p.recorded j e);
}
