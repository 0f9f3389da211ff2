-- ===== src/Registry/Export/Stated.antt =====
-- src/callback_registry.cpp: what the loops of `export_timing_information` put into
-- their maps.
use preemptive_executor.Common.{
  ℕ, ◌≡◌, ◌≢◌, refl, sym, Bool, true, is_some, upsert, lookup-upsert, ◌||◌, List, [], ◌∷◌, arith,
  any, subst, ok-injective, err-ne-ok, All, All-upsert, ◌==◌, nat_eq, string_eq, lookup, emplace,
  value_or, String, ok, Bool-cases, inl, inr,
}
use preemptive_executor.Registry.{CallbackInfo, ThreadGroupInfo, new_group}
use preemptive_executor.Registry.Entity.{get_raw_pointer}
use preemptive_executor.Registry.Build.{Callbacks}
use preemptive_executor.Registry.Traverse.Invariant.{has_pointer}
use preemptive_executor.Registry.Export.{
  ThreadGroupAttributes, attributes_of, export_groups, export_callbacks,
}

-- Some entry states the id.
abbrev pub stated : ℕ → List (ℕ × ThreadGroupAttributes) → Bool
stated i = any λ (e : ℕ × ThreadGroupAttributes). e.1.tg_id == i

abbrev pub group_stated : ℕ → List (ℕ × ThreadGroupInfo) → Bool
group_stated i = any λ (e : ℕ × ThreadGroupInfo). e.1.threadgroup_id == i

-- The key of an entry is the id that it states.
abbrev pub Keyed : List (ℕ × ThreadGroupAttributes) → Type 0
Keyed = All λ (e : ℕ × ThreadGroupAttributes). e.1.tg_id ≡ e.0

emplace-Keyed :
    (a : ThreadGroupAttributes) (m : List (ℕ × ThreadGroupAttributes))
    → Keyed m
    → Keyed (emplace a.tg_id a m)
emplace-Keyed a m h =
    All-upsert (λ (e : ℕ × ThreadGroupAttributes). e.1.tg_id ≡ e.0) a.tg_id a (λ v. v) m refl
      (λ j v e. e) h

stated-emplace :
    (i : ℕ) (a : ThreadGroupAttributes) (m : List (ℕ × ThreadGroupAttributes))
    → Keyed m
    → (a.tg_id == i || stated i m) ≡ true
    → stated i (emplace a.tg_id a m) ≡ true
stated-emplace i a [] h e = ground (arith, e)
stated-emplace i a ((j, b) ∷ m) (same, h) e = ground (
  arith,
  e,
  same,
  stated-emplace i a m h,
  nat_eq.same_iff j a.tg_id,
  nat_eq.same_iff a.tg_id i,
  nat_eq.same_iff b.tg_id i,
)

pub stated-export_groups :
    (i : ℕ) (gs : List (ℕ × ThreadGroupInfo)) (m : List (ℕ × ThreadGroupAttributes))
    → Keyed m
    → (group_stated i gs || stated i m) ≡ true
    → stated i (export_groups gs m) ≡ true
unfolding export_groups
stated-export_groups i [] m h e = e
stated-export_groups i ((k, t) ∷ gs) m h e =
    stated-export_groups i gs (emplace t.threadgroup_id (attributes_of t) m)
      (emplace-Keyed (attributes_of t) m h)
      (ground (arith, e, stated-emplace i (attributes_of t) m h))

pub group_listed :
    (i : ℕ) (m : List (ℕ × ThreadGroupInfo))
    → i ≢ 0
    → (value_or new_group (lookup i m)).threadgroup_id ≡ i
    → group_stated i m ≡ true
group_listed i [] p h = absurd (p (sym h))
group_listed i ((k, t) ∷ m) p h = elim (Bool-cases (k == i)) [
  | inl same ↦ ground (arith, same, h, nat_eq.same_iff t.threadgroup_id i)
  | inr other ↦ ground (arith, other, group_listed i m p (rw other at h))
]

module _ (p : ℕ → Bool) where
  -- The ids that are exported are those of the callbacks, none of which is 0.
  pub exported_ids :
      (es : Callbacks) (m n : List (ℕ × ℕ))
      → All (λ (e : String × CallbackInfo). e.1.threadgroup_id ≢ 0 → p e.1.threadgroup_id ≡ true) es
      → All (λ (e : ℕ × ℕ). p e.1 ≡ true) m
      → export_callbacks es m ≡ ok n
      → All (λ (e : ℕ × ℕ). p e.1 ≡ true) n
  unfolding export_callbacks
  exported_ids [] m n a b h = subst (All λ (e : ℕ × ℕ). p e.1 ≡ true) (ok-injective h) b
  exported_ids ((k, info) ∷ es) m n (a, rest) b h = elim (Bool-cases (info.threadgroup_id == 0)) [
    | inl zero_id ↦ absurd (err-ne-ok (rw zero_id at h))
    | inr given ↦
        let more = exported_ids es _ n rest (
          All-upsert (λ (e : ℕ × ℕ). p e.1 ≡ true) (get_raw_pointer info.entity) 0
            (λ _. info.threadgroup_id) m (a (ground arith)) (λ j v e. a (ground arith)) b) in
        more (rw given at h)
  ]

-- Each callback's handle is exported.
pub exported_pointers :
    (p : ℕ) (es : Callbacks) (m n : List (ℕ × ℕ))
    → export_callbacks es m ≡ ok n
    → (has_pointer p es || is_some (lookup p m)) ≡ true
    → is_some (lookup p n) ≡ true
unfolding export_callbacks
exported_pointers p [] m n h e = ground (arith, e, ok-injective h)
exported_pointers p ((k, info) ∷ es) m n h e = elim (Bool-cases (info.threadgroup_id == 0)) [
  | inl zero_id ↦ absurd (err-ne-ok (rw zero_id at h))
  | inr given ↦
      exported_pointers p es (upsert (get_raw_pointer info.entity) 0 (λ _. info.threadgroup_id) m) n
        (rw given at h)
        (ground
          (arith, e, lookup-upsert (get_raw_pointer info.entity) p 0 (λ _. info.threadgroup_id) m))
]
