-- ===== src/Registry/Build/Fresh.antt =====
-- The callbacks of a new registry have no thread group.
use preemptive_executor.Common.{
  ℕ, Bool, true, false, ◌≡◌, refl, Option, none, some, List, [], ◌∷◌, arith, if◌then◌else◌,
  string_eq, nat_eq, lookup, emplace, lookup-upsert, String, All, All-upsert,
}
use preemptive_executor.Ros.{Member, Group, Entry, collect_all_ptrs}
use preemptive_executor.Registry.{CallbackInfo}
use preemptive_executor.Registry.Entity.{CallbackEntity, callback_entity}
use preemptive_executor.Registry.Names.{Names}
use preemptive_executor.Registry.Build.{
  Callbacks, emplace_info, register_callback_entity, register_group, register_groups,
}

-- No callback has a thread group yet.
pub record IsFresh (m : Callbacks) : Type 0 where
  pub zero_id :
      (n : String) (info : CallbackInfo) → lookup n m ≡ some info → info.threadgroup_id ≡ 0
  pub zero_ids : All (λ (e : String × CallbackInfo). e.1.threadgroup_id ≡ 0) m

emplace-IsFresh :
    (name : String) (x : CallbackInfo) (m : Callbacks)
    → x.threadgroup_id ≡ 0
    → IsFresh m
    → IsFresh (emplace name x m)
emplace-IsFresh name x m z f = record {
  zero_id = λ n info e. go n info e (lookup name m) refl;
  zero_ids =
      All-upsert (λ (e : String × CallbackInfo). e.1.threadgroup_id ≡ 0) name x (λ y. y) m z
        (λ j v h. h) f.zero_ids;
}
  where
    go :
        (n : String) (info : CallbackInfo)
        → lookup n (emplace name x m) ≡ some info
        → (o : Option CallbackInfo) → lookup name m ≡ o
        → info.threadgroup_id ≡ 0
    go n info e none q = ground (arith, lookup-upsert name n x (λ y. y) m, f.zero_id n info)
    go n info e (some y) q =
        ground (arith, lookup-upsert name n x (λ y. y) m, f.zero_id n info, f.zero_id name y q)

register-IsFresh :
    (names : Names) (e : CallbackEntity) (g : Group) (n : ℕ) (o : Option String) (m : Callbacks)
    → IsFresh m
    → IsFresh (emplace_info e g n o m)
unfolding emplace_info
register-IsFresh names e g n none m f = f
register-IsFresh names e g n (some name) m f = emplace-IsFresh name _ m refl f

members-IsFresh :
    (names : Names) (g : Group) (n : ℕ) (ms : List Member) (m : Callbacks)
    → IsFresh m
    → IsFresh
        (collect_all_ptrs (λ s e. register_callback_entity names (callback_entity e) g n s) ms m)
unfolding collect_all_ptrs register_callback_entity
members-IsFresh names g n [] m f = f
members-IsFresh names g n (x ∷ ms) m f =
    members-IsFresh names g n ms (register_callback_entity names (callback_entity x) g n m)
      (register-IsFresh names (callback_entity x) g n _ m f)

kept_or : (b : Bool) (m n : Callbacks) → IsFresh m → IsFresh n → IsFresh (if b then n else m)
kept_or true m n f g = g
kept_or false m n f g = f

group-IsFresh :
    (names : Names) (g : Option Group) (n : Option ℕ) (m : Callbacks)
    → IsFresh m
    → IsFresh (register_group names g n m)
unfolding register_group
group-IsFresh names none n m f = f
group-IsFresh names (some g) none m f = f
group-IsFresh names (some g) (some n) m f =
    kept_or g.can_be_taken_from m _ f (members-IsFresh names g n g.members m f)

pub groups-IsFresh :
    (names : Names) (es : List Entry) (m : Callbacks)
    → IsFresh m
    → IsFresh (register_groups names es m)
unfolding register_groups
groups-IsFresh names [] m f = f
groups-IsFresh names (e ∷ es) m f =
    groups-IsFresh names es (register_group names e.group e.node m)
      (group-IsFresh names e.group e.node m f)
