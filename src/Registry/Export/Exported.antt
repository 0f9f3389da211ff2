-- ===== src/Registry/Export/Exported.antt =====
-- src/callback_registry.cpp: what `callback_threadgroup_allocation` exports.
use preemptive_executor.Common.{
  beq_refl, ◌∷◌, ℕ, ◌≡◌, ◌≢◌, refl, sym, ◌∙◌, ap, Bool, true, false, not, is_some, ◌&&◌, List, [],
  arith, any, any_of_All, subst, ok-injective, err-ne-ok, none_of_any, All, ◌==◌, nat_eq, string_eq,
  lookup, String, Outcome, ok, err,
}
use preemptive_executor.Common.Action.{resume}
use preemptive_executor.Common.Iteration.{Iteration, any-order}
use preemptive_executor.Ros.{Entry}
use preemptive_executor.Chains.{UserChain}
use preemptive_executor.Registry.{CallbackInfo, ThreadGroupInfo, ThreadGroupAdjacencyInfo, Registry}
use preemptive_executor.Registry.Names.{Names}
use preemptive_executor.Registry.Entity.{get_raw_pointer}
use preemptive_executor.Registry.Build.{Callbacks, new_registry}
use preemptive_executor.Registry.Traverse.{Walk}
use preemptive_executor.Registry.Traverse.Invariant.{Inv, NamesGroup, Quiet-Inv, has_pointer}
use preemptive_executor.Registry.Exclusion.{traversed, traversed-Post}
use preemptive_executor.Registry.Priorities.{assign_priorities}
use preemptive_executor.Registry.Threads.{visit_root_groups}
use preemptive_executor.Registry.Export.{
  ThreadGroupAttributes, TimingExport, export_groups, cleared, export_end,
  export_timing_information, finish, after_roots, callback_threadgroup_allocation,
}
use preemptive_executor.Registry.Export.Stages.{assign_priorities-Quiet, visit_root_groups-Quiet}
use preemptive_executor.Registry.Export.Stated.{
  stated, group_stated, stated-export_groups, group_listed, exported_ids, exported_pointers,
}

-- Every thread group that a handle is mapped to is among the exported ones.
abbrev pub Covered : TimingExport → Type 0
Covered e =
    All (λ (h : ℕ × ℕ). stated h.1 e.threadgroup_attributes ≡ true)
      e.callback_handle_to_threadgroup_id

-- From a registry with these callbacks: the export covers them, and the registry is cleared.
abbrev Covers : Callbacks → TimingExport → Registry → Type 0
Covers cs e s =
    Covered e
    × ((p : ℕ)
        → has_pointer p cs ≡ true
        → is_some (lookup p e.callback_handle_to_threadgroup_id) ≡ true)
    × (s ≡ cleared)

-- The whole result of a routine that exports.
abbrev Exports : Outcome TimingExport × Registry → TimingExport → Registry → Type 0
Exports out e s = out ≡ (ok e, s)

module _ (it : Iteration) where
  -- An entry that names a group which is not listed.
  abbrev unlisted : Registry → String × CallbackInfo → Bool
  unlisted r e =
      not (e.1.threadgroup_id == 0)
      && not (group_stated e.1.threadgroup_id r.threadgroup_callback_map)

  none_unlisted :
      (r : Registry)
      → Inv r
      → any (unlisted r) (it.order (String × CallbackInfo) r.callback_map) ≡ false
  none_unlisted r v =
      any-order it (unlisted r) r.callback_map
      ∙ any_of_All (NamesGroup r) (unlisted r) r.callback_map
          (λ e h. ground (
            arith,
            h,
            nat_eq.same_iff e.1.threadgroup_id 0,
            group_listed e.1.threadgroup_id r.threadgroup_callback_map,
          ))
          v.recorded

  stated_everywhere :
      (r : Registry)
      → Inv r
      → All
          (λ (e : String × CallbackInfo).
            e.1.threadgroup_id ≢ 0
            → stated e.1.threadgroup_id
                (export_groups (it.order (ℕ × ThreadGroupInfo) r.threadgroup_callback_map) [])
              ≡ true)
          (it.order (String × CallbackInfo) r.callback_map)
  stated_everywhere r v =
      none_of_any _ (unlisted r) _
        (λ e h n. stated-export_groups e.1.threadgroup_id _ [] tt (
          ground (
            arith,
            h,
            n,
            nat_eq.same_iff e.1.threadgroup_id 0,
            any-order it (λ (g : ℕ × ThreadGroupInfo). g.1.threadgroup_id == e.1.threadgroup_id)
                r.threadgroup_callback_map,
          )))
        (none_unlisted r v)

  ended-Covered :
      (cs : Callbacks) (r s : Registry) (e : TimingExport)
      (attributes : List (ℕ × ThreadGroupAttributes)) (o : Outcome (List (ℕ × ℕ)))
      → Exports (export_end attributes r o) e s
      → ((hs : List (ℕ × ℕ)) → o ≡ ok hs → All (λ (h : ℕ × ℕ). stated h.1 attributes ≡ true) hs)
      → ((hs : List (ℕ × ℕ)) (p : ℕ)
          → o ≡ ok hs
          → has_pointer p cs ≡ true
          → is_some (lookup p hs) ≡ true)
      → Covers cs e s
  unfolding export_end
  ended-Covered cs r s e attributes (err x) h k l = absurd (err-ne-ok (ap (λ p. p.0) h))
  ended-Covered cs r s e attributes (ok hs) h k l =
      let same = ok-injective (ap (λ p. p.0) h) in
      (
        subst Covered same (k hs refl),
        λ p q.
            subst
              (λ (x : TimingExport). is_some (lookup p x.callback_handle_to_threadgroup_id) ≡ true)
              same (l hs p refl q),
        sym (ap (λ p. p.1) h),
      )

  export-Covered :
      (r s : Registry) (e : TimingExport)
      → Inv r
      → Exports (export_timing_information it r) e s
      → Covers r.callback_map e s
  unfolding export_timing_information
  export-Covered r s e v h =
      ended-Covered r.callback_map r s e _ _ h
        (λ hs q.
          exported_ids
            (λ i.
              stated i
                (export_groups (it.order (ℕ × ThreadGroupInfo) r.threadgroup_callback_map) []))
            _ [] hs (stated_everywhere r v) tt q)
        (λ hs p q present.
          exported_pointers p (it.order (String × CallbackInfo) r.callback_map) [] hs q (
            ground (
              arith,
              present,
              any-order it (λ (x : String × CallbackInfo). get_raw_pointer x.1.entity == p)
                  r.callback_map,
            )))

  resumed-Covered :
      (out : Outcome (Unit {0}) × Registry) (s : Registry) (e : TimingExport)
      → Inv out.1
      → Exports (resume (λ _. export_timing_information it) out) e s
      → Covers out.1.callback_map e s
  resumed-Covered (err x, r) s e v h = absurd (err-ne-ok (ap (λ p. p.0) h))
  resumed-Covered (ok u, r) s e v h = export-Covered r s e v h

  finish-Covered :
      (fuel : ℕ) (w : Walk) (s : Registry) (e : TimingExport)
      → Inv w.registry
      → Exports (finish it fuel w) e s
      → Covers w.registry.callback_map e s
  unfolding finish
  finish-Covered fuel w s e v h =
      let r = assign_priorities w.deadlines w.registry in
      let roots = it.order (ℕ × ThreadGroupAdjacencyInfo) r.threadgroup_adjacency_list in
      let p = assign_priorities-Quiet w.deadlines w.registry in
      let i = Quiet-Inv w.registry r p v in
      let q = visit_root_groups-Quiet it fuel roots r in
      subst (λ cs. Covers cs e s) (q.callbacks ∙ p.callbacks)
        (resumed-Covered (visit_root_groups it fuel roots r) s e (Quiet-Inv r _ q i) h)

  after_roots-Covered :
      (fuel : ℕ) (out : Outcome (Unit {0}) × Walk) (s : Registry) (e : TimingExport)
      → Inv out.1.registry
      → Exports (after_roots it fuel out) e s
      → Covers out.1.registry.callback_map e s
  unfolding after_roots
  after_roots-Covered fuel (err x, w) s e v h = absurd (err-ne-ok (ap (λ p. p.0) h))
  after_roots-Covered fuel (ok u, w) s e v h = finish-Covered fuel w s e v h

exported_all :
    (handles : List (ℕ × ℕ)) (cs : Callbacks)
    → ((p : ℕ) → has_pointer p cs ≡ true → is_some (lookup p handles) ≡ true)
    → All
        (λ (c : String × CallbackInfo).
          is_some (lookup (get_raw_pointer c.1.entity) handles) ≡ true)
        cs
exported_all handles [] h = tt
exported_all handles ((n, info) ∷ cs) h = (
  h (get_raw_pointer info.entity) (rw (beq_refl (get_raw_pointer info.entity)) refl),
  exported_all handles cs (λ p q. h p (ground (arith, q))),
)

-- When `callback_threadgroup_allocation` returns on a new registry, whatever the order of the hash
-- containers and the fuel of the walk through the thread groups: each thread group that the exported
-- map gives a handle has exported attributes that state its id; the address of each callback that was
-- in the registry is a handle in that map; and the registry is cleared.
pub allocation_covers :
    (it : Iteration) (fuel : ℕ) (names : Names) (entries : List Entry) (chains : List UserChain)
    (r s : Registry) (e : TimingExport)
    → new_registry names entries chains ≡ ok r
    → callback_threadgroup_allocation it fuel r ≡ (ok e, s)
    → All
        (λ (h : ℕ × ℕ). stated h.1 e.threadgroup_attributes ≡ true)
        e.callback_handle_to_threadgroup_id
      × All
          (λ (c : String × CallbackInfo).
            is_some (lookup (get_raw_pointer c.1.entity) e.callback_handle_to_threadgroup_id)
            ≡ true)
          r.callback_map
      × (s ≡ cleared)
unfolding callback_threadgroup_allocation
allocation_covers it fuel names entries chains r s e built h =
    let post = traversed-Post it names entries chains r built in
    let c = after_roots-Covered it fuel (traversed it r) s e post.inv h in
    (c.0, exported_all _ r.callback_map (λ p q. c.1 p (post.grows.pointers p ∙ q)), c.2)
