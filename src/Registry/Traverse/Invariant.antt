-- ===== src/Registry/Traverse/Invariant.antt =====
-- The invariant of the traversal, and what every step leaves alone.
use preemptive_executor.Common.{
  ℕ, suc, ◌<◌, ◌≤◌, true, ◌≡◌, ◌≢◌, inl, inr, some, [], ◌∷◌, arith, if◌then◌else◌, ◌==◌, nat_eq,
  string_eq, lookup, String, Bool, any, refl, ap, ◌∙◌, Bool-cases, All, All-map_pred,
}
use preemptive_executor.Registry.{CallbackInfo, Registry}
use preemptive_executor.Registry.Build.{Callbacks}
use preemptive_executor.Registry.Entity.{get_raw_pointer}
use preemptive_executor.Registry.Traverse.{assign}
use preemptive_executor.Registry.Traverse.Settle.{
  HasIds, Quiet, Settled, Recorded, mutex_of, lookup-assign,
}

-- The thread group that the callback has states its id.
abbrev pub NamesGroup : Registry → String × CallbackInfo → Type 0
NamesGroup r e = e.1.threadgroup_id ≢ 0 → Recorded e.1.threadgroup_id r

-- Ids are handed out from 1 on, and a callback of a mutually exclusive callback group that has a
-- thread group has that of its callback group.
pub record Inv (r : Registry) : Type 0 where
  pub ids : HasIds r
  pub callback_ids :
      (n : String) (info : CallbackInfo)
      → lookup n r.callback_map ≡ some info
      → info.threadgroup_id < r.next_threadgroup_id
  pub exclusive :
      (n : String) (info : CallbackInfo)
      → lookup n r.callback_map ≡ some info
      → info.threadgroup_id ≢ 0
      → info.callback_group.mutually_exclusive ≡ true
      → mutex_of info.callback_group.id r ≡ some info.threadgroup_id
  pub recorded : All (NamesGroup r) r.callback_map

-- The callbacks that have no thread group.
abbrev pub unassigned : Callbacks → ℕ
unassigned [] = 0
unassigned ((k, info) ∷ m) = if info.threadgroup_id == 0 then suc (unassigned m) else unassigned m

-- Some callback has the entity with this address.
abbrev pub has_pointer : ℕ → Callbacks → Bool
has_pointer p = any λ (e : String × CallbackInfo). get_raw_pointer e.1.entity == p

-- No thread group is taken back or changed, and no id and no callback.
pub record Grows (r s : Registry) : Type 0 where
  pub fewer : unassigned s.callback_map ≤ unassigned r.callback_map
  pub kept :
      (n : String) (info : CallbackInfo)
      → lookup n r.callback_map ≡ some info
      → info.threadgroup_id ≢ 0
      → lookup n s.callback_map ≡ some info
  pub next : r.next_threadgroup_id ≤ s.next_threadgroup_id
  pub pointers : (p : ℕ) → has_pointer p s.callback_map ≡ has_pointer p r.callback_map

pub Grows-refl : (r : Registry) → Grows r r
Grows-refl r = record {
  fewer = omega arith;
  kept = λ n info h a. h;
  next = omega arith;
  pointers = λ p. refl;
}

pub Grows-trans : (r s t : Registry) → Grows r s → Grows s t → Grows r t
Grows-trans r s t p q = record {
  fewer = omega (arith, p.fewer, q.fewer);
  kept = λ n info h a. q.kept n info (p.kept n info h a) a;
  next = omega (arith, p.next, q.next);
  pointers = λ x. q.pointers x ∙ p.pointers x;
}

pub Quiet-Grows : (r s : Registry) → Quiet r s → Grows r s
Quiet-Grows r s q = record {
  fewer = ground (arith, q.callbacks);
  kept = λ n info h a. rw q.callbacks h;
  next = ground (arith, q.next);
  pointers = λ p. ap (has_pointer p) q.callbacks;
}

pub Quiet-HasIds : (r s : Registry) → Quiet r s → HasIds r → HasIds s
Quiet-HasIds r s q h = record {
  positive = rw q.next h.positive;
  mutex_ids =
      λ g i e. let x = h.mutex_ids g i (rw q.mutexes at e) in (x.0, rw q.next x.1, q.flags i x.2);
}

pub Quiet-Inv : (r s : Registry) → Quiet r s → Inv r → Inv s
Quiet-Inv r s q v = record {
  ids = Quiet-HasIds r s q v.ids;
  callback_ids = λ n info e. rw q.next (v.callback_ids n info (rw q.callbacks at e));
  exclusive = λ n info e a b. rw q.mutexes (v.exclusive n info (rw q.callbacks at e) a b);
  recorded = rw q.callbacks (
      All-map_pred (NamesGroup r) (NamesGroup s) r.callback_map
        (λ e h a. q.recorded e.1.threadgroup_id (h a)) v.recorded);
}

unassigned-assign :
    (name : String) (i : ℕ) (info : CallbackInfo) (m : Callbacks)
    → i ≢ 0
    → lookup name m ≡ some info
    → info.threadgroup_id ≡ 0
    → suc (unassigned (assign name i m)) ≡ unassigned m
unfolding assign
unassigned-assign name i info [] p h z = cc
unassigned-assign name i info ((k, x) ∷ m) p h z =
    ground (arith, unassigned-assign name i info m p, nat_eq.same_iff i 0)

has_pointer-assign :
    (p : ℕ) (name : String) (i : ℕ) (m : Callbacks)
    → has_pointer p (assign name i m) ≡ has_pointer p m
unfolding assign
has_pointer-assign p name i [] = refl
has_pointer-assign p name i ((k, info) ∷ m) = ground (arith, has_pointer-assign p name i m)

All-assign :
    (P : String × CallbackInfo → Type 0) (name : String) (i : ℕ) (m : Callbacks)
    → ((e : String × CallbackInfo) → P (e.0, record e.1 { threadgroup_id = i }))
    → All P m
    → All P (assign name i m)
unfolding assign
All-assign P name i [] new h = tt
All-assign P name i ((k, info) ∷ m) new (h, rest) = elim (Bool-cases (k == name)) [
  | inl same ↦ rw same (new (k, info), rest)
  | inr other ↦ rw other (h, All-assign P name i m new rest)
]

-- A callback that had no thread group is settled.
module _ (name : String) (info : CallbackInfo) (r s : Registry) (i : ℕ)
    (found : lookup name r.callback_map ≡ some info) (open_ : info.threadgroup_id ≡ 0)
    (t : Settled name info r s i) where
  open t use {callbacks, below, positive, grows, keeps, back, own, flags, recorded, own_record}

  lookup-settled :
      (n : String)
      → lookup n s.callback_map
        ≡ (if name == n then some (record info { threadgroup_id = i }) else lookup n r.callback_map)
  lookup-settled n =
      ground (arith, callbacks, lookup-assign name i n r.callback_map, string_eq.same_iff name n)

  pub Settled-fewer : unassigned s.callback_map < unassigned r.callback_map
  Settled-fewer =
      ground
        (arith, callbacks, unassigned-assign name i info r.callback_map (omega arith) found open_)

  pub Settled-Grows : Grows r s
  Settled-Grows = record {
    fewer = omega (arith, Settled-fewer);
    kept = λ n x h a. ground (arith, lookup-settled n, string_eq.same_iff name n);
    next = grows;
    pointers = λ p. ap (has_pointer p) callbacks ∙ has_pointer-assign p name i r.callback_map;
  }

  Settled-HasIds : HasIds r → HasIds s
  Settled-HasIds h = record {
    positive = omega arith;
    mutex_ids = λ g j e. elim (back g j e) [
      | inl old ↦ let x = h.mutex_ids g j old in (x.0, omega (arith, x.1, grows), flags j x.2)
      | inr (same, flagged) ↦ (ground arith, ground arith, rw same flagged)
    ];
  }

  Settled-id :
      Inv r
      → (n : String) (x : CallbackInfo) → lookup n s.callback_map ≡ some x
      → x.threadgroup_id < s.next_threadgroup_id
  Settled-id v n x e = elim (Bool-cases (name == n)) [
    | inl same ↦ ground (arith, lookup-settled n)
    | inr other ↦
        let old : lookup n r.callback_map ≡ some x = ground (arith, lookup-settled n) in
        omega (arith, v.callback_ids n x old, grows)
  ]

  Settled-exclusive :
      Inv r
      → (n : String) (x : CallbackInfo) → lookup n s.callback_map ≡ some x
      → x.threadgroup_id ≢ 0
      → x.callback_group.mutually_exclusive ≡ true
      → mutex_of x.callback_group.id s ≡ some x.threadgroup_id
  Settled-exclusive v n x e a b = elim (Bool-cases (name == n)) [
    | inl same ↦ ground (arith, lookup-settled n, own)
    | inr other ↦
        let old : lookup n r.callback_map ≡ some x = ground (arith, lookup-settled n) in
        keeps x.callback_group.id x.threadgroup_id (v.exclusive n x old a b)
  ]

  Settled-recorded : Inv r → All (NamesGroup s) s.callback_map
  Settled-recorded v = rw callbacks (
      All-assign (NamesGroup s) name i r.callback_map (λ x a. own_record)
        (All-map_pred (NamesGroup r) (NamesGroup s) r.callback_map
          (λ e h a. recorded e.1.threadgroup_id (h a)) v.recorded))

  pub Settled-Inv : Inv r → Inv s
  Settled-Inv v = record {
    ids = Settled-HasIds v.ids;
    callback_ids = Settled-id v;
    exclusive = Settled-exclusive v;
    recorded = Settled-recorded v;
  }
