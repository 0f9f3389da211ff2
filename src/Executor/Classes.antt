-- ===== src/Executor/Classes.antt =====
-- How src/preemptive_executor.cpp divides the callback groups.
use preemptive_executor.Common.{
  ℕ, ◌≡◌, refl, Bool, true, false, not, ◌||◌, ◌&&◌, Option, none, some, is_some, List, [], ◌∷◌,
  ◌++◌, append_assoc, append-nil, lookup, keep, All, any, flat_map, nat_eq, Outcome, ok, err, ◌>>=◌,
  arith, Bool-cases, inl, inr, subst, ap, sym, ◌∙◌, All-append, keep-append,
}
use preemptive_executor.Common.Action.{resume}
use preemptive_executor.Ros.{
  Entity, Member, subscription, service, client, timer, waitable, Group, Entry, collect_all_ptrs,
}
use preemptive_executor.Executor.{
  Executor, Flags, flag, flag_member, flags_of, add_rt, classify_group, classify_entry,
  classify_entries, classify_with, clear_pending, classify_callback_groups,
}

-- The subscriptions and timers among the members.
abbrev pub callbacks : List Member → List Entity
callbacks [] = []
callbacks (subscription e ∷ ms) = e ∷ callbacks ms
callbacks (timer e ∷ ms) = e ∷ callbacks ms
callbacks (_ ∷ ms) = callbacks ms

-- Whether the timing information names a callback of the group, or leaves one out.
abbrev pub any_timed : List (ℕ × ℕ) → Group → Bool
any_timed handles g = any (λ e. is_some (lookup e.ptr handles)) (callbacks g.members)

abbrev pub any_untimed : List (ℕ × ℕ) → Group → Bool
any_untimed handles g = any (λ e. not (is_some (lookup e.ptr handles))) (callbacks g.members)

collect-flags :
    (handles : List (ℕ × ℕ)) (ms : List Member) (f : Flags)
    → let r = collect_all_ptrs (flag_member handles) ms f in
      (r.has_rt ≡ f.has_rt || any (λ e. is_some (lookup e.ptr handles)) (callbacks ms))
      × (r.has_non_rt
          ≡ f.has_non_rt || any (λ e. not (is_some (lookup e.ptr handles))) (callbacks ms))
unfolding collect_all_ptrs flag_member
collect-flags handles [] f = ground arith
collect-flags handles (subscription e ∷ ms) f =
    ground (arith, collect-flags handles ms (flag handles f e))
collect-flags handles (service e ∷ ms) f = collect-flags handles ms f
collect-flags handles (client e ∷ ms) f = collect-flags handles ms f
collect-flags handles (timer e ∷ ms) f = ground (arith, collect-flags handles ms (flag handles f e))
collect-flags handles (waitable e ∷ ms) f = collect-flags handles ms f

pub flags_of-any :
    (handles : List (ℕ × ℕ)) (g : Group)
    → ((flags_of handles g).has_rt ≡ any_timed handles g)
      × ((flags_of handles g).has_non_rt ≡ any_untimed handles g)
unfolding flags_of
flags_of-any handles g =
    collect-flags handles g.members (record { has_rt = false; has_non_rt = false })

-- The groups and nodes that are still there when the two weak pointers are locked.
abbrev pub alive : Option Group → Option ℕ → List (Group × ℕ)
alive (some g) (some n) = (g, n) ∷ []
alive _ _ = []

abbrev pub locked : List (ℕ × Entry) → List (Group × ℕ)
locked = flat_map λ e. alive e.1.group e.1.node

module _ {M : Type 0} (add : Group → ℕ → M → Outcome M) where
  abbrev pub add_all : List (Group × ℕ) → M → Outcome M
  add_all [] m = ok m
  add_all ((g, n) ∷ gs) m = add g n m >>= add_all gs

  -- What a classification of the groups `gs` that throws nothing has done to the executor.
  abbrev pub Divides : List (ℕ × ℕ) → List (Group × ℕ) → Executor M → Executor M → Type 0
  Divides handles gs x y =
      All (λ (e : Group × ℕ). (any_timed handles e.0 && any_untimed handles e.0) ≡ false) gs
      × (y.non_rt_callback_groups
          ≡ x.non_rt_callback_groups ++ keep (λ e. not (any_timed handles e.0)) gs)
      × (add_all (keep (λ e. any_timed handles e.0) gs) x.weak_groups_to_nodes
          ≡ ok y.weak_groups_to_nodes)

  DividesIfOk :
      List (ℕ × ℕ) → List (Group × ℕ) → Executor M → Outcome (Unit {0}) × Executor M → Type 0
  DividesIfOk handles gs x (ok u, y) = Divides handles gs x y
  DividesIfOk handles gs x (err e, y) = Unit

  add_rt-Divides :
      (handles : List (ℕ × ℕ)) (g : Group) (n : ℕ) (x : Executor M) (o : Outcome M)
      → add g n x.weak_groups_to_nodes ≡ o
      → any_timed handles g ≡ true
      → any_untimed handles g ≡ false
      → DividesIfOk handles ((g, n) ∷ []) x (add_rt add x o)
  unfolding add_rt DividesIfOk
  add_rt-Divides handles g n x (ok m) e t u =
      rw (t, u, e) ((refl, tt), sym (append-nil x.non_rt_callback_groups), refl)
  add_rt-Divides handles g n x (err v) e t u = tt

  classify_group-Divides :
      (handles : List (ℕ × ℕ)) (g : Group) (n : ℕ) (x : Executor M)
      → DividesIfOk handles ((g, n) ∷ []) x (classify_group add handles g n x)
  unfolding classify_group DividesIfOk
  classify_group-Divides handles g n x =
      rw ((flags_of-any handles g).0, (flags_of-any handles g).1)
        (elim (Bool-cases (any_timed handles g)) [
          | inr t ↦ rw t ((rw t refl, tt), rw t refl, rw t refl)
          | inl t ↦ elim (Bool-cases (any_untimed handles g)) [
            | inl u ↦ rw (t, u) tt
            | inr u ↦
                rw (t, u) (add_rt-Divides handles g n x (add g n x.weak_groups_to_nodes) refl t u)
          ]
        ])

  add_rest-append :
      (gs hs : List (Group × ℕ)) (o : Outcome M) (m' : M)
      → ((m : M) → add_all gs m ≡ ok m' → add_all (gs ++ hs) m ≡ add_all hs m')
      → (o >>= add_all gs) ≡ ok m'
      → (o >>= add_all (gs ++ hs)) ≡ add_all hs m'
  add_rest-append gs hs (ok m) m' rec e = rec m e
  add_rest-append gs hs (err v) m' rec e = ground (arith, e)

  add_all-append :
      (gs hs : List (Group × ℕ)) (m m' : M)
      → add_all gs m ≡ ok m'
      → add_all (gs ++ hs) m ≡ add_all hs m'
  add_all-append [] hs m m' e = ground (arith, e)
  add_all-append ((g, n) ∷ gs) hs m m' e =
      add_rest-append gs hs (add g n m) m' (λ k. add_all-append gs hs k m') e

  Divides-append :
      (handles : List (ℕ × ℕ)) (gs hs : List (Group × ℕ)) (x y z : Executor M)
      → Divides handles gs x y
      → Divides handles hs y z
      → Divides handles (gs ++ hs) x z
  Divides-append handles gs hs x y z (a, b, c) (a', b', c') = (
    All-append _ gs hs a a',
    rw (b', b, keep-append (λ e. not (any_timed handles e.0)) gs hs, append_assoc),
    rw (keep-append (λ e. any_timed handles e.0) gs hs) (
        add_all-append (keep (λ e. any_timed handles e.0) gs) (keep (λ e. any_timed handles e.0) hs)
          x.weak_groups_to_nodes y.weak_groups_to_nodes c
        ∙ c'),
  )

  then-Divides :
      (handles : List (ℕ × ℕ)) (gs hs : List (Group × ℕ)) (x y : Executor M)
      (r : Outcome (Unit {0}) × Executor M)
      → Divides handles gs x y
      → DividesIfOk handles hs y r
      → DividesIfOk handles (gs ++ hs) x r
  unfolding DividesIfOk
  then-Divides handles gs hs x y (err v, z) a b = tt
  then-Divides handles gs hs x y (ok u, z) a b = Divides-append handles gs hs x y z a b

  resume-Divides :
      (handles : List (ℕ × ℕ)) (gs hs : List (Group × ℕ)) (x : Executor M)
      (r : Outcome (Unit {0}) × Executor M) (f : Executor M → Outcome (Unit {0}) × Executor M)
      → DividesIfOk handles gs x r
      → ((y : Executor M) → DividesIfOk handles hs y (f y))
      → DividesIfOk handles (gs ++ hs) x (resume (λ _ y. f y) r)
  unfolding DividesIfOk
  resume-Divides handles gs hs x (err v, y) f a b = tt
  resume-Divides handles gs hs x (ok u, y) f a b = then-Divides handles gs hs x y (f y) a (b y)

  classify_entry-Divides :
      (handles : List (ℕ × ℕ)) (g : Option Group) (n : Option ℕ) (x : Executor M)
      → DividesIfOk handles (alive g n) x (classify_entry add handles g n x)
  unfolding classify_entry DividesIfOk
  classify_entry-Divides handles none n x = (tt, sym (append-nil x.non_rt_callback_groups), refl)
  classify_entry-Divides handles (some g) none x =
      (tt, sym (append-nil x.non_rt_callback_groups), refl)
  classify_entry-Divides handles (some g) (some n) x = classify_group-Divides handles g n x

  classify_entries-Divides :
      (handles : List (ℕ × ℕ)) (es : List (ℕ × Entry)) (x : Executor M)
      → DividesIfOk handles (locked es) x (classify_entries add handles es x)
  unfolding classify_entries DividesIfOk
  classify_entries-Divides handles [] x = (tt, sym (append-nil x.non_rt_callback_groups), refl)
  classify_entries-Divides handles ((i, e) ∷ es) x =
      resume-Divides handles (alive e.group e.node) (locked es) x
        (classify_entry add handles e.group e.node x) (λ y. classify_entries add handles es y)
        (classify_entry-Divides handles e.group e.node x) λ y. classify_entries-Divides handles es y

  finish-Divides :
      (handles : List (ℕ × ℕ)) (gs : List (Group × ℕ)) (x y : Executor M)
      (r : Outcome (Unit {0}) × Executor M)
      → DividesIfOk handles gs x r
      → resume (λ _. clear_pending add) r ≡ (ok tt, y)
      → Divides handles gs x y × (y.pending ≡ [])
  unfolding DividesIfOk
  finish-Divides handles gs x y (err v, z) d e = ground (arith, e)
  finish-Divides handles gs x y (ok u, z) d e =
      let same : record z { pending = [] } ≡ y = ground (arith, e) in
      subst (λ q. Divides handles gs x q × (q.pending ≡ [])) same (d, refl)

  -- With the timing information at hand, when `classify_callback_groups` returns, of the groups
  -- whose weak pointers lock: none has callbacks both in the timing information and not in it;
  -- those with a callback in it were given to `add_callback_group_to_map`, in the order of the walk,
  -- and the others appended to `non_rt_callback_groups`; and no group is pending.
  pub classify_callback_groups_lem :
      (order : List (ℕ × Entry) → List (ℕ × Entry)) (handles : List (ℕ × ℕ)) (x y : Executor M)
      → x.callback_handle_to_threadgroup_id ≡ some handles
      → classify_callback_groups add order x ≡ (ok tt, y)
      → Divides handles (locked (order x.pending)) x y × (y.pending ≡ [])
  unfolding classify_callback_groups
  classify_callback_groups_lem order handles x y h e =
      finish-Divides handles (locked (order x.pending)) x y
        (classify_entries add handles (order x.pending) x)
        (classify_entries-Divides handles (order x.pending) x)
        (rw⁻¹ (ap (λ o. classify_with add order o x) h) e)
