-- ===== src/Registry/Priorities.antt =====
-- src/callback_registry.cpp: the loop of `callback_threadgroup_allocation` that gives out the fixed
-- priorities.
use preemptive_executor.Common.{
  ℕ, suc, ◌+◌, ◌%◌, ◌<◌, ◌≤◌, true, false, ◌≡◌, ◌≢◌, refl, sym, subst, List, [], ◌∷◌, ◌++◌, arith,
  length, contains, flat_map, foldl, length-append, if◌then◌else◌, ◌==◌, nat_eq, lookup,
  lookup-upsert, value_or, ap, ◌∙◌,
}
use preemptive_executor.Ros.{foldl-append}
use preemptive_executor.Registry.{new_group, Registry, on_group}

-- The counter, a `uint16_t`, and the registry.
pub record Numbering : Type 0 where
  pub counter : ℕ
  pub registry : Registry

-- One round: a thread group that has a priority keeps it.
unfoldable pub set_priority : Numbering → ℕ → Numbering
set_priority s i =
    if (value_or new_group (lookup i s.registry.threadgroup_callback_map)).fixed_priority == 0
    then record {
      counter = (s.counter + 1) % 65536;
      registry = on_group i (λ t. record t { fixed_priority = s.counter }) s.registry;
    }
    else record s { registry = on_group i (λ t. t) s.registry }

-- The thread groups in the order of the two loops: by deadline, then as they were noted.
abbrev pub group_ids : List (ℕ × List ℕ) → List ℕ
group_ids = flat_map λ (e : ℕ × List ℕ). e.1

abbrev pub number_all : List ℕ → Numbering → Numbering
number_all is s = foldl set_priority s is

unfoldable pub assign_priorities : List (ℕ × List ℕ) → Registry → Registry
unfolding set_priority
assign_priorities deadlines r =
    (number_all (group_ids deadlines) (record { counter = 1; registry = r })).registry

abbrev pub priority : ℕ → Registry → ℕ
priority i r = (value_or new_group (lookup i r.threadgroup_callback_map)).fixed_priority

set_priority-priority :
    (s : Numbering) (i j : ℕ)
    → priority j (set_priority s i).registry ≡ (
        if i == j
        then (if priority i s.registry == 0 then s.counter else priority i s.registry)
        else priority j s.registry)
unfolding set_priority
set_priority-priority s i j = ground (
  arith,
  nat_eq.same_iff i j,
  lookup-upsert i j new_group (λ t. record t { fixed_priority = s.counter })
      s.registry.threadgroup_callback_map,
  lookup-upsert i j new_group (λ t. t) s.registry.threadgroup_callback_map,
)

set_priority-counter :
    (s : Numbering) (i : ℕ)
    → (set_priority s i).counter
      ≡ (if priority i s.registry == 0 then (s.counter + 1) % 65536 else s.counter)
unfolding set_priority
set_priority-counter s i = ground arith

-- All priorities given so far lie below the counter, which is not 0.
record Below (s : Numbering) : Type 0 where
  positive : 0 < s.counter
  below : (j : ℕ) → priority j s.registry < s.counter

set_priority-Below :
    (s : Numbering) (i : ℕ) → s.counter < 65535 → Below s → Below (set_priority s i)
set_priority-Below s i h b = record {
  positive = ground (arith, set_priority-counter s i, b.positive);
  below = λ j. ground (
    arith,
    set_priority-counter s i,
    set_priority-priority s i j,
    b.below j,
    b.below i,
    b.positive,
  );
}

-- What a run of the loop does to the priority of `j`, with room for the counter.
record Numbered (is : List ℕ) (s t : Numbering) : Type 0 where
  below : Below t
  room : t.counter ≤ s.counter + length is
  grows : s.counter ≤ t.counter
  kept : (j : ℕ) → priority j s.registry ≢ 0 → priority j t.registry ≡ priority j s.registry
  fresh :
      (j : ℕ) → priority j s.registry ≡ 0 → contains j is ≡ true → s.counter ≤ priority j t.registry
  other : (j : ℕ) → contains j is ≡ false → priority j t.registry ≡ priority j s.registry

-- One round in front of a run.
module _ (i : ℕ) (is : List ℕ) (s t : Numbering) (h : s.counter + suc (length is) < 65536)
    (b : Below s) (n : Numbered is (set_priority s i) t) where
  stepped :
      (set_priority s i).counter
      ≡ (if priority i s.registry == 0 then (s.counter + 1) % 65536 else s.counter)
  stepped = set_priority-counter s i

  prio :
      (j : ℕ)
      → priority j (set_priority s i).registry ≡ (
          if i == j
          then (if priority i s.registry == 0 then s.counter else priority i s.registry)
          else priority j s.registry)
  prio j = set_priority-priority s i j

  Numbered-cons : Numbered (i ∷ is) s t
  Numbered-cons = record {
    below = n.below;
    room = ground (arith, stepped, n.room);
    grows = ground (arith, stepped, n.grows);
    kept = λ j z. ground (arith, prio j, n.kept j, b.positive);
    fresh = λ j z m.
        ground (arith, prio j, stepped, n.kept j, n.fresh j, b.positive, nat_eq.same_iff i j);
    other = λ j m. ground (arith, prio j, n.other j);
  }

number_all-Numbered :
    (is : List ℕ) (s : Numbering)
    → s.counter + length is < 65536
    → Below s
    → Numbered is s (number_all is s)
number_all-Numbered [] s h b = record {
  below = b;
  room = omega arith;
  grows = omega arith;
  kept = λ j n. refl;
  fresh = λ j z m. cc;
  other = λ j m. refl;
}
number_all-Numbered (i ∷ is) s h b = Numbered-cons i is s _ h b (
    number_all-Numbered is (set_priority s i) (ground (arith, set_priority-counter s i))
      (set_priority-Below s i (omega arith) b))

-- A thread group that is numbered before another starts to be gets the smaller number.
module _ (before after : List ℕ) (i j : ℕ) (s : Numbering)
    (room : s.counter + length (before ++ i ∷ after) < 65536) (b : Below s)
    (new : priority j s.registry ≡ 0) (later : contains j (before ++ i ∷ []) ≡ false)
    (listed : contains j after ≡ true) where
  first : Numbering
  first = number_all before s

  middle : Numbering
  unfolding first
  middle = number_all (before ++ i ∷ []) s

  n₁ : Numbered before s first
  unfolding first
  n₁ = number_all-Numbered before s (omega (arith, length-append before (i ∷ after))) b

  n₂ : Numbered (before ++ i ∷ []) s middle
  unfolding middle
  n₂ =
      number_all-Numbered (before ++ i ∷ []) s
        (omega (arith, length-append before (i ∷ after), length-append before (i ∷ []))) b

  n₃ : Numbered after middle (number_all after middle)
  n₃ =
      number_all-Numbered after middle
        (omega (arith, n₂.room, length-append before (i ∷ after), length-append before (i ∷ [])))
        n₂.below

  middle-first : middle ≡ set_priority first i
  unfolding middle first
  middle-first = foldl-append set_priority s before (i ∷ [])

  given : 0 < priority i middle.registry
  given = ground (arith, middle-first, set_priority-priority first i i, n₁.below.positive)

  all-middle : number_all (before ++ i ∷ after) s ≡ number_all after middle
  unfolding middle
  all-middle =
      foldl-append set_priority s before (i ∷ after)
      ∙ sym (ap (λ m. number_all after m) (foldl-append set_priority s before (i ∷ [])))

  ordered :
      let t = number_all (before ++ i ∷ after) s in
      (0 < priority i t.registry) × (priority i t.registry < priority j t.registry)
  ordered = ground (arith, all-middle, given, n₃.kept i, n₂.below.below i, n₂.other j, n₃.fresh j)

-- The fixed priorities follow the deadlines, from a registry in which no thread group has a priority
-- yet: of two thread groups in the map from deadlines to thread groups (a map in increasing order),
-- the one whose first place in it comes first gets a positive number, and the other a greater one.
-- This holds while the map lists fewer than 65535 thread groups, counted as often as they stand in
-- it; the numbers are not kept below 100.
pub assign_priorities_monotonic :
    (deadlines : List (ℕ × List ℕ)) (r : Registry) (before after : List ℕ) (i j : ℕ)
    → ((g : ℕ) → priority g r ≡ 0)
    → length (group_ids deadlines) < 65535
    → group_ids deadlines ≡ before ++ i ∷ after
    → contains j (before ++ i ∷ []) ≡ false
    → contains j after ≡ true
    → (0 < priority i (assign_priorities deadlines r))
      × (priority i (assign_priorities deadlines r) < priority j (assign_priorities deadlines r))
unfolding assign_priorities
assign_priorities_monotonic deadlines r before after i j new room split later listed =
    subst
      (λ (is : List ℕ).
        (0 < priority i (number_all is start).registry)
        × (priority i (number_all is start).registry < priority j (number_all is start).registry))
      (sym split)
      (ordered before after i j start (ground (arith, ap length split))
        (record { positive = omega arith; below = λ g. ground (arith, new g) }) (new j) later
        listed)
  where
    start : Numbering
    start = record { counter = 1; registry = r }
