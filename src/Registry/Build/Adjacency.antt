-- ===== src/Registry/Build/Adjacency.antt =====
-- The graph that the constructor builds from the chains, against a count of their edges.
use preemptive_executor.Common.{
  ℕ, suc, ◌+◌, ◌%◌, Bool, true, false, ◌||◌, ◌&&◌, ◌≡◌, refl, List, [], ◌∷◌, ◌++◌, arith,
  if◌then◌else◌, ◌==◌, string_eq, lookup, upsert, lookup-upsert, value_or, contains,
  contains-append, String, ok,
}
use preemptive_executor.Chains.{UserChain}
use preemptive_executor.Registry.{CallbackAdjacencyInfo, no_edges, uint32_max}
use preemptive_executor.Registry.Build.{
  Adjacency, insert_name, min_of, add_edge, add_timing, add_links, add_callbacks, add_chains,
}

abbrev pub info_at : String → Adjacency → CallbackAdjacencyInfo
info_at n m = value_or no_edges (lookup n m)

abbrev pub count : String → List String → ℕ
count n [] = 0
count n (c ∷ cs) = if c == n then suc (count n cs) else count n cs

-- The edges of a chain that starts with `p` and goes on with the list: from `a` to `b`?
abbrev pub has_edge : String → String → String → List String → Bool
has_edge a b p [] = false
has_edge a b p (c ∷ cs) = (p == a && c == b) || has_edge a b c cs

edge_info :
    (p c n : String) (m : Adjacency)
    → info_at n (add_edge p c m) ≡ (
        let a = info_at n m in
        let b : CallbackAdjacencyInfo =
          if p == n then record a { outgoing = insert_name c a.outgoing } else a in
        if c == n then record b { indegree = (a.indegree + 1) % 256 } else b)
edge_info p c n m = ground (
  arith,
  lookup-upsert c n no_edges (λ a. record a { indegree = (a.indegree + 1) % 256 })
      (upsert p no_edges (λ a. record a { outgoing = insert_name c a.outgoing }) m),
  lookup-upsert p n no_edges (λ a. record a { outgoing = insert_name c a.outgoing }) m,
  lookup-upsert p c no_edges (λ a. record a { outgoing = insert_name c a.outgoing }) m,
  string_eq.same_iff c n,
  string_eq.same_iff p n,
  string_eq.same_iff p c,
)

timing_info :
    (chain : UserChain) (c n : String) (m : Adjacency)
    → info_at n (add_timing chain c m) ≡ (
        let a = info_at n m in
        if c == n
        then record a {
          deadlines = a.deadlines ++ chain.deadline ∷ [];
          periods = a.periods ++ chain.period ∷ [];
          min_deadline = min_of a.min_deadline chain.deadline;
        }
        else a)
timing_info chain c n m = ground (
  arith,
  string_eq.same_iff c n,
  lookup-upsert c n no_edges
      (λ a. record a {
        deadlines = a.deadlines ++ chain.deadline ∷ [];
        periods = a.periods ++ chain.period ∷ [];
        min_deadline = min_of a.min_deadline chain.deadline;
      })
      m,
)

-- `std::unordered_set`
contains-insert :
    (c n : String) (set : List String) → contains n (insert_name c set) ≡ (contains n set || c == n)
contains-insert c n set = ground (arith, contains-append n set (c ∷ []), string_eq.same_iff c n)

-- The rounds of the inner loop, one by one.
module _ (chain : UserChain) (n : String) where
  links-indegree :
      (p : String) (cs : List String) (m : Adjacency)
      → (info_at n m).indegree ≡ (info_at n m).indegree % 256
      → (info_at n (add_links chain p cs m)).indegree ≡ ((info_at n m).indegree + count n cs) % 256
  unfolding add_links
  links-indegree p [] m h = ground arith
  links-indegree p (c ∷ cs) m h =
      let m' = add_timing chain c (add_edge p c m) in
      ground
        (arith, links-indegree c cs m', timing_info chain c n (add_edge p c m), edge_info p c n m)

  -- `min_deadline` where the callback stands in the rest of the chain.
  links-min :
      (p : String) (cs : List String) (m : Adjacency)
      → (info_at n (add_links chain p cs m)).min_deadline ≡ (
          if contains n cs
          then min_of (info_at n m).min_deadline chain.deadline
          else (info_at n m).min_deadline)
  unfolding add_links
  links-min p [] m = refl
  links-min p (c ∷ cs) m =
      let m' = add_timing chain c (add_edge p c m) in
      ground (arith, links-min c cs m', timing_info chain c n (add_edge p c m), edge_info p c n m)

  links-edge :
      (b p : String) (cs : List String) (m : Adjacency)
      → contains b (info_at n (add_links chain p cs m)).outgoing
        ≡ (contains b (info_at n m).outgoing || has_edge n b p cs)
  unfolding add_links
  links-edge b p [] m = ground arith
  links-edge b p (c ∷ cs) m =
      let m' = add_timing chain c (add_edge p c m) in
      ground (
        arith,
        links-edge b c cs m',
        timing_info chain c n (add_edge p c m),
        edge_info p c n m,
        contains-insert c b (info_at n m).outgoing,
      )

-- At least two callbacks.
abbrev pub is_long : List String → Bool
is_long [] = false
is_long (c ∷ []) = false
is_long (c ∷ d ∷ cs) = true

abbrev pub AllLong : List UserChain → Type 0
AllLong [] = Unit
AllLong (ch ∷ chs) = (is_long ch.callbacks ≡ true) × AllLong chs

abbrev pub edges_in : String → List String → ℕ
edges_in n [] = 0
edges_in n (c ∷ cs) = count n cs

-- How often a callback stands behind another in the chains.
abbrev pub edges_into : String → List UserChain → ℕ
edges_into n [] = 0
edges_into n (ch ∷ chs) = edges_in n ch.callbacks + edges_into n chs

abbrev pub edge_in : String → String → List String → Bool
edge_in a b [] = false
edge_in a b (c ∷ cs) = has_edge a b c cs

-- Does `b` stand directly behind `a` in some chain?
abbrev pub any_edge : String → String → List UserChain → Bool
any_edge a b [] = false
any_edge a b (ch ∷ chs) = edge_in a b ch.callbacks || any_edge a b chs

-- The least of `d` and the deadlines of the chains in which the callback stands.
abbrev pub least_deadline : String → List UserChain → ℕ → ℕ
least_deadline n [] d = d
least_deadline n (ch ∷ chs) d =
    least_deadline n chs (if contains n ch.callbacks then min_of d ch.deadline else d)

-- What the chains add to the entry of a callback.
pub record Built (n : String) (chs : List UserChain) (m m' : Adjacency) : Type 0 where
  pub indegree : (info_at n m').indegree ≡ ((info_at n m).indegree + edges_into n chs) % 256
  pub outgoing :
      (b : String)
      → contains b (info_at n m').outgoing ≡ (contains b (info_at n m).outgoing || any_edge n b chs)
  pub min_deadline : (info_at n m').min_deadline ≡ least_deadline n chs (info_at n m).min_deadline

-- One chain.
record Added (n : String) (ch : UserChain) (cs : List String) (m m' : Adjacency) : Type 0 where
  indegree : (info_at n m').indegree ≡ ((info_at n m).indegree + edges_in n cs) % 256
  outgoing :
      (b : String)
      → contains b (info_at n m').outgoing ≡ (contains b (info_at n m).outgoing || edge_in n b cs)
  min_deadline : (info_at n m').min_deadline ≡ (
      if contains n cs
      then min_of (info_at n m).min_deadline ch.deadline
      else (info_at n m).min_deadline)

add_callbacks_lem :
    (ch : UserChain) (n : String) (cs : List String) (m : Adjacency)
    → is_long cs ≡ true
    → (info_at n m).indegree ≡ (info_at n m).indegree % 256
    → (m' : Adjacency) × (add_callbacks ch cs m ≡ ok m') × Added n ch cs m m'
unfolding add_callbacks
add_callbacks_lem ch n [] m h w = cc
add_callbacks_lem ch n (c ∷ []) m h w = cc
add_callbacks_lem ch n (c ∷ d ∷ cs) m h w =
    let m₁ = add_timing ch c m in
    (
      add_links ch c (d ∷ cs) m₁,
      refl,
      record {
        indegree = ground (arith, links-indegree ch n c (d ∷ cs) m₁, timing_info ch c n m);
        outgoing = λ b. ground (arith, links-edge ch n b c (d ∷ cs) m₁, timing_info ch c n m);
        min_deadline = ground (arith, links-min ch n c (d ∷ cs) m₁, timing_info ch c n m);
      },
    )

add_chains-Built :
    (n : String) (chs : List UserChain) (m : Adjacency)
    → AllLong chs
    → (info_at n m).indegree ≡ (info_at n m).indegree % 256
    → (m' : Adjacency) × (add_chains chs m ≡ ok m') × Built n chs m m'
unfolding add_chains
add_chains-Built n [] m h w =
    (m, refl, record { indegree = ground arith; outgoing = λ b. ground arith; min_deadline = refl })
add_chains-Built n (ch ∷ chs) m h w =
    let (m₁, e₁, a) = add_callbacks_lem ch n ch.callbacks m h.0 w in
    let (m₂, e₂, b) = add_chains-Built n chs m₁ h.1 (omega (arith, a.indegree)) in
    (
      m₂,
      rw e₁ e₂,
      record {
        indegree = omega (arith, a.indegree, b.indegree);
        outgoing = λ c. ground (arith, a.outgoing c, b.outgoing c);
        min_deadline = ground (arith, a.min_deadline, b.min_deadline);
      },
    )

-- For chains of at least two callbacks the constructor's loop ends without reading out of bounds,
-- and for every callback: its `indegree` is the number of places in all chains where it stands
-- behind another callback, counted with repetitions and modulo 256; its `outgoing` holds exactly
-- the callbacks that stand directly behind it in some chain; its `min_deadline` is the least
-- deadline of the chains that it stands in, and UINT32_MAX if it stands in none.
pub add_chains_lem :
    (n : String) (chs : List UserChain)
    → AllLong chs
    → (m : Adjacency) × (add_chains chs [] ≡ ok m)
      × ((info_at n m).indegree ≡ edges_into n chs % 256)
      × ((b : String) → contains b (info_at n m).outgoing ≡ any_edge n b chs)
      × ((info_at n m).min_deadline ≡ least_deadline n chs uint32_max)
add_chains_lem n chs h =
    let (m, e, b) = add_chains-Built n chs [] h refl in
    (m, e, omega (arith, b.indegree), b.outgoing, b.min_deadline)
