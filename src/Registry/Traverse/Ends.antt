-- ===== src/Registry/Traverse/Ends.antt =====
-- `recursive_callback_traversal` ends, keeps the invariant and gives each visited callback a thread
-- group.
mod Rounds
pub use Rounds.{IsAssigned, Post}
use Rounds.{resume-Post, Good, touch-Quiet, follow-Post, settled_visited}
use preemptive_executor.Common.{
  ℕ, suc, zero, ◌<◌, ◌≡◌, ◌≢◌, refl, inl, inr, Option, none, some, List, [], ◌∷◌, arith,
  if◌then◌else◌, ◌==◌, nat_eq, string_eq, lookup, String, Bool-cases,
}
use preemptive_executor.Common.Iteration.{Iteration}
use preemptive_executor.Registry.{CallbackInfo, CallbackAdjacencyInfo}
use preemptive_executor.Registry.Traverse.{
  Walk, Visit, settle, touch, successors, visit_unassigned, visit_found, visit, visit_roots,
}
use preemptive_executor.Registry.Traverse.Settle.{Recorded, settle-Result}
use preemptive_executor.Registry.Traverse.Invariant.{
  Inv, Grows-refl, Quiet-Inv, unassigned, Settled-fewer, Settled-Grows, Settled-Inv,
}

module _ (it : Iteration) where
  visit_unassigned-Post :
      (rec : Visit) (k : ℕ)
      → Good rec k
      → (name : String) (info : CallbackInfo) (tg prev : ℕ) (w : Walk)
      → unassigned w.registry.callback_map < suc k
      → tg < w.registry.next_threadgroup_id
      → (tg ≢ 0 → Recorded tg w.registry)
      → Inv w.registry
      → lookup name w.registry.callback_map ≡ some info
      → info.threadgroup_id ≡ 0
      → Post (name ∷ []) w.registry (visit_unassigned it rec name info tg prev w)
  unfolding visit_unassigned
  visit_unassigned-Post rec k good name info tg prev w h b told v found z =
      let x = settle-Result name info tg prev w b told v.ids in
      let out = settle name info tg prev w in
      let s = out.1.registry in
      let grown = Settled-Grows name info w.registry s x.id found z x.settled in
      let fewer = Settled-fewer name info w.registry s x.id found z x.settled in
      let u = Settled-Inv name info w.registry s x.id found z x.settled v in
      let touched = touch-Quiet name out.1 in
      let t = (touch name out.1).registry in
      let p =
        follow-Post rec k good out.0 prev (successors it name out.1) (touch name out.1)
          (omega (arith, fewer)) x.local_below x.local_recorded (Quiet-Inv s t touched u) in
      settled_visited name info x.id w.registry s t _ found grown x.settled.callbacks
        x.settled.positive touched p

  visit_found-Post :
      (rec : Visit) (k : ℕ)
      → Good rec k
      → (name : String) (tg prev : ℕ) (o : Option CallbackInfo) (w : Walk)
      → unassigned w.registry.callback_map < suc k
      → tg < w.registry.next_threadgroup_id
      → (tg ≢ 0 → Recorded tg w.registry)
      → Inv w.registry
      → lookup name w.registry.callback_map ≡ o
      → Post (name ∷ []) w.registry (visit_found it rec name tg prev o w)
  unfolding visit_found
  visit_found-Post rec k good name tg prev none w h b told v found = record {
    ends = λ e. cc;
    inv = v;
    grows = Grows-refl w.registry;
    visited = λ e. cc;
  }
  visit_found-Post rec k good name tg prev (some info) w h b told v found =
      elim (Bool-cases (info.threadgroup_id == 0)) [
        | inl e ↦ rw e (
            visit_unassigned-Post rec k good name info tg prev w h b told v found
              ((nat_eq.same_iff info.threadgroup_id 0).0 e))
        | inr e ↦ rw e (record {
          ends = λ q. cc;
          inv = v;
          grows = Grows-refl w.registry;
          visited = λ q. ((info, found, ground arith), tt);
        })
      ]

  -- From a registry that keeps the invariant, for a thread group that states its id, with more fuel than there are callbacks without a
  -- thread group, `recursive_callback_traversal` ends, whatever the graph: cycles included. It keeps
  -- the invariant, takes no thread group back and changes none, and unless it throws the callback it
  -- was called for has a thread group.
  pub visit-Post :
      (fuel : ℕ) (name : String) (tg prev : ℕ) (w : Walk)
      → unassigned w.registry.callback_map < fuel
      → tg < w.registry.next_threadgroup_id
      → (tg ≢ 0 → Recorded tg w.registry)
      → Inv w.registry
      → Post (name ∷ []) w.registry (visit it fuel name tg prev w)
  unfolding visit
  visit-Post zero name tg prev w h b told v = absurd (omega arith)
  visit-Post (suc fuel) name tg prev w h b told v =
      visit_found-Post (λ n t p x. visit it fuel n t p x) fuel
        (λ n t p x q y told z. visit-Post fuel n t p x q y told z) name tg prev
        (lookup name w.registry.callback_map) w h b told v refl

  abbrev pub root_names : List (String × CallbackAdjacencyInfo) → List String
  root_names [] = []
  root_names ((name, a) ∷ rest) =
      if a.indegree == 0 then name ∷ root_names rest else root_names rest

  -- The loop over the callbacks without a predecessor ends too, under the same conditions, and
  -- unless it throws each of them has a thread group.
  pub visit_roots-Post :
      (fuel : ℕ) (roots : List (String × CallbackAdjacencyInfo)) (w : Walk)
      → unassigned w.registry.callback_map < fuel
      → Inv w.registry
      → Post (root_names roots) w.registry (visit_roots it fuel roots w)
  unfolding visit_roots
  visit_roots-Post fuel [] w h v = record {
    ends = λ e. cc;
    inv = v;
    grows = Grows-refl w.registry;
    visited = λ e. tt;
  }
  visit_roots-Post fuel ((name, a) ∷ rest) w h v = elim (Bool-cases (a.indegree == 0)) [
    | inl e ↦ rw e (
        resume-Post name (root_names rest) w.registry _ (λ x. visit_roots it fuel rest x)
          (visit-Post fuel name 0 0 w h v.ids.positive (λ z. absurd (z refl)) v)
          (λ x i g. visit_roots-Post fuel rest x (omega (arith, g.fewer)) i))
    | inr e ↦ rw e (visit_roots-Post fuel rest w h v)
  ]
