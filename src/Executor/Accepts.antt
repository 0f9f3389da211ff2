-- ===== src/Executor/Accepts.antt =====
-- When `classify_callback_groups` (src/preemptive_executor.cpp) returns, and when it throws.
use preemptive_executor.Common.{
  ℕ, ◌≡◌, refl, Bool, false, ◌&&◌, Option, none, some, List, [], ◌∷◌, ◌++◌, All, Outcome, ok,
  Bool-cases, inl, inr, ap, ◌∙◌,
}
use preemptive_executor.Common.Action.{resume}
use preemptive_executor.Ros.{Group, Entry}
use preemptive_executor.Executor.{
  Executor, add_rt, classify_group, classify_entry, classify_entries, classify_with, clear_pending,
  classify_callback_groups,
}
use preemptive_executor.Executor.Classes.{any_timed, any_untimed, flags_of-any, alive, locked}

-- Callbacks of the group are in the timing information, and others are not.
abbrev pub is_mixed : List (ℕ × ℕ) → Group × ℕ → Bool
is_mixed handles e = any_timed handles e.0 && any_untimed handles e.0

module _ {M : Type 0} (add : Group → ℕ → M → Outcome M)
    (accepts : (g : Group) (n : ℕ) (m : M) → (m' : M) × (add g n m ≡ ok m')) where
  Returns : Outcome (Unit {0}) × Executor M → Type 0
  Returns r = (y : Executor M) × (r ≡ (ok tt, y))

  classify_group-Returns :
      (handles : List (ℕ × ℕ)) (g : Group) (n : ℕ) (x : Executor M)
      → is_mixed handles (g, n) ≡ false
      → Returns (classify_group add handles g n x)
  unfolding classify_group add_rt Returns
  classify_group-Returns handles g n x h =
      rw ((flags_of-any handles g).0, (flags_of-any handles g).1, h)
        (elim (Bool-cases (any_timed handles g)) [
          | inl t ↦ rw (t, (accepts g n x.weak_groups_to_nodes).1) (_, refl)
          | inr t ↦ rw t (_, refl)
        ])

  classify_entry-Returns :
      (handles : List (ℕ × ℕ)) (g : Option Group) (n : Option ℕ) (rest : List (Group × ℕ))
      (x : Executor M)
      → All (λ e. is_mixed handles e ≡ false) (alive g n ++ rest)
      → Returns (classify_entry add handles g n x) × All (λ e. is_mixed handles e ≡ false) rest
  unfolding classify_entry Returns
  classify_entry-Returns handles none n rest x h = ((x, refl), h)
  classify_entry-Returns handles (some g) none rest x h = ((x, refl), h)
  classify_entry-Returns handles (some g) (some n) rest x (h, hs) =
      (classify_group-Returns handles g n x h, hs)

  classify_entries-Returns :
      (handles : List (ℕ × ℕ)) (es : List (ℕ × Entry)) (x : Executor M)
      → All (λ e. is_mixed handles e ≡ false) (locked es)
      → Returns (classify_entries add handles es x)
  unfolding classify_entries Returns
  classify_entries-Returns handles [] x h = (x, refl)
  classify_entries-Returns handles ((i, e) ∷ es) x h =
      let ((y, p), hs) = classify_entry-Returns handles e.group e.node (locked es) x h in
      let (z, q) = classify_entries-Returns handles es y hs in
      (z, ap (resume λ _ w. classify_entries add handles es w) p ∙ q)

  -- With the timing information at hand and an `add_callback_group_to_map` that throws nothing,
  -- `classify_callback_groups` returns if no group whose weak pointers lock is mixed.
  pub unmixed_groups_accepted :
      (order : List (ℕ × Entry) → List (ℕ × Entry)) (handles : List (ℕ × ℕ)) (x : Executor M)
      → x.callback_handle_to_threadgroup_id ≡ some handles
      → All (λ e. is_mixed handles e ≡ false) (locked (order x.pending))
      → (y : Executor M) × (classify_callback_groups add order x ≡ (ok tt, y))
  unfolding classify_callback_groups classify_with Returns
  unmixed_groups_accepted order handles x h u =
      let (y, p) = classify_entries-Returns handles (order x.pending) x u in
      (_, ap (λ o. classify_with add order o x) h ∙ ap (resume λ _. clear_pending add) p)
