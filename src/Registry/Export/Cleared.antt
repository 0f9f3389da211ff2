-- ===== src/Registry/Export/Cleared.antt =====
-- src/callback_registry.cpp: what a registry that has exported before exports.
use preemptive_executor.Common.{ℕ, ◌≡◌, refl, ap, ◌∙◌, true, false, List, [], ◌∷◌, any, String, ok}
use preemptive_executor.Common.Action.{resume}
use preemptive_executor.Common.Iteration.{Iteration, any-order}
use preemptive_executor.Registry.{CallbackInfo}
use preemptive_executor.Registry.Traverse.{visit_roots}
use preemptive_executor.Registry.Priorities.{assign_priorities}
use preemptive_executor.Registry.Threads.{visit_root_groups}
use preemptive_executor.Registry.Export.{
  TimingExport, cleared, export_groups, export_callbacks, export_end, export_timing_information,
  finish, after_roots, callback_threadgroup_allocation,
}

empty-order : {A : Type 0} (it : Iteration) → it.order A [] ≡ []
empty-order it = from_any (it.order _ []) (any-order it (λ _. true) [])
  where
    from_any : {A : Type 0} (xs : List A) → any (λ _. true) xs ≡ false → xs ≡ []
    from_any [] h = refl
    from_any (x ∷ xs) h = cc

abbrev pub nothing_exported : TimingExport
nothing_exported = record { callback_handle_to_threadgroup_id = []; threadgroup_attributes = [] }

module _ (it : Iteration) (fuel : ℕ) where
  export_nothing : export_timing_information it cleared ≡ (ok nothing_exported, cleared)
  unfolding export_timing_information cleared export_groups export_callbacks export_end
  export_nothing =
      ap
        (λ gs.
          export_end (export_groups gs []) cleared
            (export_callbacks (it.order (String × CallbackInfo) []) []))
        (empty-order it)
      ∙ ap (λ cs. export_end [] cleared (export_callbacks cs [])) (empty-order it)

  finish_nothing :
      finish it fuel (record { registry = cleared; deadlines = [] })
      ≡ (ok nothing_exported, cleared)
  unfolding finish assign_priorities cleared visit_root_groups
  finish_nothing =
      ap
        (λ roots.
          resume (λ _. export_timing_information it) (visit_root_groups it fuel roots cleared))
        (empty-order it)
      ∙ export_nothing

  -- `callback_threadgroup_allocation` on a registry that was cleared, as an earlier call leaves it,
  -- returns, and exports no callback and no thread group, whatever callbacks there are by now.
  pub cleared_exports_nothing :
      callback_threadgroup_allocation it fuel cleared ≡ (ok nothing_exported, cleared)
  unfolding callback_threadgroup_allocation cleared visit_roots after_roots
  cleared_exports_nothing =
      ap
        (λ roots.
          after_roots it fuel
            (visit_roots it 1 roots (record { registry = cleared; deadlines = [] })))
        (empty-order it)
      ∙ finish_nothing
