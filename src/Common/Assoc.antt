-- ===== src/Common/Assoc.antt =====
-- `std::map` and `std::unordered_map` as association lists, one entry for each key.
use mathlib.Core.Path.{◌≡◌, refl}
use mathlib.Core.List.{List, [], ◌∷◌}
use mathlib.Core.Option.{Option, none, some}
use native.Mathlib.Omega.{arith}
use preemptive_executor.Common.Tests.{Eq, ◌==◌, if◌then◌else◌, Bool-cases}
use preemptive_executor.Common.Lists.{All}
use mathlib.Core.Logic.{inl, inr}

abbrev pub value_or {ℓ} : {V : Type ℓ} → V → Option V → V
value_or d none = d
value_or d (some v) = v

module _ {ℓ κ} {K : Type ℓ} {V : Type κ} ⦃e : Eq K⦄ where
  -- `find`, `at`
  abbrev pub lookup : K → List (K × V) → Option V
  lookup k [] = none
  lookup k ((j, v) ∷ m) = if j == k then some v else lookup k m

  -- `m[k]` as the target of an update: a missing key gets the default value first.
  abbrev pub upsert : K → V → (V → V) → List (K × V) → List (K × V)
  upsert k d f [] = (k, f d) ∷ []
  upsert k d f ((j, v) ∷ m) = if j == k then (j, f v) ∷ m else (j, v) ∷ upsert k d f m

  -- `emplace`: a key that is there keeps its value.
  abbrev pub emplace : K → V → List (K × V) → List (K × V)
  emplace k v = upsert k v (λ w. w)

  abbrev pub keys : List (K × V) → List K
  keys [] = []
  keys ((k, v) ∷ m) = k ∷ keys m

  pub lookup-upsert :
      (k j : K) (d : V) (f : V → V) (m : List (K × V))
      → lookup j (upsert k d f m)
        ≡ (if k == j then some (f (value_or d (lookup k m))) else lookup j m)
  lookup-upsert k j d f [] = refl
  lookup-upsert k j d f ((i, v) ∷ m) =
      ground (arith, e.same_iff k j, e.same_iff i k, e.same_iff i j, lookup-upsert k j d f m)

  pub All-upsert {μ} :
      (P : K × V → Type μ) (k : K) (d : V) (f : V → V) (m : List (K × V))
      → P (k, f d)
      → ((j : K) (v : V) → P (j, v) → P (j, f v))
      → All P m
      → All P (upsert k d f m)
  All-upsert P k d f [] new old h = (new, tt)
  All-upsert P k d f ((j, v) ∷ m) new old (h, rest) = elim (Bool-cases (j == k)) [
    | inl same ↦ rw same (old j v h, rest)
    | inr other ↦ rw other (h, All-upsert P k d f m new old rest)
  ]
