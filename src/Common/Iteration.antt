-- ===== src/Common/Iteration.antt =====
-- The order in which a hash container is walked: the standard library's own, a parameter.
use mathlib.Core.Path.{◌≡◌, refl, ap, ◌∙◌}
use mathlib.Core.Bool.{Bool, Bool-set}
use mathlib.Core.Logic.{∥∥₁_elim}
use mathlib.Core.List.{List, Perm, Permᴰ}
use native.Mathlib.Omega.{arith}
use preemptive_executor.Common.Lists.{any}
use mathlib.Core.List.Perm

-- The walk meets each element once. The order is a function of the container.
pub record Iteration : Type 1 where
  pub order : (A : Type 0) → List A → List A
  pub order-perm : (A : Type 0) (xs : List A) → Perm (order A xs) xs

-- A container that is walked in its order.
abbrev pub in_order : Iteration
in_order = record { order = λ A xs. xs; order-perm = λ A xs. Perm.refl xs }

any-Permᴰ : {A : Type 0} (p : A → Bool) {xs ys : List A} → Permᴰ xs ys → any p xs ≡ any p ys
any-Permᴰ p Permᴰ.nil = refl
any-Permᴰ p (Permᴰ.cons e h) = ground (arith, ap p e, any-Permᴰ p h)
any-Permᴰ p (Permᴰ.swap e h) = ground (arith, ap p e, ap p h)
any-Permᴰ p (Permᴰ.trans g h) = any-Permᴰ p g ∙ any-Permᴰ p h

-- Whether an element has the property does not depend on the order.
pub any-order :
    {A : Type 0} (it : Iteration) (p : A → Bool) (xs : List A) → any p (it.order A xs) ≡ any p xs
any-order it p xs = ∥∥₁_elim (it.order-perm _ xs) (Bool-set _ _) (λ h. any-Permᴰ p h)
