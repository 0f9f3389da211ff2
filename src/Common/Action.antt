-- ===== src/Common/Action.antt =====
-- A routine that writes to a state and may throw: the state at the throw is kept.
use preemptive_executor.Common.Effects.{Outcome, ok, err, Error}

abbrev pub Action {ℓ κ} : Type ℓ → Type κ → Type (ℓ ⊔ κ)
Action S A = S → Outcome A × S

module _ {ℓ} {S : Type ℓ} where
  -- What follows a routine's end.
  abbrev pub resume {κ μ} :
      {A : Type κ} {B : Type μ} → (A → Action S B) → Outcome A × S → Outcome B × S
  resume f (ok a, s) = f a s
  resume f (err x, s) = (err x, s)

infixl 5 ◌>>=◌ ◌>>◌
abbrev pub ◌>>=◌ {ℓ κ μ} :
    {S : Type ℓ} {A : Type κ} {B : Type μ} → Action S A → (A → Action S B) → Action S B
◌>>=◌ m f s = resume f (m s)

abbrev pub ◌>>◌ {ℓ μ} : {S : Type ℓ} {B : Type μ} → Action S (Unit {0}) → Action S B → Action S B
m >> k = m >>= λ _. k

abbrev pub pure {ℓ κ} : {S : Type ℓ} {A : Type κ} → A → Action S A
pure a s = (ok a, s)

abbrev pub throw {ℓ κ} : {S : Type ℓ} {A : Type κ} → Error → Action S A
throw x s = (err x, s)

abbrev pub modify {ℓ} : {S : Type ℓ} → (S → S) → Action S (Unit {0})
modify f s = (ok tt, f s)
