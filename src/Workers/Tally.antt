-- ===== src/Workers/Tally.antt =====
-- Counting the threads of a group (src/worker_group.cpp) by where they stand.
use preemptive_executor.Common.{ℕ, zero, suc, ◌+◌, ◌≡◌, refl, some, List, [], ◌∷◌, get_elem?, arith}
use preemptive_executor.Workers.Trace.{replace, repeat}

module _ {ℓ} {A : Type ℓ} (weight : A → ℕ) where
  abbrev pub tally : List A → ℕ
  tally [] = 0
  tally (x ∷ xs) = weight x + tally xs

  -- The tally of all but the element at `i`.
  pub others : ℕ → List A → ℕ
  others i [] = 0
  others zero (x ∷ xs) = tally xs
  others (suc i) (x ∷ xs) = weight x + others i xs

  pub tally-get_elem? :
      (i : ℕ) (xs : List A) (a : A) → get_elem? xs i ≡ some a → tally xs ≡ others i xs + weight a
  unfolding others
  tally-get_elem? i [] a h = ground (arith, h)
  tally-get_elem? zero (x ∷ xs) a h = ground arith
  tally-get_elem? (suc i) (x ∷ xs) a h = omega (arith, tally-get_elem? i xs a h)

  pub tally-replace :
      (i : ℕ) (xs : List A) (a b : A)
      → get_elem? xs i ≡ some a
      → tally (replace i b xs) ≡ others i xs + weight b
  unfolding others
  tally-replace i [] a b h = ground (arith, h)
  tally-replace zero (x ∷ xs) a b h = omega arith
  tally-replace (suc i) (x ∷ xs) a b h = omega (arith, tally-replace i xs a b h)

  pub tally-repeat : (n : ℕ) (a : A) → weight a ≡ 0 → tally (repeat n a) ≡ 0
  tally-repeat zero a h = refl
  tally-repeat (suc n) a h = omega (arith, tally-repeat n a h)
