-- ===== src/Common/Lists.antt =====
-- Lists over the native numbers, and the predicates on lists that the components share.
use Prim.Native.Nat.{ℕ, zero, suc, ◌+◌}
use mathlib.Core.Path.{◌≡◌, refl}
use mathlib.Core.Bool.{Bool, true, false, ◌||◌}
use mathlib.Core.List.{List, [], ◌∷◌, ◌++◌}
use mathlib.Core.Option.{Option, none, some}
use native.Mathlib.Omega.{arith}
use preemptive_executor.Common.Tests.{Eq, ◌==◌, if◌then◌else◌}

module _ {ℓ} {A : Type ℓ} where
  abbrev pub length : List A → ℕ
  length [] = 0
  length (x ∷ xs) = suc (length xs)

  abbrev pub get_elem? : List A → ℕ → Option A
  get_elem? [] i = none
  get_elem? (x ∷ xs) zero = some x
  get_elem? (x ∷ xs) (suc i) = get_elem? xs i

  pub length-append : (xs ys : List A) → length (xs ++ ys) ≡ length xs + length ys
  length-append [] ys = omega arith
  length-append (x ∷ xs) ys = omega (arith, length-append xs ys)

  -- The library's `filter`, on a Boolean test.
  abbrev pub keep : (A → Bool) → List A → List A
  keep p [] = []
  keep p (x ∷ xs) = if p x then x ∷ keep p xs else keep p xs

  pub keep-append : (p : A → Bool) (xs ys : List A) → keep p (xs ++ ys) ≡ keep p xs ++ keep p ys
  keep-append p [] ys = refl
  keep-append p (x ∷ xs) ys = ground (arith, keep-append p xs ys)

  abbrev pub All {κ} : (A → Type κ) → List A → Type κ
  All P [] = Unit
  All P (x ∷ xs) = P x × All P xs

  pub All-append {κ} : (P : A → Type κ) (xs ys : List A) → All P xs → All P ys → All P (xs ++ ys)
  All-append P [] ys _ qs = qs
  All-append P (x ∷ xs) ys (p, ps) qs = (p, All-append P xs ys ps qs)

  pub All-map_pred {κ μ} :
      (P : A → Type κ) (Q : A → Type μ) (xs : List A) → ((x : A) → P x → Q x) → All P xs → All Q xs
  All-map_pred P Q [] f h = tt
  All-map_pred P Q (x ∷ xs) f (h, rest) = (f x h, All-map_pred P Q xs f rest)

  abbrev pub any : (A → Bool) → List A → Bool
  any p [] = false
  any p (x ∷ xs) = p x || any p xs

  pub any_of_All {κ} :
      (P : A → Type κ) (p : A → Bool) (xs : List A)
      → ((x : A) → P x → p x ≡ false)
      → All P xs
      → any p xs ≡ false
  any_of_All P p [] f h = refl
  any_of_All P p (x ∷ xs) f (h, rest) = ground (arith, f x h, any_of_All P p xs f rest)

  pub none_of_any {κ} :
      (P : A → Type κ) (p : A → Bool) (xs : List A)
      → ((x : A) → p x ≡ false → P x)
      → any p xs ≡ false
      → All P xs
  none_of_any P p [] f h = tt
  none_of_any P p (x ∷ xs) f h = (f x (ground (arith, h)), none_of_any P p xs f (ground (arith, h)))

abbrev pub flat_map {ℓ κ} : {A : Type ℓ} {B : Type κ} → (A → List B) → List A → List B
flat_map f [] = []
flat_map f (x ∷ xs) = f x ++ flat_map f xs

abbrev pub zip {ℓ κ} : {A : Type ℓ} {B : Type κ} → List A → List B → List (A × B)
zip [] ys = []
zip (x ∷ xs) [] = []
zip (x ∷ xs) (y ∷ ys) = (x, y) ∷ zip xs ys

abbrev pub sum : List ℕ → ℕ
sum [] = 0
sum (x ∷ xs) = x + sum xs

abbrev pub foldl {ℓ κ} : {A : Type ℓ} {S : Type κ} → (S → A → S) → S → List A → S
foldl f s [] = s
foldl f s (x ∷ xs) = foldl f (f s x) xs

module _ {ℓ} {A : Type ℓ} ⦃e : Eq A⦄ where
  abbrev pub contains : A → List A → Bool
  contains a [] = false
  contains a (x ∷ xs) = x == a || contains a xs

  -- `std::unordered_set::erase` and the erasure of the first match in a vector.
  abbrev pub erase : A → List A → List A
  erase a [] = []
  erase a (x ∷ xs) = if x == a then xs else x ∷ erase a xs

  -- No value twice.
  abbrev pub Distinct : List A → Type 0
  Distinct [] = Unit
  Distinct (x ∷ xs) = (contains x xs ≡ false) × Distinct xs

  pub beq_refl : (a : A) → (a == a) ≡ true
  beq_refl a = (e.same_iff a a).1 refl

  pub contains-append :
      (a : A) (xs ys : List A) → contains a (xs ++ ys) ≡ (contains a xs || contains a ys)
  contains-append a [] ys = refl
  contains-append a (x ∷ xs) ys = ground (arith, contains-append a xs ys)

  pub contains-erase_ne :
      (a b : A) (xs : List A) → (b == a) ≡ false → contains a (erase b xs) ≡ contains a xs
  contains-erase_ne a b [] h = refl
  contains-erase_ne a b (x ∷ xs) h =
      ground (arith, contains-erase_ne a b xs h, e.same_iff x b, e.same_iff x a, e.same_iff b a)

  pub contains-erase_self : (a : A) (xs : List A) → Distinct xs → contains a (erase a xs) ≡ false
  contains-erase_self a [] d = refl
  contains-erase_self a (x ∷ xs) d =
      ground (arith, contains-erase_self a xs d.1, e.same_iff x a, e.same_iff a x)

  pub contains_of_erase :
      (a b : A) (xs : List A) → contains a (erase b xs) ≡ true → contains a xs ≡ true
  contains_of_erase a b [] h = cc
  contains_of_erase a b (x ∷ xs) h = ground (arith, contains_of_erase a b xs)

  pub erase-Distinct : (a : A) (xs : List A) → Distinct xs → Distinct (erase a xs)
  erase-Distinct a [] d = tt
  erase-Distinct a (x ∷ xs) d = ground (arith, erase-Distinct a xs d.1, contains_of_erase x a xs)

  pub Distinct-concat :
      (a : A) (xs : List A) → contains a xs ≡ false → Distinct xs → Distinct (xs ++ a ∷ [])
  Distinct-concat a [] h d = (refl, tt)
  Distinct-concat a (x ∷ xs) h d =
      ground
        (arith, Distinct-concat a xs, contains-append x xs (a ∷ []), e.same_iff x a, e.same_iff a x)
