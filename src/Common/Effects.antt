-- ===== src/Common/Effects.antt =====
-- Exceptions and mutable state: a throw keeps what was written before it.

use mathlib.Core.Path.{◌≡◌}

-- The exceptions of the program: a constructor for each `throw`, and those of the libraries it uses.
-- The first three stand for undefined behaviour: a read past the end of an array, the use of a null
-- pointer, a division by zero; `unfinished` for a recursion whose fuel has run out.
pub data Error : Type 0 where
  out_of_bounds : Error
  null_dereference : Error
  division_by_zero : Error
  unfinished : Error
  callback_not_found : Error
  not_assigned_to_threadgroup : Error
  empty_callback_name : Error
  already_registered : Error
  not_registered : Error
  null_node : Error
  node_already_added : Error
  non_rt_already_spawned : Error
  timer_handle_not_found : Error
  unknown_thread_group : Error
  enqueue_failed : Error
  timing_info_missing : Error
  mixed_callback_group : Error
  already_spinning : Error
  mutex_group_threads : Error
  ready_queue_invalid : Error
  waitable_null : Error
  yaml_load_failed : Error
  empty_chain_name : Error
  invalid_chain : Error
  yaml_exception : Error
  rclcpp_exception : Error

pub data Outcome {ℓ} (A : Type ℓ) : Type ℓ where
  ok : A → Outcome A
  err : Error → Outcome A

infixl 5 ◌>>=◌ ◌>>◌
abbrev pub ◌>>=◌ {ℓ κ} : {A : Type ℓ} {B : Type κ} → Outcome A → (A → Outcome B) → Outcome B
ok a >>= f = f a
err x >>= f = err x

abbrev pub ◌>>◌ {ℓ} : {B : Type ℓ} → Outcome (Unit {0}) → Outcome B → Outcome B
m >> k = m >>= λ _. k

abbrev pub map_ok {ℓ κ} : {A : Type ℓ} {B : Type κ} → (A → B) → Outcome A → Outcome B
map_ok f (ok a) = ok (f a)
map_ok f (err x) = err x

pub ok-injective {ℓ} : {A : Type ℓ} {a b : A} → ok a ≡ ok b → a ≡ b
ok-injective h = cc

pub err-ne-ok {ℓ} : {A : Type ℓ} {x : Error} {a : A} → err x ≡ ok a → ⊥
err-ne-ok h = cc
