-- ===== src/Registry/Names.antt =====
-- src/callback_registry.cpp: `register_callback_name` and `get_callback_name`, over the static map
-- `pre_registered_names_`. Its hash and its equality both read the raw pointer alone, so that is the
-- key here.
use preemptive_executor.Common.{
  ℕ, false, ◌≡◌, ◌≢◌, Option, none, some, List, arith, if◌then◌else◌, ◌==◌, nat_eq, string_eq,
  lookup, upsert, lookup-upsert, is_some, String, Outcome, ok, err, empty_callback_name,
  already_registered, not_registered,
}
use preemptive_executor.Registry.Entity.{CallbackEntity, get_raw_pointer}

abbrev pub Names : Type 0
Names = List (ℕ × String)

unfoldable pub register_callback_name : CallbackEntity → String → Names → Outcome Names
register_callback_name e name names =
    if name == ""
    then err empty_callback_name
    else if is_some (lookup (get_raw_pointer e) names)
    then err already_registered
    else ok (upsert (get_raw_pointer e) "" (λ _. name) names)

found_name : Option String → Outcome String
found_name none = err not_registered
found_name (some name) = ok name

unfoldable pub get_callback_name : CallbackEntity → Names → Outcome String
unfolding found_name
get_callback_name e names = found_name (lookup (get_raw_pointer e) names)

-- What a successful registration of `e` under `name` means.
pub record Registered (e : CallbackEntity) (name : String) (before after : Names) : Type 0 where
  pub named : (name == "") ≡ false
  pub fresh : get_callback_name e before ≡ err not_registered
  pub found : get_callback_name e after ≡ ok name
  pub others :
      (f : CallbackEntity)
      → (get_raw_pointer e == get_raw_pointer f) ≡ false
      → get_callback_name f after ≡ get_callback_name f before
  pub once : (k : String) (m : Names) → register_callback_name e k after ≢ ok m

-- When `register_callback_name` succeeds, the name is not empty and the entity had no name before;
-- `get_callback_name` then returns that name for it and what it did for every entity at another
-- address, and no second registration of the entity succeeds.
pub register_callback_name_lem :
    (e : CallbackEntity) (name : String) (before after : Names)
    → register_callback_name e name before ≡ ok after
    → Registered e name before after
unfolding register_callback_name get_callback_name
register_callback_name_lem e name before after h = record {
  named = ground arith;
  fresh = ground arith;
  found = ground (arith, stored);
  others = λ f d. ground (arith, stored_for (get_raw_pointer f));
  once = λ k m q. ground (arith, stored);
}
  where
    p : ℕ
    p = get_raw_pointer e

    new : Names
    new = upsert p "" (λ _. name) before

    stored_for : (j : ℕ) → lookup j new ≡ (if p == j then some name else lookup j before)
    stored_for j = lookup-upsert p j "" (λ _. name) before

    stored : lookup p new ≡ some name
    stored = ground (arith, stored_for p)
