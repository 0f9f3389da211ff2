-- ===== src/Registry/Entity.antt =====
-- include/preemptive_executor/callback_registry.hpp: `CallbackEntity`, a tagged shared pointer.
use preemptive_executor.Common.{ℕ, Bool, Option, none, some, ◌==◌, nat_eq}
use preemptive_executor.Ros.{Entity, Member, subscription, service, client, timer, waitable}

pub data CallbackEntityType : Type 0 where
  subscription_type : CallbackEntityType
  timer_type : CallbackEntityType
  service_type : CallbackEntityType
  client_type : CallbackEntityType
  waitable_type : CallbackEntityType

-- `EntityVariant` is the variant of the five pointers, `Member`.
pub record CallbackEntity : Type 0 where
  pub entity : Member
  pub type : CallbackEntityType

-- The five constructors.
pub type_of : Member → CallbackEntityType
type_of (subscription e) = subscription_type
type_of (timer e) = timer_type
type_of (service e) = service_type
type_of (client e) = client_type
type_of (waitable e) = waitable_type

unfoldable pub callback_entity : Member → CallbackEntity
unfolding type_of
callback_entity m = record { entity = m; type = type_of m }

pub get_type : CallbackEntity → CallbackEntityType
get_type e = e.type

pub as_subscription : Member → Option Entity
as_subscription (subscription e) = some e
as_subscription _ = none

pub as_timer : Member → Option Entity
as_timer (timer e) = some e
as_timer _ = none

pub as_service : Member → Option Entity
as_service (service e) = some e
as_service _ = none

pub as_client : Member → Option Entity
as_client (client e) = some e
as_client _ = none

pub as_waitable : Member → Option Entity
as_waitable (waitable e) = some e
as_waitable _ = none

-- The `std::visit` of `get_raw_pointer`.
abbrev pub pointer : Member → ℕ
pointer (subscription e) = e.ptr
pointer (service e) = e.ptr
pointer (client e) = e.ptr
pointer (timer e) = e.ptr
pointer (waitable e) = e.ptr

abbrev pub get_raw_pointer : CallbackEntity → ℕ
get_raw_pointer e = pointer e.entity

-- `operator==`
pub same_entity : CallbackEntity → CallbackEntity → Bool
same_entity a b = get_raw_pointer a == get_raw_pointer b
