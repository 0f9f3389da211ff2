-- ===== src/Bundles/Recorder.antt =====
-- A middleware for concrete runs of the bundles (src/bundled_subscription.cpp): it keeps a log of what
-- was handled and given back.
use preemptive_executor.Common.{
  ℕ, true, false, Option, none, some, List, ◌∷◌, ◌==◌, nat_eq, ok, refl, Bool-cases, inl, inr,
  if◌then◌else◌,
}
use preemptive_executor.Bundles.{Middleware, TakesReturn, returned, ret_ok}

pub data Call : Type 0 where
  handled : ℕ → Option ℕ → Call
  given_back : ℕ → Option ℕ → Call

-- Subscription 1 is serialized, 2 loans messages, and the takes of 3 fail; messages are number 9.
abbrev pub middleware : Middleware
middleware = record {
  World = List Call;
  Info = ℕ;
  no_info = 0;
  is_serialized = λ s. s == 1;
  can_loan_messages = λ s. s == 2;
  take_loaned = λ s start w. ((ret_ok, some 9, 5), w);
  handle_loaned = λ s msg info w. handled s msg ∷ w;
  return_loaned = λ s msg w. given_back s msg ∷ w;
  create_message = λ s w. (some 9, w);
  take_type_erased = λ s msg w. ((if s == 3 then returned false else returned true, 5), w);
  handle_message = λ s msg info w. handled s msg ∷ w;
  return_message = λ s msg w. (none, given_back s msg ∷ w);
  create_serialized = λ s w. (some 9, w);
  take_serialized = λ s msg w. ((returned true, 5), w);
  handle_serialized = λ s msg info w. handled s msg ∷ w;
  return_serialized = λ s msg w. (none, given_back s msg ∷ w);
  timer_call = λ t w. (ok true, w);
  execute_callback = λ t w. w;
  add_callback_group = λ g n gs. ok tt;
}

-- No take and no call of a timer throws here.
pub takes_return : TakesReturn middleware
takes_return = record {
  of_loaned = λ s msg w. refl;
  of_generic = λ s msg w. elim (Bool-cases (s == 3)) [
    | inl three ↦ rw three refl
    | inr other ↦ rw other refl
  ];
  of_serialized = λ s msg w. refl;
  of_timer = λ t w. (true, refl);
}
