-- ===== src/Strategy/Counts.antt =====
-- The six counts, for the sizes of the wait set, in `size_t`. What a waitable reports is a parameter.
use preemptive_executor.Common.{
  ℕ, ◌+◌, ◌%◌, ◌^◌, ◌<◌, ◌≡◌, true, Option, none, some, List, [], ◌∷◌, map, arith, length, sum, All,
  is_some, Outcome, ok, err, null_dereference,
}
use preemptive_executor.Strategy.{Strategy}
use preemptive_executor.Strategy.Waiting.{addresses}

-- `get_number_of_ready_...()` of the waitable at an address.
pub record Reports : Type 0 where
  pub subscriptions : ℕ → ℕ
  pub services : ℕ → ℕ
  pub events : ℕ → ℕ
  pub clients : ℕ → ℕ
  pub guard_conditions : ℕ → ℕ
  pub timers : ℕ → ℕ

-- The loop over the waitables.
pub add_reports : (ℕ → ℕ) → List (Option ℕ) → ℕ → Outcome ℕ
add_reports report [] n = ok n
add_reports report (none ∷ ws) n = err null_dereference
add_reports report (some w ∷ ws) n = add_reports report ws ((n + report w) % 2 ^ 64)

pub number_of_ready_subscriptions : Reports → Strategy → Outcome ℕ
unfolding add_reports
number_of_ready_subscriptions r s =
    add_reports r.subscriptions s.waitable_handles (length s.subscription_handles)

pub number_of_ready_services : Reports → Strategy → Outcome ℕ
unfolding add_reports
number_of_ready_services r s = add_reports r.services s.waitable_handles (length s.service_handles)

pub number_of_ready_events : Reports → Strategy → Outcome ℕ
unfolding add_reports
number_of_ready_events r s = add_reports r.events s.waitable_handles 0

pub number_of_ready_clients : Reports → Strategy → Outcome ℕ
unfolding add_reports
number_of_ready_clients r s = add_reports r.clients s.waitable_handles (length s.client_handles)

pub number_of_guard_conditions : Reports → Strategy → Outcome ℕ
unfolding add_reports
number_of_guard_conditions r s =
    add_reports r.guard_conditions s.waitable_handles (length s.guard_conditions)

pub number_of_ready_timers : Reports → Strategy → Outcome ℕ
unfolding add_reports
number_of_ready_timers r s = add_reports r.timers s.waitable_handles (length s.timer_handles)

add_reports_lem :
    (report : ℕ → ℕ) (ws : List (Option ℕ)) (n : ℕ)
    → n < 2 ^ 64
    → All (λ w. is_some w ≡ true) ws
    → add_reports report ws n ≡ ok ((n + sum (map report (addresses ws))) % 2 ^ 64)
unfolding add_reports
add_reports_lem report [] n h a = ground arith
add_reports_lem report (none ∷ ws) n h a = cc a.0
add_reports_lem report (some w ∷ ws) n h a =
    ground (arith, add_reports_lem report ws ((n + report w) % 2 ^ 64))

-- The vectors' sizes are values of `size_t`.
pub record Fits (s : Strategy) : Type 0 where
  pub subscriptions : length s.subscription_handles < 2 ^ 64
  pub services : length s.service_handles < 2 ^ 64
  pub clients : length s.client_handles < 2 ^ 64
  pub guard_conditions : length s.guard_conditions < 2 ^ 64
  pub timers : length s.timer_handles < 2 ^ 64

-- What the waitables report of one kind, in all.
abbrev pub reported : (ℕ → ℕ) → Strategy → ℕ
reported report s = sum (map report (addresses s.waitable_handles))

-- With no null waitable each count returns the size of its vector (for events: 0) plus what all
-- waitables report of that kind, modulo 2 ^ 64.
pub number_of_ready_lem :
    (r : Reports) (s : Strategy)
    → Fits s
    → All (λ w. is_some w ≡ true) s.waitable_handles
    → (number_of_ready_subscriptions r s
        ≡ ok ((length s.subscription_handles + reported r.subscriptions s) % 2 ^ 64))
      × (number_of_ready_services r s
          ≡ ok ((length s.service_handles + reported r.services s) % 2 ^ 64))
      × (number_of_ready_events r s ≡ ok ((reported r.events s) % 2 ^ 64))
      × (number_of_ready_clients r s
          ≡ ok ((length s.client_handles + reported r.clients s) % 2 ^ 64))
      × (number_of_guard_conditions r s
          ≡ ok ((length s.guard_conditions + reported r.guard_conditions s) % 2 ^ 64))
      × (number_of_ready_timers r s ≡ ok ((length s.timer_handles + reported r.timers s) % 2 ^ 64))
unfolding number_of_ready_subscriptions number_of_ready_services number_of_ready_events
    number_of_ready_clients number_of_guard_conditions number_of_ready_timers
number_of_ready_lem r s f a = (
  add_reports_lem r.subscriptions s.waitable_handles (length s.subscription_handles) f.subscriptions
      a,
  add_reports_lem r.services s.waitable_handles (length s.service_handles) f.services a,
  ground (arith, add_reports_lem r.events s.waitable_handles 0 (omega arith) a),
  add_reports_lem r.clients s.waitable_handles (length s.client_handles) f.clients a,
  add_reports_lem r.guard_conditions s.waitable_handles (length s.guard_conditions)
      f.guard_conditions a,
  add_reports_lem r.timers s.waitable_handles (length s.timer_handles) f.timers a,
)
