-- ===== src/Strategy/Nulls.antt =====
-- `remove_null_handles`. The arrays of the `rcl_wait_set_t` are lists: a read behind the end of one,
-- and `is_ready` on a null waitable, are undefined behaviour.
use preemptive_executor.Common.{
  ℕ, ◌≤◌, Bool, true, ◌&&◌, ◌≡◌, refl, Option, none, some, List, [], ◌∷◌, map, arith, if◌then◌else◌,
  length, keep, zip, All, is_some, Outcome, ok, err, map_ok, out_of_bounds, null_dereference, ◌>>=◌,
}
use preemptive_executor.Strategy.{Strategy}

pub record WaitSet : Type 0 where
  pub subscriptions : List (Option ℕ)
  pub services : List (Option ℕ)
  pub clients : List (Option ℕ)
  pub timers : List (Option ℕ)

-- The loop over one array: handle `i` is reset where slot `i` is null.
reset_unready : List (Option ℕ) → List (Option ℕ) → Outcome (List (Option ℕ))
reset_unready slots [] = ok []
reset_unready [] (h ∷ hs) = err out_of_bounds
reset_unready (slot ∷ slots) (h ∷ hs) =
    map_ok (λ rest. (if is_some slot then h else none) ∷ rest) (reset_unready slots hs)

-- The loop over the waitables, which asks each whether it is ready.
reset_waitables : (ℕ → Bool) → List (Option ℕ) → Outcome (List (Option ℕ))
reset_waitables is_ready [] = ok []
reset_waitables is_ready (none ∷ ws) = err null_dereference
reset_waitables is_ready (some w ∷ ws) =
    map_ok (λ rest. (if is_ready w then some w else none) ∷ rest) (reset_waitables is_ready ws)

-- `erase(std::remove(..., nullptr), ...)`
erase_nulls : List (Option ℕ) → List (Option ℕ)
erase_nulls hs = keep is_some hs

pub remove_null_handles : (ℕ → Bool) → WaitSet → Strategy → Outcome Strategy
unfolding reset_unready reset_waitables erase_nulls
remove_null_handles is_ready ws s = do
  subscriptions ← reset_unready ws.subscriptions s.subscription_handles
  services ← reset_unready ws.services s.service_handles
  clients ← reset_unready ws.clients s.client_handles
  timers ← reset_unready ws.timers s.timer_handles
  waitables ← reset_waitables is_ready s.waitable_handles
  ok (record s {
    subscription_handles = erase_nulls subscriptions;
    service_handles = erase_nulls services;
    client_handles = erase_nulls clients;
    timer_handles = erase_nulls timers;
    waitable_handles = erase_nulls waitables;
  })

-- The handles, null ones left out, that stand beside a slot that is not null.
abbrev pub beside_ready : List (Option ℕ) → List (Option ℕ) → List (Option ℕ)
beside_ready slots hs =
    map (λ (p : Option ℕ × Option ℕ). p.1)
      (keep (λ (p : Option ℕ × Option ℕ). is_some p.0 && is_some p.1) (zip slots hs))

abbrev pub is_ready_waitable : (ℕ → Bool) → Option ℕ → Bool
is_ready_waitable is_ready none = true
is_ready_waitable is_ready (some w) = is_ready w

-- Each array has a slot for each handle, and no waitable is null.
pub record IsReadable (ws : WaitSet) (s : Strategy) : Type 0 where
  pub subscriptions : length s.subscription_handles ≤ length ws.subscriptions
  pub services : length s.service_handles ≤ length ws.services
  pub clients : length s.client_handles ≤ length ws.clients
  pub timers : length s.timer_handles ≤ length ws.timers
  pub waitables : All (λ w. is_some w ≡ true) s.waitable_handles

reset_unready_lem :
    (slots hs : List (Option ℕ))
    → length hs ≤ length slots
    → map_ok erase_nulls (reset_unready slots hs) ≡ ok (beside_ready slots hs)
unfolding reset_unready erase_nulls
reset_unready_lem [] [] h = refl
reset_unready_lem (slot ∷ slots) [] h = refl
reset_unready_lem [] (x ∷ hs) h = absurd (omega arith)
reset_unready_lem (slot ∷ slots) (x ∷ hs) h = ground (arith, reset_unready_lem slots hs)

reset_waitables_lem :
    (is_ready : ℕ → Bool) (ws : List (Option ℕ))
    → All (λ w. is_some w ≡ true) ws
    → map_ok erase_nulls (reset_waitables is_ready ws) ≡ ok (keep (is_ready_waitable is_ready) ws)
unfolding reset_waitables erase_nulls
reset_waitables_lem is_ready [] h = refl
reset_waitables_lem is_ready (none ∷ ws) h = cc h.0
reset_waitables_lem is_ready (some w ∷ ws) h = ground (arith, reset_waitables_lem is_ready ws h.1)

-- With a slot for each handle and no null waitable, `remove_null_handles` returns: it keeps, in
-- order, exactly the handles that are not null and stand beside a slot that is not null, and the
-- waitables that are ready; the guard conditions stay.
pub remove_null_handles_lem :
    (is_ready : ℕ → Bool) (ws : WaitSet) (s : Strategy)
    → IsReadable ws s
    → remove_null_handles is_ready ws s
      ≡ ok (record s {
        subscription_handles = beside_ready ws.subscriptions s.subscription_handles;
        service_handles = beside_ready ws.services s.service_handles;
        client_handles = beside_ready ws.clients s.client_handles;
        timer_handles = beside_ready ws.timers s.timer_handles;
        waitable_handles = keep (is_ready_waitable is_ready) s.waitable_handles;
      })
unfolding remove_null_handles
remove_null_handles_lem is_ready ws s r = ground (
  arith,
  reset_unready_lem ws.subscriptions s.subscription_handles r.subscriptions,
  reset_unready_lem ws.services s.service_handles r.services,
  reset_unready_lem ws.clients s.client_handles r.clients,
  reset_unready_lem ws.timers s.timer_handles r.timers,
  reset_waitables_lem is_ready s.waitable_handles r.waitables,
)
