-- ===== src/Strategy/Waiting.antt =====
-- `add_handles_to_wait_set`. rcl's wait set and what its functions do to it are parameters.
use preemptive_executor.Common.{
  ℕ, Bool, true, false, ◌≡◌, refl, Option, none, some, List, [], ◌∷◌, ◌++◌, map, All, is_some,
  Outcome, ok, err, null_dereference, ◌>>=◌,
}
use mathlib.Core.Path.{fun_ext}
use preemptive_executor.Strategy.{Strategy}

-- `rcl_wait_set_add_*` return whether the answer is RCL_RET_OK, and the wait set that they leave.
-- rclcpp's functions for a guard condition and a waitable return nothing, and may throw: what a wait
-- set holds after a throw is left open.
pub record WaitSetApi : Type 1 where
  pub W : Type 0
  pub add_subscription : Option ℕ → W → Bool × W
  pub add_client : Option ℕ → W → Bool × W
  pub add_service : Option ℕ → W → Bool × W
  pub add_timer : Option ℕ → W → Bool × W
  pub add_guard_condition : ℕ → W → Outcome W
  pub add_waitable : ℕ → W → Outcome W

abbrev pub and_then {ℓ} : {W : Type ℓ} → Bool × W → (W → Bool × W) → Bool × W
and_then (true, w) k = k w
and_then (false, w) k = (false, w)

and_then_assoc {ℓ} :
    {W : Type ℓ} (x : Bool × W) (f g k : W → Bool × W)
    → ((w : W) → k w ≡ and_then (f w) g)
    → and_then x k ≡ and_then (and_then x f) g
and_then_assoc (true, w) f g k h = h w
and_then_assoc (false, w) f g k h = refl

-- The waitables' addresses.
abbrev pub addresses : List (Option ℕ) → List ℕ
addresses [] = []
addresses (none ∷ hs) = addresses hs
addresses (some h ∷ hs) = h ∷ addresses hs

module _ (api : WaitSetApi) where
  open api use {
    W, add_subscription, add_client, add_service, add_timer, add_guard_condition, add_waitable,
  }

  -- One of the four loops: the first refusal ends the function.
  add_each : (Option ℕ → W → Bool × W) → List (Option ℕ) → W → Bool × W
  add_each add [] w = (true, w)
  add_each add (h ∷ hs) w = and_then (add h w) (add_each add hs)

  add_waitables : List (Option ℕ) → W → Outcome W
  add_waitables [] w = ok w
  add_waitables (none ∷ hs) w = err null_dereference
  add_waitables (some h ∷ hs) w = add_waitable h w >>= add_waitables hs

  add_guard_conditions : List ℕ → W → Outcome W
  add_guard_conditions [] w = ok w
  add_guard_conditions (g ∷ gs) w = add_guard_condition g w >>= add_guard_conditions gs

  -- What follows the four loops.
  add_rest : Strategy → Bool × W → Outcome (Bool × W)
  unfolding add_guard_conditions add_waitables
  add_rest s (false, w) = ok (false, w)
  add_rest s (true, w) = do
    v ← add_guard_conditions s.guard_conditions w
    w' ← add_waitables s.waitable_handles v
    ok (true, w')

  pub add_handles_to_wait_set : Strategy → W → Outcome (Bool × W)
  unfolding add_each add_rest
  add_handles_to_wait_set s w = add_rest s (
      and_then
        (and_then
          (and_then (add_each add_subscription s.subscription_handles w)
            (add_each add_client s.client_handles))
          (add_each add_service s.service_handles))
        (add_each add_timer s.timer_handles))

  -- The requests that may be refused, as data, and one loop that makes them.
  pub data Request : Type 0 where
    want_subscription : Option ℕ → Request
    want_client : Option ℕ → Request
    want_service : Option ℕ → Request
    want_timer : Option ℕ → Request

  abbrev pub perform : Request → W → Bool × W
  perform (want_subscription h) = add_subscription h
  perform (want_client h) = add_client h
  perform (want_service h) = add_service h
  perform (want_timer h) = add_timer h

  abbrev pub perform_all : List Request → W → Bool × W
  perform_all [] w = (true, w)
  perform_all (r ∷ rs) w = and_then (perform r w) (perform_all rs)

  abbrev pub plan : Strategy → List Request
  plan s =
      ((map want_subscription s.subscription_handles ++ map want_client s.client_handles)
        ++ map want_service s.service_handles)
      ++ map want_timer s.timer_handles

  perform_all-append :
      (rs ss : List Request) (w : W)
      → perform_all (rs ++ ss) w ≡ and_then (perform_all rs w) (perform_all ss)
  perform_all-append [] ss w = refl
  perform_all-append (r ∷ rs) ss w =
      and_then_assoc (perform r w) (perform_all rs) (perform_all ss) (perform_all (rs ++ ss))
        (perform_all-append rs ss)

  add_each_lem :
      (want : Option ℕ → Request) (add : Option ℕ → W → Bool × W)
      → ((h : Option ℕ) → perform (want h) ≡ add h)
      → (hs : List (Option ℕ)) (w : W) → add_each add hs w ≡ perform_all (map want hs) w
  unfolding add_each
  add_each_lem want add same [] w = refl
  add_each_lem want add same (h ∷ hs) w = rw (same h, fun_ext (add_each_lem want add same hs))

  -- The four loops in a row are one loop over the plan.
  add_handles-plan :
      (s : Strategy) (w : W) → add_handles_to_wait_set s w ≡ add_rest s (perform_all (plan s) w)
  unfolding add_handles_to_wait_set
  add_handles-plan s w = rw (
    perform_all-append
        ((map want_subscription s.subscription_handles ++ map want_client s.client_handles)
          ++ map want_service s.service_handles)
        (map want_timer s.timer_handles) w,
    perform_all-append
        (map want_subscription s.subscription_handles ++ map want_client s.client_handles)
        (map want_service s.service_handles) w,
    perform_all-append (map want_subscription s.subscription_handles)
        (map want_client s.client_handles) w,
    add_each_lem want_subscription add_subscription (λ h. refl) s.subscription_handles w,
    fun_ext (add_each_lem want_client add_client (λ h. refl) s.client_handles),
    fun_ext (add_each_lem want_service add_service (λ h. refl) s.service_handles),
    fun_ext (add_each_lem want_timer add_timer (λ h. refl) s.timer_handles),
  )

  -- The additions one after the other: none throws, and they lead from one wait set to the other.
  abbrev pub AddsEach : (ℕ → W → Outcome W) → List ℕ → W → W → Type 0
  AddsEach add [] w w' = w ≡ w'
  AddsEach add (x ∷ xs) w w' = (v : W) × (add x w ≡ ok v) × AddsEach add xs v w'

  add_guard_conditions_lem :
      (gs : List ℕ) (w w' : W)
      → AddsEach add_guard_condition gs w w'
      → add_guard_conditions gs w ≡ ok w'
  unfolding add_guard_conditions
  add_guard_conditions_lem [] w w' h = rw h refl
  add_guard_conditions_lem (g ∷ gs) w w' (v, e, h) = rw e (add_guard_conditions_lem gs v w' h)

  add_waitables_lem :
      (hs : List (Option ℕ)) (w w' : W)
      → All (λ h. is_some h ≡ true) hs
      → AddsEach add_waitable (addresses hs) w w'
      → add_waitables hs w ≡ ok w'
  unfolding add_waitables
  add_waitables_lem [] w w' a h = rw h refl
  add_waitables_lem (none ∷ hs) w w' a h = cc a.0
  add_waitables_lem (some x ∷ hs) w w' a (v, e, h) = rw e (add_waitables_lem hs v w' a.1 h)

  -- When rcl accepts every subscription, client, service and timer, in this order, no waitable is
  -- null, and then neither the addition of a guard condition nor that of a waitable throws,
  -- `add_handles_to_wait_set` returns true, and the guard conditions and after them the waitables
  -- have been added to the wait set, each once and in the order of their vector.
  pub add_handles_accepted :
      (s : Strategy) (w w₁ w₂ w₃ : W)
      → perform_all (plan s) w ≡ (true, w₁)
      → All (λ h. is_some h ≡ true) s.waitable_handles
      → AddsEach add_guard_condition s.guard_conditions w₁ w₂
      → AddsEach add_waitable (addresses s.waitable_handles) w₂ w₃
      → add_handles_to_wait_set s w ≡ ok (true, w₃)
  unfolding add_rest
  add_handles_accepted s w w₁ w₂ w₃ e a gs hs = rw (
    add_handles-plan s w,
    e,
    add_guard_conditions_lem s.guard_conditions w₁ w₂ gs,
    add_waitables_lem s.waitable_handles w₂ w₃ a hs,
  )

  -- When rcl refuses a request, after accepting those before it, `add_handles_to_wait_set` returns
  -- false and has made no later request: the wait set is as that request left it.
  pub add_handles_refused :
      (s : Strategy) (w w₁ w₂ : W) (before after : List Request) (r : Request)
      → plan s ≡ before ++ r ∷ after
      → perform_all before w ≡ (true, w₁)
      → perform r w₁ ≡ (false, w₂)
      → add_handles_to_wait_set s w ≡ ok (false, w₂)
  unfolding add_rest
  add_handles_refused s w w₁ w₂ before after r split accepted refused =
      rw (add_handles-plan s w, split, perform_all-append before (r ∷ after) w, accepted, refused)
