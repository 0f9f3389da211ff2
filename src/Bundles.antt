-- ===== src/Bundles.antt =====
-- src/bundled_subscription.cpp, src/bundled_timer.cpp and their headers: a ready subscription or
-- timer with its message, as a value that a worker runs. What rclcpp and rcl do is a parameter; a
-- subscription or a timer is its address, and so is a message. The output to the log is left out, and
-- so are exceptions of the functions that create, handle or return a message and of the callbacks.
use preemptive_executor.Common.{
  ℕ, ◌≡◌, Bool, true, false, Option, none, some, if◌then◌else◌, List, Outcome, ok, err, map_ok,
  rclcpp_exception,
}
use preemptive_executor.Ros.{Group}
pub mod Taken
pub mod Recorder
mod Examples

-- The return code of rcl_take_loaned_message; `ret_error` stands for every code that is not listed.
pub data TakeReturn : Type 0 where
  ret_ok : TakeReturn
  ret_take_failed : TakeReturn
  ret_bad_alloc : TakeReturn
  ret_invalid_argument : TakeReturn
  ret_error : TakeReturn

-- How a take ends: it returns a truth value, throws an RCLError, or throws an exception of another
-- class.
pub data Taking : Type 0 where
  returned : Bool → Taking
  rcl_error : Taking
  other_error : Taking

-- The end of the lambda that takes a loaned message. `throw_from_rcl_error` throws an RCLBadAlloc and
-- an RCLInvalidArgument for these two codes, which are no RCLError, and an RCLError for the others.
abbrev pub loaned_taking : TakeReturn → Taking
loaned_taking ret_ok = returned true
loaned_taking ret_take_failed = returned false
loaned_taking ret_bad_alloc = other_error
loaned_taking ret_invalid_argument = other_error
loaned_taking ret_error = rcl_error

-- Whether the exception is of a class that is not caught.
abbrev pub escapes : Taking → Bool
escapes (returned taken) = false
escapes rcl_error = false
escapes other_error = true

-- What the bundles and the executor use of rclcpp and rcl, on a state `World` of their own. A
-- function that writes through a pointer returns what it leaves there. `timer_call` throws when rcl
-- cannot call the timer; `add_callback_group` adds a group and its node to an executor that has these
-- already, or throws.
pub record Middleware : Type 1 where
  pub World : Type 0
  pub Info : Type 0
  pub no_info : Info  -- with from_intra_process set to false
  pub is_serialized : ℕ → Bool
  pub can_loan_messages : ℕ → Bool
  pub take_loaned : ℕ → Option ℕ → World → (TakeReturn × Option ℕ × Info) × World
  pub handle_loaned : ℕ → Option ℕ → Info → World → World
  pub return_loaned : ℕ → Option ℕ → World → World
  pub create_message : ℕ → World → Option ℕ × World
  pub take_type_erased : ℕ → Option ℕ → World → (Taking × Info) × World
  pub handle_message : ℕ → Option ℕ → Info → World → World
  pub return_message : ℕ → Option ℕ → World → Option ℕ × World
  pub create_serialized : ℕ → World → Option ℕ × World
  pub take_serialized : ℕ → Option ℕ → World → (Taking × Info) × World
  pub handle_serialized : ℕ → Option ℕ → Info → World → World
  pub return_serialized : ℕ → Option ℕ → World → Option ℕ × World
  pub timer_call : ℕ → World → Outcome Bool × World
  pub execute_callback : ℕ → World → World
  pub add_callback_group : Group → ℕ → List (Group × ℕ) → Outcome (Unit {0})

module _ (mw : Middleware) where
  open mw use {World, Info}

  -- The classes behind BundledExecutable, with their members.
  pub data Bundle : Type 0 where
    loaned : ℕ → Option ℕ → Info → Bundle
    generic : ℕ → Option ℕ → Info → Bundle
    serialized : ℕ → Option ℕ → Info → Bundle
    timer : ℕ → Bundle

  unfoldable pub get_raw_handle : Bundle → ℕ
  get_raw_handle (loaned subscription msg info) = subscription
  get_raw_handle (generic subscription msg info) = subscription
  get_raw_handle (serialized subscription msg info) = subscription
  get_raw_handle (timer t) = t

  -- `try_take` drops the value that the take returns, and catches and logs an RCLError; what stands
  -- behind it is then evaluated. Another exception leaves it.
  abbrev pub try_take {ℓ} : {A : Type ℓ} → Taking → A → Outcome A
  try_take (returned taken) rest = ok rest
  try_take rcl_error rest = ok rest
  try_take other_error rest = err rclcpp_exception

  unfoldable pub unless_null : Bundle → Option ℕ → Option Bundle
  unless_null b none = none
  unless_null b (some msg) = some b

  -- LoanedMsgSubscription::take_and_bundle. The constructor leaves `loaned_msg` as it is: its value
  -- is the argument `loaned_msg`.
  unfoldable pub take_loaned_bundle : Option ℕ → ℕ → World → Outcome (Option Bundle) × World
  unfolding unless_null
  take_loaned_bundle loaned_msg subscription w =
      let ((ret, msg, info), w₁) = mw.take_loaned subscription loaned_msg w in
      (try_take (loaned_taking ret) (unless_null (loaned subscription msg info) msg), w₁)

  -- GenericMsgSubscription::take_and_bundle
  unfoldable pub take_generic_bundle : ℕ → World → Outcome (Option Bundle) × World
  unfolding unless_null
  take_generic_bundle subscription w =
      let (message, w₁) = mw.create_message subscription w in
      let ((taking, info), w₂) = mw.take_type_erased subscription message w₁ in
      (try_take taking (unless_null (generic subscription message info) message), w₂)

  unfoldable pub take_serialized_bundle : ℕ → World → Outcome (Option Bundle) × World
  unfolding unless_null
  take_serialized_bundle subscription w =
      let (message, w₁) = mw.create_serialized subscription w in
      let ((taking, info), w₂) = mw.take_serialized subscription message w₁ in
      (try_take taking (unless_null (serialized subscription message info) message), w₂)

  unfoldable pub take_and_bundle : Option ℕ → ℕ → World → Outcome (Option Bundle) × World
  unfolding take_loaned_bundle take_generic_bundle take_serialized_bundle
  take_and_bundle loaned_msg subscription w =
      if mw.is_serialized subscription
      then take_serialized_bundle subscription w
      else (if mw.can_loan_messages subscription
          then take_loaned_bundle loaned_msg subscription w
          else take_generic_bundle subscription w)

  -- BundledTimer::take_and_bundle
  unfoldable pub take_timer : ℕ → World → Outcome (Option Bundle) × World
  take_timer t w =
      let (called, w₁) = mw.timer_call t w in
      (map_ok (λ c. if c then some (timer t) else none) called, w₁)

  -- The `run` of the four classes, and the bundle as it leaves it. A null message is logged, and
  -- handled all the same; so is a failure to return the loaned message.
  unfoldable pub run : Bundle → World → Bundle × World
  run (loaned s msg info) w =
      (loaned s none info, mw.return_loaned s msg (mw.handle_loaned s msg info w))
  run (generic s msg info) w =
      let (left, w₁) = mw.return_message s msg (mw.handle_message s msg info w) in
      (generic s left info, w₁)
  run (serialized s msg info) w =
      let (left, w₁) = mw.return_serialized s msg (mw.handle_serialized s msg info w) in
      (serialized s left info, w₁)
  run (timer t) w = (timer t, mw.execute_callback t w)

  -- That no take and no call of a timer throws past `try_take`.
  pub record TakesReturn : Type 0 where
    pub of_loaned :
        (s : ℕ) (msg : Option ℕ) (w : World)
        → escapes (loaned_taking (mw.take_loaned s msg w).0.0) ≡ false
    pub of_generic :
        (s : ℕ) (msg : Option ℕ) (w : World) → escapes (mw.take_type_erased s msg w).0.0 ≡ false
    pub of_serialized :
        (s : ℕ) (msg : Option ℕ) (w : World) → escapes (mw.take_serialized s msg w).0.0 ≡ false
    pub of_timer : (t : ℕ) (w : World) → (b : Bool) × ((mw.timer_call t w).0 ≡ ok b)
