-- ===== src/Bundles/Taken.antt =====
-- What src/bundled_subscription.cpp and src/bundled_timer.cpp hand on.
use preemptive_executor.Common.{
  ℕ, ◌≡◌, refl, subst, Bool, true, false, Option, none, some, if◌then◌else◌, is_some, Bool-cases,
  inl, inr, ap, Outcome, ok, err, map_ok,
}
use preemptive_executor.Bundles.{
  Middleware, Bundle, loaned, generic, serialized, timer, get_raw_handle, unless_null, TakeReturn,
  ret_ok, ret_take_failed, ret_bad_alloc, ret_invalid_argument, ret_error, Taking, returned,
  rcl_error, other_error, escapes, try_take, TakesReturn, take_timer, take_loaned_bundle,
  take_generic_bundle, take_serialized_bundle, take_and_bundle,
}

abbrev is_uncaught_code : TakeReturn → Bool
is_uncaught_code ret_bad_alloc = true
is_uncaught_code ret_invalid_argument = true
is_uncaught_code ret_ok = false
is_uncaught_code ret_take_failed = false
is_uncaught_code ret_error = false

module _ (mw : Middleware) where
  -- The bundle has the class that the subscription calls for, holds a message, and is the
  -- subscription's.
  abbrev pub Fits : ℕ → Bundle mw → Type 0
  Fits s (loaned t msg info) =
      (t ≡ s)
      × (is_some msg ≡ true)
      × (mw.is_serialized s ≡ false)
      × (mw.can_loan_messages s ≡ true)
  Fits s (generic t msg info) =
      (t ≡ s)
      × (is_some msg ≡ true)
      × (mw.is_serialized s ≡ false)
      × (mw.can_loan_messages s ≡ false)
  Fits s (serialized t msg info) = (t ≡ s) × (is_some msg ≡ true) × (mw.is_serialized s ≡ true)
  Fits s (timer t) = ⊥

  FitsIfAny : ℕ → Outcome (Option (Bundle mw)) → Type 0
  FitsIfAny s (err x) = Unit
  FitsIfAny s (ok none) = Unit
  FitsIfAny s (ok (some b)) = Fits s b

  unless_null-Fits :
      (s : ℕ) (taking : Taking) (b : Bundle mw) (msg : Option ℕ)
      → (is_some msg ≡ true → Fits s b)
      → FitsIfAny s (try_take mw taking (unless_null mw b msg))
  unfolding unless_null FitsIfAny
  unless_null-Fits s other_error b msg h = tt
  unless_null-Fits s rcl_error b none h = tt
  unless_null-Fits s rcl_error b (some m) h = h refl
  unless_null-Fits s (returned taken) b none h = tt
  unless_null-Fits s (returned taken) b (some m) h = h refl

  if-Fits :
      (s : ℕ) (c : Bool) (x y : Outcome (Option (Bundle mw)) × mw.World)
      → (c ≡ true → FitsIfAny s x.0)
      → (c ≡ false → FitsIfAny s y.0)
      → FitsIfAny s ((if c then x else y).0)
  if-Fits s true x y f g = f refl
  if-Fits s false x y f g = g refl

  take_and_bundle-Fits :
      (start : Option ℕ) (s : ℕ) (w : mw.World) → FitsIfAny s (take_and_bundle mw start s w).0
  unfolding take_and_bundle take_loaned_bundle take_generic_bundle take_serialized_bundle
  take_and_bundle-Fits start s w =
      if-Fits s (mw.is_serialized s) (take_serialized_bundle mw s w)
        (if mw.can_loan_messages s
          then take_loaned_bundle mw start s w
          else take_generic_bundle mw s w)
        (λ e. unless_null-Fits s _ _ (mw.create_serialized s w).0 λ h. (refl, h, e))
        λ e.
          if-Fits s (mw.can_loan_messages s) (take_loaned_bundle mw start s w)
            (take_generic_bundle mw s w)
            (λ l. unless_null-Fits s _ _ (mw.take_loaned s start w).0.1 λ h. (refl, h, e, l))
            λ l. unless_null-Fits s _ _ (mw.create_message s w).0 λ h. (refl, h, e, l)

  Fits-get_raw_handle : (s : ℕ) (b : Bundle mw) → Fits s b → get_raw_handle mw b ≡ s
  unfolding get_raw_handle
  Fits-get_raw_handle s (loaned t msg info) h = h.0
  Fits-get_raw_handle s (generic t msg info) h = h.0
  Fits-get_raw_handle s (serialized t msg info) h = h.0
  Fits-get_raw_handle s (timer t) h = elim h [ ]

  -- When `take_and_bundle` returns a bundle for the subscription `s`, the bundle is of the class for
  -- a serialized subscription, for one that can loan messages, or for the others, as `s` is; its
  -- subscription, and its raw handle, is `s`; and its message is not null.
  pub take_and_bundle_lem :
      (start : Option ℕ) (s : ℕ) (w w' : mw.World) (b : Bundle mw)
      → take_and_bundle mw start s w ≡ (ok (some b), w')
      → Fits s b × (get_raw_handle mw b ≡ s)
  unfolding FitsIfAny
  take_and_bundle_lem start s w w' b e =
      let f : Fits s b = subst (λ r. FitsIfAny s r.0) e (take_and_bundle-Fits start s w) in
      (f, Fits-get_raw_handle s b f)

  -- The message that a take gives a subscription's bundle, and whether the take throws an exception
  -- that is no RCLError.
  abbrev pub given : Option ℕ → ℕ → mw.World → Option ℕ × Bool
  given start s w =
      let (flat, w₁) = mw.create_serialized s w in
      let (own, w₂) = mw.create_message s w in
      if mw.is_serialized s
      then (flat, escapes (mw.take_serialized s flat w₁).0.0)
      else (if mw.can_loan_messages s
          then ((mw.take_loaned s start w).0.1, is_uncaught_code (mw.take_loaned s start w).0.0)
          else (own, escapes (mw.take_type_erased s own w₂).0.0))

  timer-Returns :
      TakesReturn mw
      → (t : ℕ) (w : mw.World) → (o : Option (Bundle mw)) × ((take_timer mw t w).0 ≡ ok o)
  unfolding take_timer
  timer-Returns q t w = let (b, e) = q.of_timer t w in (_, ap (map_ok _) e)

  tried :
      {A : Type 0} (taking : Taking) (a : A) → escapes taking ≡ false → try_take mw taking a ≡ ok a
  tried (returned b) a h = refl
  tried rcl_error a h = refl
  tried other_error a h = cc

  -- When no take throws past `try_take`, `take_and_bundle` returns.
  pub take_and_bundle-Returns :
      TakesReturn mw
      → (start : Option ℕ) (s : ℕ) (w : mw.World)
      → (o : Option (Bundle mw)) × ((take_and_bundle mw start s w).0 ≡ ok o)
  unfolding take_and_bundle take_loaned_bundle take_generic_bundle take_serialized_bundle
  take_and_bundle-Returns q start s w = elim (Bool-cases (mw.is_serialized s)) [
    | inl flat ↦ rw flat (_, tried _ _ (q.of_serialized s _ _))
    | inr other ↦ elim (Bool-cases (mw.can_loan_messages s)) [
      | inl loan ↦ rw (other, loan) (_, tried _ _ (q.of_loaned s start w))
      | inr own ↦ rw (other, own) (_, tried _ _ (q.of_generic s _ _))
    ]
  ]
