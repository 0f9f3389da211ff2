-- ===== src/Bundles/Examples.antt =====
-- Bundles (src/bundled_subscription.cpp) over a middleware that keeps a log, and the theorems there.
use preemptive_executor.Common.{◌≡◌, refl, none, some, [], ◌∷◌, nat_eq, ok}
use preemptive_executor.Bundles.{loaned, generic, get_raw_handle, take_and_bundle, run}
use preemptive_executor.Bundles.Recorder.{handled, given_back, middleware}
use preemptive_executor.Bundles.Taken.{Fits, take_and_bundle_lem}

-- The take of subscription 3 returns false, and its message is handed on and handled.
untaken_runs : take_and_bundle middleware none 3 [] ≡ (ok (some (generic 3 (some 9) 5)), [])
unfolding take_and_bundle
untaken_runs = refl

untaken_is_handled :
    run middleware (generic 3 (some 9) 5) []
    ≡ (generic 3 none 5, given_back 3 (some 9) ∷ handled 3 (some 9) ∷ [])
unfolding run
untaken_is_handled = refl

-- A second `run` hands a null message to the callback.
second_run :
    run middleware (run middleware (loaned 2 (some 9) 5) []).0 []
    ≡ (loaned 2 none 5, given_back 2 none ∷ handled 2 none ∷ [])
unfolding run
second_run = refl

loan_is_taken : take_and_bundle middleware none 2 [] ≡ (ok (some (loaned 2 (some 9) 5)), [])
unfolding take_and_bundle
loan_is_taken = refl

take_and_bundle_example :
    Fits middleware 2 (loaned 2 (some 9) 5) × (get_raw_handle middleware (loaned 2 (some 9) 5) ≡ 2)
take_and_bundle_example =
    take_and_bundle_lem middleware none 2 [] [] (loaned 2 (some 9) 5) loan_is_taken
