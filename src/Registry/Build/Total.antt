-- ===== src/Registry/Build/Total.antt =====
-- When the constructor's loop over the chains (src/callback_registry.cpp) stays inside the arrays.
use preemptive_executor.Common.{◌≤◌, ◌≡◌, refl, String, List, [], ◌∷◌, length, All, ok, arith}
use preemptive_executor.Chains.{UserChain}
use preemptive_executor.Registry.Build.{Adjacency, add_callbacks, add_chains}

add_callbacks-ok :
    (c : UserChain) (xs : List String) (m : Adjacency)
    → 1 ≤ length xs
    → (n : Adjacency) × (add_callbacks c xs m ≡ ok n)
unfolding add_callbacks
add_callbacks-ok c [] m h = ground (arith, h)
add_callbacks-ok c (x ∷ []) m h = (_, refl)
add_callbacks-ok c (x ∷ y ∷ xs) m h = (_, refl)

pub add_chains-ok :
    (cs : List UserChain) (m : Adjacency)
    → All (λ (c : UserChain). 1 ≤ length c.callbacks) cs
    → (n : Adjacency) × (add_chains cs m ≡ ok n)
unfolding add_chains
add_chains-ok [] m h = (m, refl)
add_chains-ok (c ∷ cs) m (h, hs) =
    let (n, e) = add_callbacks-ok c c.callbacks m h in
    let (n', e') = add_chains-ok cs n hs in (n', rw e e')
