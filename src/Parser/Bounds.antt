-- ===== src/Parser/Bounds.antt =====
-- The parser's chains (src/yaml_parser.cpp) are what the registry's constructor
-- (src/callback_registry.cpp) needs: it never reads past the end of a chain's callbacks.
use preemptive_executor.Common.{◌≤◌, ◌≡◌, true, String, List, [], ◌∷◌, length, map, All, ok}
use preemptive_executor.Chains.{UserChain}
use preemptive_executor.Registry.Build.{Adjacency, add_chains}
use preemptive_executor.Registry.Build.Total.{add_chains-ok}
use preemptive_executor.Parser.{Yaml, ChainYamlParser, parse}
use preemptive_executor.Parser.Valid.{IsStored, parse_success}

chains_with_callbacks :
    (es : List (String × UserChain))
    → All IsStored es
    → All (λ (c : UserChain). 1 ≤ length c.callbacks) (map (λ e. e.1) es)
chains_with_callbacks [] h = tt
chains_with_callbacks ((k, c) ∷ es) (h, hs) = (h.1.1, chains_with_callbacks es hs)

-- When `parse` has returned true, from a parser whose stored chains are sound, the registry's loop
-- over the stored chains, from any adjacency list, ends without reading out of bounds.
pub parsed_chains_accepted :
    (yaml : Yaml) (p q : ChainYamlParser yaml) (m : Adjacency)
    → All IsStored p.user_chains
    → parse yaml p ≡ (ok true, q)
    → (n : Adjacency) × (add_chains (map (λ e. e.1) q.user_chains) m ≡ ok n)
parsed_chains_accepted yaml p q m h e =
    add_chains-ok (map (λ e. e.1) q.user_chains) m
      (chains_with_callbacks q.user_chains (parse_success yaml p q h e).0)
