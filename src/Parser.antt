-- ===== src/Parser.antt =====
-- include/preemptive_executor/yaml_parser.hpp and src/yaml_parser.cpp: ChainYamlParser. What
-- yaml-cpp does is a parameter; the output to the log is left out.
use preemptive_executor.Common.{
  ℕ, ◌^◌, ◌<◌, ◌≡◌, Bool, true, false, not, ◌||◌, Option, none, some, String, List, [], ◌∷◌, length,
  upsert, if◌then◌else◌, ◌==◌, nat_eq, string_eq, Outcome, ok, err, ◌>>=◌, yaml_load_failed,
  invalid_chain, yaml_exception, empty_chain_name,
}
use preemptive_executor.Common.Action.{Action, resume}
use preemptive_executor.Chains.{UserChain}
pub mod Valid
pub mod Entries
pub mod Bounds
mod Examples

-- What the parser uses of yaml-cpp. `lookup n k` is `n[k]`, a node that `is_defined` says not to
-- exist when the key is missing. A conversion or a load that throws a YAML::Exception is `none`.
pub record Yaml : Type 1 where
  pub Node : Type 0
  pub default_node : Node
  pub load_file : String → Option Node
  pub is_null : Node → Bool
  pub is_map : Node → Bool
  pub is_sequence : Node → Bool
  pub is_scalar : Node → Bool
  pub is_defined : Node → Bool
  pub lookup : Node → String → Node
  pub size : Node → ℕ
  pub entries : Node → List (Node × Node)
  pub as_string : Node → Option String
  pub as_strings : Node → Option (List String)
  pub as_uint32 : Node → Option ℕ
  -- A conversion to a vector has an element for each of the sequence's.
  pub length-as_strings :
      (n : Node) (xs : List String)
      → is_sequence n ≡ true
      → as_strings n ≡ some xs
      → length xs ≡ size n
  pub as_uint32_bound : (n : Node) (k : ℕ) → as_uint32 n ≡ some k → k < 2 ^ 32

module _ (yaml : Yaml) where
  open yaml use {
    Node, default_node, load_file, is_null, is_map, is_sequence, is_scalar, is_defined, lookup,
    size, entries, as_string, as_strings, as_uint32,
  }

  pub record ChainYamlParser : Type 0 where
    pub yaml_node : Node
    pub user_chains : List (String × UserChain)

  abbrev pub new_parser : ChainYamlParser
  new_parser = record { yaml_node = default_node; user_chains = [] }

  loaded : Option Node → Action ChainYamlParser (Unit {0})
  loaded none p = (err yaml_load_failed, p)
  loaded (some n) p = (ok tt, record p { yaml_node = n })

  unfoldable pub load_yaml_file : String → Action ChainYamlParser (Unit {0})
  unfolding loaded
  load_yaml_file new_yaml_file p = loaded (load_file new_yaml_file) p

  -- The conversions, in their order; a YAML::Exception in one of them is caught and thrown anew.
  convert_period : String → List String → ℕ → Option ℕ → Outcome UserChain
  convert_period name callbacks deadline none = err invalid_chain
  convert_period name callbacks deadline (some period) =
      ok (record { chain_name = name; callbacks = callbacks; deadline = deadline; period = period })

  convert_deadline : Node → String → List String → Option ℕ → Outcome UserChain
  unfolding convert_period
  convert_deadline period_node name callbacks none = err invalid_chain
  convert_deadline period_node name callbacks (some deadline) =
      convert_period name callbacks deadline (as_uint32 period_node)

  convert : Node → Node → String → Option (List String) → Outcome UserChain
  unfolding convert_deadline
  convert deadline_node period_node name none = err invalid_chain
  convert deadline_node period_node name (some callbacks) =
      convert_deadline period_node name callbacks (as_uint32 deadline_node)

  read_named : Node → Option String → Outcome UserChain
  unfolding convert
  read_named chain_node none = err yaml_exception
  read_named chain_node (some chain_name) =
      let callbacks_node = lookup chain_node "callbacks" in
      let deadline_node = lookup chain_node "deadline" in
      let period_node = lookup chain_node "period" in
      if chain_name == ""
      then err empty_chain_name
      else (if not (is_map chain_node)
          then err invalid_chain
          else (if not (is_defined callbacks_node)
                || not (is_sequence callbacks_node)
                || size callbacks_node == 0
              then err invalid_chain
              else (if not (is_defined deadline_node) || not (is_scalar deadline_node)
                  then err invalid_chain
                  else (if not (is_defined period_node) || not (is_scalar period_node)
                      then err invalid_chain
                      else convert deadline_node period_node chain_name
                          (as_strings callbacks_node)))))

  -- One turn of the loop up to the chain that it makes.
  unfoldable pub read_chain : Node × Node → Outcome UserChain
  unfolding read_named
  read_chain (key, chain_node) = read_named chain_node (as_string key)

  abbrev pub store : UserChain → ChainYamlParser → ChainYamlParser
  store chain p = record p {
    user_chains = upsert chain.chain_name chain (λ _. chain) p.user_chains;
  }

  -- `return !user_chains.empty()`
  abbrev pub any_chain : ChainYamlParser → Bool
  any_chain p = not (length p.user_chains == 0)

  unfoldable pub parse_entries : List (Node × Node) → Action ChainYamlParser Bool
  unfolding read_chain
  parse_entries [] p = (ok (any_chain p), p)
  parse_entries (e ∷ es) p = resume (λ chain q. parse_entries es (store chain q)) (read_chain e, p)

  unfoldable pub parse : Action ChainYamlParser Bool
  unfolding parse_entries
  parse p =
      let chains_node = lookup p.yaml_node "chains" in
      if is_null p.yaml_node || not (is_map p.yaml_node)
      then (ok false, p)
      else (if not (is_defined chains_node) || not (is_map chains_node)
          then (ok false, p)
          else parse_entries (entries chains_node) p)
