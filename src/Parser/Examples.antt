-- ===== src/Parser/Examples.antt =====
-- The parser (src/yaml_parser.cpp) on concrete files, and its theorems at them.
use preemptive_executor.Common.{
  ℕ, ◌^◌, ◌<◌, ◌≤◌, ◌≡◌, refl, Bool, true, false, Option, none, some, String, List, [], ◌∷◌, length,
  map, All, if◌then◌else◌, ltb, ◌==◌, string_eq, ok, err, invalid_chain, yaml_load_failed, arith,
}
use preemptive_executor.Chains.{UserChain}
use preemptive_executor.Registry.Build.{Adjacency, add_chains}
use preemptive_executor.Parser.{
  Yaml, ChainYamlParser, new_parser, load_yaml_file, read_chain, parse, parse_entries,
}
use preemptive_executor.Parser.Valid.{IsStored, parse_success, parse_failure}
use preemptive_executor.Parser.Entries.{HasChains, Holds, parse_complete, parse_stops}
use preemptive_executor.Parser.Bounds.{parsed_chains_accepted}

record Chain : Type 0 where
  callbacks : List String
  deadline : ℕ
  period : ℕ

-- The documents that these files hold, and the nodes in them.
data Node : Type 0 where
  missing : Node
  name : String → Node
  number : ℕ → Node
  names : List String → Node
  chain : Chain → Node
  section : List (String × Chain) → Node
  file : List (String × Chain) → Node

abbrev is_map : Node → Bool
is_map (chain c) = true
is_map (section cs) = true
is_map (file cs) = true
is_map _ = false

abbrev is_sequence : Node → Bool
is_sequence (names xs) = true
is_sequence _ = false

abbrev is_scalar : Node → Bool
is_scalar (name s) = true
is_scalar (number k) = true
is_scalar _ = false

abbrev is_defined : Node → Bool
is_defined missing = false
is_defined _ = true

abbrev lookup : Node → String → Node
lookup (file cs) k = if k == "chains" then section cs else missing
lookup (chain c) k =
    if k == "callbacks"
    then names c.callbacks
    else (if k == "deadline"
        then number c.deadline
        else (if k == "period" then number c.period else missing))
lookup _ k = missing

abbrev size : Node → ℕ
size (names xs) = length xs
size _ = 0

abbrev entries : Node → List (Node × Node)
entries (section cs) = map (λ e. (name e.0, chain e.1)) cs
entries _ = []

abbrev as_string : Node → Option String
as_string (name s) = some s
as_string _ = none

abbrev as_strings : Node → Option (List String)
as_strings (names xs) = some xs
as_strings _ = none

abbrev as_uint32 : Node → Option ℕ
as_uint32 (number k) = if ltb k (2 ^ 32) then some k else none
as_uint32 _ = none

length-as_strings :
    (n : Node) (xs : List String)
    → is_sequence n ≡ true
    → as_strings n ≡ some xs
    → length xs ≡ size n
length-as_strings (names ys) xs s e = ground (arith, e)
length-as_strings missing xs s e = ground (arith, s)
length-as_strings (name x) xs s e = ground (arith, s)
length-as_strings (number k) xs s e = ground (arith, s)
length-as_strings (chain c) xs s e = ground (arith, s)
length-as_strings (section cs) xs s e = ground (arith, s)
length-as_strings (file cs) xs s e = ground (arith, s)

as_uint32_bound : (n : Node) (k : ℕ) → as_uint32 n ≡ some k → k < 2 ^ 32
as_uint32_bound (number j) k e = ground (arith, e)
as_uint32_bound (names ys) k e = ground (arith, e)
as_uint32_bound missing k e = ground (arith, e)
as_uint32_bound (name x) k e = ground (arith, e)
as_uint32_bound (chain c) k e = ground (arith, e)
as_uint32_bound (section cs) k e = ground (arith, e)
as_uint32_bound (file cs) k e = ground (arith, e)

abbrev lidar : Chain
lidar = record { callbacks = "scan" ∷ "track" ∷ []; deadline = 40; period = 20 }

abbrev silent : Chain
silent = record { callbacks = []; deadline = 40; period = 20 }

abbrev good_file : Node
good_file = file (("lidar", lidar) ∷ [])

abbrev bad_file : Node
bad_file = file (("lidar", lidar) ∷ ("silent", silent) ∷ [])

abbrev load_file : String → Option Node
load_file s = if s == "good" then some good_file else (if s == "bad" then some bad_file else none)

abbrev yaml : Yaml
yaml = record {
  Node = Node;
  default_node = missing;
  load_file = load_file;
  is_null = λ _. false;
  is_map = is_map;
  is_sequence = is_sequence;
  is_scalar = is_scalar;
  is_defined = is_defined;
  lookup = lookup;
  size = size;
  entries = entries;
  as_string = as_string;
  as_strings = as_strings;
  as_uint32 = as_uint32;
  length-as_strings = length-as_strings;
  as_uint32_bound = as_uint32_bound;
}

abbrev lidar_chain : UserChain
lidar_chain = record {
  chain_name = "lidar";
  callbacks = "scan" ∷ "track" ∷ [];
  deadline = 40;
  period = 20;
}

abbrev with_lidar : Node → ChainYamlParser yaml
with_lidar n = record { yaml_node = n; user_chains = ("lidar", lidar_chain) ∷ [] }

abbrev on_file : Node → ChainYamlParser yaml
on_file n = record { yaml_node = n; user_chains = [] }

load_good : load_yaml_file yaml "good" (new_parser yaml) ≡ (ok tt, on_file good_file)
unfolding load_yaml_file
load_good = refl

load_none : load_yaml_file yaml "none" (new_parser yaml) ≡ (err yaml_load_failed, new_parser yaml)
unfolding load_yaml_file
load_none = refl

good_parses : parse yaml (on_file good_file) ≡ (ok true, with_lidar good_file)
unfolding parse parse_entries
good_parses = refl

bad_throws : parse yaml (on_file bad_file) ≡ (err invalid_chain, with_lidar bad_file)
unfolding parse parse_entries
bad_throws = refl

parse_success_example :
    All IsStored (with_lidar good_file).user_chains
    × (1 ≤ length (with_lidar good_file).user_chains)
parse_success_example = parse_success yaml (on_file good_file) (with_lidar good_file) tt good_parses

parse_failure_example : All IsStored (with_lidar bad_file).user_chains
parse_failure_example =
    parse_failure yaml (on_file bad_file) (with_lidar bad_file) invalid_chain tt bad_throws

reads_lidar : read_chain yaml (name "lidar", chain lidar) ≡ ok lidar_chain
unfolding read_chain
reads_lidar = refl

refuses_silent : read_chain yaml (name "silent", chain silent) ≡ err invalid_chain
unfolding read_chain
refuses_silent = refl

-- A parser with a chain of another name, and an older chain of the same name.
abbrev old_lidar : UserChain
old_lidar = record lidar_chain { deadline = 99 }

abbrev brake : UserChain
brake = record { chain_name = "brake"; callbacks = "stop" ∷ []; deadline = 5; period = 5 }

abbrev used : Node → ChainYamlParser yaml
used n = record { yaml_node = n; user_chains = ("brake", brake) ∷ ("lidar", old_lidar) ∷ [] }

file_HasChains : (cs : List (String × Chain)) → HasChains yaml (used (file cs))
file_HasChains cs = record {
  not_null = refl;
  root_map = refl;
  chains_defined = refl;
  chains_map = refl;
}

parse_complete_example :
    ((parse yaml (used good_file)).0 ≡ ok true)
    × Holds yaml (used good_file) (parse yaml (used good_file)).1 (lidar_chain ∷ [])
parse_complete_example =
    parse_complete yaml (used good_file) (((name "lidar", chain lidar), lidar_chain) ∷ [])
      (file_HasChains (("lidar", lidar) ∷ [])) refl (reads_lidar, tt)

parse_stops_example :
    ((parse yaml (used bad_file)).0 ≡ err invalid_chain)
    × Holds yaml (used bad_file) (parse yaml (used bad_file)).1 (lidar_chain ∷ [])
parse_stops_example =
    parse_stops yaml (used bad_file) (((name "lidar", chain lidar), lidar_chain) ∷ [])
      (name "silent", chain silent) [] invalid_chain
      (file_HasChains (("lidar", lidar) ∷ ("silent", silent) ∷ [])) refl (reads_lidar, tt)
      refuses_silent

parsed_chains_accepted_example :
    (m : Adjacency) × (add_chains (map (λ e. e.1) (with_lidar good_file).user_chains) [] ≡ ok m)
parsed_chains_accepted_example =
    parsed_chains_accepted yaml (on_file good_file) (with_lidar good_file) [] tt good_parses
