-- ===== src/Parser/Entries.antt =====
-- Which chains src/yaml_parser.cpp has stored when `parse` ends.
use preemptive_executor.Common.{
  ◌≡◌, refl, sym, ap, ◌∙◌, Bool, true, false, Option, some, String, List, [], ◌∷◌, ◌++◌, map, All,
  lookup, lookup-upsert, if◌then◌else◌, ◌==◌, string_eq, ok, err, Error, append-nil, arith,
  Bool-cases, inl, inr,
}
use preemptive_executor.Chains.{UserChain}
use preemptive_executor.Parser.{
  Yaml, ChainYamlParser, read_chain, store, any_chain, parse_entries, parse,
}

-- The last chain of the name, in a row of chains read one after the other, or else the one given.
abbrev pub last_named : String → Option UserChain → List UserChain → Option UserChain
last_named n old [] = old
last_named n old (c ∷ cs) = last_named n (if c.chain_name == n then some c else old) cs

-- Whether there is anything in a list.
abbrev pub nonempty {ℓ} : {A : Type ℓ} → List A → Bool
nonempty [] = false
nonempty (x ∷ xs) = true

module _ (yaml : Yaml) where
  -- An entry of the section, and the chain that it stands for.
  abbrev pub Reading : Type 0
  Reading = (yaml.Node × yaml.Node) × UserChain

  abbrev pub IsRead : Reading → Type 0
  IsRead r = read_chain yaml r.0 ≡ ok r.1

  abbrev pub chains_of : List Reading → List UserChain
  chains_of rs = map (λ r. r.1) rs

  -- The parser holds what it held before, and the chains read since: for each name the last one of
  -- that name, and where none was read the one of before. The document stays.
  pub record Holds (before after : ChainYamlParser yaml) (cs : List UserChain) : Type 0 where
    pub same_file : after.yaml_node ≡ before.yaml_node
    pub stored :
        (n : String) → lookup n after.user_chains ≡ last_named n (lookup n before.user_chains) cs

  -- The file is a map whose 'chains' section exists and is a map.
  pub record HasChains (p : ChainYamlParser yaml) : Type 0 where
    pub not_null : yaml.is_null p.yaml_node ≡ false
    pub root_map : yaml.is_map p.yaml_node ≡ true
    pub chains_defined : yaml.is_defined (yaml.lookup p.yaml_node "chains") ≡ true
    pub chains_map : yaml.is_map (yaml.lookup p.yaml_node "chains") ≡ true

  parse-HasChains :
      (p : ChainYamlParser yaml)
      → HasChains p
      → parse yaml p ≡ parse_entries yaml (yaml.entries (yaml.lookup p.yaml_node "chains")) p
  unfolding parse
  parse-HasChains p h = rw (h.not_null, h.root_map, h.chains_defined, h.chains_map)

  abbrev store_all : List UserChain → ChainYamlParser yaml → ChainYamlParser yaml
  store_all [] p = p
  store_all (c ∷ cs) p = store_all cs (store yaml c p)

  parse_entries-append :
      (rs : List Reading) (rest : List (yaml.Node × yaml.Node)) (p : ChainYamlParser yaml)
      → All IsRead rs
      → parse_entries yaml (map (λ r. r.0) rs ++ rest) p
        ≡ parse_entries yaml rest (store_all (chains_of rs) p)
  unfolding parse_entries
  parse_entries-append [] rest p h = refl
  parse_entries-append (r ∷ rs) rest p (h, hs) =
      rw h (parse_entries-append rs rest (store yaml (r.1) p) hs)

  lookup-store :
      (c : UserChain) (n : String) (p : ChainYamlParser yaml)
      → lookup n (store yaml c p).user_chains
        ≡ (if c.chain_name == n then some c else lookup n p.user_chains)
  lookup-store c n p = lookup-upsert c.chain_name n c (λ _. c) p.user_chains

  store_all-Holds : (cs : List UserChain) (p : ChainYamlParser yaml) → Holds p (store_all cs p) cs
  store_all-Holds [] p = record { same_file = refl; stored = λ n. refl }
  store_all-Holds (c ∷ cs) p =
      let h = store_all-Holds cs (store yaml c p) in
      record {
        same_file = h.same_file;
        stored = λ n. h.stored n ∙ ap (λ o. last_named n o cs) (lookup-store c n p);
      }

  any_chain-store :
      (c : UserChain) (p : ChainYamlParser yaml) → any_chain yaml (store yaml c p) ≡ true
  any_chain-store c p = nonempty_upsert p.user_chains
    where
      nonempty_upsert :
          (m : List (String × UserChain))
          → any_chain yaml (store yaml c (record p { user_chains = m })) ≡ true
      nonempty_upsert [] = ground arith
      nonempty_upsert ((j, d) ∷ m) = elim (Bool-cases (j == c.chain_name)) [
        | inl same ↦ rw same (ground arith)
        | inr other ↦ rw other (ground arith)
      ]

  any_chain_keeps :
      (cs : List UserChain) (p : ChainYamlParser yaml)
      → any_chain yaml p ≡ true
      → any_chain yaml (store_all cs p) ≡ true
  any_chain_keeps [] p h = h
  any_chain_keeps (c ∷ cs) p h = any_chain_keeps cs (store yaml c p) (any_chain-store c p)

  any_chain-store_all :
      (cs : List UserChain) (p : ChainYamlParser yaml)
      → any_chain yaml (store_all cs p) ≡ (if nonempty cs then true else nonempty p.user_chains)
  any_chain-store_all [] p = of_list p.user_chains
    where
      of_list :
          (m : List (String × UserChain))
          → any_chain yaml (record p { user_chains = m }) ≡ nonempty m
      of_list [] = refl
      of_list (e ∷ m) = ground arith
  any_chain-store_all (c ∷ cs) p = any_chain_keeps cs (store yaml c p) (any_chain-store c p)

  -- For a file with a 'chains' map: when every entry can be read, `parse` returns whether there was an
  -- entry or a chain before, and has stored the chains of all entries: for each name it then holds
  -- the last entry's chain of that name, in place of one of that name from before, and every other
  -- chain from before.
  pub parse_complete :
      (p : ChainYamlParser yaml) (rs : List Reading)
      → HasChains p
      → yaml.entries (yaml.lookup p.yaml_node "chains") ≡ map (λ r. r.0) rs
      → All IsRead rs
      → ((parse yaml p).0 ≡ ok (if nonempty rs then true else nonempty p.user_chains))
        × Holds p (parse yaml p).1 (chains_of rs)
  unfolding parse_entries
  parse_complete p rs h e hs =
      rw
        (
          parse-HasChains p h,
          e,
          sym (append-nil (map (λ r. r.0) rs)),
          parse_entries-append rs [] p hs,
        )
        (
          ap ok (any_chain-store_all (chains_of rs) p ∙ of_chains rs),
          store_all-Holds (chains_of rs) p,
        )
    where
      of_chains :
          (rs : List Reading)
          → (if nonempty (chains_of rs) then true else nonempty p.user_chains)
            ≡ (if nonempty rs then true else nonempty p.user_chains)
      of_chains [] = refl
      of_chains (r ∷ rs) = refl

  -- For a file with a 'chains' map: at the first entry that cannot be read, `parse` throws what that
  -- entry throws. It has then stored exactly the chains of the entries before it: for each name it
  -- holds the last of these of that name, or else the chain of that name from before.
  pub parse_stops :
      (p : ChainYamlParser yaml) (rs : List Reading) (bad : yaml.Node × yaml.Node)
      (rest : List (yaml.Node × yaml.Node)) (x : Error)
      → HasChains p
      → yaml.entries (yaml.lookup p.yaml_node "chains") ≡ map (λ r. r.0) rs ++ bad ∷ rest
      → All IsRead rs
      → read_chain yaml bad ≡ err x
      → ((parse yaml p).0 ≡ err x) × Holds p (parse yaml p).1 (chains_of rs)
  unfolding parse_entries
  parse_stops p rs bad rest x h e hs b =
      rw (parse-HasChains p h, e, parse_entries-append rs (bad ∷ rest) p hs, b)
        (refl, store_all-Holds (chains_of rs) p)
