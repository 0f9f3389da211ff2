-- ===== src/Parser/Valid.antt =====
-- What src/yaml_parser.cpp promises of the chains that it stores, whatever it returns or throws.
use preemptive_executor.Common.{
  ℕ, ◌^◌, ◌≤◌, ◌<◌, ◌≡◌, ◌≢◌, refl, subst, Bool, true, false, not, ◌||◌, Option, none, some, String,
  List, [], ◌∷◌, length, All, upsert, if◌then◌else◌, ◌==◌, string_eq, Outcome, ok, err,
  empty_chain_name, invalid_chain, nat_eq, Error, arith, Bool-cases, inl, inr,
}
use preemptive_executor.Common.Action.{resume}
use preemptive_executor.Chains.{UserChain}
use preemptive_executor.Parser.{
  Yaml, ChainYamlParser, convert, convert_deadline, convert_period, read_named, read_chain, store,
  parse_entries, parse,
}

-- A chain has a name and a callback, and its times fit in 32 bits.
abbrev pub IsSound : UserChain → Type 0
IsSound c =
    (c.chain_name ≢ "") × (1 ≤ length c.callbacks) × (c.deadline < 2 ^ 32) × (c.period < 2 ^ 32)

-- Each chain is sound and stands under its own name.
abbrev pub IsStored : String × UserChain → Type 0
IsStored e = (e.0 ≡ e.1.chain_name) × IsSound e.1

upsert-All :
    (k : String) (c : UserChain) (m : List (String × UserChain))
    → IsStored (k, c)
    → All IsStored m
    → All IsStored (upsert k c (λ _. c) m)
upsert-All k c [] h a = (h, tt)
upsert-All k c ((j, d) ∷ m) h (b, bs) = elim (Bool-cases (j == k)) [
  | inl same ↦ rw (same, (string_eq.same_iff j k).0 same) (h, bs)
  | inr new ↦ rw new (b, upsert-All k c m h bs)
]

-- A chain that was read is sound; of a throw nothing is said.
abbrev pub ReadsSound : Outcome UserChain → Type 0
ReadsSound (ok c) = IsSound c
ReadsSound (err x) = Unit

module _ (yaml : Yaml) where
  period-ReadsSound :
      (name : String) (xs : List String) (deadline : ℕ) (o : Option ℕ)
      → name ≢ ""
      → 1 ≤ length xs
      → deadline < 2 ^ 32
      → ((k : ℕ) → o ≡ some k → k < 2 ^ 32)
      → ReadsSound (convert_period yaml name xs deadline o)
  unfolding convert_period
  period-ReadsSound name xs deadline none n l d b = tt
  period-ReadsSound name xs deadline (some k) n l d b = (n, l, d, b k refl)

  deadline-ReadsSound :
      (pn : yaml.Node) (name : String) (xs : List String) (o : Option ℕ)
      → name ≢ ""
      → 1 ≤ length xs
      → ((k : ℕ) → o ≡ some k → k < 2 ^ 32)
      → ReadsSound (convert_deadline yaml pn name xs o)
  unfolding convert_deadline
  deadline-ReadsSound pn name xs none n l b = tt
  deadline-ReadsSound pn name xs (some k) n l b =
      period-ReadsSound name xs k (yaml.as_uint32 pn) n l (b k refl) (yaml.as_uint32_bound pn)

  convert-ReadsSound :
      (dn pn cs : yaml.Node) (name : String) (o : Option (List String))
      → yaml.as_strings cs ≡ o
      → yaml.is_sequence cs ≡ true
      → yaml.size cs ≢ 0
      → name ≢ ""
      → ReadsSound (convert yaml dn pn name o)
  unfolding convert
  convert-ReadsSound dn pn cs name none h s z n = tt
  convert-ReadsSound dn pn cs name (some xs) h s z n =
      deadline-ReadsSound pn name xs (yaml.as_uint32 dn) n
        (omega (arith, yaml.length-as_strings cs xs s h, z)) (yaml.as_uint32_bound dn)

  if-ReadsSound :
      (b : Bool) (x : Error) (r : Outcome UserChain)
      → (b ≡ false → ReadsSound r)
      → ReadsSound (if b then err x else r)
  if-ReadsSound true x r h = tt
  if-ReadsSound false x r h = h refl

  read_named-ReadsSound : (n : yaml.Node) (o : Option String) → ReadsSound (read_named yaml n o)
  unfolding read_named
  read_named-ReadsSound n none = tt
  read_named-ReadsSound n (some name) =
      let cs = yaml.lookup n "callbacks" in
      let dn = yaml.lookup n "deadline" in
      let pn = yaml.lookup n "period" in
      if-ReadsSound (name == "") empty_chain_name _ λ named.
        if-ReadsSound (not (yaml.is_map n)) invalid_chain _ λ m.
          if-ReadsSound (not (yaml.is_defined cs) || not (yaml.is_sequence cs) || yaml.size cs == 0)
            invalid_chain _
            λ c.
              if-ReadsSound (not (yaml.is_defined dn) || not (yaml.is_scalar dn)) invalid_chain _
                λ d.
                  if-ReadsSound (not (yaml.is_defined pn) || not (yaml.is_scalar pn)) invalid_chain
                    _
                    λ p.
                      convert-ReadsSound dn pn cs name (yaml.as_strings cs) refl (ground (arith, c))
                        (ground (arith, c)) (ground (arith, named, string_eq.same_iff name ""))

  read_chain-ReadsSound : (e : yaml.Node × yaml.Node) → ReadsSound (read_chain yaml e)
  unfolding read_chain
  read_chain-ReadsSound (k, n) = read_named-ReadsSound n (yaml.as_string k)

  Keeps : Outcome Bool × ChainYamlParser yaml → Type 0
  Keeps (ok b, q) = All IsStored q.user_chains × (b ≡ true → 1 ≤ length q.user_chains)
  Keeps (err x, q) = All IsStored q.user_chains

  if-Keeps :
      (b : Bool) (p : ChainYamlParser yaml) (r : Outcome Bool × ChainYamlParser yaml)
      → All IsStored p.user_chains
      → Keeps r
      → Keeps (if b then (ok false, p) else r)
  unfolding Keeps
  if-Keeps true p r h k = (h, λ e. ground (arith, e))
  if-Keeps false p r h k = k

  read-Keeps :
      (es : List (yaml.Node × yaml.Node)) (p : ChainYamlParser yaml) (r : Outcome UserChain)
      → ReadsSound r
      → All IsStored p.user_chains
      → ((q : ChainYamlParser yaml) → All IsStored q.user_chains → Keeps (parse_entries yaml es q))
      → Keeps (resume (λ c q. parse_entries yaml es (store yaml c q)) (r, p))
  unfolding Keeps
  read-Keeps es p (err x) s h rec = h
  read-Keeps es p (ok c) s h rec =
      rec (store yaml c p) (upsert-All c.chain_name c p.user_chains (refl, s) h)

  parse_entries-Keeps :
      (es : List (yaml.Node × yaml.Node)) (p : ChainYamlParser yaml)
      → All IsStored p.user_chains
      → Keeps (parse_entries yaml es p)
  unfolding parse_entries Keeps
  parse_entries-Keeps [] p h = (h, λ b. ground (arith, b))
  parse_entries-Keeps (e ∷ es) p h =
      read-Keeps es p (read_chain yaml e) (read_chain-ReadsSound e) h (parse_entries-Keeps es)

  parse-Keeps : (p : ChainYamlParser yaml) → All IsStored p.user_chains → Keeps (parse yaml p)
  unfolding parse Keeps
  parse-Keeps p h = if-Keeps (yaml.is_null p.yaml_node || not (yaml.is_map p.yaml_node)) p _ h (
      if-Keeps
        (not (yaml.is_defined (yaml.lookup p.yaml_node "chains"))
          || not (yaml.is_map (yaml.lookup p.yaml_node "chains")))
        p _ h (parse_entries-Keeps (yaml.entries (yaml.lookup p.yaml_node "chains")) p h))

  -- From a parser whose stored chains are sound, each under its own name (a new parser is one):
  -- when `parse` returns true, at least one chain is stored, and every stored chain stands under its
  -- own name, which is not empty, has at least one callback, and has a deadline and a period below
  -- 2 ^ 32.
  pub parse_success :
      (p q : ChainYamlParser yaml)
      → All IsStored p.user_chains
      → parse yaml p ≡ (ok true, q)
      → All IsStored q.user_chains × (1 ≤ length q.user_chains)
  unfolding Keeps
  parse_success p q h e = let k = subst Keeps e (parse-Keeps p h) in (k.0, k.1 refl)

  -- From such a parser, an exception in `parse` leaves stored chains that all stand under their own
  -- names, which are not empty, have a callback, and have times below 2 ^ 32.
  pub parse_failure :
      (p q : ChainYamlParser yaml) (x : Error)
      → All IsStored p.user_chains
      → parse yaml p ≡ (err x, q)
      → All IsStored q.user_chains
  unfolding Keeps
  parse_failure p q x h e = subst Keeps e (parse-Keeps p h)
