-- ===== src/Chains.antt =====
-- include/preemptive_executor/yaml_parser.hpp: `userChain`.
use preemptive_executor.Common.{ℕ, String, List}

pub record UserChain : Type 0 where
  pub chain_name : String
  pub callbacks : List String
  pub deadline : ℕ  -- uint32_t
  pub period : ℕ  -- uint32_t
