-- ===== src/Chain.antt =====
-- pkg/chain/chain.go: the chains that the executor knows.
use evm_executor.Prelude.{
  ℕ, ◌≡◌, ◌↔◌, Bool, true, false, ◌&&◌, Option, none, some, [], ◌∷◌, ◌==◌, arith, if◌then◌else◌,
}
use evm_executor.Storage.Redis.{Text}
use evm_executor.Storage.Key.{codes}

-- The test for equal texts.
unfoldable pub same_text : Text → Text → Bool
same_text [] [] = true
same_text (a ∷ s) (b ∷ t) = a == b && same_text s t
same_text _ _ = false

pub same_text_iff : (s t : Text) → (same_text s t ≡ true) ↔ (s ≡ t)
unfolding same_text
same_text_iff [] [] = ground arith
same_text_iff [] (b ∷ t) = ground arith
same_text_iff (a ∷ s) [] = ground arith
same_text_iff (a ∷ s) (b ∷ t) = ground (arith, same_text_iff s t)

-- The fields of `params.ChainConfig` that the adapter sets; `none` is nil.
pub record ChainConfig : Type 0 where
  pub chain_id : ℕ
  pub homestead_block : ℕ
  pub eip150_block : ℕ
  pub eip155_block : ℕ
  pub eip158_block : ℕ
  pub byzantium_block : ℕ
  pub constantinople_block : ℕ
  pub petersburg_block : ℕ
  pub istanbul_block : ℕ
  pub muir_glacier_block : ℕ
  pub berlin_block : ℕ
  pub london_block : ℕ
  pub arrow_glacier_block : Option ℕ
  pub merge_netsplit_block : Option ℕ

-- `ChainAdapter` is an interface that `BSCAdapter` alone implements.
pub data ChainAdapter : Type 0 where
  bsc_adapter : ChainAdapter

unfoldable pub get_name : ChainAdapter → Text
get_name bsc_adapter = codes "bsc"

unfoldable pub get_chain_id : ChainAdapter → ℕ
get_chain_id bsc_adapter = 56

unfoldable pub get_chain_config : ChainAdapter → ChainConfig
get_chain_config bsc_adapter = record {
  chain_id = 56;
  homestead_block = 0;
  eip150_block = 0;
  eip155_block = 0;
  eip158_block = 0;
  byzantium_block = 0;
  constantinople_block = 0;
  petersburg_block = 0;
  istanbul_block = 0;
  muir_glacier_block = 0;
  berlin_block = 0;
  london_block = 0;
  arrow_glacier_block = none;
  merge_netsplit_block = none;
}

-- `NewChainAdapter`; `none` is the error for a chain that is not supported
unfoldable pub new_chain_adapter : Text → Option ChainAdapter
new_chain_adapter chain_name = if same_text chain_name (codes "bsc") then some bsc_adapter else none
