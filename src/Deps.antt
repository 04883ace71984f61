-- ===== src/Deps.antt =====
-- The third-party code under pkg/storage and pkg/state, as parameters: the Redis client, the LRU
-- caches, and of go-ethereum the hexadecimal texts, the hash function and the JSON form of accounts
-- (`encoding/json` over `big.Int` and `common.Hash`).
use evm_executor.Prelude.{◌≡◌, Option, some}
use evm_executor.Lru.{Lru, IsLru}
use evm_executor.Storage.Redis.{Text, Redis, IsRedis}
use evm_executor.Storage.Key.Faithful.{IsHex}
use evm_executor.Storage.Ops.{Address, Hash, StoredAccount}

pub record Deps : Type 1 where
  pub redis : Redis
  pub account_lru : Lru Address StoredAccount
  pub slot_lru : Lru Text Hash
  pub code_lru : Lru Hash Text
  pub hex_address : Address → Text
  pub hex_hash : Hash → Text
  pub hex_to_hash : Text → Hash
  pub marshal : StoredAccount → Option Text
  pub unmarshal : Text → Option StoredAccount
  pub keccak256 : Text → Hash

-- What the program relies on.
pub record IsDeps (d : Deps) : Type 0 where
  pub redis_laws : IsRedis d.redis
  pub account_cache : IsLru d.account_lru
  pub slot_cache : IsLru d.slot_lru
  pub code_cache : IsLru d.code_lru
  pub address_text : IsHex d.hex_address
  pub hash_text : IsHex d.hex_hash
  pub hash_round_trip : (h : Hash) → d.hex_to_hash (d.hex_hash h) ≡ h
  pub json_round_trip :
      (a : StoredAccount) (t : Text) → d.marshal a ≡ some t → d.unmarshal t ≡ some a
