-- ===== src/State/Db.antt =====
-- The fields of `PikaStateDB` of pkg/state/statedb.go, and its constructor. `db` is the contents of
-- the remote store that `storage` reaches. Counts that a slice bounds (`nextRevisionID`, indices)
-- are plain numbers; `refund`, `logSize` and nonces are unsigned 64-bit words.
use evm_executor.Prelude.{ℕ, ◌^◌, Bool, Option, none, some, List, [], Map}
use evm_executor.Deps.{Deps}
use evm_executor.Storage.Redis.{Text}
use evm_executor.Storage.Ops.{Address, Hash}
use evm_executor.State.Account.{Account}
use evm_executor.State.AccessList.{AccessList, new_access_list}
use evm_executor.State.Journal.{Journal, new_journal}

abbrev pub word : ℕ
word = 2 ^ 64

-- `types.Log` of go-ethereum
pub record Log : Type 0 where
  pub address : Address
  pub topics : List Hash
  pub payload : Text
  pub block_number : ℕ
  pub tx_hash : Hash
  pub tx_index : ℕ
  pub block_hash : Hash
  pub index : ℕ

-- `revision`
pub record Revision : Type 0 where
  pub id : ℕ
  pub journal_index : ℕ

pub record PikaStateDb (d : Deps) : Type 0 where
  pub db : d.redis.Db
  pub block_number : ℕ
  pub state_cache : d.account_lru.Cache
  pub storage_cache : d.slot_lru.Cache
  pub code_cache : d.code_lru.Cache
  pub accounts : Map Account
  pub storages : Map (Map Hash)
  pub codes : Map Text
  pub logs : Map (List Log)
  pub log_size : ℕ
  pub suicides : Map Bool
  pub preimages : Map Text
  pub journal : Journal
  pub valid_revisions : List Revision
  pub next_revision_id : ℕ
  pub refund : ℕ
  pub access_list : AccessList
  pub thash : Hash
  pub tx_index : ℕ

module _ (d : Deps) where
  -- The record that the constructor ends with.
  abbrev pub fresh :
      d.redis.Db → ℕ → d.account_lru.Cache → d.slot_lru.Cache → d.code_lru.Cache → PikaStateDb d
  fresh db block_number state_cache storage_cache code_cache = record {
    db = db;
    block_number = block_number;
    state_cache = state_cache;
    storage_cache = storage_cache;
    code_cache = code_cache;
    accounts = [];
    storages = [];
    codes = [];
    logs = [];
    log_size = 0;
    suicides = [];
    preimages = [];
    journal = new_journal;
    valid_revisions = [];
    next_revision_id = 0;
    refund = 0;
    access_list = new_access_list;
    thash = 0;
    tx_index = 0;
  }

  -- `NewPikaStateDB`: the first cache that cannot be made ends it with an error
  unfoldable pub new_pika_state_db : d.redis.Db → ℕ → ℕ → ℕ → ℕ → Option (PikaStateDb d)
  new_pika_state_db db block_number state_size storage_size code_size =
      elim (d.account_lru.new state_size) [
        | none ↦ none
        | some state_cache ↦ elim (d.slot_lru.new storage_size) [
          | none ↦ none
          | some storage_cache ↦ elim (d.code_lru.new code_size) [
            | none ↦ none
            | some code_cache ↦ some (fresh db block_number state_cache storage_cache code_cache)
          ]
        ]
      ]
