-- ===== src/Tests/Blocks.antt =====
-- The theorems on receipts and progress at concrete inputs. Receipts are bytes that are their own
-- form, and a progress is written as the numbers of an account.
use evm_executor.Prelude.{◌≡◌, refl, ap, Option, none, some, [], ◌∷◌, ◌++◌}
use evm_executor.Prelude.Int.{pos}
use evm_executor.Storage.Redis.{Text, ok, client_set}
use evm_executor.Storage.Key.Decimal.{decimal, value}
use evm_executor.Storage.Ops.{StoredAccount}
use evm_executor.Storage.Blocks.{
  header_key, Progress, BlockDeps, store_receipts, get_receipts, get_block, get_sync_progress,
  get_exec_progress, update_exec_progress,
}
use evm_executor.Storage.Blocks.Stored.{IsBlockDeps, get_exec_progress-update_exec_progress}
use evm_executor.Executor.Hashes.{get_hashes, answers, get_hashes-eq}
use evm_executor.Tests.World.{store, store-IsRedis, write, write_json, read_json, json_round_trip}

abbrev to_account : Progress → StoredAccount
to_account p = record {
  balance = p.last_execution_time;
  nonce = p.latest_executed_block;
  code_hash = p.total_txs_executed;
  storage_root = 0;
}

abbrev from_account : Option StoredAccount → Option Progress
from_account none = none
from_account (some a) = some (record {
  latest_executed_block = a.nonce;
  last_execution_time = a.balance;
  total_txs_executed = a.code_hash;
})

abbrev block_world : BlockDeps
block_world = record {
  redis = store;
  Header = Text;
  Transactions = Text;
  Block = Text;
  Receipts = Text;
  new_block = λ header txs. some (header ++ txs);
  decode_header = λ t. some t;
  decode_transactions = λ t. some t;
  encode_receipts = λ r. some r;
  decode_receipts = λ t. some t;
  marshal_progress = λ p. write_json (to_account p);
  unmarshal_progress = λ t. from_account (read_json t);
  unmarshal_synced = λ t. some (value 0 t);
  scan_number = λ t. some (value 0 t);
  hex_hash = decimal;
}

block_world-IsBlockDeps : IsBlockDeps block_world
block_world-IsBlockDeps = record {
  redis_laws = store-IsRedis;
  progress_round_trip = λ p t e. ap from_account (json_round_trip (to_account p) t e);
}

program : Unit {0}
unfolding store_receipts update_exec_progress client_set write_json
program = tt

abbrev progress : Progress
progress = record {
  latest_executed_block = 3;
  last_execution_time = pos 100;
  total_txs_executed = 0;
}

updated : (update_exec_progress block_world (λ _. none) progress).1 ≡ ok tt
unfolding program
updated = refl

get_exec_progress-update_exec_progress_example :
    (get_exec_progress block_world (update_exec_progress block_world (λ _. none) progress).0
      ≡ ok progress)
    × (get_block block_world (update_exec_progress block_world (λ _. none) progress).0 3
        ≡ get_block block_world (λ _. none) 3)
    × (get_receipts block_world (update_exec_progress block_world (λ _. none) progress).0 3
        ≡ get_receipts block_world (λ _. none) 3)
    × (get_sync_progress block_world (update_exec_progress block_world (λ _. none) progress).0
        ≡ get_sync_progress block_world (λ _. none))
get_exec_progress-update_exec_progress_example =
    get_exec_progress-update_exec_progress block_world-IsBlockDeps (λ _. none) progress 3 updated

-- The store holds one header, for block 6, whose hash is 5.
header_db : Text → Option Text
header_db = write (λ _. none) (record { key = header_key 6; value = 53 ∷ []; ttl = 0 })

get_hashes-eq_example :
    get_hashes block_world (value 0) header_db 5 [] (6 ∷ 3 ∷ 6 ∷ [])
    ≡ answers block_world (value 0) header_db 5 (6 ∷ 3 ∷ 6 ∷ [])
get_hashes-eq_example = get_hashes-eq block_world (value 0) header_db 5 (6 ∷ 3 ∷ 6 ∷ [])
