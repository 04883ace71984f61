-- ===== src/Storage/Blocks.antt =====
-- pkg/storage/block.go: blocks, receipts and the progress of the execution. The RLP and JSON codecs
-- and `fmt.Sscanf` are parameters, as are go-ethereum's types of headers, transactions and receipts.
pub mod Kinds
pub mod Stored
use evm_executor.Prelude.{ℕ, List, [], ◌∷◌, ◌++◌, Option, none, some}
use evm_executor.Prelude.Int.{ℤ, pos}
use evm_executor.Storage.Redis.{
  Text, Redis, Command, Error, Result, ok, err, marshal_error, unmarshal_error, panicked, ◌>>=◌,
  client_get, client_set,
}
use evm_executor.Storage.Key.{codes, number_key}
use evm_executor.Storage.Ops.{Hash}

-- `Progress`
pub record Progress : Type 0 where
  pub latest_executed_block : ℕ
  pub last_execution_time : ℤ
  pub total_txs_executed : ℕ

-- `types.NewBlock` of a header and transactions, without a hasher for their tries, is the parameter
-- `new_block`; `none` is a panic.
pub record BlockDeps : Type 1 where
  pub redis : Redis
  pub Header : Type 0
  pub Transactions : Type 0
  pub Block : Type 0
  pub Receipts : Type 0
  pub new_block : Header → Transactions → Option Block
  pub decode_header : Text → Option Header
  pub decode_transactions : Text → Option Transactions
  pub encode_receipts : Receipts → Option Text
  pub decode_receipts : Text → Option Receipts
  pub marshal_progress : Progress → Option Text
  pub unmarshal_progress : Text → Option Progress
  pub unmarshal_synced : Text → Option ℕ
  pub scan_number : Text → Option ℕ
  pub hex_hash : Hash → Text

-- `headerKey`, `bodyKey`, `txsKey`, `receiptKey`, `syncProgressKey` and `execProgressKey`
unfoldable pub header_key : ℕ → Text
header_key n = number_key "blk:hdr:" n

unfoldable pub body_key : ℕ → Text
body_key n = number_key "blk:body:" n

unfoldable pub txs_key : ℕ → Text
txs_key n = number_key "blk:txs:" n

unfoldable pub receipt_key : ℕ → Text
receipt_key n = number_key "blk:rcpt:" n

unfoldable pub sync_progress_key : Text
sync_progress_key = codes "idx:sync:progress"

unfoldable pub exec_progress_key : Text
exec_progress_key = codes "idx:exec:progress"

abbrev pub decoded : {A : Type 0} → Option A → Result A
decoded none = err unmarshal_error
decoded (some a) = ok a

abbrev pub made : {A : Type 0} → Option A → Result A
made none = err panicked
made (some a) = ok a

abbrev pub default_progress : Progress
default_progress = record {
  latest_executed_block = 0;
  last_execution_time = pos 0;
  total_txs_executed = 0;
}

module _ (d : BlockDeps) where
  abbrev pub Db : Type 0
  Db = d.redis.Db

  unfoldable pub tx_hash_key : Hash → Text
  tx_hash_key h = codes "blk:txhash:" ++ d.hex_hash h

  unfoldable pub get_header : Db → ℕ → Result d.Header
  get_header db block_num = do
    text ← client_get d.redis db (header_key block_num)
    decoded (d.decode_header text)

  unfoldable pub get_block : Db → ℕ → Result d.Block
  get_block db block_num = do
    header ← get_header db block_num
    text ← client_get d.redis db (txs_key block_num)
    txs ← decoded (d.decode_transactions text)
    made (d.new_block header txs)

  unfoldable pub store_receipts : Db → ℕ → d.Receipts → Db × Result (Unit {0})
  store_receipts db block_num receipts = elim (d.encode_receipts receipts) [
    | none ↦ (db, err marshal_error)
    | some text ↦
        client_set d.redis db (record { key = receipt_key block_num; value = text; ttl = 0 })
  ]

  unfoldable pub get_receipts : Db → ℕ → Result d.Receipts
  get_receipts db block_num = do
    text ← client_get d.redis db (receipt_key block_num)
    decoded (d.decode_receipts text)

  unfoldable pub get_sync_progress : Db → Result ℕ
  get_sync_progress db = do
    text ← client_get d.redis db sync_progress_key
    decoded (d.unmarshal_synced text)

  -- Every error of the client, not only a missing key, gives the default.
  unfoldable pub get_exec_progress : Db → Result Progress
  get_exec_progress db = elim (client_get d.redis db exec_progress_key) [
    | err _ ↦ ok default_progress
    | ok text ↦ decoded (d.unmarshal_progress text)
  ]

  unfoldable pub update_exec_progress : Db → Progress → Db × Result (Unit {0})
  update_exec_progress db progress = elim (d.marshal_progress progress) [
    | none ↦ (db, err marshal_error)
    | some text ↦ client_set d.redis db (record { key = exec_progress_key; value = text; ttl = 0 })
  ]

  unfoldable pub get_block_number_by_tx_hash : Db → Hash → Result ℕ
  get_block_number_by_tx_hash db tx_hash = do
    text ← client_get d.redis db (tx_hash_key tx_hash)
    decoded (d.scan_number text)
