-- ===== src/Executor/Codec.antt =====
-- What go-ethereum's RLP codec of `types.Receipts` keeps of the receipts of pkg/executor: the consensus
-- fields only, as its documentation says.
use evm_executor.Prelude.{◌<◌, ◌≡◌, some, List, [], ◌∷◌, map, ◌==◌, if◌then◌else◌}
use evm_executor.Deps
use evm_executor.Storage.Redis.{Text}
use evm_executor.State.Db.{Log}
use evm_executor.Executor.Deps.{Receipt, ChainDeps}

unfoldable pub consensus_log : Log → Log
consensus_log l = record {
  address = l.address;
  topics = l.topics;
  payload = l.payload;
  block_number = 0;
  tx_hash = 0;
  tx_index = 0;
  block_hash = 0;
  index = 0;
}

unfoldable pub consensus_one : Receipt → Receipt
consensus_one r = record {
  tx_type = r.tx_type;
  post_state = r.post_state;
  status = if r.status == 0 then 0 else 1;
  cumulative_gas_used = r.cumulative_gas_used;
  logs = map consensus_log r.logs;
  tx_hash = 0;
  contract_address = 0;
  gas_used = 0;
  block_hash = 0;
  block_number = 0;
  transaction_index = 0;
}

abbrev pub consensus : List Receipt → List Receipt
consensus [] = []
consensus (r ∷ rs) = consensus_one r ∷ consensus rs

-- The receipts have one of the four types of transactions of go-ethereum 1.13.8, and no state root.
abbrev pub AreKnown : List Receipt → Type 0
AreKnown [] = Unit {0}
AreKnown (r ∷ rs) = (r.tx_type < 4) × (r.post_state ≡ []) × AreKnown rs

pub record IsReceiptCodec {d : Deps.Deps} (c : ChainDeps d) : Type 0 where
  pub known_type : (tx : c.Transaction) → c.type_of tx < 4
  pub reads_consensus :
      (rs : List Receipt) (t : Text)
      → AreKnown rs
      → c.encode_receipts rs ≡ some t
      → c.decode_receipts t ≡ some (consensus rs)
