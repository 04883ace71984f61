-- ===== src/Tests/Chain.antt =====
-- Simple stand-ins for go-ethereum under pkg/executor. A header is a number, a transaction its hash;
-- a message adds to the balance of account 7 and writes a slot of it. Receipts without logs have a
-- text, ten numbers each.
use mathlib.Core.Option.{some-injective}
use evm_executor.Prelude.{
  ℕ, ◌+◌, ◌-◌, ◌≡◌, refl, sym, ap, ◌∙◌, false, Option, none, some, List, [], ◌∷◌, map, ltb, arith,
  ◌==◌, if◌then◌else◌, Option-cases, Bool-cases, inl, inr,
}
use evm_executor.Prelude.Int.{pos}
use evm_executor.Storage.Redis.{Text}
use evm_executor.Storage.Key.Decimal.{value}
use evm_executor.Storage.Ops.{StoredAccount}
use evm_executor.Storage.Blocks.{Progress}
use evm_executor.Storage.Blocks.Stored.{IsBlockDeps}
use evm_executor.State.Db.{PikaStateDb}
use evm_executor.State.Commit.Written.{IsMaps}
use evm_executor.State.Frame.{Program, stop, act, run, add_balance, set_state}
use evm_executor.State.Frame.Carries.{Carries, Carries-refl}
use evm_executor.State.Frame.Moved.{Agree, moved}
use evm_executor.State.Frame.Moved.Runs.{moved_if, run-moved}
use evm_executor.State.Frame.Programs.{run-Carries}
use evm_executor.Executor.Deps.{
  Receipt, ExecutionResult, BlockContext, ChainDeps, block_deps, IsChainDeps, IsStateReader,
}
use evm_executor.Executor.Codec.{consensus_log, consensus_one, consensus, AreKnown, IsReceiptCodec}
use evm_executor.Executor.Loop.Panics.{IsNewBlock}
use evm_executor.Tests.World.{Store, world, store-IsRedis, write_json, read_json, json_round_trip}

unfoldable pub to_account : Progress → StoredAccount
to_account p = record {
  balance = p.last_execution_time;
  nonce = p.latest_executed_block;
  code_hash = p.total_txs_executed;
  storage_root = 0;
}

unfoldable pub from_account : Option StoredAccount → Option Progress
from_account none = none
from_account (some a) = some (record {
  latest_executed_block = a.nonce;
  last_execution_time = a.balance;
  total_txs_executed = a.code_hash;
})

unfoldable pub encode_one : Receipt → Option Text → Option Text
encode_one r none = none
encode_one r (some rest) = elim r.logs [
  | _ ∷ _ ↦ none
  | [] ↦ some (r.tx_type ∷ (if r.status == 0 then 0 else 1) ∷ r.cumulative_gas_used ∷ rest)
]

unfoldable pub encode : List Receipt → Option Text
encode [] = some []
encode (r ∷ rs) = encode_one r (encode rs)

abbrev pub with_receipt : Receipt → Option (List Receipt) → Option (List Receipt)
with_receipt r none = none
with_receipt r (some rs) = some (r ∷ rs)

abbrev bare : ℕ → ℕ → ℕ → Receipt
bare tx_type status cumulative = record {
  tx_type = tx_type;
  post_state = [];
  status = status;
  cumulative_gas_used = cumulative;
  logs = [];
  tx_hash = 0;
  contract_address = 0;
  gas_used = 0;
  block_hash = 0;
  block_number = 0;
  transaction_index = 0;
}

unfoldable pub decode : Text → Option (List Receipt)
decode [] = some []
decode (a ∷ b ∷ c ∷ rest) = with_receipt (bare a b c) (decode rest)
decode _ = none

encode_one-text :
    (r : Receipt) (rest t : Text)
    → encode_one r (some rest) ≡ some t
    → (r.logs ≡ [])
      × (r.tx_type ∷ (if r.status == 0 then 0 else 1) ∷ r.cumulative_gas_used ∷ rest ≡ t)
unfolding encode_one
encode_one-text r rest t e = ground arith

bare-consensus :
    (r : Receipt)
    → r.logs ≡ []
    → r.post_state ≡ []
    → bare r.tx_type (if r.status == 0 then 0 else 1) r.cumulative_gas_used ≡ consensus_one r
unfolding consensus_one
bare-consensus r no_logs no_post = λ i. record (consensus_one r) {
  logs = map consensus_log (sym no_logs i);
  post_state = sym no_post i;
}

decode-encode :
    (rs : List Receipt) (t : Text)
    → AreKnown rs
    → encode rs ≡ some t
    → decode t ≡ some (consensus rs)
unfolding encode decode encode_one
decode-encode [] t known e = ap decode (sym (some-injective _ _ e))
decode-encode (r ∷ rs) t (_, no_post, known) e = elim (Option-cases (encode rs)) [
  | inl failed ↦ ground arith
  | inr (rest, encoded) ↦
      let (no_logs, same) = encode_one-text r rest t (ap (encode_one r) (sym encoded) ∙ e) in
      ap decode (sym same)
      ∙ ap (with_receipt (bare r.tx_type (if r.status == 0 then 0 else 1) r.cumulative_gas_used))
          (decode-encode rs rest known encoded)
      ∙ ap (λ (q : Receipt). some (q ∷ consensus rs)) (bare-consensus r no_logs no_post)
]

unfoldable pub message_program : ℕ → Program
message_program m = act (add_balance 7 (pos m)) (act (set_state 7 1 m) stop)

unfoldable pub apply_message :
    BlockContext → ℕ → ℕ → PikaStateDb world → Option ExecutionResult × ℕ × PikaStateDb world
apply_message context m pool s =
    if ltb pool m then (none, pool, s) else elim (run (message_program m) s) [
      | none ↦ (none, pool, s)
      | some t ↦ (some (record { used_gas = m; failed = false }), pool - m, t)
    ]

apply_message-Carries :
    (context : BlockContext) (m pool : ℕ) (s : PikaStateDb world)
    → IsMaps s
    → Carries s (apply_message context m pool s).2
unfolding apply_message
apply_message-Carries context m pool s maps = elim (Bool-cases (ltb pool m)) [
  | inl dear ↦ rw (dear, apply_message) (Carries-refl s maps)
  | inr paid ↦ elim (Option-cases (run (message_program m) s)) [
    | inl panics ↦ rw (paid, apply_message) (rw (panics) (Carries-refl s maps))
    | inr (t, ran) ↦
        rw (paid, apply_message) (rw (ran) (run-Carries (message_program m) s t maps ran))
  ]
]

apply_message-alike :
    (context : BlockContext) (m pool : ℕ) (s : PikaStateDb world) (db' : Store)
    → IsMaps s
    → Agree world s.block_number s.db db'
    → apply_message context m pool (moved db' s)
      ≡ (let r = apply_message context m pool s in (r.0, r.1, moved db' r.2))
unfolding apply_message
apply_message-alike context m pool s db' maps agree = elim (Bool-cases (ltb pool m)) [
  | inl dear ↦ rw (dear, apply_message) refl
  | inr paid ↦
      let same = run-moved db' (message_program m) s maps agree in
      elim (Option-cases (run (message_program m) s)) [
        | inl panics ↦
            let same' = same ∙ ap (moved_if db') panics in
            rw (paid, apply_message) (rw panics (rw same' refl))
        | inr (t, ran) ↦
            let same' = same ∙ ap (moved_if db') ran in
            rw (paid, apply_message) (rw ran (rw same' refl))
      ]
]

abbrev pub chain_world : ChainDeps world
chain_world = record {
  Header = ℕ;
  Transaction = ℕ;
  Block = ℕ × List ℕ;
  Message = ℕ;
  GasPool = ℕ;
  header_fields = λ n. record {
    parent_hash = 99 + n;
    coinbase = 3;
    number = n;
    time = 3 + n;
    difficulty = pos 0;
    base_fee = none;
    gas_limit = 100;
    gas_used = 0;
  };
  hash_header = λ n. 100 + n;
  new_block = λ n txs. some (n, txs);
  block_header = λ b. b.0;
  block_hash = λ b. 100 + b.0;
  block_gas_limit = λ _. 100;
  block_transactions = λ b. b.1;
  hash_transaction = λ tx. tx;
  type_of = λ _. 0;
  nonce_of = λ _. 0;
  to_message = λ _ tx. if tx == 0 then none else some tx;
  recipient = λ _. some 7;
  origin = λ _. 3;
  create_address = λ a n. a + n;
  gas_pool = λ n. n;
  apply_message = apply_message;
  decode_header = λ t. some (value 0 t);
  decode_transactions = λ t. some t;
  encode_receipts = encode;
  decode_receipts = decode;
  marshal_progress = λ p. write_json (to_account p);
  unmarshal_progress = λ t. from_account (read_json t);
  unmarshal_synced = λ t. some (value 0 t);
  scan_number = λ t. some (value 0 t);
}

progress_round_trip :
    (p : Progress) (t : Text)
    → write_json (to_account p) ≡ some t
    → from_account (read_json t) ≡ some p
unfolding to_account from_account
progress_round_trip p t e = ap from_account (json_round_trip (to_account p) t e)

chain_world-IsBlockDeps : IsBlockDeps (block_deps chain_world)
chain_world-IsBlockDeps = record {
  redis_laws = store-IsRedis;
  progress_round_trip = progress_round_trip;
}

pub chain_world-IsChainDeps : IsChainDeps chain_world
chain_world-IsChainDeps = record {
  blocks = chain_world-IsBlockDeps;
  carries = apply_message-Carries;
}

pub chain_world-IsStateReader : IsStateReader chain_world
chain_world-IsStateReader = record { alike = apply_message-alike }

pub chain_world-IsReceiptCodec : IsReceiptCodec chain_world
chain_world-IsReceiptCodec = record {
  known_type = λ tx. omega arith;
  reads_consensus = decode-encode;
}

-- The same stand-ins with go-ethereum's NewBlock, as it is without a hasher.
abbrev pub hasherless : ℕ → List ℕ → Option (ℕ × List ℕ)
hasherless n [] = some (n, [])
hasherless n (tx ∷ txs) = none

abbrev pub panicking_world : ChainDeps world
panicking_world = record chain_world { new_block = hasherless }

pub panicking_world-IsNewBlock : IsNewBlock panicking_world
panicking_world-IsNewBlock = record {
  with_transactions = λ header tx txs. refl;
  without = λ header. ((header, []), refl, refl);
}
