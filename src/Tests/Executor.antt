-- ===== src/Tests/Executor.antt =====
-- The theorems on the execution of blocks at concrete inputs, over the stand-ins of Tests/Chain.antt:
-- the second transaction of block 1 cannot be made a message, and its third costs more than the pool
-- of gas holds.
use native.Mathlib.Decide.{ℕ_discrete}
use evm_executor.Prelude.{
  ℕ, ◌+◌, ◌<◌, ◌≤◌, ◌≡◌, refl, Option, none, some, List, [], ◌∷◌, lookup, insert, arith, ◌==◌,
  if◌then◌else◌,
}
use evm_executor.Prelude.Int.{ℤ, pos, negsuc, ◌+ℤ◌}
use evm_executor.Storage.Redis.{ok, panicked, client_get, client_set, execute_pipeline}
use evm_executor.Storage.State
use evm_executor.Storage.State.{both, queue_op, queue_ops, batch_write}
use evm_executor.Storage.Blocks.{
  Progress, header_key, txs_key, receipt_key, sync_progress_key, exec_progress_key, get_header,
  get_block, store_receipts, get_receipts, get_sync_progress, get_exec_progress,
  update_exec_progress,
}
use evm_executor.Storage.Key.{number_key, account_key, storage_key, code_key}
use evm_executor.Storage.Key.Kinds.{first}
use evm_executor.Storage.Key.Decimal.{value}
use evm_executor.Storage.Blocks.Kinds.{render-ne-sync_progress, receipt-ne-sync_progress}
use evm_executor.State.Db.{PikaStateDb, fresh, word, new_pika_state_db}
use evm_executor.State.Read.{
  load_account, get_account, load_slot, get_state, written_slot, get_logs,
}
use evm_executor.State.Read.Spec.{account_view, slot_view}
use evm_executor.State.Write
use evm_executor.State.Write.{write_slot}
use evm_executor.State.Commit.{account_ops, slot_ops, storage_ops, code_ops, commit_ops, commit}
use evm_executor.State.Frame.{run, step}
use evm_executor.Executor.Deps.{Receipt, block_deps}
use evm_executor.Executor.Apply.{
  new_evm_block_context, make_receipt, settle, apply_message_of, apply_transaction,
}
use evm_executor.Executor.Process.{
  CacheConfig, ProcessResult, block_error, processed, failed, failed_receipt, process_transaction,
  process_from, process_transactions, process_block,
}
use evm_executor.Executor.Process.Receipts.{AreReceipts, process_transactions-AreReceipts}
use evm_executor.Executor.Process.Store.{opened_for}
use evm_executor.Executor.Process.Reread.{get_receipts-process_block}
use evm_executor.Executor.Codec.{consensus}
use evm_executor.Executor.Loop.Panics.{HasTransaction, execute_next_blocks-panics}
use evm_executor.Executor.Process.Replay.{outcome, attempted, AreReplays, process_block_again}
use evm_executor.Executor.Process.Apart.{process_block-apart}
use evm_executor.Executor.Process.States.{executed, process_block_reads, first_block_reads_latest}
use evm_executor.Executor.Loop.{
  LoopError, execute_error, ExecutorConfig, to_uint64, execute_block, execute_blocks, end_block,
  execute_next_blocks,
}
use evm_executor.Executor.Loop.Rounds.{execute_next_blocks-ends}
use evm_executor.Executor.Loop.Stored.{At}
use evm_executor.Executor.Loop.Reached.{Reached, execute_next_blocks-Reached}
use evm_executor.Executor.Loop.Stalls.{execute_next_blocks-stalls}
use evm_executor.Executor.Run.{
  Runs, begun, ticked, IsSaved, IsBounded, IsQuiet, Advanced, Runs-Advanced,
}
use evm_executor.Tests.World.{
  text_discrete, Store, world, world-IsDeps, write, write_all, read_json, write_json,
}
use evm_executor.Tests.Chain.{
  to_account, from_account, encode_one, encode, decode, message_program, apply_message, chain_world,
  chain_world-IsChainDeps, chain_world-IsStateReader, chain_world-IsReceiptCodec, panicking_world,
  panicking_world-IsNewBlock,
}

-- Two blocks with their headers and transactions, and the height of the synchronisation; a key is told
-- by its fifth byte.
unfoldable pub synced_store : Store
synced_store (_ ∷ _ ∷ _ ∷ _ ∷ kind ∷ _ ∷ _ ∷ _ ∷ rest) =
    if kind == 104
    then some rest
    else if kind == 116
    then some (if first rest == 49 then 4 ∷ 0 ∷ 200 ∷ 5 ∷ [] else 6 ∷ [])
    else if kind == 115
    then some (50 ∷ [])
    else none
synced_store _ = none

program : Unit {0}
unfolding batch_write queue_ops queue_op both execute_pipeline client_get client_set write_all write
    write_json read_json commit commit_ops account_ops slot_ops storage_ops code_ops lookup
    written_slot new_pika_state_db get_header get_block store_receipts get_receipts
    get_sync_progress get_exec_progress update_exec_progress load_account get_account load_slot
    get_state get_logs Write.add_balance Write.set_state write_slot run step new_evm_block_context
    make_receipt settle apply_message_of apply_transaction failed_receipt process_transaction
    process_from process_transactions process_block executed attempted AreReplays to_uint64
    execute_block execute_blocks end_block execute_next_blocks to_account from_account encode_one
    encode decode message_program apply_message header_key txs_key receipt_key sync_progress_key
    exec_progress_key number_key insert ◌+ℤ◌ synced_store account_key storage_key State.get_account
    State.get_storage text_discrete ℕ_discrete
program = tt

abbrev caches : CacheConfig
caches = record { state_cache_size = 1; storage_cache_size = 1; code_cache_size = 1 }

receipts_of : ProcessResult → List Receipt
receipts_of (processed rs _) = rs
receipts_of (failed _) = []

process_transactions-AreReceipts_example :
    AreReceipts chain_world
      (1, 4 ∷ 0 ∷ 200 ∷ 5 ∷ [])
      0
      (4 ∷ 0 ∷ 200 ∷ 5 ∷ [])
      0
      (process_transactions chain_world synced_store
        (1, 4 ∷ 0 ∷ 200 ∷ 5 ∷ [])
        (fresh world synced_store 0 (λ _. none) (λ _. none) (λ _. none))).receipts
      (process_transactions chain_world synced_store
        (1, 4 ∷ 0 ∷ 200 ∷ 5 ∷ [])
        (fresh world synced_store 0 (λ _. none) (λ _. none) (λ _. none))).used_gas
process_transactions-AreReceipts_example =
    process_transactions-AreReceipts chain_world (1, 4 ∷ 0 ∷ 200 ∷ 5 ∷ []) synced_store
      (fresh world synced_store 0 (λ _. none) (λ _. none) (λ _. none))

abbrev receipts : List Receipt
receipts = receipts_of (process_block chain_world caches synced_store 1).1

done : (process_block chain_world caches synced_store 1).1 ≡ processed receipts 9
unfolding program receipts_of
done = refl

get_receipts-process_block_example :
    get_receipts (block_deps chain_world) (process_block chain_world caches synced_store 1).0 1
    ≡ ok (consensus receipts)
get_receipts-process_block_example =
    get_receipts-process_block chain_world-IsChainDeps chain_world-IsReceiptCodec caches
      synced_store 1 9 receipts done

-- The processing of a block leaves the height of the synchronisation alone.
process_block-apart_example :
    (process_block chain_world caches synced_store 1).0 sync_progress_key
    ≡ synced_store sync_progress_key
process_block-apart_example =
    process_block-apart world-IsDeps chain_world-IsChainDeps 1 sync_progress_key
      (λ k. render-ne-sync_progress world.hex_address world.hex_hash k) (receipt-ne-sync_progress 1)
      caches synced_store

state_of : Option (PikaStateDb world) → PikaStateDb world
state_of none = fresh world (λ _. none) 0 (λ _. none) (λ _. none) (λ _. none)
state_of (some s) = s

abbrev after : PikaStateDb world
after = state_of (executed chain_world caches synced_store 1)

ran : executed chain_world caches synced_store 1 ≡ some after
unfolding program state_of
ran = refl

abbrev next_db : PikaStateDb world
next_db =
    fresh world (process_block chain_world caches synced_store 1).0 1 (λ _. none) (λ _. none)
      (λ _. none)

next_db-eq :
    new_pika_state_db world (process_block chain_world caches synced_store 1).0 1 1 1 1
    ≡ some next_db
unfolding new_pika_state_db
next_db-eq = refl

one-small : 1 < word
one-small = omega arith

process_block_reads_example :
    ((get_account next_db 7).0 ≡ account_view world synced_store 1 after.accounts 7)
    × ((get_state next_db 7 1).0 ≡ slot_view world synced_store 1 after.storages 7 1)
process_block_reads_example =
    process_block_reads world-IsDeps chain_world-IsChainDeps caches synced_store 1 9 receipts
      one-small done after ran 1 1 1 next_db next_db-eq 7 1

abbrev first_db : PikaStateDb world
first_db =
    fresh world (process_block chain_world caches synced_store 1).0 0 (λ _. none) (λ _. none)
      (λ _. none)

first_db-eq :
    opened_for chain_world caches (process_block chain_world caches synced_store 1).0 1
    ≡ some first_db
unfolding new_pika_state_db
first_db-eq = refl

first_block_reads_latest_example :
    ((get_account first_db 7).0 ≡ account_view world synced_store 0 after.accounts 7)
    × ((get_state first_db 7 1).0 ≡ slot_view world synced_store 0 after.storages 7 1)
first_block_reads_latest_example =
    first_block_reads_latest world-IsDeps chain_world-IsChainDeps caches synced_store 1 9 receipts
      one-small done after ran first_db first_db-eq 7 1

abbrev tried : List ℕ
tried = 2 ∷ 3 ∷ []

tried-AreReplays : AreReplays chain_world caches 2 synced_store tried
unfolding program State.get_code code_key value
tried-AreReplays = (omega arith, omega arith, λ h. refl, (omega arith, omega arith, λ h. refl, tt))

abbrev replayed : ProcessResult
replayed = (process_block chain_world caches (attempted chain_world caches synced_store tried) 2).1

replay-done : replayed ≡ processed (receipts_of replayed) 6
unfolding program receipts_of value
replay-done = refl

process_block_again_example :
    outcome chain_world caches synced_store 2 ≡ some (receipts_of replayed, 6)
process_block_again_example =
    process_block_again world-IsDeps chain_world-IsChainDeps chain_world-IsStateReader caches 2
      (omega arith) synced_store tried (receipts_of replayed) 6 tried-AreReplays replay-done

abbrev config : ExecutorConfig
config = record { batch_size = pos 1; caches = caches }

abbrev pub now : ℕ → ℤ
now n = pos (1000 + n)

height : get_sync_progress (block_deps chain_world) synced_store ≡ ok 2
unfolding program value
height = refl

pub height-small :
    (h : ℕ) → get_sync_progress (block_deps chain_world) synced_store ≡ ok h → h + 1 < word
height-small h e = ground (arith, height)

batch-small : to_uint64 (pos 1) ≤ 1
unfolding to_uint64
batch-small = omega arith

execute_next_blocks-ends_example :
    (r : Store × Option LoopError) × (execute_next_blocks chain_world config now 2 synced_store
      ≡ some r)
execute_next_blocks-ends_example =
    execute_next_blocks-ends chain_world config now 1 synced_store height-small batch-small

answer_of : Option (Store × Option LoopError) → Store × Option LoopError
answer_of none = (synced_store, none)
answer_of (some r) = r

abbrev answer : Store × Option LoopError
answer = answer_of (execute_next_blocks chain_world config now 2 synced_store)

answered : execute_next_blocks chain_world config now 2 synced_store ≡ some answer
unfolding program answer_of value
answered = refl

abbrev no_progress : Progress
no_progress = record {
  latest_executed_block = 0;
  last_execution_time = pos 0;
  total_txs_executed = 0;
}

progress-read : get_exec_progress (block_deps chain_world) synced_store ≡ ok no_progress
unfolding program
progress-read = refl

two-small : 2 + 1 < word
two-small = omega arith

zero-below : 0 < 2
zero-below = omega arith

batch-whole : 0 + to_uint64 (pos 1) < word
unfolding to_uint64
batch-whole = omega arith

execute_next_blocks-Reached_example :
    Reached chain_world 0 0 (end_block chain_world config 0 2) answer
execute_next_blocks-Reached_example =
    execute_next_blocks-Reached chain_world world-IsDeps chain_world-IsChainDeps config now 2 2
      synced_store no_progress answer height progress-read two-small zero-below batch-whole answered

abbrev backwards : ExecutorConfig
backwards = record { batch_size = negsuc 0; caches = caches }

abbrev executed_one : Progress
executed_one = record {
  latest_executed_block = 1;
  last_execution_time = pos 7;
  total_txs_executed = 0;
}

abbrev executed_store : Store
executed_store = (update_exec_progress (block_deps chain_world) synced_store executed_one).0

height_after : get_sync_progress (block_deps chain_world) executed_store ≡ ok 2
unfolding program value
height_after = refl

one-read : get_exec_progress (block_deps chain_world) executed_store ≡ ok executed_one
unfolding program
one-read = refl

one-below : 1 < 2
one-below = omega arith

stalls : 0 < 1
stalls = omega arith

execute_next_blocks-stalls_example :
    execute_next_blocks chain_world backwards now 1 executed_store ≡ some (executed_store, none)
execute_next_blocks-stalls_example =
    execute_next_blocks-stalls chain_world backwards now 0 2 executed_store executed_one
      height_after one-read two-small one-below stalls

saved : IsSaved chain_world config answer.1
unfolding program answer_of value
saved = tt

bounded : IsBounded chain_world config synced_store
unfolding to_uint64
bounded h p synced read = ground (arith, height, progress-read)

one_tick : Runs chain_world config synced_store answer.0
one_tick = ticked begun now 2 answered

quiet : IsQuiet chain_world config one_tick
unfolding one_tick
quiet = (tt, saved, bounded)

first_progress : At chain_world synced_store 0 0
unfolding At
first_progress = (no_progress, progress-read, refl, refl)

Runs-Advanced_example : Advanced chain_world config answer.0 0 0 0
Runs-Advanced_example =
    Runs-Advanced chain_world config world-IsDeps chain_world-IsChainDeps 0 0 one_tick quiet
      first_progress

panicking_height : get_sync_progress (block_deps panicking_world) synced_store ≡ ok 2
unfolding program value
panicking_height = refl

panicking_progress : get_exec_progress (block_deps panicking_world) synced_store ≡ ok no_progress
unfolding program
panicking_progress = refl

first_transaction : HasTransaction panicking_world synced_store 1
unfolding program value
first_transaction = record {
  header = 1;
  text = 4 ∷ 0 ∷ 200 ∷ 5 ∷ [];
  first = 4;
  others = 0 ∷ 200 ∷ 5 ∷ [];
  header_stored = refl;
  text_stored = refl;
  decodes = refl;
}

batch-positive : 0 < to_uint64 (pos 1)
unfolding to_uint64
batch-positive = omega arith

execute_next_blocks-panics_example :
    execute_next_blocks panicking_world config now 1 synced_store
    ≡ some (synced_store, some (execute_error 1 (block_error panicked)))
execute_next_blocks-panics_example =
    execute_next_blocks-panics panicking_world panicking_world-IsNewBlock config now 0 2
      synced_store no_progress panicking_height panicking_progress zero-below batch-positive
      batch-whole first_transaction
