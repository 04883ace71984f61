-- ===== src/Tests/Commits.antt =====
-- The theorems on batches and commits at concrete inputs, over the stand-ins of Tests/World.antt.
use evm_executor.Prelude.{◌≡◌, refl, none, some, List, [], ◌∷◌, lookup}
use evm_executor.Prelude.Int.{pos}
use evm_executor.Storage.Key.Faithful.{account, storage}
use evm_executor.Storage.Redis.{ok, err, client_error, client_get, client_set, execute_pipeline}
use evm_executor.Storage.Ops.{WriteOp, write_storage, write_code}
use evm_executor.Storage.State
use evm_executor.Storage.State.{both, queue_op, queue_ops, batch_write}
use evm_executor.Storage.Batch.{key_of, later, last_written, batch_write-get}
use evm_executor.Storage.Batch.Singles.{Write, of_account, write_one, text_of, write_one-get}
use evm_executor.State.Account.{Account, new_account, to_stored}
use evm_executor.State.Db.{PikaStateDb, fresh, new_pika_state_db}
use evm_executor.State.Read.{get_account, get_state, written_slot}
use evm_executor.State.Read.Spec.{account_view, slot_view}
use evm_executor.State.Commit.{
  account_ops, slot_ops, storage_ops, code_ops, commit_ops, commit, next_block,
}
use evm_executor.State.Commit.Written.{IsMaps}
use evm_executor.State.Commit.Reads.{next_block_reads, untouched_account_lost}
use evm_executor.Tests.World.{world, world-IsDeps, write, write_all, read_json, write_json}

abbrev owner : Account
owner = record { balance = pos 3; nonce = 1; code_hash = 9; root = 0 }

abbrev changed : PikaStateDb world
changed = record (fresh world (λ _. none) 7 (λ _. none) (λ _. none) (λ _. none)) {
  accounts = (5, owner) ∷ [];
  storages = (5, (1, 2) ∷ []) ∷ [];
  codes = (9, 96 ∷ []) ∷ [];
}

program : Unit {0}
unfolding batch_write queue_ops queue_op both execute_pipeline client_get write_all write write_json
    read_json commit commit_ops account_ops slot_ops storage_ops code_ops lookup written_slot
    State.get_account new_pika_state_db
program = tt

operations : List WriteOp
operations = write_code 9 (96 ∷ []) ∷ write_storage 8 5 1 2 ∷ write_storage 8 5 1 4 ∷ []

operations-done : (batch_write world (λ _. none) operations).1 ≡ ok tt
unfolding program operations
operations-done = refl

batch_write-get_example :
    (batch_write world (λ _. none) operations).0 (key_of world (storage 0 5 1))
    ≡ later (last_written world operations (storage 0 5 1)) none
batch_write-get_example =
    batch_write-get world-IsDeps (λ _. none) operations (storage 0 5 1) operations-done

changed-IsMaps : IsMaps changed
unfolding lookup
changed-IsMaps = record {
  accounts = (refl, tt);
  storages = (refl, tt);
  slots = ((refl, tt), tt);
  codes = (refl, tt);
}

changed-done : (commit changed).1 ≡ ok tt
unfolding program
changed-done = refl

abbrev opened : PikaStateDb world
opened = fresh world (commit changed).0.db (next_block changed) (λ _. none) (λ _. none) (λ _. none)

opened-eq : new_pika_state_db world (commit changed).0.db (next_block changed) 1 1 1 ≡ some opened
unfolding program
opened-eq = refl

other-unwritten : lookup 6 changed.accounts ≡ none
unfolding program
other-unwritten = refl

other-missing : State.get_account world changed.db (next_block changed) 6 ≡ err client_error
unfolding program
other-missing = refl

next_block_reads_example :
    ((get_account opened 5).0
      ≡ account_view world changed.db (next_block changed) changed.accounts 5)
    × ((get_state opened 5 1).0
        ≡ slot_view world changed.db (next_block changed) changed.storages 5 1)
next_block_reads_example =
    next_block_reads world-IsDeps changed changed-IsMaps changed-done 1 1 1 opened opened-eq 5 1

untouched_account_lost_example :
    ((get_account opened 6).0 ≡ new_account)
    × (State.get_account world (commit changed).0.db 0 6 ≡ State.get_account world changed.db 0 6)
untouched_account_lost_example =
    untouched_account_lost world-IsDeps changed changed-IsMaps changed-done 1 1 1 opened opened-eq 6
      other-unwritten other-missing

abbrev one_write : Write
one_write = of_account 8 5 (to_stored owner)

one_write-done : (write_one world (λ _. none) one_write).1 ≡ ok tt
unfolding program write_one State.set_account State.set_both client_set
one_write-done = refl

write_one-get_example :
    (write_one world (λ _. none) one_write).0 (key_of world (account 0 5))
    ≡ later (text_of world one_write (account 0 5)) none
write_one-get_example =
    write_one-get world-IsDeps (λ _. none) one_write (account 0 5) one_write-done
