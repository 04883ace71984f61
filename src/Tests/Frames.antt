-- ===== src/Tests/Frames.antt =====
-- The theorems at concrete inputs, over the stand-ins of Tests/World.antt.
use evm_executor.Prelude.{
  ◌≡◌, refl, true, not, none, some, List, [], ◌∷◌, ◌++◌, lookup, insert, delete, ◌==◌, arith,
  if◌then◌else◌,
}
use evm_executor.Prelude.Int.{pos}
use evm_executor.Storage.Key.Faithful.{render-injective, account}
use evm_executor.Storage.Key.Decimal.{decimal}
use evm_executor.Storage.Redis.{client_get}
use evm_executor.Storage.State
use evm_executor.State.Account.{new_account, is_empty}
use evm_executor.State.AccessList.{AccessList, new_access_list, add_address}
use evm_executor.State.AccessList.Valid.{IsValid, new_access_list-IsValid, add_address-IsValid}
use evm_executor.State.Journal.{Entry, nonce_change, refund_change, new_journal, truncate}
use evm_executor.State.Journal.Dirties.{append_all, truncate-append_all}
use evm_executor.State.Db.{Log, PikaStateDb, fresh, new_pika_state_db}
use evm_executor.State.Read
use evm_executor.State.Read.Spec.{account_view, slot_view, code_view}
use evm_executor.State.Write
use evm_executor.State.Snapshot.{snapshot, revert_to_snapshot}
use evm_executor.State.Logs.{returned, get_logs-add_log, prepare_loses_logs}
use evm_executor.State.Revert.Restores.{stored_in}
use evm_executor.State.Frame.{Op, Program, stop, act, call, step, run}
use evm_executor.State.Frame.Invariant.{Ready, step-Ready, new_pika_state_db-Ready}
use evm_executor.State.Commit.Written.{IsMaps}
use evm_executor.State.Frame.Carries.{step-Carries}
use evm_executor.State.Frame.Reads.{run-reads}
use evm_executor.State.Frame.Getters.{SameAnswers, run-SameAnswers}
use evm_executor.State.Frame.SlotEntries.{revert_flips_address}
use evm_executor.State.Frame.Created.{create_reverts_to_stored}
use evm_executor.Tests.World.{world, world-IsDeps, decimal-IsHex}

abbrev start : PikaStateDb world
start = fresh world (λ _. none) 7 (λ _. none) (λ _. none) (λ _. none)

start-Ready : Ready start
unfolding new_pika_state_db
start-Ready = new_pika_state_db-Ready world-IsDeps (λ _. none) 7 10 10 10 start refl

start-eq : new_pika_state_db world (λ _. none) 7 10 10 10 ≡ some start
unfolding new_pika_state_db
start-eq = refl

-- The state after a transfer to account 5, with the invariant.
paid : PikaStateDb world
paid = step start (Op.add_balance 5 (pos 3))

paid-Ready : Ready paid
unfolding paid
paid-Ready = step-Ready world-IsDeps start start-Ready (Op.add_balance 5 (pos 3))

program : Unit {0}
unfolding paid snapshot step Write.set_nonce Write.add_balance Read.get_account Read.load_account
    State.get_account client_get decimal lookup insert delete
program = tt

sample_log : Log
sample_log = record {
  address = 5;
  topics = 1 ∷ [];
  payload = [];
  block_number = 0;
  tx_hash = 0;
  tx_index = 0;
  block_hash = 0;
  index = 0;
}

-- A frame's body: a new account, and a reverted frame inside.
abbrev body : Program
body = act (Op.create_account 6) (
    act (Op.set_state 5 1 2) (
      act (Op.add_log sample_log)
        (call (act (Op.set_nonce 5 4) stop) true (act (Op.suicide 5) stop))))

paid-unloaded : lookup 6 (snapshot paid).1.accounts ≡ none
unfolding program
paid-unloaded = refl

run-SameAnswers_example :
    (t : PikaStateDb world) × (run (call body true stop) paid ≡ some t) × SameAnswers t paid
run-SameAnswers_example =
    run-SameAnswers world-IsDeps body paid paid-Ready
      (paid-unloaded, (tt, (tt, ((tt, tt), λ t e. (tt, tt)))))

start-IsMaps : IsMaps start
start-IsMaps = record { accounts = tt; storages = tt; slots = tt; codes = tt }

paid-IsMaps : IsMaps paid
unfolding paid
paid-IsMaps = (step-Carries start start-IsMaps (Op.add_balance 5 (pos 3))).maps

reverted : (t : PikaStateDb world) × (run (call body true stop) paid ≡ some t) × SameAnswers t paid
reverted =
    run-SameAnswers world-IsDeps body paid paid-Ready
      (paid-unloaded, (tt, (tt, ((tt, tt), λ t e. (tt, tt)))))

whole : Program
whole = act (Op.add_balance 5 (pos 3)) (call body true stop)

whole-ran : run whole start ≡ some reverted.0
unfolding whole paid run
whole-ran = reverted.1

run-reads_example :
    ((Read.get_account reverted.0 5).0 ≡ account_view world (λ _. none) 7 reverted.0.accounts 5)
    × ((Read.get_state reverted.0 5 1).0 ≡ slot_view world (λ _. none) 7 reverted.0.storages 5 1)
    × ((Read.get_code reverted.0 5).0 ≡ (
        let hash = (account_view world (λ _. none) 7 reverted.0.accounts 5).code_hash in
        if hash == 0 then [] else code_view world (λ _. none) reverted.0.codes hash))
run-reads_example =
    run-reads world-IsDeps (λ _. none) 7 10 10 10 whole start reverted.0 start-eq whole-ran 5 1

listed : AccessList
listed = (add_address new_access_list 5).0

listed-IsValid : IsValid listed
unfolding listed
listed-IsValid = add_address-IsValid new_access_list 5 new_access_list-IsValid

revert_flips_address_example :
    (s' t : PikaStateDb world) × (Write.add_slot_to_access_list
        (snapshot (record start { access_list = listed })).1
        5
        1
      ≡ some s')
    × (revert_to_snapshot s' (snapshot (record start { access_list = listed })).0 ≡ some t)
    × (Read.address_in_access_list t 5
        ≡ not (Read.address_in_access_list (record start { access_list = listed }) 5))
revert_flips_address_example =
    revert_flips_address (record start { access_list = listed }) 5 1 listed-IsValid tt

-- An account whose nonce was set to 0 is loaded and empty.
touched : PikaStateDb world
touched = step start (Op.set_nonce 5 0)

touched-Ready : Ready touched
unfolding touched
touched-Ready = step-Ready world-IsDeps start start-Ready (Op.set_nonce 5 0)

touched-loaded : lookup 5 touched.accounts ≡ some new_account
unfolding touched program
touched-loaded = refl

new_account-empty : is_empty new_account ≡ true
unfolding is_empty
new_account-empty = refl

create_reverts_to_stored_example :
    (t : PikaStateDb world) × (revert_to_snapshot
        (Write.create_account (snapshot touched).1 5)
        (snapshot touched).0
      ≡ some t)
    × ((Read.get_account t 5).0 ≡ stored_in touched 5)
create_reverts_to_stored_example =
    create_reverts_to_stored touched 5 new_account touched-Ready touched-loaded new_account-empty

get_logs-add_log_example : (Read.get_logs (Write.add_log paid sample_log) 0 8 9).0 ≡ (
    if paid.thash == 0
    then (Read.get_logs paid 0 8 9).0 ++ returned paid sample_log 8 9 ∷ []
    else (Read.get_logs paid 0 8 9).0)
get_logs-add_log_example = get_logs-add_log paid sample_log 0 8 9

prepared : PikaStateDb world
prepared = record start { access_list = listed; thash = 0; tx_index = 0 }

prepared-eq : Write.prepare (Write.set_tx_context start 77 1) 5 none [] [] ≡ some prepared
unfolding prepared listed Write.prepare Write.add_addresses Write.add_tuples
prepared-eq = refl

prepare_loses_logs_example :
    (Read.get_logs (Write.add_log prepared sample_log) 77 8 9).0 ≡ (Read.get_logs start 77 8 9).0
prepare_loses_logs_example =
    prepare_loses_logs start prepared 77 1 5 none [] [] sample_log 8 9 (λ e. omega arith)
      prepared-eq

render-injective_example : account 3 7 ≡ account 3 7
render-injective_example =
    render-injective decimal-IsHex decimal-IsHex (account 3 7) (account 3 7) refl

kept_entries : List Entry
kept_entries = nonce_change 5 0 ∷ refund_change 0 ∷ nonce_change 6 1 ∷ []

truncate-append_all_example : truncate kept_entries ≡ append_all new_journal kept_entries
truncate-append_all_example = truncate-append_all kept_entries
