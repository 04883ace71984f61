-- ===== src/State/Logs.antt =====
-- `AddLog`, `GetLogs`, `SetTxContext` and `Prepare` of pkg/state/statedb.go together.
use mathlib.Core.List.{map-append}
use evm_executor.Prelude.{
  ℕ, ◌≡◌, ◌≢◌, ap, Option, some, List, [], ◌∷◌, ◌++◌, map, lookup, lookup-insert, arith, ◌==◌,
  if◌then◌else◌,
}
use evm_executor.Deps.{Deps}
use evm_executor.Storage.Ops.{Address, Hash}
use evm_executor.State.Db.{Log, PikaStateDb}
use evm_executor.State.Read.{get_logs}
use evm_executor.State.Write.{logs_of, add_log, set_tx_context, prepare}

-- A log as `AddLog` keeps it and `GetLogs` returns it.
abbrev pub returned : {d : Deps} → PikaStateDb d → Log → ℕ → Hash → Log
returned s log block_number block_hash = record log {
  tx_hash = s.thash;
  tx_index = s.tx_index;
  index = s.log_size;
  block_number = block_number;
  block_hash = block_hash;
}

abbrev pub in_block : ℕ → Hash → Log → Log
in_block block_number block_hash l = record l {
  block_number = block_number;
  block_hash = block_hash;
}

module _ {d : Deps} where
  pub get_logs-eq :
      (s : PikaStateDb d) (h : Hash) (bn : ℕ) (bh : Hash)
      → (get_logs s h bn bh).0 ≡ map (in_block bn bh) (logs_of (lookup h s.logs))
  unfolding get_logs
  get_logs-eq s h bn bh = ground arith

  -- After `AddLog` the logs of the current transaction are those before it and the new one, last,
  -- with the transaction's hash and index, the number of the log, and the block asked for. Those of
  -- every other transaction are as before.
  pub get_logs-add_log :
      (s : PikaStateDb d) (log : Log) (h : Hash) (bn : ℕ) (bh : Hash)
      → (get_logs (add_log s log) h bn bh).0 ≡ (
          if s.thash == h
          then (get_logs s h bn bh).0 ++ returned s log bn bh ∷ []
          else (get_logs s h bn bh).0)
  unfolding add_log
  get_logs-add_log s log h bn bh =
      let stamped : Log = record log {
        tx_hash = s.thash;
        tx_index = s.tx_index;
        index = s.log_size;
      } in
      let old = logs_of (lookup s.thash s.logs) in
      ground (
        arith,
        get_logs-eq s h bn bh,
        get_logs-eq (add_log s log) h bn bh,
        lookup-insert s.thash h (old ++ stamped ∷ []) s.logs,
        map-append (in_block bn bh) old (stamped ∷ []),
        ap (λ (k : Hash). map (in_block bn bh) (logs_of (lookup k s.logs))) {x = s.thash} {y = h},
      )

  prepare-context :
      (s s' : PikaStateDb d) (sender : Address) (dest : Option Address) (precompiles : List Address)
      (accesses : List (Address × List Hash))
      → prepare s sender dest precompiles accesses ≡ some s'
      → (s'.thash ≡ 0) × (s'.logs ≡ s.logs)
  unfolding prepare
  prepare-context s s' sender dest precompiles accesses e = ground arith

  -- The defect: whenever `Prepare` follows `SetTxContext`, as in the message call that
  -- `applyTransaction` makes, a log that is added next does not join the logs of the transaction,
  -- unless its hash is zero.
  pub prepare_loses_logs :
      (s s' : PikaStateDb d) (tx_hash : Hash) (ti : ℕ) (sender : Address) (dest : Option Address)
      (precompiles : List Address) (accesses : List (Address × List Hash)) (log : Log) (bn : ℕ)
      (bh : Hash)
      → tx_hash ≢ 0
      → prepare (set_tx_context s tx_hash ti) sender dest precompiles accesses ≡ some s'
      → (get_logs (add_log s' log) tx_hash bn bh).0 ≡ (get_logs s tx_hash bn bh).0
  prepare_loses_logs s s' tx_hash ti sender dest precompiles accesses log bn bh h e =
      let (zeroed, kept) =
        prepare-context (set_tx_context s tx_hash ti) s' sender dest precompiles accesses e in
      ground (
        arith,
        zeroed,
        get_logs-add_log s' log tx_hash bn bh,
        get_logs-eq s' tx_hash bn bh,
        get_logs-eq s tx_hash bn bh,
        ap (λ ls. map (in_block bn bh) (logs_of (lookup tx_hash ls))) kept,
      )
